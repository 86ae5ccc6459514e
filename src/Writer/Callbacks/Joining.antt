-- ===== src/Writer/Callbacks/Joining.antt =====
-- The destructor of the writer, which waits for the pool.
use mathlib.Core.List.{append-nil, append_assoc}
use mathlib.Core.List.{Memᴰ}
use mathlib.Core.Bool.{false≢true}
use vecodex.Prelude.{
  ℕ, ◌≡◌, refl, ap, ◌∙◌, sym, subst, Bool, true, false, some, List, [], ◌∷◌, ◌++◌, Order, Key,
  lookup, if◌then◌else◌, Bool-cases, inl, inr,
}
use vecodex.BaseIndex.{IBaseIndex}
use vecodex.Binary.{Binary}
use vecodex.Segment.{Segment}
use vecodex.Segment.Files.{SegmentPtr}
use vecodex.Index.State.{Index}
use vecodex.Coordinator.Handler.{shards_of}
use vecodex.EtcdClient.{Text, Server}
use vecodex.StorageClient.{S3, StorageClient}
use vecodex.Searcher.{answer, answer_injective}
use vecodex.Searcher.Registering.{and_then-answer}
use vecodex.Writer.{EtcdView, WriterImpl, create_writer}
use vecodex.Writer.Indexes.{library, IndexConfig}
use vecodex.Writer.Publishing.{Searchers, CallbackState}
use vecodex.Writer.Callbacks.{Task, WriterServer, started, run_task, join, Reach, later, runs}
use vecodex.Writer.Callbacks.Logged.{calls_of}
use vecodex.Writer.Callbacks.Ordering.{Reach-create_writer}

module _ (Time : Type 0) {IdType Vec Dist : Type 0} {Flat Hnsw : IBaseIndex IdType Vec Dist}
    (B : IBaseIndex IdType Vec Dist) ⦃k : Key IdType⦄ ⦃e : Key Text⦄ ⦃o : Order Time⦄ (rand : ℕ → ℕ)
    (flat : Binary Flat.Base) (hnsw : Binary Hnsw.Base) (S : S3) (hash : Text → ℕ) (N : Searchers)
    (E : Server) (client : StorageClient) (pointer : Segment B → SegmentPtr Flat Hnsw) where
  -- Emptying the queue is so many turns of the thread.
  join-Reach :
      (y : WriterServer B rand S N) (etcd : E.State) (ts done : List (Task B))
      (c c' : CallbackState S N) (w : WriterImpl (library Text B rand))
      → Reach Time B rand flat hnsw S hash N E client pointer y
          (record { writer = w; queue = ts; done = done; callback = c })
      → join B flat hnsw S hash N E client pointer etcd ts c ≡ answer (true, c')
      → Reach Time B rand flat hnsw S hash N E client pointer y
          (record { writer = w; queue = []; done = done ++ ts; callback = c' })
  unfolding join
  join-Reach y etcd [] done c c' w r h =
      subst
        (λ d.
          Reach Time B rand flat hnsw S hash N E client pointer y
            (record { writer = w; queue = []; done = d; callback = c' }))
        (sym (append-nil done))
        (subst
          (λ d.
            Reach Time B rand flat hnsw S hash N E client pointer y
              (record { writer = w; queue = []; done = done; callback = d }))
          (ap (λ r. r.1) (answer_injective (true, c) (true, c') h)) r)
  join-Reach y etcd (t ∷ ts) done c c' w r h =
      let (u, ran, h₁) =
        and_then-answer (run_task B flat hnsw S hash N E client pointer etcd t c) _ (true, c') h in
      elim (Bool-cases u.0) [
        | inr q ↦
            let stopped : answer (false, u.1) ≡ answer (true, c') =
              subst
                (λ (b : Bool).
                  (if b
                    then join B flat hnsw S hash N E client pointer etcd ts u.1
                    else answer (false, u.1))
                  ≡ answer (true, c'))
                q h₁ in
            absurd (false≢true (ap (λ r. r.0) (answer_injective (false, u.1) (true, c') stopped)))
        | inl q ↦
            let rest : join B flat hnsw S hash N E client pointer etcd ts u.1 ≡ answer (true, c') =
              subst
                (λ (b : Bool).
                  (if b
                    then join B flat hnsw S hash N E client pointer etcd ts u.1
                    else answer (false, u.1))
                  ≡ answer (true, c'))
                q h₁ in
            let step = runs etcd t ts u.1 refl (ran ∙ ap (λ (b : Bool). answer (b, u.1)) q) in
            subst
              (λ d.
                Reach Time B rand flat hnsw S hash N E client pointer y
                  (record { writer = w; queue = []; done = d; callback = c' }))
              (append_assoc done (t ∷ []) ts)
              (join-Reach y etcd ts (done ++ t ∷ []) u.1 c' w (later r step) rest)
      ]

  -- The task throws in no state of the storage and the searchers.
  abbrev pub IsRunnable : E.State → Task B → Type 0
  IsRunnable etcd t =
      (c : CallbackState S N)
      → (c' : CallbackState S N) × (run_task B flat hnsw S hash N E client pointer etcd t c
          ≡ answer (true, c'))

  join-answers :
      (etcd : E.State) (ts : List (Task B)) (c : CallbackState S N)
      → ((t : Task B) → Memᴰ t ts → IsRunnable etcd t)
      → (c' : CallbackState S N) × (join B flat hnsw S hash N E client pointer etcd ts c
          ≡ answer (true, c'))
  unfolding join
  join-answers etcd [] c g = (c, refl)
  join-answers etcd (t ∷ ts) c g =
      let (c₁, ran) = g t (Memᴰ.head refl) c in
      let (c', rest) = join-answers etcd ts c₁ (λ u m. g u (Memᴰ.tail m)) in (c', rw ran rest)

  -- A writer is constructed, handles any requests that do not end the process, and its pool runs
  -- some of the tasks; then it is destroyed. If no task that still waits throws, the destructor
  -- ends, and by then every call that an index of the writer has made was run, in the order of the
  -- calls; what it leaves of the storage and the searchers is what turns of the thread make of them.
  pub Reach-join :
      (first : EtcdView Text Time) (items : List (Text × IndexConfig))
      (w : WriterImpl (library Text B rand)) (c : CallbackState S N) (y : WriterServer B rand S N)
      (etcd : E.State)
      → create_writer (library Text B rand) first items ≡ (true, w)
      → Reach Time B rand flat hnsw S hash N E client pointer (started B rand S N w c) y
      → ((t : Task B) → Memᴰ t y.queue → IsRunnable etcd t)
      → (c' : CallbackState S N) × (join B flat hnsw S hash N E client pointer etcd y.queue
            y.callback
          ≡ answer (true, c'))
        × (let z = record y { queue = []; done = y.done ++ y.queue; callback = c' } in
            Reach Time B rand flat hnsw S hash N E client pointer (started B rand S N w c) z
            × ((i s : Text) (x : Index B)
                → lookup s (shards_of i y.writer.shards) ≡ some x
                → calls_of B i s z.done ≡ x.updates))
  Reach-join first items w c y etcd h r g =
      let (c', j) = join-answers etcd y.queue y.callback g in
      let all =
        join-Reach (started B rand S N w c) etcd y.queue y.done y.callback c' y.writer r j in
      (
        c',
        j,
        (
          all,
          λ i s x l.
              sym (append-nil (calls_of B i s (y.done ++ y.queue)))
              ∙ Reach-create_writer Time B rand flat hnsw S hash N E client pointer first items w c
                  (record y { queue = []; done = y.done ++ y.queue; callback = c' }) i s x h all l,
        ),
      )
