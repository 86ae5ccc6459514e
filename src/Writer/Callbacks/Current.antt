-- ===== src/Writer/Callbacks/Current.antt =====
-- Which segments a task publishes.
use mathlib.Core.List.{Memᴰ}
use mathlib.Core.List.Memᴰ as Memᴰ
use vecodex.Prelude.{
  ℕ, ◌+◌, ◌≡◌, refl, ap, sym, subst, true, some, List, [], ◌∷◌, ◌++◌, map, Order, Key, lookup,
  length, drop, if◌then◌else◌, if_intro, Bool-cases, Option-cases, inl, inr,
}
use vecodex.BaseIndex.{IBaseIndex}
use vecodex.Binary.{Binary}
use vecodex.Segment.{Segment}
use vecodex.Segment.Files.{SegmentPtr}
use vecodex.Index.State.{Index, Update}
use vecodex.Coordinator.Handler.{shards_of}
use vecodex.EtcdClient.{Text, Server}
use vecodex.StorageClient.{S3, StorageClient}
use vecodex.Writer.{EtcdView, WriteRequest, WriterImpl, update_indexes, process_write_request}
use vecodex.Writer.Indexes.{library}
use vecodex.Writer.Targeting.{target}
use vecodex.Writer.Publishing.{Searchers, CallbackState, index_update_callback}
use vecodex.Writer.Callbacks.{
  Task, post_all, posted_for, settle, WriterServer, started, handle_request, run_task, handles,
  runs, Reach, begin, later,
}

module _ {IdType Vec Dist : Type 0} (B : IBaseIndex IdType Vec Dist) ⦃k : Key IdType⦄ ⦃e : Key Text⦄
    (rand : ℕ → ℕ) where
  -- A live task has the segments of the index that the writer has for its shard.
  abbrev IsCurrent : WriterImpl (library Text B rand) → Task B → Type 0
  IsCurrent w t =
      t.is_live ≡ true
      → (x : Index B) × (lookup t.shard_id (shards_of t.index_id w.shards) ≡ some x)
        × (t.heap ≡ x.heap)

  settle-IsCurrent :
      (w : WriterImpl (library Text B rand)) (t : Task B) → IsCurrent w (settle B rand w t)
  unfolding settle
  settle-IsCurrent w t = elim (Bool-cases t.is_live) [
    | inr q ↦ rw (settle, q) (λ h. cc)
    | inl q ↦ elim (Option-cases (lookup t.shard_id (shards_of t.index_id w.shards))) [
      | inl r ↦ rw (settle, q, r) (λ h. cc)
      | inr (x, r) ↦ rw (settle, q, r) (λ h. (x, r, refl))
    ]
  ]

  -- Every task of the list is current.
  abbrev AreCurrent : WriterImpl (library Text B rand) → List (Task B) → Type 0
  AreCurrent w ts = (t : Task B) → Memᴰ t ts → IsCurrent w t

  settle-AreCurrent :
      (w : WriterImpl (library Text B rand)) (ts : List (Task B))
      → AreCurrent w (map (settle B rand w) ts)
  settle-AreCurrent w ts t m =
      let (u, k, q) = Memᴰ.of_map (settle B rand w) ts m in
      subst (IsCurrent w) q (settle-IsCurrent w u)

  post_all-AreCurrent :
      (w : WriterImpl (library Text B rand)) (i s : Text) (x : Index B) (us : List Update)
      → lookup s (shards_of i w.shards) ≡ some x
      → AreCurrent w (post_all B rand i s x.heap us)
  post_all-AreCurrent w i s x [] h t m = absurd (Memᴰ.not-nil m)
  post_all-AreCurrent w i s x (u ∷ us) h t m = elim (Memᴰ.cases_cons m) [
    | inl q ↦ subst (IsCurrent w) (sym q) (λ l. (x, h, refl))
    | inr m' ↦ post_all-AreCurrent w i s x us h t m'
  ]

  posted_for-AreCurrent :
      {Time : Type 0} ⦃o : Order Time⦄ (view : EtcdView Text Time)
      (request : WriteRequest Text IdType Vec) (w w' : WriterImpl (library Text B rand))
      → AreCurrent w' (posted_for B rand view request w w')
  unfolding posted_for
  posted_for-AreCurrent view request w w' =
      elim (Option-cases (target (library Text B rand) [] view request w)) [
        | inl q ↦ rw (posted_for, q) (λ t m. absurd (Memᴰ.not-nil m))
        | inr ((i, s), q) ↦ elim (Option-cases (lookup s (shards_of i w.shards))) [
          | inl r ↦ rw (posted_for, q, r) (λ t m. absurd (Memᴰ.not-nil m))
          | inr (x, r) ↦ elim (Option-cases (lookup s (shards_of i w'.shards))) [
            | inl p ↦ rw (posted_for, q, r, p) (λ t m. absurd (Memᴰ.not-nil m))
            | inr (y, p) ↦
                rw (posted_for, q, r, p)
                  (post_all-AreCurrent w' i s y (drop (length x.updates) y.updates) p)
          ]
        ]
      ]

  AreCurrent-append :
      (w : WriterImpl (library Text B rand)) (l m : List (Task B))
      → AreCurrent w l
      → AreCurrent w m
      → AreCurrent w (l ++ m)
  AreCurrent-append w l m a b t k = elim (Memᴰ.append_cases l k) [ inl p ↦ a t p | inr p ↦ b t p ]

  handle_request-AreCurrent :
      (S : S3) (N : Searchers) {Time : Type 0} ⦃o : Order Time⦄ (view : EtcdView Text Time)
      (request : WriteRequest Text IdType Vec) (y : WriterServer B rand S N)
      → let z = (handle_request B rand S N view request y).1 in AreCurrent z.writer z.queue
  unfolding handle_request
  handle_request-AreCurrent S N view request y =
      let O = library Text B rand in
      let w : WriterImpl O = record y.writer { requests_count = y.writer.requests_count + 1 } in
      let updated = update_indexes O view w.indexes_create_args w in
      let r = process_write_request O [] view request y.writer in
      AreCurrent-append r.1 (map (settle B rand r.1) y.queue)
        (if updated.0 then posted_for B rand view request updated.1 r.1 else [])
        (settle-AreCurrent r.1 y.queue)
        (if_intro (AreCurrent r.1) updated.0 (posted_for B rand view request updated.1 r.1) []
          (λ q. posted_for-AreCurrent view request updated.1 r.1)
          (λ q t m. absurd (Memᴰ.not-nil m)))

module _ (Time : Type 0) {IdType Vec Dist : Type 0} {Flat Hnsw : IBaseIndex IdType Vec Dist}
    (B : IBaseIndex IdType Vec Dist) ⦃k : Key IdType⦄ ⦃e : Key Text⦄ ⦃o : Order Time⦄ (rand : ℕ → ℕ)
    (flat : Binary Flat.Base) (hnsw : Binary Hnsw.Base) (S : S3) (hash : Text → ℕ) (N : Searchers)
    (E : Server) (client : StorageClient) (pointer : Segment B → SegmentPtr Flat Hnsw) where
  Reach-AreCurrent :
      {y z : WriterServer B rand S N}
      → Reach Time B rand flat hnsw S hash N E client pointer y z
      → AreCurrent B rand y.writer y.queue
      → AreCurrent B rand z.writer z.queue
  Reach-AreCurrent begin h = h
  Reach-AreCurrent (later {x = y} r (handles view request n)) h =
      handle_request-AreCurrent B rand S N view request y
  Reach-AreCurrent (later r (runs etcd t ts c q g)) h =
      λ u m. Reach-AreCurrent r h u (subst (λ l. Memᴰ u l) (sym q) (Memᴰ.tail m))

  pub Reach-run_task :
      (w : WriterImpl (library Text B rand)) (c : CallbackState S N) (y : WriterServer B rand S N)
      (t : Task B)
      → Reach Time B rand flat hnsw S hash N E client pointer (started B rand S N w c) y
      → Memᴰ t y.queue
      → t.is_live ≡ true
      → (x : Index B) × (lookup t.shard_id (shards_of t.index_id y.writer.shards) ≡ some x)
        × ((etcd : E.State) (c' : CallbackState S N)
            → run_task B flat hnsw S hash N E client pointer etcd t c'
              ≡ index_update_callback flat hnsw S hash N E client etcd t.update.erased
                  (map (λ p. pointer (x.heap p)) t.update.inserted)
                  t.index_id
                  t.shard_id
                  c')
  unfolding run_task
  Reach-run_task w c y t r m l =
      let (x, q, h) = Reach-AreCurrent r (λ u n. absurd (Memᴰ.not-nil n)) t m l in
      (
        x,
        q,
        λ etcd c'.
            ap
              (λ heap.
                index_update_callback flat hnsw S hash N E client etcd t.update.erased
                  (map (λ p. pointer (heap p)) t.update.inserted) t.index_id t.shard_id c')
              h,
      )
