-- ===== src/Writer/Callbacks/Ordering.antt =====
-- No callback is lost, doubled or run out of turn.
use mathlib.Core.List.{append_assoc, map-append}
use mathlib.Core.Option.{some-injective}
use vecodex.Prelude.{
  ℕ, ◌+◌, ◌≡◌, refl, ap, ◌∙◌, sym, subst, Bool, true, false, none, some, List, [], ◌∷◌, ◌++◌, map,
  Order, Key, lookup, if◌then◌else◌, Option-cases, inl, inr, IsOnce,
}
use vecodex.BaseIndex.{IBaseIndex}
use vecodex.Binary.{Binary}
use vecodex.Segment.{Segment}
use vecodex.Segment.Files.{SegmentPtr}
use vecodex.Index.State.{Index, Update}
use vecodex.Index.Logging.{Extends}
use vecodex.Coordinator.Handler.{shards_of}
use vecodex.EtcdClient.{Text, Server}
use vecodex.StorageClient.{S3, StorageClient}
use vecodex.Writer.{
  EtcdView, WriteRequest, WriterImpl, exception, update_indexes, answer_write,
  process_write_request, create_writer,
}
use vecodex.Writer.Indexes.{library, IndexConfig}
use vecodex.Writer.Following.{update_indexes-IsFollowed}
use vecodex.Writer.Following.Configured.{process_write_request-args, create_writer-IsOnce}
use vecodex.Writer.Keeping.{AllValues, lookup-AllValues, shards_of-AllShards, Creates, IsKept}
use vecodex.Writer.Running.{create_writer-keeps}
use vecodex.Index.State.{init, create_last}
use vecodex.Writer.Targeting.{answer_write-IsChanged}
use vecodex.Writer.Publishing.{Searchers, CallbackState}
use vecodex.Writer.Callbacks.{
  Task, posted_for, settle, WriterServer, started, handle_request, Step, handles, runs, Reach,
  begin, later,
}
use vecodex.Writer.Callbacks.Logged.{
  calls_of, calls_of-append, log_of, library-Follows, library-created, IsSilent,
}
use vecodex.Writer.Callbacks.Continuing.{
  Continues, Continues-other, Continues-posted_for, calls_of-continue,
}

AllValues-any : {Name V : Type 0} ⦃e : Key Name⦄ (m : List (Name × V)) → AllValues (λ v. Unit {0}) m
AllValues-any [] = tt
AllValues-any (p ∷ m) = (tt, AllValues-any m)

module _ {IdType Vec Dist : Type 0} (B : IBaseIndex IdType Vec Dist) ⦃k : Key IdType⦄ ⦃e : Key Text⦄
    (rand : ℕ → ℕ) where
  module _ (S : S3) (N : Searchers) where
    -- What the tasks have of every shard is the log of its index, and no index is configured twice.
    abbrev pub IsLogged : WriterServer B rand S N → Type 0
    IsLogged y =
        ((i s : Text) → calls_of B i s (y.done ++ y.queue) ≡ log_of B rand i s y.writer)
        × IsOnce y.writer.indexes_create_args

    handle_request-IsLogged :
        {Time : Type 0} ⦃o : Order Time⦄ (view : EtcdView Text Time)
        (request : WriteRequest Text IdType Vec) (y : WriterServer B rand S N)
        → IsLogged y
        → IsLogged (handle_request B rand S N view request y).1
    unfolding handle_request process_write_request Continues
    handle_request-IsLogged view request y (logged, once) =
        let O = library Text B rand in
        let w : WriterImpl O = record y.writer { requests_count = y.writer.requests_count + 1 } in
        let updated = update_indexes O view w.indexes_create_args w in
        let answered = answer_write O [] view request updated.1 in
        let come =
          (update_indexes-IsFollowed O (IsSilent B rand) (library-created B rand) view
            w.indexes_create_args w once).0 in
        let change =
          answer_write-IsChanged O [] view request Extends (library-Follows B rand) updated.1 in
        let posted = posted_for B rand view request updated.1 answered.1 in
        let merge = λ (w' : WriterImpl O) (more : List (Task B)) (i s : Text).
          ap (λ l. calls_of B i s l)
            (sym
                (append_assoc (map (settle B rand w') y.done) (map (settle B rand w') y.queue) more)
              ∙ ap (λ l. l ++ more) (sym (map-append (settle B rand w') y.done y.queue))) in
        (
          λ i s.
              elim updated.0
                as (λ (b : Bool).
                  let r = (if b then answered else (exception, updated.1)) in
                  calls_of B i s (
                    map (settle B rand r.1) y.done
                    ++ (map (settle B rand r.1) y.queue
                        ++ (if b then posted_for B rand view request updated.1 r.1 else [])))
                  ≡ log_of B rand i s r.1) [
                    | true ↦
                        merge answered.1 posted i s
                        ∙ calls_of-continue B rand i s w updated.1 answered.1 (y.done ++ y.queue)
                            posted come
                            (Continues-posted_for B rand view request i s updated.1 answered.1
                              change)
                            (logged i s)
                    | false ↦
                        merge updated.1 [] i s
                        ∙ calls_of-continue B rand i s w updated.1 updated.1 (y.done ++ y.queue) []
                            come (Continues-other B rand i s updated.1 updated.1 [] refl refl)
                            (logged i s)
                  ],
          subst IsOnce (sym (process_write_request-args O [] view request y.writer)) once,
        )

    started-IsLogged :
        {Time : Type 0} (view : EtcdView Text Time) (items : List (Text × IndexConfig))
        (w : WriterImpl (library Text B rand)) (c : CallbackState S N)
        → create_writer (library Text B rand) view items ≡ (true, w)
        → IsLogged (started B rand S N w c)
    unfolding init create_last
    started-IsLogged view items w c h =
        let O = library Text B rand in
        let silent : Creates O (λ config. Unit {0}) (IsSilent B rand) = record {
          create-keeps =
              λ config x v q. ap (λ (y : Index B). y.updates) (sym (some-injective _ _ q));
          callback-keeps = λ i s x q. q;
        } in
        let kept =
          subst (IsKept O (λ config. Unit {0}) (IsSilent B rand) silent) (ap (λ r. r.1) h) (
            create_writer-keeps O (λ config. Unit {0}) (IsSilent B rand) silent view items
              (AllValues-any items)) in
        (
          λ i s. elim (Option-cases (lookup s (shards_of i w.shards))) [
            | inl q ↦
                sym (ap (λ u. elim u as (λ v. List Update) [ none ↦ [] | some z ↦ z.updates ]) q)
            | inr (x, q) ↦ sym (
                ap (λ u. elim u as (λ v. List Update) [ none ↦ [] | some z ↦ z.updates ]) q
                ∙ lookup-AllValues (IsSilent B rand) s x (shards_of i w.shards)
                    (shards_of-AllShards (IsSilent B rand) i w.shards kept.0) q)
          ],
          subst IsOnce (ap (λ r. r.1.indexes_create_args) h) (create_writer-IsOnce O view items),
        )

module _ (Time : Type 0) {IdType Vec Dist : Type 0} {Flat Hnsw : IBaseIndex IdType Vec Dist}
    (B : IBaseIndex IdType Vec Dist) ⦃k : Key IdType⦄ ⦃e : Key Text⦄ ⦃o : Order Time⦄ (rand : ℕ → ℕ)
    (flat : Binary Flat.Base) (hnsw : Binary Hnsw.Base) (S : S3) (hash : Text → ℕ) (N : Searchers)
    (E : Server) (client : StorageClient) (pointer : Segment B → SegmentPtr Flat Hnsw) where
  Step-IsLogged :
      {y z : WriterServer B rand S N}
      → Step Time B rand flat hnsw S hash N E client pointer y z
      → IsLogged B rand S N y
      → IsLogged B rand S N z
  Step-IsLogged {y} (handles view request h) l = handle_request-IsLogged B rand S N view request y l
  Step-IsLogged {y} (runs etcd t ts c q r) (logged, once) = (
    λ i s.
        ap (λ l. calls_of B i s l) (append_assoc y.done (t ∷ []) ts ∙ ap (λ l. y.done ++ l) (sym q))
        ∙ logged i s,
    once,
  )

  Reach-IsLogged :
      {y z : WriterServer B rand S N}
      → Reach Time B rand flat hnsw S hash N E client pointer y z
      → IsLogged B rand S N y
      → IsLogged B rand S N z
  Reach-IsLogged begin l = l
  Reach-IsLogged (later r step) l = Step-IsLogged step (Reach-IsLogged r l)

  -- A writer is constructed, handles any requests that do not end the process, whatever etcd answers
  -- to each, and the thread of the pool takes its turns between them. For every shard that the
  -- writer has, the tasks of its index that were run, followed by those that are queued, are exactly
  -- the calls of the callback that the index has made, in their order.
  pub Reach-create_writer :
      (first : EtcdView Text Time) (items : List (Text × IndexConfig))
      (w : WriterImpl (library Text B rand)) (c : CallbackState S N) (y : WriterServer B rand S N)
      (i s : Text) (x : Index B)
      → create_writer (library Text B rand) first items ≡ (true, w)
      → Reach Time B rand flat hnsw S hash N E client pointer (started B rand S N w c) y
      → lookup s (shards_of i y.writer.shards) ≡ some x
      → calls_of B i s y.done ++ calls_of B i s y.queue ≡ x.updates
  Reach-create_writer first items w c y i s x h r l =
      sym (calls_of-append B i s y.done y.queue)
      ∙ (Reach-IsLogged r (started-IsLogged B rand S N first items w c h)).0 i s
      ∙ ap (λ u. elim u as (λ v. List Update) [ none ↦ [] | some z ↦ z.updates ]) l
