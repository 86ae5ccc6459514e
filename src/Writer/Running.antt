-- ===== src/Writer/Running.antt =====
-- The writer from its constructor on, over requests that add documents.
use vecodex.Prelude.{
  ◌+◌, ◌≡◌, false, none, List, [], ◌∷◌, Order, Key, All, lookup, has_key, insert, if_intro,
  Bool-cases, Option-cases, inl, inr,
}
use vecodex.Coordinator.Handler.{shards_of}
use vecodex.Writer.{
  IndexOps, EtcdView, WriteRequest, WriteStatus, WriterImpl, exception, update_indexes, create_args,
  create_writer, choose_shard, name_of, add_vector, answer_write, process_write_request,
}
use vecodex.Writer.Keeping.{
  AllValues, insert-AllValues, lookup-AllValues, shards_of-AllShards, set_shard-AllShards, Creates,
  Keeps, IsKept, update_indexes-keeps,
}

-- Requests, each with what etcd answers meanwhile.
module _ {Name Config DocId Vec Time : Type 0} (O : IndexOps Name Config DocId Vec) ⦃e : Key Name⦄
    ⦃o : Order Time⦄ (empty : Name) where
  abbrev pub run_writes :
      List (EtcdView Name Time × WriteRequest Name DocId Vec) → WriterImpl O → WriterImpl O
  run_writes [] w = w
  run_writes ((view, request) ∷ requests) w =
      run_writes requests (process_write_request O empty view request w).1

  abbrev pub AllAdd : List (EtcdView Name Time × WriteRequest Name DocId Vec) → Type 0
  AllAdd requests = All (λ p. p.1.delete ≡ false) requests

module _ {Name Config DocId Vec : Type 0} (O : IndexOps Name Config DocId Vec) ⦃e : Key Name⦄
    (Valid : Config → Type 0) (P : O.Ix → Type 0) (K : Creates O Valid P) where
  create_args-keeps :
      (items args : List (Name × Config))
      → AllValues Valid items
      → AllValues Valid args
      → AllValues Valid (create_args O items args)
  unfolding create_args
  create_args-keeps [] args h a = a
  create_args-keeps ((i, config) ∷ items) args h a =
      create_args-keeps items (insert i config args) h.1
        (insert-AllValues Valid i config args h.0 a)

  pub create_writer-keeps :
      {Time : Type 0} (view : EtcdView Name Time) (items : List (Name × Config))
      → AllValues Valid items
      → IsKept O Valid P K (create_writer O view items).1
  unfolding create_writer
  create_writer-keeps view items h =
      let args = create_args-keeps items [] h tt in
      update_indexes-keeps O Valid P K view (create_args O items [])
        (record {
          indexes_create_args = create_args O items [];
          shards = [];
          buckets = [];
          requests_count = 0;
          vectors_count = [];
        })
        args (tt, args)

module _ {Name Config DocId Vec : Type 0} (O : IndexOps Name Config DocId Vec) ⦃e : Key Name⦄
    (Valid : Config → Type 0) (P : O.Ix → Type 0) (K : Keeps O Valid P) where
  add_vector-keeps :
      (i s : Name) (request : WriteRequest Name DocId Vec) (w : WriterImpl O)
      → IsKept O Valid P K.creates w
      → IsKept O Valid P K.creates (add_vector O i s request w).1
  unfolding add_vector
  add_vector-keeps i s request w a = elim (Option-cases (lookup s (shards_of i w.shards))) [
    | inl q ↦ rw (add_vector, q) a
    | inr (x, q) ↦
        let x-kept =
          lookup-AllValues P s x (shards_of i w.shards) (shards_of-AllShards P i w.shards a.0) q in
        let x' = (O.add request.id request.vector_data x).1 in
        rw (add_vector, q)
          (
            set_shard-AllShards P i s x' w.shards
                (K.add-keeps request.id request.vector_data x x-kept) a.0,
            a.1,
          )
  ]

  answer_write-keeps :
      {Time : Type 0} ⦃o : Order Time⦄ (empty : Name) (view : EtcdView Name Time)
      (request : WriteRequest Name DocId Vec) (w : WriterImpl O)
      → request.delete ≡ false
      → IsKept O Valid P K.creates w
      → IsKept O Valid P K.creates (answer_write O empty view request w).1
  unfolding answer_write
  answer_write-keeps empty view request w d a = elim (Option-cases request.index_id) [
    | inl q ↦ rw (answer_write, q) a
    | inr (i, q) ↦ elim (Bool-cases (has_key i w.shards)) [
      | inr r ↦ rw (answer_write, q, r) a
      | inl r ↦ elim (Option-cases (choose_shard view i (shards_of i w.shards) none)) [
        | inl c ↦ rw (answer_write, q, r, c) a
        | inr (best, c) ↦
            rw (answer_write, q, r, c, d) (add_vector-keeps i (name_of empty best) request w a)
      ]
    ]
  ]

  process_write_request-keeps :
      {Time : Type 0} ⦃o : Order Time⦄ (empty : Name) (view : EtcdView Name Time)
      (request : WriteRequest Name DocId Vec) (w : WriterImpl O)
      → request.delete ≡ false
      → IsKept O Valid P K.creates w
      → IsKept O Valid P K.creates (process_write_request O empty view request w).1
  unfolding process_write_request
  process_write_request-keeps empty view request w d a =
      let updated =
        update_indexes O view w.indexes_create_args
          (record w { requests_count = w.requests_count + 1 }) in
      let kept =
        update_indexes-keeps O Valid P K.creates view w.indexes_create_args
          (record w { requests_count = w.requests_count + 1 }) a.1 a in
      if_intro (λ (r : WriteStatus × WriterImpl O). IsKept O Valid P K.creates r.1) updated.0
        (answer_write O empty view request updated.1) (exception, updated.1)
        (λ q. answer_write-keeps empty view request updated.1 d kept) (λ q. kept)

  run_writes-keeps :
      {Time : Type 0} ⦃o : Order Time⦄ (empty : Name)
      (requests : List (EtcdView Name Time × WriteRequest Name DocId Vec)) (w : WriterImpl O)
      → AllAdd O empty requests
      → IsKept O Valid P K.creates w
      → IsKept O Valid P K.creates (run_writes O empty requests w)
  run_writes-keeps empty [] w d a = a
  run_writes-keeps empty ((view, request) ∷ requests) w d a =
      run_writes-keeps empty requests (process_write_request O empty view request w).1 d.1
        (process_write_request-keeps empty view request w d.0 a)

  -- From the constructor on, and over any requests that add documents, every index is kept.
  pub run_writes-create_writer :
      {Time : Type 0} ⦃o : Order Time⦄ (empty : Name) (view : EtcdView Name Time)
      (items : List (Name × Config))
      (requests : List (EtcdView Name Time × WriteRequest Name DocId Vec))
      → AllValues Valid items
      → AllAdd O empty requests
      → IsKept O Valid P K.creates (run_writes O empty requests (create_writer O view items).1)
  run_writes-create_writer empty view items requests h d =
      run_writes-keeps empty requests (create_writer O view items).1 d
        (create_writer-keeps O Valid P K.creates view items h)
