-- ===== src/Writer/Following/Configured.antt =====
-- A request leaves the configurations of the writer alone.
use vecodex.Prelude.{
  ◌+◌, ◌≡◌, refl, ◌∙◌, sym, subst, Bool, false, none, List, [], ◌∷◌, Order, Key, lookup, has_key,
  insert, IsOnce, insert-IsOnce, if_intro, Bool-cases, Option-cases, inl, inr,
}
use vecodex.Coordinator.Handler.{shards_of}
use vecodex.Writer.{
  IndexOps, EtcdView, WriteRequest, WriteStatus, WriterImpl, exception, update_listed,
  update_indexes, create_args, create_writer, choose_shard, name_of, add_vector, erase_vector,
  answer_write, process_write_request,
}

module _ {Name Config DocId Vec : Type 0} (O : IndexOps Name Config DocId Vec) ⦃e : Key Name⦄ where
  update_listed-args :
      (i : Name) (config : Config) (ids : List Name) (w : WriterImpl O)
      → (update_listed O i config ids w).1.indexes_create_args ≡ w.indexes_create_args
  unfolding update_listed
  update_listed-args i config [] w = refl
  update_listed-args i config (s ∷ ss) w = refl

  update_indexes-args :
      {Time : Type 0} (view : EtcdView Name Time) (args : List (Name × Config)) (w : WriterImpl O)
      → (update_indexes O view args w).1.indexes_create_args ≡ w.indexes_create_args
  unfolding update_indexes
  update_indexes-args view [] w = refl
  update_indexes-args view ((i, config) ∷ args) w = elim (Option-cases (view.list_shard_ids i)) [
    | inl q ↦ rw (update_indexes, q) refl
    | inr (ids, q) ↦
        let first = update_listed O i config ids w in
        let one = update_listed-args i config ids w in
        rw (update_indexes, q)
          (if_intro (λ (r : Bool × WriterImpl O). r.1.indexes_create_args ≡ w.indexes_create_args)
            first.0 (update_indexes O view args first.1) (false, first.1)
            (λ t. update_indexes-args view args first.1 ∙ one) (λ t. one))
  ]

  -- The constructor keeps one configuration for every index.
  create_args-IsOnce :
      (items args : List (Name × Config)) → IsOnce args → IsOnce (create_args O items args)
  unfolding create_args
  create_args-IsOnce [] args h = h
  create_args-IsOnce ((i, config) ∷ items) args h =
      create_args-IsOnce items (insert i config args) (insert-IsOnce i config args h)

  pub create_writer-IsOnce :
      {Time : Type 0} (view : EtcdView Name Time) (items : List (Name × Config))
      → IsOnce (create_writer O view items).1.indexes_create_args
  unfolding create_writer
  create_writer-IsOnce view items =
      let args = create_args O items [] in
      subst IsOnce
        (sym (
          update_indexes-args view args (record {
            indexes_create_args = args;
            shards = [];
            buckets = [];
            requests_count = 0;
            vectors_count = [];
          })))
        (create_args-IsOnce items [] tt)

  module _ {Time : Type 0} ⦃o : Order Time⦄ (empty : Name) (view : EtcdView Name Time)
      (request : WriteRequest Name DocId Vec) where
    add_vector-args :
        (i s : Name) (w : WriterImpl O)
        → (add_vector O i s request w).1.indexes_create_args ≡ w.indexes_create_args
    unfolding add_vector
    add_vector-args i s w = elim (Option-cases (lookup s (shards_of i w.shards))) [
      | inl q ↦ rw (add_vector, q) refl
      | inr (x, q) ↦ rw (add_vector, q) refl
    ]

    erase_vector-args :
        (i s : Name) (w : WriterImpl O)
        → (erase_vector O i s request w).1.indexes_create_args ≡ w.indexes_create_args
    unfolding erase_vector
    erase_vector-args i s w = elim (Option-cases (lookup i (shards_of i w.shards))) [
      | inl q ↦ rw (erase_vector, q) refl
      | inr (x, q) ↦ rw (erase_vector, q) refl
    ]

    answer_write-args :
        (w : WriterImpl O)
        → (answer_write O empty view request w).1.indexes_create_args ≡ w.indexes_create_args
    unfolding answer_write
    answer_write-args w = elim (Option-cases request.index_id) [
      | inl q ↦ rw (answer_write, q) refl
      | inr (i, q) ↦ elim (Bool-cases (has_key i w.shards)) [
        | inr r ↦ rw (answer_write, q, r) refl
        | inl r ↦ elim (Option-cases (choose_shard view i (shards_of i w.shards) none)) [
          | inl c ↦ rw (answer_write, q, r, c) refl
          | inr (best, c) ↦
              let s = name_of empty best in
              rw (answer_write, q, r, c)
                (if_intro
                  (λ (u : WriteStatus × WriterImpl O).
                    u.1.indexes_create_args ≡ w.indexes_create_args)
                  request.delete (erase_vector O i s request w) (add_vector O i s request w)
                  (λ d. erase_vector-args i s w) (λ d. add_vector-args i s w))
        ]
      ]
    ]

    pub process_write_request-args :
        (w : WriterImpl O)
        → (process_write_request O empty view request w).1.indexes_create_args
          ≡ w.indexes_create_args
    unfolding process_write_request
    process_write_request-args w =
        let counted : WriterImpl O = record w { requests_count = w.requests_count + 1 } in
        let updated = update_indexes O view w.indexes_create_args counted in
        let one = update_indexes-args view w.indexes_create_args counted in
        if_intro
          (λ (u : WriteStatus × WriterImpl O). u.1.indexes_create_args ≡ w.indexes_create_args)
          updated.0 (answer_write O empty view request updated.1) (exception, updated.1)
          (λ t. answer_write-args updated.1 ∙ one) (λ t. one)
