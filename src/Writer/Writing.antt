-- ===== src/Writer/Writing.antt =====
-- ProcessWriteRequest: where a document goes, and what a deletion does.
use vecodex.Prelude.{
  ◌≡◌, refl, ap, ◌∙◌, ◌+◌, true, false, some, List, ◌∷◌, Order, Key, All, lookup, has_key,
  lookup-has_key, has_key-lookup, if◌then◌else◌,
}
use vecodex.Coordinator.Handler.{shards_of, set_shard}
use vecodex.Writer.{
  IndexOps, EtcdView, WriteRequest, WriterImpl, ok, exception, crash, update_indexes, vectors_of,
  add_vector, erase_vector, answer_write, process_write_request,
}
use vecodex.Writer.Choosing.{choose_shard_lem}

module _ {Name Config DocId Vec Time : Type 0} (O : IndexOps Name Config DocId Vec) ⦃e : Key Name⦄
    ⦃o : Order Time⦄ (empty : Name) (view : EtcdView Name Time)
    (request : WriteRequest Name DocId Vec) (i : Name) (time : Name → Time) where
  -- The request gets as far as a shard: etcd is read, and the index has shards.
  pub record Reaches (w w' : WriterImpl O) (s₀ : Name) (x₀ : O.Ix) (m : List (Name × O.Ix))
      : Type 0 where
    pub updates :
        update_indexes O view w.indexes_create_args
          (record w { requests_count = w.requests_count + 1 })
        ≡ (true, w')
    pub names_index : request.index_id ≡ some i
    pub has_index : has_key i w'.shards ≡ true
    pub has_shards : shards_of i w'.shards ≡ (s₀, x₀) ∷ m
    pub has_times : (s : Name) → view.average_response_time i s ≡ some (time s)

  process-answer :
      (w w' : WriterImpl O) (s₀ : Name) (x₀ : O.Ix) (m : List (Name × O.Ix))
      → Reaches w w' s₀ x₀ m
      → (s : Name) × (has_key s ((s₀, x₀) ∷ m) ≡ true)
        × All (λ p. o.less (time p.0) (time s) ≡ false) ((s₀, x₀) ∷ m)
        × (process_write_request O empty view request w ≡ (
            if request.delete then erase_vector O i s request w' else add_vector O i s request w'))
  unfolding process_write_request answer_write
  process-answer w w' s₀ x₀ m r =
      let (s, c, k, a) = choose_shard_lem view i time s₀ x₀ m r.has_times in
      (
        s,
        k,
        a,
        ap (λ u. if u.0 then answer_write O empty view request u.1 else (exception, u.1)) r.updates
            ∙ rw (answer_write, r.names_index, r.has_index, r.has_shards, c) refl,
      )

  -- A document that is not to be deleted is added to the index of one shard, none of whose fellows
  -- has a lower response time, and the shard's gauge goes up by one; the other shards stay as they
  -- are.
  pub process_write_request-adds :
      (w w' : WriterImpl O) (s₀ : Name) (x₀ : O.Ix) (m : List (Name × O.Ix))
      → Reaches w w' s₀ x₀ m
      → request.delete ≡ false
      → (s : Name) × (x : O.Ix) × (lookup s ((s₀, x₀) ∷ m) ≡ some x)
        × All (λ p. o.less (time p.0) (time s) ≡ false) ((s₀, x₀) ∷ m)
        × (let added = O.add request.id request.vector_data x in
            process_write_request O empty view request w ≡ (
              (if added.0 then ok else exception),
              record w' {
                shards = set_shard i s added.1 w'.shards;
                vectors_count =
                    (if added.0
                      then set_shard i s (vectors_of O i s w' + 1) w'.vectors_count
                      else w'.vectors_count);
              },
            ))
  unfolding add_vector
  process_write_request-adds w w' s₀ x₀ m r d =
      let (s, k, a, p) = process-answer w w' s₀ x₀ m r in
      let (x, l) = lookup-has_key s ((s₀, x₀) ∷ m) k in
      (
        s,
        x,
        l,
        a,
        p
            ∙ ap (λ b. if b then erase_vector O i s request w' else add_vector O i s request w') d
            ∙ rw (add_vector, r.has_shards, l) refl,
      )

  pub process_write_request-deletes :
      (w w' : WriterImpl O) (s₀ : Name) (x₀ : O.Ix) (m : List (Name × O.Ix))
      → Reaches w w' s₀ x₀ m
      → request.delete ≡ true
      → has_key i ((s₀, x₀) ∷ m) ≡ false
      → process_write_request O empty view request w ≡ (crash, w')
  unfolding erase_vector
  process_write_request-deletes w w' s₀ x₀ m r d n =
      let (s, k, a, p) = process-answer w w' s₀ x₀ m r in
      p
      ∙ ap (λ b. if b then erase_vector O i s request w' else add_vector O i s request w') d
      ∙ rw (erase_vector, r.has_shards, has_key-lookup i ((s₀, x₀) ∷ m) n) refl
