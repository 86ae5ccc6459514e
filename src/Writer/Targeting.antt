-- ===== src/Writer/Targeting.antt =====
-- ProcessWriteRequest after updateIndexesState: the one index that it changes.
use vecodex.Prelude.{
  ◌≡◌, refl, sym, subst, Option, none, some, Order, Key, lookup, has_key, if◌then◌else◌, Bool-cases,
  Option-cases, ◌⊎◌, inl, inr,
}
use vecodex.Coordinator.Handler.{shards_of, set_shard}
use vecodex.Writer.{
  IndexOps, EtcdView, WriteRequest, WriteStatus, WriterImpl, choose_shard, name_of, add_vector,
  erase_vector, answer_write,
}

-- What add and erase do to an index.
pub record Follows {Name Config DocId Vec : Type 0} (O : IndexOps Name Config DocId Vec)
    (R : O.Ix → O.Ix → Type 0) : Type 0 where
  pub added : (id : DocId) (v : Vec) (x : O.Ix) → R x (O.add id v x).1
  pub erased : (id : DocId) (x : O.Ix) → R x (O.erase id x).1

module _ {Name Config DocId Vec Time : Type 0} (O : IndexOps Name Config DocId Vec) ⦃e : Key Name⦄
    ⦃o : Order Time⦄ (empty : Name) (view : EtcdView Name Time)
    (request : WriteRequest Name DocId Vec) where
  -- The index and the shard under which the handler looks up the index that it calls.
  unfoldable pub target : WriterImpl O → Option (Name × Name)
  target w = elim request.index_id [
    | none ↦ none
    | some i ↦
        if has_key i w.shards
        then elim (choose_shard view i (shards_of i w.shards) none) [
          | none ↦ none
          | some best ↦ some (i, (if request.delete then i else name_of empty best))
        ]
        else none
  ]

  module _ (R : O.Ix → O.Ix → Type 0) (F : Follows O R) where
    -- The target becomes what the operation has made of it.
    pub record IsChanged (w w' : WriterImpl O) : Type 0 where
      pub i : Name
      pub s : Name
      pub x : O.Ix
      pub y : O.Ix
      pub is_target : target w ≡ some (i, s)
      pub old : lookup s (shards_of i w.shards) ≡ some x
      pub shards : w'.shards ≡ set_shard i s y w.shards
      pub related : R x y

    erase_vector-IsChanged :
        (i s : Name) (w : WriterImpl O)
        → target w ≡ some (i, i)
        → let w' = (erase_vector O i s request w).1 in (w'.shards ≡ w.shards) ⊎ IsChanged w w'
    unfolding erase_vector
    erase_vector-IsChanged i s w t = elim (Option-cases (lookup i (shards_of i w.shards))) [
      | inl q ↦ inl (rw (erase_vector, q) refl)
      | inr (x, q) ↦
          rw (erase_vector, q)
            (inr (record {
              i = i;
              s = i;
              x = x;
              y = (O.erase request.id x).1;
              is_target = t;
              old = q;
              shards = refl;
              related = F.erased request.id x;
            }))
    ]

    add_vector-IsChanged :
        (i s : Name) (w : WriterImpl O)
        → target w ≡ some (i, s)
        → let w' = (add_vector O i s request w).1 in (w'.shards ≡ w.shards) ⊎ IsChanged w w'
    unfolding add_vector
    add_vector-IsChanged i s w t = elim (Option-cases (lookup s (shards_of i w.shards))) [
      | inl q ↦ inl (rw (add_vector, q) refl)
      | inr (x, q) ↦
          rw (add_vector, q)
            (inr (record {
              i = i;
              s = s;
              x = x;
              y = (O.add request.id request.vector_data x).1;
              is_target = t;
              old = q;
              shards = refl;
              related = F.added request.id request.vector_data x;
            }))
    ]

    -- No shard changes but the target.
    pub answer_write-IsChanged :
        (w : WriterImpl O)
        → let w' = (answer_write O empty view request w).1 in
          (w'.shards ≡ w.shards) ⊎ IsChanged w w'
    unfolding answer_write target
    answer_write-IsChanged w = elim (Option-cases request.index_id) [
      | inl q ↦ inl (rw (answer_write, q) refl)
      | inr (i, q) ↦ elim (Bool-cases (has_key i w.shards)) [
        | inr r ↦ inl (rw (answer_write, q, r) refl)
        | inl r ↦ elim (Option-cases (choose_shard view i (shards_of i w.shards) none)) [
          | inl c ↦ inl (rw (answer_write, q, r, c) refl)
          | inr (best, c) ↦
              let s = name_of empty best in
              let P : WriteStatus × WriterImpl O → Type 0 =
                λ u. (u.1.shards ≡ w.shards) ⊎ IsChanged w u.1 in
              elim (Bool-cases request.delete) [
                | inl d ↦
                    let k : answer_write O empty view request w ≡ erase_vector O i s request w =
                      rw (answer_write, q, r, c, d) refl in
                    subst P (sym k) (erase_vector-IsChanged i s w (rw (target, q, r, c, d) refl))
                | inr d ↦
                    let k : answer_write O empty view request w ≡ add_vector O i s request w =
                      rw (answer_write, q, r, c, d) refl in
                    subst P (sym k) (add_vector-IsChanged i s w (rw (target, q, r, c, d) refl))
              ]
        ]
      ]
    ]
