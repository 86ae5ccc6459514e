-- ===== src/FaissIndex/Sizes.antt =====
-- The number that `size` reports.
use vecodex.Prelude.{
  suc, ◌+◌, ◌%◌, ◌<◌, ◌≡◌, ◌∙◌, true, false, List, [], ◌∷◌, ◌++◌, Order, Key, nat_key,
  lookup-insert_self, has_key, has_key-insert, length-insert, include, length-include, length,
  if◌then◌else◌, arith,
}
use vecodex.FaissIndex.{
  Faiss, FaissIndex, register, add_batch, erase_one, erase_batch, size, size_mod, live_entries,
}
use vecodex.FaissIndex.Validity.{IsValid, next_not_erased, add_batch-IsValid, erase_batch-IsValid}

module _ {Vec Dist IdType : Type 0} (F : Faiss Vec Dist) ⦃e : Key IdType⦄ ⦃o : Order Dist⦄ where
  -- `add_batch` of one vector and `erase_batch` of it.
  abbrev pub add_erase : IdType → Vec → FaissIndex F IdType → FaissIndex F IdType
  add_erase i x s = erase_batch F (i ∷ []) (add_batch F ((i, x) ∷ []) s)

  erase-register :
      (i : IdType) (s : FaissIndex F IdType)
      → erase_one F i (register F i s)
        ≡ record (register F i s) { erased = include s.next_id s.erased }
  unfolding erase_one register
  erase-register i s = rw (lookup-insert_self i s.next_id s.ids, erase_one)

  module _ (h : List IdType) (s : FaissIndex F IdType) (v : IsValid F h s) (i : IdType)
      (x : Vec) where
    add_erase-IsValid : IsValid F (h ++ i ∷ []) (add_erase i x s)
    add_erase-IsValid =
        erase_batch-IsValid F (i ∷ []) (h ++ i ∷ []) _ (add_batch-IsValid F ((i, x) ∷ []) h s v)

    length-ids-add_erase :
        length (add_erase i x s).ids
        ≡ (if has_key i s.ids then length s.ids else suc (length s.ids))
    unfolding add_batch erase_batch register
    length-ids-add_erase = rw erase-register (length-insert i s.next_id s.ids)

    has_key-add_erase : has_key i (add_erase i x s).ids ≡ true
    unfolding add_batch erase_batch register
    has_key-add_erase = rw erase-register (ground (arith, has_key-insert i i s.next_id s.ids))

    length-erased-add_erase : length (add_erase i x s).erased ≡ suc (length s.erased)
    unfolding add_batch erase_batch register
    length-erased-add_erase =
        rw erase-register
          (ground (arith, length-include s.next_id s.erased, next_not_erased F h s v))

    next_id-add_erase : (add_erase i x s).next_id ≡ suc s.next_id
    unfolding add_batch erase_batch register
    next_id-add_erase = rw erase-register

  -- In a consistent index, an identifier that was never there and is added and erased, and added and
  -- erased again, is counted once by `ids_` and twice by `erased_`: as many vectors are live as before, and `size` is one less, wrapping
  -- round from 0 to the largest `size_t`.
  pub size-add_erase_twice :
      (h : List IdType) (s : FaissIndex F IdType) (i : IdType) (x y : Vec)
      → IsValid F h s
      → has_key i s.ids ≡ false
      → s.next_id < size_mod
      → let s' = add_erase i y (add_erase i x s) in
        (length (live_entries s'.erased s'.inv_ids) ≡ length (live_entries s.erased s.inv_ids))
        × ((size F s' + 1) % size_mod ≡ size F s)
  unfolding size
  size-add_erase_twice h s i x y v new small =
      let s₁ = add_erase i x s in
      let s₂ = add_erase i y s₁ in
      let v₁ = add_erase-IsValid h s v i x in
      let v₂ = add_erase-IsValid (h ++ i ∷ []) s₁ v₁ i y in
      let ids₁ : length s₁.ids ≡ suc (length s.ids) = length-ids-add_erase h s v i x ∙ rw new in
      let ids₂ : length s₂.ids ≡ length s₁.ids =
        length-ids-add_erase (h ++ i ∷ []) s₁ v₁ i y ∙ rw (has_key-add_erase h s v i x) in
      let er₁ = length-erased-add_erase h s v i x in
      let er₂ = length-erased-add_erase (h ++ i ∷ []) s₁ v₁ i y in
      let n₁ = next_id-add_erase h s v i x in
      let n₂ = next_id-add_erase (h ++ i ∷ []) s₁ v₁ i y in
      (
        omega (arith, v.counted, v₂.counted, er₁, er₂, n₁, n₂),
        omega (arith, v.counted, ids₁, ids₂, er₁, er₂, small),
      )
