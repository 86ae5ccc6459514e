-- ===== src/FaissIndex/Interface.antt =====
-- FaissIndex as the IBaseIndex that a segment holds.
use vecodex.Prelude.{
  ◌+◌, ◌≤◌, ◌≡◌, refl, ap, List, [], ◌∷◌, Order, Key, nat_key, length-insert, length, length-map,
  arith,
}
use vecodex.BaseIndex.{IBaseIndex}
use vecodex.FaissIndex.{
  single_search, erase_batch, Faiss, FaissIndex, create, register, register_all, add_batch,
  merge_from_other, rebuilt, ids_of, size,
}

module _ {Vec Dist IdType : Type 0} (F : Faiss Vec Dist) ⦃e : Key IdType⦄ ⦃o : Order Dist⦄ where
  -- `size` does not go below zero.
  abbrev pub IsSound : FaissIndex F IdType → Type 0
  IsSound s = length s.erased ≤ length s.ids

  length-register_all :
      (is : List IdType) (s : FaissIndex F IdType)
      → (length s.ids ≤ length (register_all F is s).ids)
        × (length (register_all F is s).ids ≤ length s.ids + length is)
        × ((register_all F is s).erased ≡ s.erased)
  unfolding register_all register
  length-register_all [] s = (omega arith, omega arith, refl)
  length-register_all (i ∷ is) s =
      let (a, b, c) = length-register_all is (register F i s) in
      (
        ground (arith, a, length-insert i s.next_id s.ids),
        ground (arith, b, length-insert i s.next_id s.ids),
        c,
      )

  length-add_batch :
      (vs : List (IdType × Vec)) (s : FaissIndex F IdType)
      → (length s.ids ≤ length (add_batch F vs s).ids)
        × (length (add_batch F vs s).ids ≤ length s.ids + length vs)
        × ((add_batch F vs s).erased ≡ s.erased)
  unfolding add_batch
  length-add_batch vs s =
      let (a, b, c) = length-register_all (ids_of vs) (record s { index = F.add s.index _ }) in
      (a, omega (arith, b, length-map (λ (v : IdType × Vec). v.0) vs), c)

  pub add_batch-IsSound :
      (s : FaissIndex F IdType) (vs : List (IdType × Vec)) → IsSound s → IsSound (add_batch F vs s)
  add_batch-IsSound s vs h = let (a, b, c) = length-add_batch vs s in omega (arith, a, ap length c)

  -- `size` grows by at most the number of vectors, wrapping included.
  pub size-add_batch :
      (s : FaissIndex F IdType) (vs : List (IdType × Vec))
      → IsSound s
      → size F (add_batch F vs s) ≤ size F s + length vs
  unfolding size
  size-add_batch s vs h =
      let (a, b, c) = length-add_batch vs s in
      let er : length (add_batch F vs s).erased ≡ length s.erased = ap length c in
      omega (arith, a, b, er)

  pub merge-IsSound : (s t : FaissIndex F IdType) → IsSound s → IsSound (merge_from_other F t s)
  unfolding merge_from_other
  merge-IsSound s t h = add_batch-IsSound s (rebuilt F t) h

module _ {Vec Dist : Type 0} (F : Faiss Vec Dist) (IdType : Type 0) ⦃e : Key IdType⦄
    ⦃o : Order Dist⦄ where
  pub size-create : size F (create {IdType = IdType} F) ≡ 0
  unfolding size create
  size-create = refl

  pub create-IsSound : IsSound F (create {IdType = IdType} F)
  unfolding create
  create-IsSound = omega arith

  -- The implementation of the interface.
  abbrev pub faiss_base : IBaseIndex IdType Vec Dist
  faiss_base = record {
    Base = FaissIndex F IdType;
    empty = create F;
    add_batch = λ b vs. add_batch F vs b;
    single_search = single_search F;
    erase_batch = erase_batch F;
    merge_from_other = λ other b. merge_from_other F other b;
    size = size F;
    IsSound = IsSound F;
    empty-IsSound = create-IsSound;
    add_batch-IsSound = add_batch-IsSound F;
    merge-IsSound = λ other b. merge-IsSound F b other;
    size-empty = size-create;
    size-add_batch = size-add_batch F;
  }
