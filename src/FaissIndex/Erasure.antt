-- ===== src/FaissIndex/Erasure.antt =====
-- What `erase_batch` hides.
use vecodex.Prelude.{
  ℕ, ◌≡◌, ◌≢◌, refl, ap, sym, ◌∙◌, Bool, true, false, ◌||◌, none, some, List, [], ◌∷◌, Order, Key,
  nat_key, lookup, lookup-has_key, member, member-include, include-member, arith, All, Option-cases,
  inl, inr, if_neg, if_pos, ite, ℕ_discrete,
}
use vecodex.FaissIndex.{Faiss, FaissIndex, erase_one, erase_batch, single_search}
use vecodex.FaissIndex.Validity.{IsValid}
use vecodex.FaissIndex.Soundness.{IsLive, single_search_lem}

module _ {IdType : Type 0} ⦃e : Key IdType⦄ where
  member_tail : (i j : IdType) (js : List IdType) → member i js ≡ true → member i (j ∷ js) ≡ true
  unfolding member
  member_tail i j js m = elim (e.dec j i) [
    | yes same ↦ if_pos (e.dec j i) same true (member i js)
    | no other ↦ if_neg (e.dec j i) other true (member i js) ∙ m
  ]

module _ {Vec Dist IdType : Type 0} (F : Faiss Vec Dist) ⦃e : Key IdType⦄ ⦃o : Order Dist⦄ where
  -- `p` is the current position of `i`.
  abbrev pub is_at : List (IdType × ℕ) → ℕ → IdType → Bool
  is_at ids p i = elim (lookup i ids) [ none ↦ false | some r ↦ ite (ℕ_discrete r p) true false ]

  abbrev pub any_at : List (IdType × ℕ) → ℕ → List IdType → Bool
  any_at ids p [] = false
  any_at ids p (i ∷ is) = is_at ids p i || any_at ids p is

  erase_one_lem :
      (i : IdType) (s : FaissIndex F IdType) (p : ℕ)
      → member p (erase_one F i s).erased ≡ (is_at s.ids p i || member p s.erased)
  unfolding erase_one
  erase_one_lem i s p = elim (Option-cases (lookup i s.ids)) [
    | inl q ↦ ground (arith, q)
    | inr (r, q) ↦ ground (arith, q, member-include r p s.erased)
  ]

  erase_one_ids :
      (i : IdType) (s : FaissIndex F IdType)
      → ((erase_one F i s).ids ≡ s.ids) × ((erase_one F i s).inv_ids ≡ s.inv_ids)
  unfolding erase_one
  erase_one_ids i s = elim (Option-cases (lookup i s.ids)) [
    | inl q ↦ rw (q, erase_one) (refl, refl)
    | inr (r, q) ↦ rw (q, erase_one) (refl, refl)
  ]

  -- `erase_batch` hides the current positions of its identifiers and no other, and leaves the
  -- tables of identifiers as they are.
  pub erase_batch_lem :
      (is : List IdType) (s : FaissIndex F IdType)
      → ((p : ℕ) → member p (erase_batch F is s).erased ≡ (any_at s.ids p is || member p s.erased))
        × ((erase_batch F is s).ids ≡ s.ids)
        × ((erase_batch F is s).inv_ids ≡ s.inv_ids)
  unfolding erase_batch
  erase_batch_lem [] s = (λ p. refl, refl, refl)
  erase_batch_lem (i ∷ is) s =
      let (a, b, c) = erase_batch_lem is (erase_one F i s) in
      let (b', c') = erase_one_ids i s in
      (λ p. a p ∙ rw (b', erase_one_lem i s p) (ground arith), b ∙ b', c ∙ c')

  -- Every identifier was added once only.
  abbrev pub AddedOnce : FaissIndex F IdType → Type 0
  AddedOnce s =
      (p q : ℕ) (i : IdType) → lookup p s.inv_ids ≡ some i → lookup q s.inv_ids ≡ some i → p ≡ q

  any_at-member :
      (is : List IdType) (ids : List (IdType × ℕ)) (p : ℕ) (i : IdType)
      → lookup i ids ≡ some p
      → member i is ≡ true
      → any_at ids p is ≡ true
  unfolding member
  any_at-member [] ids p i q m = cc
  any_at-member (j ∷ is) ids p i q m = elim (e.dec j i) [
    | yes same ↦ ground (arith, ap (λ t. lookup t ids) same ∙ q)
    | no other ↦
        ground (
          arith,
          any_at-member is ids p i q (sym (if_neg (e.dec j i) other true (member i is)) ∙ m),
        )
  ]

  module _ (h : List IdType) (s : FaissIndex F IdType) (v : IsValid F h s) (once : AddedOnce s)
      (is : List IdType) (i : IdType) (named : member i is ≡ true) where
    -- No live result carries an erased identifier.
    not_live : (r : IdType × Dist) → IsLive F (erase_batch F is s) r → r.0 ≢ i
    not_live (j, d) (p, found, live) same =
        let (erased, _, tables) = erase_batch_lem is s in
        let at_p : lookup p s.inv_ids ≡ some i =
          ap (lookup p) (sym tables) ∙ found ∙ ap some same in
        let (r, current) = lookup-has_key i s.ids (v.known i p at_p) in
        let e' : r ≡ p = once r p i (v.current i r current) at_p in
        let hit = any_at-member is s.ids p i (current ∙ ap some e') named in
        ground (arith, erased p, live, hit)

    All-not_live :
        (out : List (IdType × Dist))
        → All (IsLive F (erase_batch F is s)) out
        → All (λ r. r.0 ≢ i) out
    All-not_live [] h = tt
    All-not_live (r ∷ out) h = (not_live r h.0, All-not_live out h.1)

    -- In a consistent index in which each identifier was added once, no search after `erase_batch`
    -- throws or returns an identifier of the batch.
    pub single_search-erase_batch :
        (k : ℕ) (q : Vec)
        → (out : List (IdType × Dist)) × (single_search F k q (erase_batch F is s) ≡ some out)
          × All (λ r. r.0 ≢ i) out
    single_search-erase_batch k q =
        let (out, r, live, _, _) = single_search_lem F k q (erase_batch F is s) in
        (out, r, All-not_live out live)

  -- Every position that the identifiers name is erased already.
  abbrev pub IsDone : List IdType → FaissIndex F IdType → Type 0
  IsDone [] s = Unit {0}
  IsDone (i ∷ is) s = ((p : ℕ) → lookup i s.ids ≡ some p → member p s.erased ≡ true) × IsDone is s

  erase_one_done :
      (i : IdType) (s : FaissIndex F IdType)
      → ((p : ℕ) → lookup i s.ids ≡ some p → member p s.erased ≡ true)
      → erase_one F i s ≡ s
  unfolding erase_one
  erase_one_done i s h = elim (Option-cases (lookup i s.ids)) [
    | inl q ↦ rw (q, erase_one) refl
    | inr (p, q) ↦
        rw (q, erase_one) (ap (λ er. record s { erased = er }) (include-member p s.erased (h p q)))
  ]

  erase_batch_done :
      (is : List IdType) (s : FaissIndex F IdType) → IsDone is s → erase_batch F is s ≡ s
  unfolding erase_batch
  erase_batch_done [] s h = refl
  erase_batch_done (i ∷ is) s h = rw (erase_one_done i s h.0) (erase_batch_done is s h.1)

  module _ (is : List IdType) (s : FaissIndex F IdType) where
    named-IsDone :
        (js : List IdType)
        → ((i : IdType) → member i js ≡ true → member i is ≡ true)
        → IsDone js (erase_batch F is s)
    unfolding member
    named-IsDone [] h = tt
    named-IsDone (j ∷ js) h =
        let (erased, same, _) = erase_batch_lem is s in
        (
          λ p q.
              let hit =
                any_at-member is s.ids p j (ap (lookup j) (sym same) ∙ q)
                  (h j (if_pos (e.dec j j) refl true (member j js))) in
              ground (arith, erased p, hit),
          named-IsDone js (λ i m. h i (member_tail i j js m)),
        )

    -- A second `erase_batch` of the same identifiers changes nothing.
    pub erase_batch_twice : erase_batch F is (erase_batch F is s) ≡ erase_batch F is s
    erase_batch_twice = erase_batch_done is (erase_batch F is s) (named-IsDone is (λ i m. m))
