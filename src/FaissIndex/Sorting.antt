-- ===== src/FaissIndex/Sorting.antt =====
-- The sorted hits: the same hits, by ascending distance.
use vecodex.Prelude.{
  ℕ, zero, suc, ◌≡◌, refl, true, false, List, [], ◌∷◌, Order, nat_order, lex, length, take, map,
  arith, All, Bool-cases, inl, inr,
}
use vecodex.FaissIndex.{insert_hit, sort_hits}

module _ {Dist : Type 0} ⦃o : Order Dist⦄ where
  abbrev pub HeadNotBelow : Dist → List Dist → Type 0
  HeadNotBelow d [] = Unit {0}
  HeadNotBelow d (d' ∷ ds) = o.less d' d ≡ false

  -- The distances do not fall.
  abbrev pub IsAscending : List Dist → Type 0
  IsAscending [] = Unit {0}
  IsAscending (d ∷ ds) = HeadNotBelow d ds × IsAscending ds

  abbrev pub hit_dists : List (Dist × ℕ) → List Dist
  hit_dists = map (λ h. h.0)

  lex-true-not_below : (d d' : Dist) (p p' : ℕ) → lex d' p' d p ≡ true → o.less d d' ≡ false
  lex-true-not_below d d' p p' h = ground (arith, o.less_irrefl d, o.less_trans d d' d)

  lex-false-not_below : (d d' : Dist) (p p' : ℕ) → lex d' p' d p ≡ false → o.less d' d ≡ false
  lex-false-not_below d d' p p' h = ground arith

  HeadNotBelow-insert_hit :
      (d c : Dist) (p : ℕ) (hits : List (Dist × ℕ))
      → o.less d c ≡ false
      → HeadNotBelow c (hit_dists hits)
      → HeadNotBelow c (hit_dists (insert_hit (d, p) hits))
  unfolding insert_hit
  HeadNotBelow-insert_hit d c p [] h k = h
  HeadNotBelow-insert_hit d c p ((d', p') ∷ hits) h k = elim (Bool-cases (lex d' p' d p)) [
    | inl q ↦ rw q k
    | inr q ↦ rw q h
  ]

  insert_hit-IsAscending :
      (d : Dist) (p : ℕ) (hits : List (Dist × ℕ))
      → IsAscending (hit_dists hits)
      → IsAscending (hit_dists (insert_hit (d, p) hits))
  unfolding insert_hit
  insert_hit-IsAscending d p [] h = (tt, tt)
  insert_hit-IsAscending d p ((d', p') ∷ hits) h = elim (Bool-cases (lex d' p' d p)) [
    | inl q ↦ rw q (
      HeadNotBelow-insert_hit d d' p hits (lex-true-not_below d d' p p' q) h.0,
      insert_hit-IsAscending d p hits h.1,
    )
    | inr q ↦ rw q (lex-false-not_below d d' p p' q, h)
  ]

  pub sort_hits-IsAscending : (hits : List (Dist × ℕ)) → IsAscending (hit_dists (sort_hits hits))
  unfolding sort_hits
  sort_hits-IsAscending [] = tt
  sort_hits-IsAscending ((d, p) ∷ hits) =
      insert_hit-IsAscending d p (sort_hits hits) (sort_hits-IsAscending hits)

  pub take-IsAscending :
      (n : ℕ) (hits : List (Dist × ℕ))
      → IsAscending (hit_dists hits)
      → IsAscending (hit_dists (take n hits))
  take-IsAscending zero hits h = tt
  take-IsAscending (suc n) [] h = tt
  take-IsAscending (suc zero) ((d, p) ∷ hits) h = (tt, tt)
  take-IsAscending (suc (suc n)) ((d, p) ∷ []) h = (tt, tt)
  take-IsAscending (suc (suc n)) ((d, p) ∷ (d', p') ∷ hits) h =
      (h.0, take-IsAscending (suc n) ((d', p') ∷ hits) h.1)

  length-insert_hit :
      (x : Dist × ℕ) (hits : List (Dist × ℕ)) → length (insert_hit x hits) ≡ suc (length hits)
  unfolding insert_hit
  length-insert_hit (d, p) [] = refl
  length-insert_hit (d, p) ((d', p') ∷ hits) = ground (arith, length-insert_hit (d, p) hits)

  pub length-sort_hits : (hits : List (Dist × ℕ)) → length (sort_hits hits) ≡ length hits
  unfolding sort_hits
  length-sort_hits [] = refl
  length-sort_hits (x ∷ hits) =
      ground (arith, length-insert_hit x (sort_hits hits), length-sort_hits hits)

module _ {Dist : Type 0} ⦃o : Order Dist⦄ (P : Dist × ℕ → Type 0) where
  All-insert_hit :
      (x : Dist × ℕ) (hits : List (Dist × ℕ)) → P x → All P hits → All P (insert_hit x hits)
  unfolding insert_hit
  All-insert_hit (d, p) [] h k = (h, tt)
  All-insert_hit (d, p) ((d', p') ∷ hits) h k = elim (Bool-cases (lex d' p' d p)) [
    | inl q ↦ rw q (k.0, All-insert_hit (d, p) hits h k.1)
    | inr q ↦ rw q (h, k)
  ]

  pub All-sort_hits : (hits : List (Dist × ℕ)) → All P hits → All P (sort_hits hits)
  unfolding sort_hits
  All-sort_hits [] h = tt
  All-sort_hits (x ∷ hits) h = All-insert_hit x (sort_hits hits) h.0 (All-sort_hits hits h.1)
