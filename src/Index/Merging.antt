-- ===== src/Index/Merging.antt =====
-- SegmentStorage::merge ends, and what it does to `segments_`.
use vecodex.Prelude.{
  ℕ, zero, suc, ◌+◌, ◌*◌, ◌≤◌, ◌≡◌, ◌≢◌, refl, ap, ◌∙◌, Option, none, some, List, [], ◌∷◌, ◌++◌,
  map, Key, length, length-append, ◌==◌, if◌then◌else◌, arith, All, if_intro,
}
use vecodex.BaseIndex.{IBaseIndex}
use vecodex.Segment.{Segment}
use vecodex.Index.State.{Index, call_back}
use vecodex.Index.Storage.{
  Scan, scan, merge_pair, push_next, drop_null, merge_fuel, merge_levels, merge, commit, start,
  erase_first, erase_all,
}

module _ {IdType Vec Dist : Type 0} (B : IBaseIndex IdType Vec Dist) ⦃e : Key IdType⦄
    (rand : ℕ → ℕ) where
  -- Every merge takes two pointers out of the level.
  scan_count :
      (l : List (Option ℕ)) (a : Scan B)
      → 2 * length (scan B rand l a).1.inserted ≤ 2 * length a.inserted + length (drop_null l)
  unfolding scan drop_null
  scan_count [] a = omega arith
  scan_count (none ∷ r) a = scan_count r a
  scan_count (some p ∷ []) a = omega arith
  scan_count (some p ∷ none ∷ r) a = omega (arith, scan_count r a)
  scan_count (some p ∷ some q ∷ r) a = ground (
    arith,
    scan_count r (merge_pair B rand p q a),
    scan_count (some q ∷ r) a,
    length-append a.inserted (p ∷ []),
  )

  drop_null-map : (ps : List ℕ) → length (drop_null (map some ps)) ≡ length ps
  unfolding drop_null
  drop_null-map [] = refl
  drop_null-map (p ∷ ps) = ap suc (drop_null-map ps)

  drop_null-append :
      (l m : List (Option ℕ))
      → length (drop_null (l ++ m)) ≡ length (drop_null l) + length (drop_null m)
  unfolding drop_null
  drop_null-append [] m = omega arith
  drop_null-append (none ∷ l) m = drop_null-append l m
  drop_null-append (some p ∷ l) m = omega (arith, drop_null-append l m)

  push_next_fuel :
      (ps : List ℕ) (ls : List (List (Option ℕ)))
      → merge_fuel (push_next ps ls) ≤ merge_fuel ls + 2 * length ps
  unfolding push_next merge_fuel drop_null
  push_next_fuel [] ls = omega arith
  push_next_fuel (p ∷ ps) [] = omega (arith, drop_null-map ps)
  push_next_fuel (p ∷ ps) (l ∷ ls) =
      omega (arith, drop_null-append l (some p ∷ map some ps), drop_null-map ps)

  merge_levels_step :
      (fuel amount : ℕ) (l : List (Option ℕ)) (ls : List (List (Option ℕ))) (s : Index B)
      → let done = scan B rand l (start B rand amount s) in
        (r : List (List (Option ℕ)) × Index B) × (merge_levels B rand fuel done.1.amount
              (push_next done.1.inserted ls)
              (commit B rand done.1 s)
            ≡ some r)
        → (r : List (List (Option ℕ)) × Index B) × (merge_levels B rand (suc fuel) amount (l ∷ ls) s
            ≡ some r)
  unfolding merge_levels
  merge_levels_step fuel amount l ls s (r, q) =
      let done = scan B rand l (start B rand amount s) in
      if_intro
        (λ (x : Option (List (List (Option ℕ)) × Index B)).
          (r : List (List (Option ℕ)) × Index B) × (x ≡ some r))
        (amount == 0) _ _ (λ _. ((l ∷ ls, s), refl)) (λ _. ((done.0 ∷ r.0, r.1), ground (arith, q)))

  -- With a fuel of the levels and the pointers in them the loop over the levels ends.
  merge_levels_total :
      (fuel amount : ℕ) (ls : List (List (Option ℕ))) (s : Index B)
      → merge_fuel ls ≤ fuel
      → (r : List (List (Option ℕ)) × Index B) × (merge_levels B rand fuel amount ls s ≡ some r)
  unfolding merge_levels merge_fuel
  merge_levels_total fuel amount [] s h = (([], s), refl)
  merge_levels_total zero amount (l ∷ ls) s h = absurd (omega arith)
  merge_levels_total (suc fuel) amount (l ∷ ls) s h =
      let done = scan B rand l (start B rand amount s) in
      merge_levels_step fuel amount l ls s (
        merge_levels_total fuel done.1.amount (push_next done.1.inserted ls)
          (commit B rand done.1 s)
          (omega (arith, push_next_fuel done.1.inserted ls, scan_count l (start B rand amount s))))

  -- `merge` ends: its loop over levels that it adds itself does not run out of fuel.
  pub merge_total : (amount : ℕ) (s : Index B) → (s' : Index B) × (merge B rand amount s ≡ some s')
  unfolding merge
  merge_total amount s =
      let ((ls, s'), q) =
        merge_levels_total (merge_fuel s.levels) amount s.levels s (omega arith) in
      (record s' { levels = map drop_null ls }, ground (arith, q))

  -- How often a list of pointers holds one.
  abbrev pub count : ℕ → List ℕ → ℕ
  count p [] = 0
  count p (q ∷ ps) = let n = count p ps in if q == p then suc n else n

  count-append : (p : ℕ) (ps qs : List ℕ) → count p (ps ++ qs) ≡ count p ps + count p qs
  count-append p [] qs = omega arith
  count-append p (q ∷ ps) qs = ground (arith, count-append p ps qs)

  count-erase_first :
      (heap : ℕ → Segment B) (id p : ℕ) (ps : List ℕ)
      → (heap p).seg_id ≢ id
      → count p (erase_first B rand heap id ps) ≡ count p ps
  unfolding erase_first
  count-erase_first heap id p [] h = refl
  count-erase_first heap id p (q ∷ ps) h = ground (arith, count-erase_first heap id p ps h)

  count-erase_all :
      (heap : ℕ → Segment B) (ids : List ℕ) (p : ℕ) (ps : List ℕ)
      → All (λ id. (heap p).seg_id ≢ id) ids
      → count p (erase_all B rand heap ids ps) ≡ count p ps
  unfolding erase_all
  count-erase_all heap [] p ps h = refl
  count-erase_all heap (id ∷ ids) p ps h =
      count-erase_all heap ids p (erase_first B rand heap id ps) h.1
      ∙ count-erase_first heap id p ps h.0

  segments-commit :
      (a : Scan B) (s : Index B)
      → (commit B rand a s).segments ≡ erase_all B rand a.heap a.erased (s.segments ++ a.inserted)
  unfolding commit call_back
  segments-commit a s = ground arith

  -- `merge` erases from `segments_` by identifiers that it reads after it has changed them: a segment
  -- whose identifier is then none of those to be erased stays wherever it was in `segments_`, and is
  -- listed once more for each time it was merged.
  pub count-commit :
      (a : Scan B) (s : Index B) (p : ℕ)
      → All (λ id. (a.heap p).seg_id ≢ id) a.erased
      → count p (commit B rand a s).segments ≡ count p s.segments + count p a.inserted
  count-commit a s p h =
      ap (count p) (segments-commit a s)
      ∙ count-erase_all a.heap a.erased p (s.segments ++ a.inserted) h
      ∙ count-append p s.segments a.inserted
