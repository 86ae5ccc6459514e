-- ===== src/Coordinator/Merging/Single.antt =====
-- MergeSearcherAnswers on one answer alone.
use vecodex.Prelude.{
  IsDistinct, insert_absent, has_key-append, append_nil, append_one, ℕ, zero, suc, ◌≡◌, refl, ap,
  ◌∙◌, sym, true, false, arith, if_neg, List, [], ◌∷◌, ◌++◌, map, Key, has_key, has_key-lookup,
  member, take,
}
use vecodex.Coordinator.Fraction.{Fraction, get_score, greater_asymm, get_score-falls}
use vecodex.Coordinator.Merging.{
  bump, tally, tally_all, insert_ranked, sort_ranked, merge_searcher_answers,
}

-- Every identifier with the score of its place, from place `n`.
abbrev pub scored : {DocId : Type 0} → ℕ → List DocId → List (DocId × Fraction)
scored n [] = []
scored n (i ∷ is) = (i, get_score n) ∷ scored (suc n) is

map-take-scored :
    {DocId : Type 0} (k n : ℕ) (is : List DocId) → map (λ p. p.0) (take k (scored n is)) ≡ take k is
map-take-scored zero n [] = refl
map-take-scored zero n (i ∷ is) = refl
map-take-scored (suc k) n [] = refl
map-take-scored (suc k) n (i ∷ is) = ap (λ l. i ∷ l) (map-take-scored k (suc n) is)

module _ {DocId : Type 0} ⦃e : Key DocId⦄ where
  bump_absent :
      (i : DocId) (n : ℕ) (m : List (DocId × Fraction))
      → has_key i m ≡ false
      → bump i n m ≡ m ++ (i, get_score n) ∷ []
  unfolding bump
  bump_absent i n m h = rw (bump, has_key-lookup i m h) (insert_absent i (get_score n) m h)

  AreAbsent : List DocId → List (DocId × Fraction) → Type 0
  AreAbsent [] m = Unit {0}
  AreAbsent (i ∷ is) m = (has_key i m ≡ false) × AreAbsent is m

  AreAbsent-append :
      (i : DocId) (s : Fraction) (is : List DocId) (m : List (DocId × Fraction))
      → member i is ≡ false
      → AreAbsent is m
      → AreAbsent is (m ++ (i, s) ∷ [])
  unfolding AreAbsent member
  AreAbsent-append i s [] m h a = tt
  AreAbsent-append i s (j ∷ is) m h a = elim (e.dec j i) [
    | yes q ↦ absurd (ground arith)
    | no n ↦ (
      has_key-append j i s m a.0 (λ q. n (sym q)),
      AreAbsent-append i s is m (sym (if_neg (e.dec j i) n true (member i is)) ∙ h) a.1,
    )
  ]

  tally_distinct :
      (n : ℕ) (is : List DocId) (m : List (DocId × Fraction))
      → IsDistinct is
      → AreAbsent is m
      → tally n is m ≡ m ++ scored n is
  unfolding tally AreAbsent
  tally_distinct n [] m d a = append_nil m
  tally_distinct n (i ∷ is) m d a =
      ap (tally (suc n) is) (bump_absent i n m a.0)
      ∙ tally_distinct (suc n) is (m ++ (i, get_score n) ∷ []) d.1
          (AreAbsent-append i (get_score n) is m d.0 a.1)
      ∙ append_one m (i, get_score n) (scored (suc n) is)

  sort_ranked-scored : (n : ℕ) (is : List DocId) → sort_ranked (scored n is) ≡ scored n is
  unfolding sort_ranked insert_ranked
  sort_ranked-scored n [] = refl
  sort_ranked-scored n (i ∷ []) = refl
  sort_ranked-scored n (i ∷ j ∷ is) =
      ap (insert_ranked (i, get_score n)) (sort_ranked-scored (suc n) (j ∷ is))
      ∙ rw
          (greater_asymm (get_score n) (get_score (suc n))
            (get_score-falls n (suc n) (omega arith)))
          refl

  AreAbsent-nil : (is : List DocId) → AreAbsent is []
  unfolding AreAbsent has_key
  AreAbsent-nil [] = tt
  AreAbsent-nil (i ∷ is) = (refl, AreAbsent-nil is)

  -- One answer in which no identifier stands twice is merged into its first `k` identifiers, in
  -- their order.
  pub merge_searcher_answers_single :
      (is : List DocId) (k : ℕ) → IsDistinct is → merge_searcher_answers (is ∷ []) k ≡ take k is
  unfolding merge_searcher_answers tally_all
  merge_searcher_answers_single is k d =
      ap (λ m. map (λ p. p.0) (take k (sort_ranked m)))
        (tally_distinct 0 is [] d (AreAbsent-nil is))
      ∙ ap (λ m. map (λ p. p.0) (take k m)) (sort_ranked-scored 0 is)
      ∙ map-take-scored k 0 is
