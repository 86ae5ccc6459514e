-- ===== src/Coordinator/Merging.antt =====
-- MergeSearcherAnswers (app/include/Merging.h): reciprocal rank fusion of the answers.
pub mod Ranking
pub mod Single
pub mod Origin
use vecodex.Prelude.{
  ℕ, suc, ◌≡◌, Bool, true, false, Option, none, some, List, [], ◌∷◌, ◌++◌, map, Key, lookup, insert,
  take, if◌then◌else◌,
}
use vecodex.Coordinator.Fraction.{Fraction, get_score, add_score, greater}

module _ {DocId : Type 0} ⦃e : Key DocId⦄ where
  -- The body of the inner loop, for an identifier at place `n`.
  unfoldable pub bump : DocId → ℕ → List (DocId × Fraction) → List (DocId × Fraction)
  bump i n doc_to_score = elim (lookup i doc_to_score) [
    | none ↦ insert i (get_score n) doc_to_score
    | some s ↦ insert i (add_score s (get_score n)) doc_to_score
  ]

  -- The inner loop, from place `n`.
  unfoldable pub tally : ℕ → List DocId → List (DocId × Fraction) → List (DocId × Fraction)
  unfolding bump
  tally n [] m = m
  tally n (i ∷ is) m = tally (suc n) is (bump i n m)

  unfoldable pub tally_all : List (List DocId) → List (DocId × Fraction) → List (DocId × Fraction)
  unfolding tally
  tally_all [] m = m
  tally_all (r ∷ rs) m = tally_all rs (tally 0 r m)

  -- `std::sort` by descending score; of equal scores the earlier entry stays first.
  unfoldable pub insert_ranked :
      DocId × Fraction → List (DocId × Fraction) → List (DocId × Fraction)
  insert_ranked (i, s) [] = (i, s) ∷ []
  insert_ranked (i, s) ((j, t) ∷ m) =
      let rest = insert_ranked (i, s) m in
      if greater t s then (j, t) ∷ rest else (i, s) ∷ (j, t) ∷ m

  unfoldable pub sort_ranked : List (DocId × Fraction) → List (DocId × Fraction)
  unfolding insert_ranked
  sort_ranked [] = []
  sort_ranked (x ∷ m) = insert_ranked x (sort_ranked m)

  unfoldable pub merge_searcher_answers : List (List DocId) → ℕ → List DocId
  unfolding tally_all sort_ranked
  merge_searcher_answers responses num_requested =
      map (λ p. p.0) (take num_requested (sort_ranked (tally_all responses [])))
