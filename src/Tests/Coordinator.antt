-- ===== src/Tests/Coordinator.antt =====
-- Runs of the coordinator's parts; few_response and one_response are those of
-- app/tests/ut/merging_test.cpp.
use vecodex.Prelude.{
  IsOnce, ℕ, ◌*◌, ◌≡◌, refl, true, false, none, List, [], ◌∷◌, map, nat_key, lookup, insert,
  ℕ_discrete, take,
}
use vecodex.Coordinator.Fraction.{Fraction, get_score, add_score, greater, den}
use vecodex.Coordinator.Merging.{
  bump, tally, tally_all, insert_ranked, sort_ranked, merge_searcher_answers,
}
use vecodex.Coordinator.Merging.Ranking.{IsDescending, score_of, merge_searcher_answers_lem}
use vecodex.Coordinator.Stats.{ResponseStats, new_stats, aggregate_all, average-aggregate_all}

abbrev fakes : List (List ℕ)
fakes = (0 ∷ 1 ∷ 2 ∷ 3 ∷ 4 ∷ []) ∷ (1 ∷ 2 ∷ 3 ∷ 4 ∷ 0 ∷ []) ∷ (2 ∷ 3 ∷ 4 ∷ 0 ∷ 1 ∷ []) ∷ []

few_response : merge_searcher_answers fakes 5 ≡ 2 ∷ 1 ∷ 3 ∷ 0 ∷ 4 ∷ []
unfolding merge_searcher_answers tally_all tally bump sort_ranked insert_ranked get_score add_score
    greater lookup insert ℕ_discrete
few_response = refl

merge_searcher_answers_lem_example :
    (ranked : List (ℕ × Fraction)) × (merge_searcher_answers fakes 2
      ≡ map (λ p. p.0) (take 2 ranked))
    × IsOnce ranked
    × IsDescending ranked
    × ((i : ℕ) → lookup i ranked ≡ score_of i fakes none)
merge_searcher_answers_lem_example = merge_searcher_answers_lem fakes 2

abbrev two_answers : List ResponseStats
two_answers =
    record { resp_time = 6; is_error = false } ∷ record { resp_time = 9; is_error = false } ∷ []

abbrev with_error : List ResponseStats
with_error = record { resp_time = 3; is_error = true } ∷ two_answers

average-aggregate_all_example :
    (aggregate_all two_answers new_stats).average_response_time.num * 3
    ≡ 15 * den (aggregate_all two_answers new_stats).average_response_time
average-aggregate_all_example = average-aggregate_all two_answers (refl, (refl, tt))
