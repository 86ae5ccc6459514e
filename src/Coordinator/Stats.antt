-- ===== src/Coordinator/Stats.antt =====
-- StatsManager (app/include/utils/Stats.h). The durations are natural numbers, the average an
-- exact fraction.
use vecodex.Prelude.{
  ℕ, ◌+◌, ◌*◌, ◌≡◌, refl, Bool, false, arith, List, Option, none, some, ltb, ◌-◌, ◌∙◌, ap, [], ◌∷◌,
  length, Bool-cases, inl, inr, subst, if◌then◌else◌,
}
use vecodex.Coordinator.Fraction.{Fraction, den}

-- ResponseStatsCollector when it is destroyed.
pub record ResponseStats : Type 0 where
  pub resp_time : ℕ
  pub is_error : Bool

pub record StatsManager : Type 0 where
  pub average_response_time : Fraction
  pub responses_cnt : ℕ
  pub errors_cnt : ℕ

abbrev pub new_stats : StatsManager
new_stats = record {
  average_response_time = record { num = 0; below = 0 };
  responses_cnt = 0;
  errors_cnt = 0;
}

-- `(average * count + time) / (count + 1)`
unfoldable pub average_step : Fraction → ℕ → ℕ → Fraction
average_step a count time = record {
  num = a.num * count + time * den a;
  below = a.below * (count + 1) + count;
}

unfoldable pub aggregate_stats : ResponseStats → StatsManager → StatsManager
unfolding average_step
aggregate_stats r s =
    let count = s.responses_cnt + 1 in
    if r.is_error
    then record s { responses_cnt = count; errors_cnt = s.errors_cnt + 1 }
    else record s {
      responses_cnt = count;
      average_response_time = average_step s.average_response_time count r.resp_time;
    }

unfoldable pub aggregate_all : List ResponseStats → StatsManager → StatsManager
unfolding aggregate_stats
aggregate_all [] s = s
aggregate_all (r ∷ rs) s = aggregate_all rs (aggregate_stats r s)

-- GetSuccessCount; `none` is the failure of its assertion.
unfoldable pub get_success_count : StatsManager → Option ℕ
get_success_count s =
    if ltb s.errors_cnt s.responses_cnt then some (s.responses_cnt - s.errors_cnt) else none

abbrev pub total_time : List ResponseStats → ℕ
total_time [] = 0
total_time (r ∷ rs) = r.resp_time + total_time rs

abbrev pub errors_in : List ResponseStats → ℕ
errors_in [] = 0
errors_in (r ∷ rs) = (if r.is_error then 1 else 0) + errors_in rs

abbrev pub IsSuccessful : List ResponseStats → Type 0
IsSuccessful [] = Unit {0}
IsSuccessful (r ∷ rs) = (r.is_error ≡ false) × IsSuccessful rs

-- `average = total / (count + 1)`
abbrev pub Averages : ℕ → StatsManager → Type 0
Averages total s =
    s.average_response_time.num * (s.responses_cnt + 1) ≡ total * den s.average_response_time

pub aggregate_stats-counts :
    (r : ResponseStats) (s : StatsManager)
    → ((aggregate_stats r s).responses_cnt ≡ s.responses_cnt + 1)
      × ((aggregate_stats r s).errors_cnt ≡ s.errors_cnt + (if r.is_error then 1 else 0))
unfolding aggregate_stats
aggregate_stats-counts r s = elim (Bool-cases r.is_error) [
  | inl e ↦ rw e (refl, refl)
  | inr e ↦ rw e (refl, omega arith)
]

aggregate_all-counts :
    (rs : List ResponseStats) (s : StatsManager)
    → ((aggregate_all rs s).responses_cnt ≡ s.responses_cnt + length rs)
      × ((aggregate_all rs s).errors_cnt ≡ s.errors_cnt + errors_in rs)
unfolding aggregate_all
aggregate_all-counts [] s = (omega arith, omega arith)
aggregate_all-counts (r ∷ rs) s =
    let h = aggregate_stats-counts r s in
    let k = aggregate_all-counts rs (aggregate_stats r s) in (omega arith, omega arith)

average_lem :
    (n d c total t : ℕ)
    → n * (c + 1) ≡ total * (d + 1)
    → (n * (c + 1) + t * (d + 1)) * (c + 1 + 1) ≡ (total + t) * (d * (c + 1 + 1) + (c + 1) + 1)
average_lem n d c total t h = ap (λ x. (x + t * (d + 1)) * (c + 1 + 1)) h ∙ omega arith

aggregate_stats-Averages :
    (total : ℕ) (r : ResponseStats) (s : StatsManager)
    → r.is_error ≡ false
    → Averages total s
    → Averages (total + r.resp_time) (aggregate_stats r s)
unfolding aggregate_stats average_step
aggregate_stats-Averages total r s e h =
    let a = s.average_response_time in
    rw e (average_lem a.num a.below s.responses_cnt total r.resp_time h)

aggregate_all-Averages :
    (rs : List ResponseStats) (total : ℕ) (s : StatsManager)
    → IsSuccessful rs
    → Averages total s
    → Averages (total + total_time rs) (aggregate_all rs s)
unfolding aggregate_all
aggregate_all-Averages [] total s e h =
    let q : total ≡ total + 0 = omega arith in subst (λ n. Averages n s) q h
aggregate_all-Averages (r ∷ rs) total s e h =
    subst (λ n. Averages n (aggregate_all rs (aggregate_stats r s))) (omega arith)
      (aggregate_all-Averages rs (total + r.resp_time) (aggregate_stats r s) e.1
        (aggregate_stats-Averages total r s e.0 h))

-- After any responses a new StatsManager has counted the responses and the errors, and its success
-- count is their difference if a response succeeded, and fails its assertion otherwise.
pub get_success_count-aggregate_all :
    (rs : List ResponseStats)
    → ((aggregate_all rs new_stats).responses_cnt ≡ length rs)
      × ((aggregate_all rs new_stats).errors_cnt ≡ errors_in rs)
      × (get_success_count (aggregate_all rs new_stats)
          ≡ (if ltb (errors_in rs) (length rs) then some (length rs - errors_in rs) else none))
unfolding get_success_count
get_success_count-aggregate_all rs =
    let (h, k) = aggregate_all-counts rs new_stats in
    let s = aggregate_all rs new_stats in
    let p : s.responses_cnt ≡ length rs = omega arith in
    let q : s.errors_cnt ≡ errors_in rs = omega arith in (p, q, rw (p, q) refl)

-- After n successful responses the average that a new StatsManager reports is their total time
-- divided by n + 1, and not by n.
pub average-aggregate_all :
    (rs : List ResponseStats)
    → IsSuccessful rs
    → (aggregate_all rs new_stats).average_response_time.num * (length rs + 1)
      ≡ total_time rs * den (aggregate_all rs new_stats).average_response_time
average-aggregate_all rs e =
    let (h, k) = aggregate_all-counts rs new_stats in
    let s = aggregate_all rs new_stats in
    let p : s.responses_cnt ≡ length rs = omega arith in
    let z : 0 + total_time rs ≡ total_time rs = omega arith in
    subst (λ n. s.average_response_time.num * (n + 1) ≡ total_time rs * den s.average_response_time)
      p (subst (λ n. Averages n s) z (aggregate_all-Averages rs 0 new_stats e refl))
