-- ===== src/Tests/Metrics.antt =====
-- Counters and gauges in memory.
use mathlib.Core.Option.{some-injective}
use vecodex.Prelude.{
  sym, ap, true, none≢some, ℕ, ◌+◌, ◌≡◌, ◌≢◌, refl, some, [], ◌∷◌, nat_key, ℕ_discrete, lookup,
  has_key, insert, ite, All,
}
use vecodex.Searcher.{answer, crash}
use vecodex.PrometheusExposer.{
  Registry, PrometheusExposer, Pc, trying, done, add_counter, increment_step, get_counter_value,
  set_gauge, System, turn, Reach, begin, later,
}
use vecodex.PrometheusExposer.Counting.{IsRegistry, IsSafe, share, total}
use vecodex.PrometheusExposer.Interleaving.{Reach-counts}
use vecodex.PrometheusExposer.Gauges.{HasGauges, IsOneSet, get_gauge_value-set_gauge}

-- The counters and the gauges; a family is its name.
abbrev Metrics : Type 0
Metrics = (ℕ → ℕ → ℕ) × (ℕ → ℕ → ℕ)

abbrev memory : Registry ℕ ℕ
memory = record {
  State = Metrics;
  CounterFamily = ℕ;
  build_counter = λ name help st. some (name, st);
  add_counter = λ family labels st. st;
  increment = λ family labels value st. (λ n l. st.0 n l + share n l family labels value, st.1);
  counter_value = λ family labels st. (some (st.0 family labels), st);
  GaugeFamily = ℕ;
  build_gauge = λ name help st. some (name, st);
  add_gauge = λ family labels st. st;
  set = λ family labels value st. (
    st.0,
    λ n l. ite (ℕ_discrete family n) (ite (ℕ_discrete labels l) value (st.1 n l)) (st.1 n l),
  );
  gauge_value = λ family labels st. (some (st.1 family labels), st);
}

abbrev memory-IsRegistry : IsRegistry memory
memory-IsRegistry = record {
  name_of = λ family. family;
  reading = λ n l st. st.0 n l;
  name_of-build =
      λ name help family st st' h. ap (λ (r : ℕ × Metrics). r.0) (some-injective _ _ (sym h));
  reading-build = λ name help family st st' n l h.
      ap (λ (r : ℕ × Metrics). r.1.0 n l) (some-injective _ _ (sym h));
  reading-add = λ family labels st n l. refl;
  reading-increment = λ family labels value st n l. refl;
  value-reading = λ family labels st. refl;
  reading-value = λ family labels st n l. refl;
}

memory-HasGauges : HasGauges memory
memory-HasGauges = record {
  name_of = λ family. family;
  reading = λ n l st. st.1 n l;
  name_of-build =
      λ name help family st st' h. ap (λ (r : ℕ × Metrics). r.0) (some-injective _ _ (sym h));
  reading-build = λ name help family st st' n l h.
      ap (λ (r : ℕ × Metrics). r.1.1 n l) (some-injective _ _ (sym h));
  reading-add = λ family labels st n l. refl;
  reading-set = λ family labels value st n l. refl;
  value-reading = λ family labels st. refl;
}

abbrev fresh : PrometheusExposer memory
fresh = record { registry = (λ n l. 0, λ n l. 0); counter_families = []; gauge_families = [] }

-- Two threads that increment one counter for the first time.
abbrev y : System memory
y = record { exposer = fresh; threads = trying 1 2 3 ∷ trying 1 2 4 ∷ [] }

-- Both find no family before either has added it.
abbrev z : System memory
z = record {
  exposer = record fresh {
    registry = (λ n l. 0 + share n l 1 2 3 + share n l 1 2 4, λ n l. 0);
    counter_families = (1, 1) ∷ [];
  };
  threads = done ∷ done ∷ [];
}

y-Reach : Reach memory 0 y z
unfolding increment_step add_counter lookup insert ℕ_discrete
y-Reach =
    later
      (later
        (later
          (later
            (later (later begin (turn [] (trying 1 2 3) (trying 1 2 4 ∷ []) refl))
              (turn (Pc.adding 1 2 3 ∷ []) (trying 1 2 4) [] refl))
            (turn [] (Pc.adding 1 2 3) (Pc.adding 1 2 4 ∷ []) refl))
          (turn (Pc.incrementing 1 2 3 ∷ []) (Pc.adding 1 2 4) [] refl))
        (turn [] (Pc.incrementing 1 2 3) (Pc.incrementing 1 2 4 ∷ []) refl))
      (turn (done ∷ []) (Pc.incrementing 1 2 4) [] refl)

Reach-counts_example :
    All (IsSafe memory memory-IsRegistry 0 z.exposer) z.threads
    × ((n l : ℕ) → z.exposer.registry.0 n l + total n l z.threads ≡ 0 + total n l y.threads)
    × (All (λ p. p ≡ done) z.threads
        → (n l : ℕ) → has_key n z.exposer.counter_families ≡ true
        → (get_counter_value memory n l z.exposer).0 ≡ some (0 + total n l y.threads))
unfolding lookup
Reach-counts_example =
    Reach-counts memory memory-IsRegistry 0 y z (λ n family h. absurd (none≢some h)) (tt, (tt, tt))
      y-Reach

both_counted : (get_counter_value memory 1 2 z.exposer).0 ≡ some 7
unfolding get_counter_value lookup ℕ_discrete
both_counted = refl

get_gauge_value-set_gauge_example :
    (set_gauge memory 0 5 9 6 fresh ≢ crash)
    × ((s' : PrometheusExposer memory)
        → set_gauge memory 0 5 9 6 fresh ≡ answer s'
        → IsOneSet memory memory-HasGauges 0 5 9 6 fresh s')
unfolding lookup
get_gauge_value-set_gauge_example =
    get_gauge_value-set_gauge memory memory-HasGauges 0 5 9 6 fresh
      (λ n family h. absurd (none≢some h))
