-- ===== src/PrometheusExposer.antt =====
-- PrometheusExposer (app/include/utils/PrometheusExposer.h): families of counters and gauges by name.
-- Values are exact natural numbers in place of doubles.
pub mod Counting
pub mod Interleaving
pub mod Gauges
use vecodex.Prelude.{ℕ, ◌≡◌, ◌++◌, Option, none, some, List, [], ◌∷◌, Key, lookup, insert}
use vecodex.Searcher.{Outcome, answer, exception, crash}

-- prometheus::Registry with its families, which are not part of the repository. `none` is an exception;
-- `increment`, `set` and the reading calls include the call of Add that gives the metric of the labels.
pub record Registry (Name Labels : Type 0) : Type 1 where
  pub State : Type 0
  pub CounterFamily : Type 0
  pub build_counter : Name → Name → State → Option (CounterFamily × State)
  pub add_counter : CounterFamily → Labels → State → State
  pub increment : CounterFamily → Labels → ℕ → State → State
  pub counter_value : CounterFamily → Labels → State → Option ℕ × State
  pub GaugeFamily : Type 0
  pub build_gauge : Name → Name → State → Option (GaugeFamily × State)
  pub add_gauge : GaugeFamily → Labels → State → State
  pub set : GaugeFamily → Labels → ℕ → State → State
  pub gauge_value : GaugeFamily → Labels → State → Option ℕ × State

module _ {Name Labels : Type 0} (R : Registry Name Labels) where
  pub record PrometheusExposer : Type 0 where
    pub registry : R.State
    pub counter_families : List (Name × R.CounterFamily)
    pub gauge_families : List (Name × R.GaugeFamily)

-- Where a thread stands in IncrementCounter; each of the three steps is under the lock. `failed` is an
-- exception, and `crashed` a call through a null pointer.
pub data Pc (Name Labels : Type 0) : Type 0 where
  trying adding incrementing : Name → Labels → ℕ → Pc Name Labels
  failed crashed : Name → Labels → ℕ → Pc Name Labels
  done : Pc Name Labels

module _ {Name Labels : Type 0} (R : Registry Name Labels) ⦃e : Key Name⦄ where
  unfoldable pub add_counter :
      Name → Name → Labels → PrometheusExposer R → Option (PrometheusExposer R)
  add_counter name help labels s = elim (lookup name s.counter_families) [
    | some family ↦ some s
    | none ↦ elim (R.build_counter name help s.registry) [
      | none ↦ none
      | some r ↦ some (record s {
        registry = R.add_counter r.0 labels r.1;
        counter_families = insert name r.0 s.counter_families;
      })
    ]
  ]

  abbrev pub increment_in : R.CounterFamily → Labels → ℕ → PrometheusExposer R → PrometheusExposer R
  increment_in family labels value s = record s {
    registry = R.increment family labels value s.registry;
  }

  -- A step of a thread in IncrementCounter. `empty` is the empty string.
  unfoldable pub increment_step :
      Name → Pc Name Labels → PrometheusExposer R → Pc Name Labels × PrometheusExposer R
  unfolding add_counter
  increment_step empty (trying name labels value) s = elim (lookup name s.counter_families) [
    | some family ↦ (done, increment_in family labels value s)
    | none ↦ (adding name labels value, s)
  ]
  increment_step empty (adding name labels value) s = elim (add_counter name empty labels s) [
    | none ↦ (failed name labels value, s)
    | some s' ↦ (incrementing name labels value, s')
  ]
  increment_step empty (incrementing name labels value) s = elim (lookup name s.counter_families) [
    | some family ↦ (done, increment_in family labels value s)
    | none ↦ (crashed name labels value, s)
  ]
  increment_step empty (failed name labels value) s = (failed name labels value, s)
  increment_step empty (crashed name labels value) s = (crashed name labels value, s)
  increment_step empty done s = (done, s)

  -- The call, when no other thread comes between its steps.
  unfoldable pub increment_counter :
      Name → Name → ℕ → Labels → PrometheusExposer R → Pc Name Labels × PrometheusExposer R
  unfolding increment_step
  increment_counter empty name value labels s =
      let first = increment_step empty (trying name labels value) s in
      let second = increment_step empty first.0 first.1 in increment_step empty second.0 second.1

  unfoldable pub get_counter_value :
      Name → Labels → PrometheusExposer R → Option ℕ × PrometheusExposer R
  get_counter_value name labels s = elim (lookup name s.counter_families) [
    | none ↦ (none, s)
    | some family ↦ (
      (R.counter_value family labels s.registry).0,
      record s { registry = (R.counter_value family labels s.registry).1 },
    )
  ]

  unfoldable pub add_gauge :
      Name → Name → Labels → PrometheusExposer R → Option (PrometheusExposer R)
  add_gauge name help labels s = elim (lookup name s.gauge_families) [
    | some family ↦ some s
    | none ↦ elim (R.build_gauge name help s.registry) [
      | none ↦ none
      | some r ↦ some (record s {
        registry = R.add_gauge r.0 labels r.1;
        gauge_families = insert name r.0 s.gauge_families;
      })
    ]
  ]

  abbrev pub set_in : R.GaugeFamily → Labels → ℕ → PrometheusExposer R → PrometheusExposer R
  set_in family labels value s = record s { registry = R.set family labels value s.registry }

  -- SetGauge, when no other thread comes between its three steps.
  unfoldable pub set_gauge :
      Name → Name → ℕ → Labels → PrometheusExposer R → Outcome (PrometheusExposer R)
  unfolding add_gauge
  set_gauge empty name value labels s = elim (lookup name s.gauge_families) [
    | some family ↦ answer (set_in family labels value s)
    | none ↦ elim (add_gauge name empty labels s) [
      | none ↦ exception
      | some s' ↦ elim (lookup name s'.gauge_families) [
        | none ↦ crash
        | some family ↦ answer (set_in family labels value s')
      ]
    ]
  ]

  unfoldable pub get_gauge_value :
      Name → Labels → PrometheusExposer R → Option ℕ × PrometheusExposer R
  get_gauge_value name labels s = elim (lookup name s.gauge_families) [
    | none ↦ (none, s)
    | some family ↦ (
      (R.gauge_value family labels s.registry).0,
      record s { registry = (R.gauge_value family labels s.registry).1 },
    )
  ]

  -- The exposer with the threads that are in IncrementCounter.
  pub record System : Type 0 where
    pub exposer : PrometheusExposer R
    pub threads : List (Pc Name Labels)

  -- One thread takes a step, or another one reads a counter.
  pub data Step (empty : Name) (y : System) : System → Type 0 where
    turn :
        (before : List (Pc Name Labels)) (p : Pc Name Labels) (after : List (Pc Name Labels))
        → y.threads ≡ before ++ p ∷ after
        → Step empty y (record {
          exposer = (increment_step empty p y.exposer).1;
          threads = before ++ (increment_step empty p y.exposer).0 ∷ after;
        })
    read :
        (name : Name) (labels : Labels)
        → Step empty y (record y { exposer = (get_counter_value name labels y.exposer).1 })

  pub data Reach (empty : Name) (y : System) : System → Type 0 where
    begin : Reach empty y y
    later : {x z : System} → Reach empty y x → Step empty x z → Reach empty y z
