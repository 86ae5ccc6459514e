-- ===== src/PrometheusExposer/Counting.antt =====
-- IncrementCounter by several threads, whose steps come in any order.
use vecodex.Prelude.{
  ℕ, ◌+◌, ◌≡◌, refl, sym, ap, ◌∙◌, subst, true, some, none≢some, List, [], ◌∷◌, ◌++◌, Option-cases,
  Bool-cases, inl, inr, Key, lookup, lookup-insert, has_key, insert, has_key-insert, lookup-has_key,
  has_key-lookup, ite, if_pos, if_neg, arith,
}
use mathlib.Core.Option.{some-injective}
use vecodex.PrometheusExposer.{
  Registry, PrometheusExposer, Pc, trying, adding, incrementing, failed, crashed, done, add_counter,
  increment_in, increment_step,
}

module _ {Name Labels : Type 0} ⦃e : Key Name⦄ ⦃d : Key Labels⦄ where
  -- What an increment of one counter adds to a counter.
  abbrev pub share : Name → Labels → Name → Labels → ℕ → ℕ
  share n l name labels value = ite (e.dec name n) (ite (d.dec labels l) value 0) 0

  -- What a thread has still to add to a counter, and what an exception kept it from adding.
  abbrev pub pending : Name → Labels → Pc Name Labels → ℕ
  pending n l done = 0
  pending n l (trying name labels value) = share n l name labels value
  pending n l (adding name labels value) = share n l name labels value
  pending n l (incrementing name labels value) = share n l name labels value
  pending n l (failed name labels value) = share n l name labels value
  pending n l (crashed name labels value) = share n l name labels value

  abbrev pub total : Name → Labels → List (Pc Name Labels) → ℕ
  total n l [] = 0
  total n l (p ∷ threads) = pending n l p + total n l threads

  pub total-append :
      (n : Name) (l : Labels) (before after : List (Pc Name Labels))
      → total n l (before ++ after) ≡ total n l before + total n l after
  total-append n l [] after = omega arith
  total-append n l (p ∷ before) after = let h = total-append n l before after in omega arith

-- What the library documents of counters: a family has the name that it was built with, and a counter
-- changes only when it is incremented, by as much.
pub record IsRegistry {Name Labels : Type 0} (R : Registry Name Labels) ⦃e : Key Name⦄
    ⦃d : Key Labels⦄ : Type 0 where
  pub name_of : R.CounterFamily → Name
  pub reading : Name → Labels → R.State → ℕ
  pub name_of-build :
      (name help : Name) (family : R.CounterFamily) (st st' : R.State)
      → R.build_counter name help st ≡ some (family, st')
      → name_of family ≡ name
  pub reading-build :
      (name help : Name) (family : R.CounterFamily) (st st' : R.State) (n : Name) (l : Labels)
      → R.build_counter name help st ≡ some (family, st')
      → reading n l st' ≡ reading n l st
  pub reading-add :
      (family : R.CounterFamily) (labels : Labels) (st : R.State) (n : Name) (l : Labels)
      → reading n l (R.add_counter family labels st) ≡ reading n l st
  pub reading-increment :
      (family : R.CounterFamily) (labels : Labels) (value : ℕ) (st : R.State) (n : Name)
      (l : Labels)
      → reading n l (R.increment family labels value st)
        ≡ reading n l st + share n l (name_of family) labels value
  pub value-reading :
      (family : R.CounterFamily) (labels : Labels) (st : R.State)
      → (R.counter_value family labels st).0 ≡ some (reading (name_of family) labels st)
  pub reading-value :
      (family : R.CounterFamily) (labels : Labels) (st : R.State) (n : Name) (l : Labels)
      → reading n l (R.counter_value family labels st).1 ≡ reading n l st

module _ {Name Labels : Type 0} (R : Registry Name Labels) ⦃e : Key Name⦄ ⦃d : Key Labels⦄
    (K : IsRegistry R) (empty : Name) where
  -- Every pointer of the map leads to the family of its name.
  abbrev pub IsNamed : PrometheusExposer R → Type 0
  IsNamed s =
      (n : Name) (family : R.CounterFamily)
      → lookup n s.counter_families ≡ some family
      → K.name_of family ≡ n

  -- A thread does not stand before or at a null pointer.
  abbrev pub IsSafe : PrometheusExposer R → Pc Name Labels → Type 0
  IsSafe s (incrementing name labels value) = has_key name s.counter_families ≡ true
  IsSafe s (crashed name labels value) = ⊥
  IsSafe s (trying name labels value) = Unit {0}
  IsSafe s (adding name labels value) = Unit {0}
  IsSafe s (failed name labels value) = Unit {0}
  IsSafe s done = Unit {0}

  -- What a step of one thread keeps.
  pub record IsKept (s s' : PrometheusExposer R) (p p' : Pc Name Labels) : Type 0 where
    pub named : IsNamed s'
    pub safe : IsSafe s' p'
    pub known :
        (n : Name) → has_key n s.counter_families ≡ true → has_key n s'.counter_families ≡ true
    pub counted :
        (n : Name) (l : Labels)
        → K.reading n l s'.registry + pending n l p' ≡ K.reading n l s.registry + pending n l p

  incremented :
      (s : PrometheusExposer R) (p : Pc Name Labels) (name : Name) (labels : Labels) (value : ℕ)
      (family : R.CounterFamily)
      → IsNamed s
      → lookup name s.counter_families ≡ some family
      → ((n : Name) (l : Labels) → pending n l p ≡ share n l name labels value)
      → IsKept s (increment_in R family labels value s) p done
  incremented s p name labels value family m h w = record {
    named = m;
    safe = tt;
    known = λ n k. k;
    counted = λ n l.
        let q = K.reading-increment family labels value s.registry n l in
        let r : share n l (K.name_of family) labels value ≡ share n l name labels value =
          ap (λ k. share n l k labels value) (m name family h) in
        let v = w n l in omega arith;
  }

  found-has_key :
      (n : Name) (m : List (Name × R.CounterFamily)) (family : R.CounterFamily)
      → lookup n m ≡ some family
      → has_key n m ≡ true
  found-has_key n m family h = elim (Bool-cases (has_key n m)) [
    | inl p ↦ p
    | inr p ↦ absurd (none≢some (sym (has_key-lookup n m p) ∙ h))
  ]

  -- What AddCounter keeps.
  record IsAdded (name : Name) (s s' : PrometheusExposer R) : Type 0 where
    named : IsNamed s'
    here : has_key name s'.counter_families ≡ true
    known : (n : Name) → has_key n s.counter_families ≡ true → has_key n s'.counter_families ≡ true
    same : (n : Name) (l : Labels) → K.reading n l s'.registry ≡ K.reading n l s.registry

  built :
      (name : Name) (labels : Labels) (s : PrometheusExposer R) (family : R.CounterFamily)
      (st : R.State)
      → IsNamed s
      → R.build_counter name empty s.registry ≡ some (family, st)
      → IsAdded name s (record s {
        registry = R.add_counter family labels st;
        counter_families = insert name family s.counter_families;
      })
  built name labels s family st m h = record {
    named = λ n g q. elim (e.dec name n) [
      | yes p ↦
          ap K.name_of (
            sym (
              some-injective _ _ (
                sym (lookup-insert name n family s.counter_families ∙ if_pos (e.dec name n) p _ _)
                ∙ q)))
          ∙ K.name_of-build name empty family s.registry st h
          ∙ p
      | no p ↦
          m n g
            (sym (lookup-insert name n family s.counter_families ∙ if_neg (e.dec name n) p _ _) ∙ q)
    ];
    here = has_key-insert name name family s.counter_families ∙ if_pos (e.dec name name) refl _ _;
    known = λ n k. has_key-insert name n family s.counter_families ∙ ground arith;
    same = λ n l.
        K.reading-add family labels st n l ∙ K.reading-build name empty family s.registry st n l h;
  }

  add_counter-IsAdded :
      (name : Name) (labels : Labels) (s s' : PrometheusExposer R)
      → IsNamed s
      → add_counter R name empty labels s ≡ some s'
      → IsAdded name s s'
  unfolding add_counter
  add_counter-IsAdded name labels s s' m h = elim (Option-cases (lookup name s.counter_families)) [
    | inr (family, q) ↦
        subst (IsAdded name s) (some-injective _ _ (rw (add_counter, q) at h)) (record {
          named = m;
          here = found-has_key name s.counter_families family q;
          known = λ n k. k;
          same = λ n l. refl;
        })
    | inl q ↦ elim (Option-cases (R.build_counter name empty s.registry)) [
      | inl b ↦ absurd (none≢some (rw (add_counter, q, b) at h))
      | inr (r, b) ↦
          subst (IsAdded name s) (some-injective _ _ (rw (add_counter, q, b) at h))
            (built name labels s r.0 r.1 m b)
    ]
  ]

  pub increment_step-IsKept :
      (p : Pc Name Labels) (s : PrometheusExposer R)
      → IsNamed s
      → IsSafe s p
      → IsKept s (increment_step R empty p s).1 p (increment_step R empty p s).0
  unfolding increment_step
  increment_step-IsKept (trying name labels value) s m safe =
      elim (Option-cases (lookup name s.counter_families)) [
        | inr (family, q) ↦
            rw (increment_step, q)
              (incremented s (trying name labels value) name labels value family m q (λ n l. refl))
        | inl q ↦
            rw (increment_step, q)
              (record { named = m; safe = tt; known = λ n k. k; counted = λ n l. refl })
      ]
  increment_step-IsKept (adding name labels value) s m safe =
      elim (Option-cases (add_counter R name empty labels s)) [
        | inl q ↦
            rw (increment_step, q)
              (record { named = m; safe = tt; known = λ n k. k; counted = λ n l. refl })
        | inr (s', q) ↦
            let a = add_counter-IsAdded name labels s s' m q in
            rw (increment_step, q)
              (record {
                named = a.named;
                safe = a.here;
                known = a.known;
                counted = λ n l. ap (λ v. v + share n l name labels value) (a.same n l);
              })
      ]
  increment_step-IsKept (incrementing name labels value) s m safe =
      let (family, q) = lookup-has_key name s.counter_families safe in
      rw (increment_step, q)
        (incremented s (incrementing name labels value) name labels value family m q (λ n l. refl))
  increment_step-IsKept (failed name labels value) s m safe = record {
    named = m;
    safe = tt;
    known = λ n k. k;
    counted = λ n l. refl;
  }
  increment_step-IsKept (crashed name labels value) s m safe = absurd safe
  increment_step-IsKept done s m safe = record {
    named = m;
    safe = tt;
    known = λ n k. k;
    counted = λ n l. refl;
  }
