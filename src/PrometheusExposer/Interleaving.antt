-- ===== src/PrometheusExposer/Interleaving.antt =====
-- Increments in any order: what the counters have when the threads are through.
use vecodex.Prelude.{
  ◌+◌, ◌≡◌, refl, ap, ◌∙◌, subst, true, some, List, [], ◌∷◌, ◌++◌, Option-cases, inl, inr, Key,
  lookup, lookup-has_key, has_key, All, All-append, All-weaken, arith,
}
use vecodex.PrometheusExposer.{
  Registry, PrometheusExposer, Pc, trying, adding, incrementing, failed, crashed, done,
  increment_step, get_counter_value, System, turn, read, Reach, begin, later,
}
use vecodex.PrometheusExposer.Counting.{
  IsRegistry, IsNamed, IsSafe, pending, total, total-append, increment_step-IsKept,
}

module _ {Name Labels : Type 0} where
  -- The thread is at the start of the call.
  abbrev pub IsTrying : Pc Name Labels → Type 0
  IsTrying (trying name labels value) = Unit {0}
  IsTrying (adding name labels value) = ⊥
  IsTrying (incrementing name labels value) = ⊥
  IsTrying (failed name labels value) = ⊥
  IsTrying (crashed name labels value) = ⊥
  IsTrying done = ⊥

module _ {A : Type 0} (P : A → Type 0) where
  All-before : (xs ys : List A) → All P (xs ++ ys) → All P xs
  All-before [] ys h = tt
  All-before (x ∷ xs) ys h = (h.0, All-before xs ys h.1)

  All-after : (xs ys : List A) → All P (xs ++ ys) → All P ys
  All-after [] ys h = h
  All-after (x ∷ xs) ys h = All-after xs ys h.1

module _ {Name Labels : Type 0} (R : Registry Name Labels) ⦃e : Key Name⦄ ⦃d : Key Labels⦄
    (K : IsRegistry R) (empty : Name) where
  IsSafe-known :
      (s s' : PrometheusExposer R) (p : Pc Name Labels)
      → ((n : Name) → has_key n s.counter_families ≡ true → has_key n s'.counter_families ≡ true)
      → IsSafe R K empty s p
      → IsSafe R K empty s' p
  IsSafe-known s s' (incrementing name labels value) k h = k name h
  IsSafe-known s s' (crashed name labels value) k h = h
  IsSafe-known s s' (trying name labels value) k h = h
  IsSafe-known s s' (adding name labels value) k h = h
  IsSafe-known s s' (failed name labels value) k h = h
  IsSafe-known s s' done k h = h

  IsTrying-IsSafe :
      (s : PrometheusExposer R) (p : Pc Name Labels) → IsTrying p → IsSafe R K empty s p
  IsTrying-IsSafe s (trying name labels value) h = h
  IsTrying-IsSafe s (incrementing name labels value) h = absurd h
  IsTrying-IsSafe s (crashed name labels value) h = h
  IsTrying-IsSafe s (adding name labels value) h = absurd h
  IsTrying-IsSafe s (failed name labels value) h = absurd h
  IsTrying-IsSafe s done h = absurd h

  record IsCounted (y z : System R) : Type 0 where
    named : IsNamed R K empty z.exposer
    safe : All (IsSafe R K empty z.exposer) z.threads
    counted :
        (n : Name) (l : Labels)
        → K.reading n l z.exposer.registry + total n l z.threads
          ≡ K.reading n l y.exposer.registry + total n l y.threads

  IsCounted-turn :
      (y x : System R) (before : List (Pc Name Labels)) (p : Pc Name Labels)
      (after : List (Pc Name Labels))
      → IsCounted y x
      → x.threads ≡ before ++ p ∷ after
      → IsCounted y (record {
        exposer = (increment_step R empty p x.exposer).1;
        threads = before ++ (increment_step R empty p x.exposer).0 ∷ after;
      })
  IsCounted-turn y x before p after c h =
      let Safe = IsSafe R K empty x.exposer in
      let safe : All Safe (before ++ p ∷ after) = subst (All Safe) h c.safe in
      let rest = All-after Safe before (p ∷ after) safe in
      let kept = increment_step-IsKept R K empty p x.exposer c.named rest.0 in
      let s' = (increment_step R empty p x.exposer).1 in
      let p' = (increment_step R empty p x.exposer).0 in
      let still : (q : Pc Name Labels) → Safe q → IsSafe R K empty s' q =
        λ q. IsSafe-known x.exposer s' q kept.known in
      record {
        named = kept.named;
        safe =
            All-append (IsSafe R K empty s') before (p' ∷ after)
              (All-weaken Safe (IsSafe R K empty s') before still
                (All-before Safe before (p ∷ after) safe))
              (kept.safe, All-weaken Safe (IsSafe R K empty s') after still rest.1);
        counted = λ n l.
            let one = kept.counted n l in
            let new = total-append n l before (p' ∷ after) in
            let old = ap (total n l) h ∙ total-append n l before (p ∷ after) in
            let all = c.counted n l in omega arith;
      }

  IsCounted-read :
      (y x : System R) (name : Name) (labels : Labels)
      → IsCounted y x
      → IsCounted y (record x { exposer = (get_counter_value R name labels x.exposer).1 })
  unfolding get_counter_value
  IsCounted-read y x name labels c = elim (Option-cases (lookup name x.exposer.counter_families)) [
    | inl q ↦ rw (get_counter_value, q) c
    | inr (family, q) ↦
        let after : PrometheusExposer R = record x.exposer {
          registry = (R.counter_value family labels x.exposer.registry).1;
        } in
        rw (get_counter_value, q)
          (record {
            named = c.named;
            safe =
                All-weaken (IsSafe R K empty x.exposer) (IsSafe R K empty after) x.threads
                  (λ p. IsSafe-known x.exposer after p (λ n k. k)) c.safe;
            counted = λ n l.
                ap (λ v. v + total n l x.threads)
                  (K.reading-value family labels x.exposer.registry n l)
                ∙ c.counted n l;
          })
  ]

  Reach-IsCounted :
      (y z : System R)
      → IsNamed R K empty y.exposer
      → All IsTrying y.threads
      → Reach R empty y z
      → IsCounted y z
  Reach-IsCounted y z named fresh begin = record {
    named = named;
    safe =
        All-weaken IsTrying (IsSafe R K empty y.exposer) y.threads (IsTrying-IsSafe y.exposer)
          fresh;
    counted = λ n l. refl;
  }
  Reach-IsCounted y z named fresh (later {x = x} r (turn before p after h)) =
      IsCounted-turn y x before p after (Reach-IsCounted y x named fresh r) h
  Reach-IsCounted y z named fresh (later {x = x} r (read name labels)) =
      IsCounted-read y x name labels (Reach-IsCounted y x named fresh r)

  total_done :
      (n : Name) (l : Labels) (threads : List (Pc Name Labels))
      → All (λ p. p ≡ done) threads
      → total n l threads ≡ 0
  total_done n l [] h = refl
  total_done n l (p ∷ threads) h =
      let one : pending n l p ≡ 0 = ap (pending n l) h.0 in
      let rest = total_done n l threads h.1 in omega arith

  -- If threads start IncrementCounter together, in whatever order their steps and the reading of
  -- counters come: none ever stands at a null pointer, and every counter's value and what the threads
  -- have still to add to it make up its first value and what they were to add. When all are through,
  -- a counter whose name is known reads as its first value and all that was added to it.
  pub Reach-counts :
      (y z : System R)
      → IsNamed R K empty y.exposer
      → All IsTrying y.threads
      → Reach R empty y z
      → All (IsSafe R K empty z.exposer) z.threads
        × ((n : Name) (l : Labels)
            → K.reading n l z.exposer.registry + total n l z.threads
              ≡ K.reading n l y.exposer.registry + total n l y.threads)
        × (All (λ p. p ≡ done) z.threads
            → (n : Name) (l : Labels) → has_key n z.exposer.counter_families ≡ true
            → (get_counter_value R n l z.exposer).0
              ≡ some (K.reading n l y.exposer.registry + total n l y.threads))
  unfolding get_counter_value
  Reach-counts y z named fresh r =
      let c = Reach-IsCounted y z named fresh r in
      (
        c.safe,
        c.counted,
        λ through n l h.
            let (family, q) = lookup-has_key n z.exposer.counter_families h in
            let none_left = total_done n l z.threads through in
            let all = c.counted n l in
            let same : K.reading n l z.exposer.registry
                ≡ K.reading n l y.exposer.registry + total n l y.threads =
              omega arith in
            rw (get_counter_value, q)
              (K.value-reading family l z.exposer.registry
                ∙ ap (λ k. some (K.reading k l z.exposer.registry)) (c.named n family q)
                ∙ ap (λ v. some v) same),
      )
