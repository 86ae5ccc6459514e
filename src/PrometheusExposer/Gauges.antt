-- ===== src/PrometheusExposer/Gauges.antt =====
-- SetGauge and GetGaugeValue: the gauges as one map from names and labels to values.
use vecodex.Prelude.{
  ℕ, ◌≡◌, ◌≢◌, refl, sym, ap, ◌∙◌, subst, Option, none, some, Option-cases, inl, inr, Key, lookup,
  insert, lookup-insert, lookup-insert_self, ite, if_pos, if_neg,
}
use mathlib.Core.Option.{some-injective}
use vecodex.Searcher.{answer, answer_injective, crash}
use vecodex.PrometheusExposer.{
  Registry, PrometheusExposer, add_gauge, set_in, set_gauge, get_gauge_value,
}

-- What the library documents of gauges: a family has the name that it was built with, and a gauge
-- has the value that it was last set to.
pub record HasGauges {Name Labels : Type 0} (R : Registry Name Labels) ⦃e : Key Name⦄
    ⦃d : Key Labels⦄ : Type 0 where
  pub name_of : R.GaugeFamily → Name
  pub reading : Name → Labels → R.State → ℕ
  pub name_of-build :
      (name help : Name) (family : R.GaugeFamily) (st st' : R.State)
      → R.build_gauge name help st ≡ some (family, st')
      → name_of family ≡ name
  pub reading-build :
      (name help : Name) (family : R.GaugeFamily) (st st' : R.State) (n : Name) (l : Labels)
      → R.build_gauge name help st ≡ some (family, st')
      → reading n l st' ≡ reading n l st
  pub reading-add :
      (family : R.GaugeFamily) (labels : Labels) (st : R.State) (n : Name) (l : Labels)
      → reading n l (R.add_gauge family labels st) ≡ reading n l st
  pub reading-set :
      (family : R.GaugeFamily) (labels : Labels) (value : ℕ) (st : R.State) (n : Name) (l : Labels)
      → reading n l (R.set family labels value st)
        ≡ ite
            (e.dec (name_of family) n)
            (ite (d.dec labels l) value (reading n l st))
            (reading n l st)
  pub value-reading :
      (family : R.GaugeFamily) (labels : Labels) (st : R.State)
      → (R.gauge_value family labels st).0 ≡ some (reading (name_of family) labels st)

module _ {Name Labels : Type 0} (R : Registry Name Labels) ⦃e : Key Name⦄ ⦃d : Key Labels⦄
    (G : HasGauges R) (empty : Name) where
  -- Every pointer of the map leads to the family of its name.
  abbrev pub IsLabelled : PrometheusExposer R → Type 0
  IsLabelled s =
      (n : Name) (family : R.GaugeFamily)
      → lookup n s.gauge_families ≡ some family
      → G.name_of family ≡ n

  get_gauge_value_known :
      (s : PrometheusExposer R) (n : Name) (l : Labels) (family : R.GaugeFamily)
      → IsLabelled s
      → lookup n s.gauge_families ≡ some family
      → (get_gauge_value R n l s).0 ≡ some (G.reading n l s.registry)
  unfolding get_gauge_value
  get_gauge_value_known s n l family m h =
      rw (get_gauge_value, h)
        (G.value-reading family l s.registry
          ∙ ap (λ k. some (G.reading k l s.registry)) (m n family h))

  get_gauge_value_unknown :
      (s : PrometheusExposer R) (n : Name) (l : Labels)
      → lookup n s.gauge_families ≡ none
      → (get_gauge_value R n l s).0 ≡ none
  unfolding get_gauge_value
  get_gauge_value_unknown s n l h = rw (get_gauge_value, h) refl

  -- What a reader finds after a gauge is set.
  abbrev pub value_after : Name → ℕ → Labels → PrometheusExposer R → Name → Labels → Option ℕ
  value_after name value labels s n l =
      ite (e.dec name n) (some (ite (d.dec labels l) value (G.reading n l s.registry)))
        (get_gauge_value R n l s).0

  set_in_lem :
      (s : PrometheusExposer R) (name : Name) (value : ℕ) (labels : Labels) (family : R.GaugeFamily)
      (n : Name) (l : Labels)
      → IsLabelled s
      → lookup name s.gauge_families ≡ some family
      → (get_gauge_value R n l (set_in R family labels value s)).0
        ≡ value_after name value labels s n l
  set_in_lem s name value labels family n l m h =
      let s' = set_in R family labels value s in
      let named = m name family h in
      let r = G.reading-set family labels value s.registry n l in
      elim (e.dec name n) [
        | yes p ↦
            get_gauge_value_known s' n l family m
              (subst (λ k. lookup k s.gauge_families ≡ some family) p h)
            ∙ ap (λ v. some v) (r ∙ if_pos (e.dec (G.name_of family) n) (named ∙ p) _ _)
            ∙ sym (if_pos (e.dec name n) p _ _)
        | no p ↦ elim (Option-cases (lookup n s.gauge_families)) [
          | inl q ↦
              get_gauge_value_unknown s' n l q
              ∙ sym (get_gauge_value_unknown s n l q)
              ∙ sym (if_neg (e.dec name n) p _ _)
          | inr (g, q) ↦
              get_gauge_value_known s' n l g m q
              ∙ ap (λ v. some v)
                  (r ∙ if_neg (e.dec (G.name_of family) n) (λ t. p (sym named ∙ t)) _ _)
              ∙ sym (get_gauge_value_known s n l g m q)
              ∙ sym (if_neg (e.dec name n) p _ _)
        ]
      ]

  -- AddGauge with a new family.
  abbrev added : Name → Labels → R.GaugeFamily → R.State → PrometheusExposer R → PrometheusExposer R
  added name labels family st s = record s {
    registry = R.add_gauge family labels st;
    gauge_families = insert name family s.gauge_families;
  }

  added-IsLabelled :
      (name : Name) (labels : Labels) (family : R.GaugeFamily) (st : R.State)
      (s : PrometheusExposer R)
      → IsLabelled s
      → R.build_gauge name empty s.registry ≡ some (family, st)
      → IsLabelled (added name labels family st s)
  added-IsLabelled name labels family st s m h n g q = elim (e.dec name n) [
    | yes p ↦
        ap G.name_of (
          some-injective _ _
            (sym q ∙ lookup-insert name n family s.gauge_families ∙ if_pos (e.dec name n) p _ _))
        ∙ G.name_of-build name empty family s.registry st h
        ∙ p
    | no p ↦
        m n g (sym (lookup-insert name n family s.gauge_families ∙ if_neg (e.dec name n) p _ _) ∙ q)
  ]

  added_lem :
      (name : Name) (value : ℕ) (labels : Labels) (family : R.GaugeFamily) (st : R.State)
      (s : PrometheusExposer R) (n : Name) (l : Labels)
      → IsLabelled s
      → R.build_gauge name empty s.registry ≡ some (family, st)
      → value_after name value labels (added name labels family st s) n l
        ≡ value_after name value labels s n l
  added_lem name value labels family st s n l m h =
      let s' = added name labels family st s in
      let same : G.reading n l s'.registry ≡ G.reading n l s.registry =
        G.reading-add family labels st n l
        ∙ G.reading-build name empty family s.registry st n l h in
      elim (e.dec name n) [
        | yes p ↦
            if_pos (e.dec name n) p _ _
            ∙ ap (λ v. some (ite (d.dec labels l) value v)) same
            ∙ sym (if_pos (e.dec name n) p _ _)
        | no p ↦
            let other =
              lookup-insert name n family s.gauge_families ∙ if_neg (e.dec name n) p _ _ in
            if_neg (e.dec name n) p _ _
            ∙ (elim (Option-cases (lookup n s.gauge_families)) [
              | inl q ↦
                  get_gauge_value_unknown s' n l (other ∙ q) ∙ sym (get_gauge_value_unknown s n l q)
              | inr (g, q) ↦
                  get_gauge_value_known s' n l g (added-IsLabelled name labels family st s m h)
                    (other ∙ q)
                  ∙ ap (λ v. some v) same
                  ∙ sym (get_gauge_value_known s n l g m q)
            ])
            ∙ sym (if_neg (e.dec name n) p _ _)
      ]

  -- The gauges of `s'` are those of `s` with one of them set.
  abbrev pub IsOneSet : Name → ℕ → Labels → PrometheusExposer R → PrometheusExposer R → Type 0
  IsOneSet name value labels s s' =
      IsLabelled s'
      × ((n : Name) (l : Labels)
          → (get_gauge_value R n l s').0 ≡ value_after name value labels s n l)

  pub get_gauge_value-set_gauge :
      (name : Name) (value : ℕ) (labels : Labels) (s : PrometheusExposer R)
      → IsLabelled s
      → (set_gauge R empty name value labels s ≢ crash)
        × ((s' : PrometheusExposer R)
            → set_gauge R empty name value labels s ≡ answer s'
            → IsOneSet name value labels s s')
  unfolding set_gauge add_gauge
  get_gauge_value-set_gauge name value labels s m =
      elim (Option-cases (lookup name s.gauge_families)) [
        | inr (family, q) ↦
            rw (set_gauge, q)
              (
                λ h. cc,
                λ s' h.
                    subst (IsOneSet name value labels s) (answer_injective _ _ h)
                      (m, λ n l. set_in_lem s name value labels family n l m q),
              )
        | inl q ↦ elim (Option-cases (R.build_gauge name empty s.registry)) [
          | inl b ↦ rw (set_gauge, q, add_gauge, q, b) (λ h. cc, λ s' h. cc)
          | inr (r, b) ↦
              let here = lookup-insert_self name r.0 s.gauge_families in
              let m' = added-IsLabelled name labels r.0 r.1 s m b in
              rw (set_gauge, q, add_gauge, q, b, here)
                (
                  λ h. cc,
                  λ s' h. subst (IsOneSet name value labels s) (answer_injective _ _ h) (
                    m',
                    λ n l.
                        set_in_lem (added name labels r.0 r.1 s) name value labels r.0 n l m' here
                        ∙ added_lem name value labels r.0 r.1 s n l m b,
                  ),
                )
        ]
      ]
