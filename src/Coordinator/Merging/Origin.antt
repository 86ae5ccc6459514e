-- ===== src/Coordinator/Merging/Origin.antt =====
-- Where the identifiers of a merged answer come from.
use mathlib.Core.List.{Memᴰ}
use mathlib.Core.List.Memᴰ as Memᴰ
use vecodex.Prelude.{
  ℕ, zero, suc, ◌≡◌, ◌≢◌, refl, ◌∙◌, sym, Option, none, some, none≢some, List, [], ◌∷◌, map, Key,
  lookup, take, if_pos, if_neg, subst, ◌⊎◌, inl, inr,
}
use vecodex.Coordinator.Fraction.{Fraction}
use vecodex.Coordinator.Merging.{merge_searcher_answers}
use vecodex.Coordinator.Merging.Ranking.{added, score_in, score_of, merge_searcher_answers_lem}

Memᴰ-map_take :
    {A B : Type 0} (f : A → B) (b : B) (k : ℕ) (l : List A)
    → Memᴰ b (map f (take k l))
    → Memᴰ b (map f l)
Memᴰ-map_take f b zero l m = absurd (Memᴰ.not-nil m)
Memᴰ-map_take f b (suc k) [] m = absurd (Memᴰ.not-nil m)
Memᴰ-map_take f b (suc k) (a ∷ l) (Memᴰ.head q) = Memᴰ.head q
Memᴰ-map_take f b (suc k) (a ∷ l) (Memᴰ.tail m) = Memᴰ.tail (Memᴰ-map_take f b k l m)

module _ {K V : Type 0} ⦃e : Key K⦄ where
  Memᴰ-lookup : (k : K) (m : List (K × V)) → Memᴰ k (map (λ p. p.0) m) → lookup k m ≢ none
  unfolding lookup
  Memᴰ-lookup k [] h q = absurd (Memᴰ.not-nil h)
  Memᴰ-lookup k ((j, v) ∷ m) h q = elim (e.dec j k) [
    | yes p ↦ none≢some (sym q ∙ if_pos (e.dec j k) p _ _)
    | no n ↦ elim (Memᴰ.cases_cons h) [
      | inl p ↦ n (sym p)
      | inr t ↦ Memᴰ-lookup k m t (sym (if_neg (e.dec j k) n _ _) ∙ q)
    ]
  ]

module _ {DocId : Type 0} ⦃e : Key DocId⦄ where
  score_in-origin :
      (i : DocId) (n : ℕ) (js : List DocId) (s : Option Fraction)
      → score_in i n js s ≢ none
      → (s ≢ none) ⊎ Memᴰ i js
  score_in-origin i n [] s h = inl h
  score_in-origin i n (j ∷ js) s h = elim (e.dec j i) [
    | yes q ↦ inr (Memᴰ.head (sym q))
    | no r ↦
        let skipped = if_neg (e.dec j i) r (some (added s n)) s in
        elim (score_in-origin i (suc n) js _ h) [
          | inl p ↦ inl (λ q. p (skipped ∙ q))
          | inr m ↦ inr (Memᴰ.tail m)
        ]
  ]

  score_of-origin :
      (i : DocId) (rs : List (List DocId)) (s : Option Fraction)
      → score_of i rs s ≢ none
      → (s ≢ none) ⊎ ((r : List DocId) × Memᴰ r rs × Memᴰ i r)
  score_of-origin i [] s h = inl h
  score_of-origin i (r ∷ rs) s h = elim (score_of-origin i rs (score_in i 0 r s) h) [
    | inl p ↦ elim (score_in-origin i 0 r s p) [
      | inl q ↦ inl q
      | inr m ↦ inr (r, Memᴰ.head refl, m)
    ]
    | inr (t, m, m') ↦ inr (t, Memᴰ.tail m, m')
  ]

  -- Every identifier of a merged answer is in one of the answers.
  pub merge_searcher_answers-origin :
      (i : DocId) (responses : List (List DocId)) (k : ℕ)
      → Memᴰ i (merge_searcher_answers responses k)
      → (r : List DocId) × Memᴰ r responses × Memᴰ i r
  merge_searcher_answers-origin i responses k m =
      let (ranked, q, once, descending, scores) = merge_searcher_answers_lem responses k in
      let m' = Memᴰ-map_take (λ p. p.0) i k ranked (subst (λ l. Memᴰ i l) q m) in
      let found =
        λ (p : score_of i responses none ≡ none). Memᴰ-lookup i ranked m' (scores i ∙ p) in
      elim (score_of-origin i responses none found) [ inl p ↦ absurd (p refl) | inr r ↦ r ]
