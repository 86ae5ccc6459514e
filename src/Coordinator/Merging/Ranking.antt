-- ===== src/Coordinator/Merging/Ranking.antt =====
-- The table of scores behind a merged answer.
use vecodex.Prelude.{
  IsOnce, insert-IsOnce, ℕ, suc, ◌≡◌, refl, ap, ◌∙◌, sym, true, false, Option, none, some, List, [],
  ◌∷◌, map, Key, lookup, has_key, insert, lookup-insert, take, arith, ite, if_neg, Option-cases,
  Bool-cases, inl, inr,
}
use vecodex.Coordinator.Fraction.{
  Fraction, get_score, add_score, greater, greater_asymm, greater_trans,
}
use vecodex.Coordinator.Merging.{
  bump, tally, tally_all, insert_ranked, sort_ranked, merge_searcher_answers,
}

abbrev pub added : Option Fraction → ℕ → Fraction
added none n = get_score n
added (some s) n = add_score s (get_score n)

module _ {DocId : Type 0} ⦃e : Key DocId⦄ where
  -- The score of one document, read off the answers with no table: what its places add up to.
  abbrev pub score_in : DocId → ℕ → List DocId → Option Fraction → Option Fraction
  score_in i n [] s = s
  score_in i n (j ∷ js) s = score_in i (suc n) js (ite (e.dec j i) (some (added s n)) s)

  abbrev pub score_of : DocId → List (List DocId) → Option Fraction → Option Fraction
  score_of i [] s = s
  score_of i (r ∷ rs) s = score_of i rs (score_in i 0 r s)

  lookup-bump :
      (j i : DocId) (n : ℕ) (m : List (DocId × Fraction))
      → lookup i (bump j n m) ≡ ite (e.dec j i) (some (added (lookup i m) n)) (lookup i m)
  unfolding bump
  lookup-bump j i n m = elim (Option-cases (lookup j m)) [
    | inl q ↦ ground (arith, q, lookup-insert j i (get_score n) m)
    | inr (s, q) ↦ ground (arith, q, lookup-insert j i (add_score s (get_score n)) m)
  ]

  lookup-tally :
      (i : DocId) (n : ℕ) (js : List DocId) (m : List (DocId × Fraction))
      → lookup i (tally n js m) ≡ score_in i n js (lookup i m)
  unfolding tally
  lookup-tally i n [] m = refl
  lookup-tally i n (j ∷ js) m =
      lookup-tally i (suc n) js (bump j n m) ∙ ap (score_in i (suc n) js) (lookup-bump j i n m)

  lookup-tally_all :
      (i : DocId) (rs : List (List DocId)) (m : List (DocId × Fraction))
      → lookup i (tally_all rs m) ≡ score_of i rs (lookup i m)
  unfolding tally_all
  lookup-tally_all i [] m = refl
  lookup-tally_all i (r ∷ rs) m =
      lookup-tally_all i rs (tally 0 r m) ∙ ap (score_of i rs) (lookup-tally i 0 r m)

  bump-IsOnce : (i : DocId) (n : ℕ) (m : List (DocId × Fraction)) → IsOnce m → IsOnce (bump i n m)
  unfolding bump
  bump-IsOnce i n m h =
      elim (lookup i m)
        as (λ l. IsOnce (elim l [
          | none ↦ insert i (get_score n) m
          | some s ↦ insert i (add_score s (get_score n)) m
        ])) [
          | none ↦ insert-IsOnce i (get_score n) m h
          | some s ↦ insert-IsOnce i (add_score s (get_score n)) m h
        ]

  tally-IsOnce :
      (n : ℕ) (js : List DocId) (m : List (DocId × Fraction)) → IsOnce m → IsOnce (tally n js m)
  unfolding tally
  tally-IsOnce n [] m h = h
  tally-IsOnce n (j ∷ js) m h = tally-IsOnce (suc n) js (bump j n m) (bump-IsOnce j n m h)

  tally_all-IsOnce :
      (rs : List (List DocId)) (m : List (DocId × Fraction)) → IsOnce m → IsOnce (tally_all rs m)
  unfolding tally_all
  tally_all-IsOnce [] m h = h
  tally_all-IsOnce (r ∷ rs) m h = tally_all-IsOnce rs (tally 0 r m) (tally-IsOnce 0 r m h)

  lookup-insert_ranked :
      (i j : DocId) (s : Fraction) (m : List (DocId × Fraction))
      → has_key i m ≡ false
      → lookup j (insert_ranked (i, s) m) ≡ lookup j ((i, s) ∷ m)
  unfolding insert_ranked lookup has_key
  lookup-insert_ranked i j s [] h = refl
  lookup-insert_ranked i j s ((k, t) ∷ m) h = ground (arith, lookup-insert_ranked i j s m)

  has_key-insert_ranked :
      (i j : DocId) (s : Fraction) (m : List (DocId × Fraction))
      → has_key j (insert_ranked (i, s) m) ≡ has_key j ((i, s) ∷ m)
  unfolding insert_ranked has_key
  has_key-insert_ranked i j s [] = refl
  has_key-insert_ranked i j s ((k, t) ∷ m) = ground (arith, has_key-insert_ranked i j s m)

  has_key-sort_ranked :
      (j : DocId) (m : List (DocId × Fraction)) → has_key j (sort_ranked m) ≡ has_key j m
  unfolding sort_ranked has_key
  has_key-sort_ranked j [] = refl
  has_key-sort_ranked j ((i, s) ∷ m) =
      has_key-insert_ranked i j s (sort_ranked m)
      ∙ ap (λ b. ite (e.dec i j) true b) (has_key-sort_ranked j m)

  lookup-sort_ranked :
      (j : DocId) (m : List (DocId × Fraction)) → IsOnce m → lookup j (sort_ranked m) ≡ lookup j m
  unfolding sort_ranked lookup
  lookup-sort_ranked j [] h = refl
  lookup-sort_ranked j ((i, s) ∷ m) h =
      lookup-insert_ranked i j s (sort_ranked m) (has_key-sort_ranked i m ∙ h.0)
      ∙ ap (λ b. ite (e.dec i j) (some s) b) (lookup-sort_ranked j m h.1)

-- No entry scores more than one before it.
abbrev pub NoneAbove : {DocId : Type 0} → Fraction → List (DocId × Fraction) → Type 0
NoneAbove s [] = Unit {0}
NoneAbove s ((j, t) ∷ m) = (greater t s ≡ false) × NoneAbove s m

abbrev pub IsDescending : {DocId : Type 0} → List (DocId × Fraction) → Type 0
IsDescending [] = Unit {0}
IsDescending ((i, s) ∷ m) = NoneAbove s m × IsDescending m

NoneAbove-trans :
    {DocId : Type 0} (s t : Fraction) (m : List (DocId × Fraction))
    → greater t s ≡ false
    → NoneAbove t m
    → NoneAbove s m
NoneAbove-trans s t [] h n = tt
NoneAbove-trans s t ((j, u) ∷ m) h n = (greater_trans s t u h n.0, NoneAbove-trans s t m h n.1)

module _ {DocId : Type 0} ⦃e : Key DocId⦄ where
  insert_ranked-NoneAbove :
      (s : Fraction) (i : DocId) (t : Fraction) (m : List (DocId × Fraction))
      → greater t s ≡ false
      → NoneAbove s m
      → NoneAbove s (insert_ranked (i, t) m)
  unfolding insert_ranked
  insert_ranked-NoneAbove s i t [] h n = (h, tt)
  insert_ranked-NoneAbove s i t ((j, u) ∷ m) h n = elim (Bool-cases (greater u t)) [
    | inl q ↦ rw q (n.0, insert_ranked-NoneAbove s i t m h n.1)
    | inr q ↦ rw q (h, (n.0, n.1))
  ]

  insert_ranked-IsDescending :
      (i : DocId) (s : Fraction) (m : List (DocId × Fraction))
      → IsDescending m
      → IsDescending (insert_ranked (i, s) m)
  unfolding insert_ranked
  insert_ranked-IsDescending i s [] h = (tt, tt)
  insert_ranked-IsDescending i s ((j, t) ∷ m) h = elim (Bool-cases (greater t s)) [
    | inl q ↦ rw q (
      insert_ranked-NoneAbove t i s m (greater_asymm t s q) h.0,
      insert_ranked-IsDescending i s m h.1,
    )
    | inr q ↦ rw q ((q, NoneAbove-trans s t m q h.0), (h.0, h.1))
  ]

  sort_ranked-IsDescending : (m : List (DocId × Fraction)) → IsDescending (sort_ranked m)
  unfolding sort_ranked
  sort_ranked-IsDescending [] = tt
  sort_ranked-IsDescending ((i, s) ∷ m) =
      insert_ranked-IsDescending i s (sort_ranked m) (sort_ranked-IsDescending m)

  insert_ranked-IsOnce :
      (i : DocId) (s : Fraction) (m : List (DocId × Fraction))
      → has_key i m ≡ false
      → IsOnce m
      → IsOnce (insert_ranked (i, s) m)
  unfolding insert_ranked has_key
  insert_ranked-IsOnce i s [] h o = (refl, tt)
  insert_ranked-IsOnce i s ((j, t) ∷ m) h o = elim (e.dec j i) [
    | yes q ↦ absurd (ground arith)
    | no n ↦ elim (Bool-cases (greater t s)) [
      | inl q ↦ rw q (
        has_key-insert_ranked i j s m
            ∙ if_neg (e.dec i j) (λ p. n (sym p)) true (has_key j m)
            ∙ o.0,
        insert_ranked-IsOnce i s m (sym (if_neg (e.dec j i) n true (has_key i m)) ∙ h) o.1,
      )
      | inr q ↦ rw q (h, (o.0, o.1))
    ]
  ]

  sort_ranked-IsOnce : (m : List (DocId × Fraction)) → IsOnce m → IsOnce (sort_ranked m)
  unfolding sort_ranked
  sort_ranked-IsOnce [] h = tt
  sort_ranked-IsOnce ((i, s) ∷ m) h =
      insert_ranked-IsOnce i s (sort_ranked m) (has_key-sort_ranked i m ∙ h.0)
        (sort_ranked-IsOnce m h.1)

  -- For any answers and any `k`, the merged answer consists of the first `k` identifiers of a list
  -- in which no identifier stands twice, no score is above an earlier one, and the score of every
  -- identifier is the sum of 1 / (61 + place) over its places in the answers (none if it has none).
  pub merge_searcher_answers_lem :
      (responses : List (List DocId)) (k : ℕ)
      → (ranked : List (DocId × Fraction)) × (merge_searcher_answers responses k
          ≡ map (λ p. p.0) (take k ranked))
        × IsOnce ranked
        × IsDescending ranked
        × ((i : DocId) → lookup i ranked ≡ score_of i responses none)
  unfolding merge_searcher_answers lookup
  merge_searcher_answers_lem responses k =
      let once = tally_all-IsOnce responses [] tt in
      (
        sort_ranked (tally_all responses []),
        refl,
        sort_ranked-IsOnce (tally_all responses []) once,
        sort_ranked-IsDescending (tally_all responses []),
        λ i. lookup-sort_ranked i (tally_all responses []) once ∙ lookup-tally_all i responses [],
      )
