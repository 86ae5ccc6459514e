-- ===== src/Index/Searching.antt =====
-- Index::search against a description of its result.
use vecodex.Prelude.{
  ℕ, ◌≡◌, refl, Option, none, some, List, [], ◌∷◌, ◌++◌, map, Key, Order, take, arith, Option-cases,
  inl, inr,
}
use vecodex.BaseIndex.{IBaseIndex}
use vecodex.Segment
use vecodex.Segment.{Segment}
use vecodex.TopK.{SearchResult, collect, result_order}
use vecodex.TopK.Sorting.{has, IsSorted}
use vecodex.TopK.Bounded.{collect-take-sorted}
use vecodex.Index.State.{Index}
use vecodex.Index.Operations.{as_results, search_segments, search}

module _ {IdType Vec Dist : Type 0} (B : IBaseIndex IdType Vec Dist) ⦃e : Key IdType⦄ (rand : ℕ → ℕ)
    ⦃d : Order Dist⦄ ⦃o : Order IdType⦄ where
  -- All that the segments answer, in the order of `segments_`, with `last_` at the end.
  unfoldable pub candidates :
      ℕ → Vec → (ℕ → Segment B) → List ℕ → Option (List (SearchResult Dist IdType))
  candidates k q heap [] = some []
  candidates k q heap (p ∷ ps) = elim (Segment.search_query B k q (heap p)) [
    | none ↦ none
    | some r ↦ elim (candidates k q heap ps) [
      | none ↦ none
      | some rs ↦ some (as_results B rand r ++ rs)
    ]
  ]

  collect-append :
      (k : ℕ) (xs ys s : List (SearchResult Dist IdType))
      → collect k (xs ++ ys) s ≡ collect k ys (collect k xs s)
  unfolding collect
  collect-append k [] ys s = refl
  collect-append k (x ∷ xs) ys s = collect-append k xs ys _

  search_segments_lem :
      (k : ℕ) (q : Vec) (heap : ℕ → Segment B) (ps : List ℕ)
      (s xs : List (SearchResult Dist IdType))
      → candidates k q heap ps ≡ some xs
      → search_segments B rand k q heap ps s ≡ some (collect k xs s)
  unfolding candidates search_segments
  search_segments_lem k q heap [] s xs h = ground arith
  search_segments_lem k q heap (p ∷ ps) s xs h =
      elim (Option-cases (Segment.search_query B k q (heap p))) [
        | inl a ↦ ground (arith, a, h)
        | inr (r, a) ↦ elim (Option-cases (candidates k q heap ps)) [
          | inl b ↦ ground (arith, a, b, h)
          | inr (rs, b) ↦ ground (
            arith,
            a,
            b,
            h,
            search_segments_lem k q heap ps (collect k (as_results B rand r) s) rs b,
            collect-append k (as_results B rand r) rs s,
          )
        ]
      ]

  -- Where no segment throws, `search` returns the first `k` of the candidates of all segments, in
  -- the order of distance and then identifier, each different candidate once: the result is fixed
  -- by which candidates there are, whatever the order of the segments and of their answers.
  pub search_lem :
      (k : ℕ) (q : Vec) (s : Index B) (xs sorted : List (SearchResult Dist IdType))
      → candidates k q s.heap (s.segments ++ s.last ∷ []) ≡ some xs
      → IsSorted sorted
      → ((a : SearchResult Dist IdType) → has a sorted ≡ has a xs)
      → search B rand k q s ≡ some (map (λ r. r.id) (take k sorted))
  unfolding search
  search_lem k q s xs sorted c u h = ground (
    arith,
    search_segments_lem k q s.heap (s.segments ++ s.last ∷ []) [] xs c,
    collect-take-sorted k xs sorted u h,
  )
