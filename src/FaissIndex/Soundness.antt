-- ===== src/FaissIndex/Soundness.antt =====
-- The results of one `single_search`.
use vecodex.Prelude.{
  ℕ, ◌+◌, ◌≡◌, refl, ap, true, false, Option, none, some, List, [], ◌∷◌, Order, Key, nat_key,
  lookup, has_key, lookup-has_key, member, length, take, map, arith, All, All-take, Bool-cases, inl,
  inr, min, length-take,
}
use vecodex.FaissIndex.{Faiss, FaissIndex, live_hits, sort_hits, externals, single_search}
use vecodex.FaissIndex.Sorting.{
  IsAscending, hit_dists, sort_hits-IsAscending, take-IsAscending, All-sort_hits, length-sort_hits,
}

module _ {Vec Dist IdType : Type 0} (F : Faiss Vec Dist) ⦃e : Key IdType⦄ ⦃o : Order Dist⦄ where
  -- A position that was given out and is not erased.
  abbrev pub IsHit : FaissIndex F IdType → Dist × ℕ → Type 0
  IsHit s (d, p) = (has_key p s.inv_ids ≡ true) × (member p s.erased ≡ false)

  -- A result with such a position.
  abbrev pub IsLive : FaissIndex F IdType → IdType × Dist → Type 0
  IsLive s (i, d) = (p : ℕ) × (lookup p s.inv_ids ≡ some i) × (member p s.erased ≡ false)

  live_hits-IsHit :
      (s : FaissIndex F IdType) (hits : List (Dist × Option ℕ)) → All (IsHit s) (live_hits F s hits)
  unfolding live_hits
  live_hits-IsHit s [] = tt
  live_hits-IsHit s ((d, none) ∷ hits) = live_hits-IsHit s hits
  live_hits-IsHit s ((d, some p) ∷ hits) = elim (Bool-cases (has_key p s.inv_ids)) [
    | inr a ↦ rw a (live_hits-IsHit s hits)
    | inl a ↦ elim (Bool-cases (member p s.erased)) [
      | inl b ↦ rw (a, b) (live_hits-IsHit s hits)
      | inr b ↦ rw (a, b) ((a, b), live_hits-IsHit s hits)
    ]
  ]

  abbrev pub dists : List (IdType × Dist) → List Dist
  dists = map (λ r. r.1)

  abbrev pub Found : FaissIndex F IdType → List (Dist × ℕ) → Type 0
  Found s hits =
      (out : List (IdType × Dist)) × (externals F s hits ≡ some out)
      × All (IsLive s) out
      × (dists out ≡ hit_dists hits)
      × (length out ≡ length hits)

  externals_lem :
      (s : FaissIndex F IdType) (hits : List (Dist × ℕ)) → All (IsHit s) hits → Found s hits
  unfolding externals
  externals_lem s [] h = ([], refl, tt, refl, refl)
  externals_lem s ((d, p) ∷ hits) h =
      let (i, found) = lookup-has_key p s.inv_ids h.0.0 in
      let (out, r, live, same, len) = externals_lem s hits h.1 in
      (
        (i, d) ∷ out,
        ground (arith, found, r),
        ((p, found, h.0.1), live),
        ap (◌∷◌ d) same,
        omega (arith, len),
      )

  pub single_search_lem :
      (k : ℕ) (q : Vec) (s : FaissIndex F IdType)
      → (out : List (IdType × Dist)) × (single_search F k q s ≡ some out)
        × All (IsLive s) out
        × IsAscending (dists out)
        × (length out ≡ min k (length (live_hits F s (F.search s.index q (k + length s.erased)))))
  unfolding single_search
  single_search_lem k q s =
      let raw = live_hits F s (F.search s.index q (k + length s.erased)) in
      let (out, r, live, same, len) = externals_lem s (take k (sort_hits raw)) (
        All-take (IsHit s) k (sort_hits raw) (
          All-sort_hits (IsHit s) raw
            (live_hits-IsHit s (F.search s.index q (k + length s.erased))))) in
      (
        out,
        r,
        live,
        rw same (take-IsAscending k (sort_hits raw) (sort_hits-IsAscending raw)),
        omega (arith, len, length-take k (sort_hits raw), length-sort_hits raw),
      )
