-- ===== src/TopK/Bounded.antt =====
-- The set cut back to `k` after every insertion holds the `k` least candidates.
use vecodex.Prelude.{
  ℕ, zero, suc, ◌≤◌, ◌≡◌, refl, ap, ◌∙◌, sym, List, [], ◌∷◌, Order, length, ltb, if◌then◌else◌,
  arith, take, take-le, length-take, Bool-cases, inl, inr,
}
use vecodex.TopK.{emplace, erase_last, keep_best, collect}
use vecodex.TopK.Sorting.{
  has, IsSorted, IsSorted-ext, emplace_all, emplace_all-IsSorted, has-emplace_all,
}

take-take {ℓ} : {A : Type ℓ} (n : ℕ) (y : A) (s : List A) → take n (y ∷ take n s) ≡ take n (y ∷ s)
take-take zero y s = refl
take-take (suc zero) y s = refl
take-take (suc (suc n)) y [] = refl
take-take (suc (suc n)) y (x ∷ s) = ap (◌∷◌ y) (take-take (suc n) x s)

take_idem {ℓ} : {A : Type ℓ} (n : ℕ) (s : List A) → take n (take n s) ≡ take n s
take_idem n s = take-le n (take n s) (omega (arith, length-take n s))

module _ {ℓ} {A : Type ℓ} ⦃o : Order A⦄ where
  erase_last-take : (k : ℕ) (s : List A) → length s ≡ suc k → erase_last s ≡ take k s
  unfolding erase_last
  erase_last-take k [] h = absurd (omega arith)
  erase_last-take zero (x ∷ []) h = refl
  erase_last-take (suc k) (x ∷ []) h = absurd (omega arith)
  erase_last-take zero (x ∷ y ∷ s) h = absurd (omega arith)
  erase_last-take (suc k) (x ∷ y ∷ s) h = ap (◌∷◌ x) (erase_last-take k (y ∷ s) (omega arith))

  length-emplace-le : (x : A) (s : List A) → length (emplace x s) ≤ suc (length s)
  unfolding emplace
  length-emplace-le x [] = omega arith
  length-emplace-le x (y ∷ s) = ground (arith, length-emplace-le x s)

  take-emplace-take :
      (k : ℕ) (x : A) (s : List A) → take k (emplace x (take k s)) ≡ take k (emplace x s)
  unfolding emplace
  take-emplace-take zero x s = refl
  take-emplace-take (suc k) x [] = refl
  take-emplace-take (suc k) x (y ∷ s) = elim (Bool-cases (o.less x y)) [
    | inl e ↦ rw e (ap (◌∷◌ x) (take-take k y s))
    | inr e ↦ elim (Bool-cases (o.less y x)) [
      | inl e' ↦ rw (e, e') (ap (◌∷◌ y) (take-emplace-take k x s))
      | inr e' ↦ rw (e, e') (ap (◌∷◌ y) (take_idem k s))
    ]
  ]

  cut :
      (k : ℕ) (s : List A)
      → length s ≤ suc k
      → (if ltb k (length s) then erase_last s else s) ≡ take k s
  cut k s h = elim (Bool-cases (ltb k (length s))) [
    | inl e ↦ rw e (erase_last-take k s (ground arith))
    | inr e ↦ rw e (sym (take-le k s (ground arith)))
  ]

  keep_best-take : (k : ℕ) (x : A) (s : List A) → keep_best k x (take k s) ≡ take k (emplace x s)
  unfolding keep_best
  keep_best-take k x s =
      cut k (emplace x (take k s)) (omega (arith, length-emplace-le x (take k s), length-take k s))
      ∙ take-emplace-take k x s

  pub collect-take : (k : ℕ) (xs s : List A) → collect k xs (take k s) ≡ take k (emplace_all xs s)
  unfolding collect emplace_all
  collect-take k [] s = refl
  collect-take k (x ∷ xs) s = rw (keep_best-take k x s) (collect-take k xs (emplace x s))

  collect-take-empty : (k : ℕ) (xs : List A) → collect k xs [] ≡ take k (emplace_all xs [])
  collect-take-empty zero xs = collect-take zero xs []
  collect-take-empty (suc k) xs = collect-take (suc k) xs []

  -- The bounded set holds the first `k` of the ordered set with the candidates' members, in
  -- whatever order and however often the candidates came.
  pub collect-take-sorted :
      (k : ℕ) (xs s : List A)
      → IsSorted s
      → ((a : A) → has a s ≡ has a xs)
      → collect k xs [] ≡ take k s
  collect-take-sorted k xs s u h =
      collect-take-empty k xs
      ∙ ap (take k) (
          IsSorted-ext (emplace_all xs []) s (emplace_all-IsSorted xs [] tt) u
            (λ a. ground (arith, has-emplace_all a xs [], h a)))
