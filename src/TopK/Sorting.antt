-- ===== src/TopK/Sorting.antt =====
-- Insertion into the ordered set: members, order, and lists that hold the same members.
use vecodex.Prelude.{
  ◌≡◌, refl, ap, Bool, true, false, ◌||◌, List, [], ◌∷◌, Order, same, arith, Bool-cases, inl, inr,
  subst,
}
use vecodex.TopK.{emplace}

module _ {ℓ} {A : Type ℓ} ⦃o : Order A⦄ where
  abbrev pub has : A → List A → Bool
  has a [] = false
  has a (x ∷ xs) = same a x || has a xs

  abbrev pub Above : A → List A → Type 0
  Above x [] = Unit {0}
  Above x (y ∷ ys) = o.less x y ≡ true

  abbrev pub IsSorted : List A → Type 0
  IsSorted [] = Unit {0}
  IsSorted (x ∷ xs) = Above x xs × IsSorted xs

  -- Every element of `xs` is put into the ordered set `s`.
  unfoldable pub emplace_all : List A → List A → List A
  emplace_all [] s = s
  emplace_all (x ∷ xs) s = emplace_all xs (emplace x s)

  same_refl : (a : A) → same a a ≡ true
  same_refl a = ground (arith, o.less_irrefl a)

  same-eq : (a b : A) → same a b ≡ true → a ≡ b
  same-eq a b h = ground (arith, o.less_connex a b)

  less_asymm : (a b : A) → o.less a b ≡ true → o.less b a ≡ false
  less_asymm a b h = ground (arith, o.less_irrefl a, o.less_trans a b a)

  pub has-emplace : (a x : A) (s : List A) → has a (emplace x s) ≡ (same a x || has a s)
  unfolding emplace
  has-emplace a x [] = ground arith
  has-emplace a x (y ∷ ys) = ground (arith, has-emplace a x ys, o.less_connex x y)

  Above-emplace : (x y : A) (s : List A) → o.less y x ≡ true → Above y s → Above y (emplace x s)
  unfolding emplace
  Above-emplace x y [] h k = h
  Above-emplace x y (z ∷ s) h k = ground arith

  pub emplace-IsSorted : (x : A) (s : List A) → IsSorted s → IsSorted (emplace x s)
  unfolding emplace
  emplace-IsSorted x [] h = (tt, tt)
  emplace-IsSorted x (y ∷ s) h = elim (Bool-cases (o.less x y)) [
    | inl e ↦ rw e (e, h)
    | inr e ↦ elim (Bool-cases (o.less y x)) [
      | inl e' ↦ rw (e, e') (Above-emplace x y s e' h.0, emplace-IsSorted x s h.1)
      | inr e' ↦ rw (e, e') h
    ]
  ]

  pub emplace_all-IsSorted : (xs s : List A) → IsSorted s → IsSorted (emplace_all xs s)
  unfolding emplace_all
  emplace_all-IsSorted [] s h = h
  emplace_all-IsSorted (x ∷ xs) s h = emplace_all-IsSorted xs (emplace x s) (emplace-IsSorted x s h)

  pub has-emplace_all : (a : A) (xs s : List A) → has a (emplace_all xs s) ≡ (has a xs || has a s)
  unfolding emplace_all
  has-emplace_all a [] s = refl
  has-emplace_all a (x ∷ xs) s =
      ground (arith, has-emplace_all a xs (emplace x s), has-emplace a x s)

  -- Below the head of a sorted list there is nothing.
  Above-has : (x a : A) (s : List A) → Above x s → IsSorted s → has a s ≡ true → o.less x a ≡ true
  Above-has x a [] u v h = cc
  Above-has x a (y ∷ s) u v h = elim (Bool-cases (same a y)) [
    | inl e ↦ ground (arith, same-eq a y)
    | inr e ↦ ground (arith, Above-has y a s v.0 v.1, o.less_trans x y a)
  ]

  head-eq :
      (x y : A) (s t : List A)
      → IsSorted (x ∷ s)
      → IsSorted (y ∷ t)
      → ((a : A) → has a (x ∷ s) ≡ has a (y ∷ t))
      → x ≡ y
  head-eq x y s t u v h = ground (
    arith,
    h x,
    h y,
    same_refl x,
    same_refl y,
    Above-has x y s u.0 u.1,
    Above-has y x t v.0 v.1,
    less_asymm x y,
    less_asymm y x,
    o.less_connex x y,
  )

  tail-has :
      (x : A) (s t : List A)
      → IsSorted (x ∷ s)
      → IsSorted (x ∷ t)
      → ((a : A) → has a (x ∷ s) ≡ has a (x ∷ t))
      → (a : A) → has a s ≡ has a t
  tail-has x s t u v h a =
      ground
        (arith, h a, same-eq a x, o.less_irrefl x, Above-has x a s u.0 u.1, Above-has x a t v.0 v.1)

  -- A sorted list is determined by its members.
  pub IsSorted-ext :
      (s t : List A) → IsSorted s → IsSorted t → ((a : A) → has a s ≡ has a t) → s ≡ t
  IsSorted-ext [] [] u v h = refl
  IsSorted-ext [] (y ∷ t) u v h = ground (arith, h y, same_refl y)
  IsSorted-ext (x ∷ s) [] u v h = ground (arith, h x, same_refl x)
  IsSorted-ext (x ∷ s) (y ∷ t) u v h =
      subst (λ z. IsSorted (z ∷ t) → ((a : A) → has a (x ∷ s) ≡ has a (z ∷ t)) → x ∷ s ≡ z ∷ t)
        (head-eq x y s t u v h)
        (λ v' h'. ap (◌∷◌ x) (IsSorted-ext s t u.1 v'.1 (tail-has x s t u v' h'))) v h
