-- ===== src/FaissIndex/Numbering.antt =====
-- Positions are given out in order: `inv_ids_` lists every identifier ever added, numbered from 0.
use vecodex.Prelude.{
  ℕ, suc, ◌+◌, ◌≤◌, ◌<◌, ◌≡◌, refl, ap, ◌∙◌, true, false, none, some, List, [], ◌∷◌, ◌++◌, nat_key,
  lookup, has_key, insert, member, include, member-include, length, arith, ℕ_discrete, if_pos,
  if_neg,
}
use vecodex.FaissIndex.{live_entries}

module _ {IdType : Type 0} where
  unfoldable pub number : ℕ → List IdType → List (ℕ × IdType)
  number p [] = []
  number p (i ∷ is) = (p, i) ∷ number (suc p) is

  pub insert-number :
      (a p : ℕ) (i : IdType) (h : List IdType)
      → p ≡ a + length h
      → insert p i (number a h) ≡ number a (h ++ i ∷ [])
  unfolding insert number
  insert-number a p i [] e = ground arith
  insert-number a p i (j ∷ h) e =
      rw (if_neg (ℕ_discrete a p) (omega arith))
        (ap (◌∷◌ (a, j)) (insert-number (suc a) p i h (omega arith)))

  pub lookup-number_above :
      (a p : ℕ) (h : List IdType) → a + length h ≤ p → lookup p (number a h) ≡ none
  unfolding lookup number
  lookup-number_above a p [] e = refl
  lookup-number_above a p (j ∷ h) e =
      rw (if_neg (ℕ_discrete a p) (omega arith)) (lookup-number_above (suc a) p h (omega arith))

  pub lookup-number :
      (a p : ℕ) (h : List IdType)
      → a ≤ p
      → p < a + length h
      → (i : IdType) × (lookup p (number a h) ≡ some i)
  unfolding lookup number
  lookup-number a p [] e f = absurd (omega arith)
  lookup-number a p (j ∷ h) e f = elim (ℕ_discrete a p) [
    | yes q ↦ (j, if_pos (ℕ_discrete a p) q _ _)
    | no q ↦
        let (i, r) = lookup-number (suc a) p h (omega arith) (omega arith) in
        (i, rw (if_neg (ℕ_discrete a p) q) r)
  ]

  pub has_key-number :
      (a p : ℕ) (h : List IdType) → a ≤ p → p < a + length h → has_key p (number a h) ≡ true
  unfolding has_key number
  has_key-number a p [] e f = absurd (omega arith)
  has_key-number a p (j ∷ h) e f = elim (ℕ_discrete a p) [
    | yes q ↦ if_pos (ℕ_discrete a p) q _ _
    | no q ↦ rw (if_neg (ℕ_discrete a p) q) (has_key-number (suc a) p h (omega arith) (omega arith))
  ]

  pub live_entries-append :
      (er : List ℕ) (xs ys : List (ℕ × IdType))
      → live_entries er (xs ++ ys) ≡ live_entries er xs ++ live_entries er ys
  unfolding live_entries
  live_entries-append er [] ys = refl
  live_entries-append er (x ∷ xs) ys = ground (arith, live_entries-append er xs ys)

  -- Erasing a position below the numbering hides nothing.
  live_entries-include_below :
      (er : List ℕ) (a p : ℕ) (h : List IdType)
      → p < a
      → live_entries (include p er) (number a h) ≡ live_entries er (number a h)
  unfolding live_entries number
  live_entries-include_below er a p [] l = refl
  live_entries-include_below er a p (j ∷ h) l =
      ground (arith, live_entries-include_below er (suc a) p h, member-include p a er)

  -- Erasing a live position hides exactly one entry.
  pub live_entries-include :
      (er : List ℕ) (a p : ℕ) (h : List IdType)
      → a ≤ p
      → p < a + length h
      → member p er ≡ false
      → suc (length (live_entries (include p er) (number a h)))
        ≡ length (live_entries er (number a h))
  unfolding live_entries number
  live_entries-include er a p [] l u m = absurd (omega arith)
  live_entries-include er a p (j ∷ h) l u m = ground (
    arith,
    live_entries-include er (suc a) p h,
    live_entries-include_below er (suc a) p h,
    member-include p a er,
  )

  pub number-append :
      (a : ℕ) (h g : List IdType) → number a (h ++ g) ≡ number a h ++ number (a + length h) g
  unfolding number
  number-append a [] g = ap (λ t. number t g) (omega arith)
  number-append a (i ∷ h) g =
      ap (◌∷◌ (a, i))
        (number-append (suc a) h g ∙ ap (λ t. number (suc a) h ++ number t g) (omega arith))
