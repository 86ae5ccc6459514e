-- ===== src/Index/Levels.antt =====
-- Where SegmentStorage::add puts a segment: level i holds sizes above 2 ^ i, up to 2 ^ (i + 1).
use vecodex.Prelude.{
  ℕ, zero, suc, ◌+◌, ◌-◌, ◌^◌, ◌≤◌, ◌<◌, ◌≡◌, refl, ap, sym, ◌∙◌, Bool, true, false, Option, some,
  List, [], ◌∷◌, ◌++◌, length, length-append, ltb, ◌==◌, if◌then◌else◌, arith, ltb→lt, subst,
  if_intro, inl, inr, ◌⊎◌,
}
use vecodex.Index.State.{grow_levels, push_at, place, shift_fuel}

-- The loop stops at the first power that reaches the size, with a level below each power passed.
abbrev Grown : ℕ → ℕ × List (List (Option ℕ)) → Type 0
Grown n (i, levels) = (n ≤ 2 ^ i) × ((i ≡ 0) ⊎ (2 ^ (i - 1) < n)) × (i ≤ length levels)

bump_length :
    (i : ℕ) (levels : List (List (Option ℕ)))
    → i ≤ length levels
    → suc i ≤ length (if i == length levels then levels ++ [] ∷ [] else levels)
bump_length i levels l = ground (arith, length-append levels ([] ∷ []))

grow_levels_lem :
    (fuel i n : ℕ) (levels : List (List (Option ℕ)))
    → n ≤ 2 ^ (fuel + i)
    → (i ≡ 0) ⊎ (2 ^ (i - 1) < n)
    → i ≤ length levels
    → Grown n (grow_levels fuel i n levels)
unfolding grow_levels
grow_levels_lem zero i n levels h k l =
    let e : 0 + i ≡ i = omega arith in (subst (λ t. n ≤ 2 ^ t) e h, k, l)
grow_levels_lem (suc fuel) i n levels h k l =
    let e : suc fuel + i ≡ fuel + suc i = omega arith in
    let e' : suc i - 1 ≡ i = omega arith in
    if_intro (Grown n) (ltb (2 ^ i) n) _ _
      (λ more.
        grow_levels_lem fuel (suc i) n _ (subst (λ t. n ≤ 2 ^ t) e h)
          (inr (subst (λ t. 2 ^ t < n) (sym e') (ltb→lt (2 ^ i) n more))) (bump_length i levels l))
      (λ done. (ground (arith, done), k, l))

-- The pointers of a level; a level that is not there has none.
abbrev pub level_at : ℕ → List (List (Option ℕ)) → List (Option ℕ)
level_at j [] = []
level_at zero (l ∷ levels) = l
level_at (suc j) (l ∷ levels) = level_at j levels

level_at-append_nil :
    (j : ℕ) (levels : List (List (Option ℕ))) → level_at j (levels ++ [] ∷ []) ≡ level_at j levels
level_at-append_nil zero [] = refl
level_at-append_nil (suc j) [] = refl
level_at-append_nil zero (l ∷ levels) = refl
level_at-append_nil (suc j) (l ∷ levels) = level_at-append_nil j levels

level_at-bump :
    (j : ℕ) (b : Bool) (levels : List (List (Option ℕ)))
    → level_at j (if b then levels ++ [] ∷ [] else levels) ≡ level_at j levels
level_at-bump j true levels = level_at-append_nil j levels
level_at-bump j false levels = refl

level_at-grow_levels :
    (fuel i n j : ℕ) (levels : List (List (Option ℕ)))
    → level_at j (grow_levels fuel i n levels).1 ≡ level_at j levels
unfolding grow_levels
level_at-grow_levels zero i n j levels = refl
level_at-grow_levels (suc fuel) i n j levels =
    if_intro (λ (g : ℕ × List (List (Option ℕ))). level_at j g.1 ≡ level_at j levels)
      (ltb (2 ^ i) n) _ _
      (λ more.
        level_at-grow_levels fuel (suc i) n j _ ∙ level_at-bump j (i == length levels) levels)
      (λ done. refl)

level_at-push_at :
    (i p j : ℕ) (levels : List (List (Option ℕ)))
    → i < length levels
    → level_at j (push_at i p levels)
      ≡ (if i == j then level_at j levels ++ some p ∷ [] else level_at j levels)
unfolding push_at
level_at-push_at i p j [] l = absurd (omega arith)
level_at-push_at zero p zero (x ∷ levels) l = refl
level_at-push_at zero p (suc j) (x ∷ levels) l = ground arith
level_at-push_at (suc i) p zero (x ∷ levels) l = ground arith
level_at-push_at (suc i) p (suc j) (x ∷ levels) l = ground (arith, level_at-push_at i p j levels)

level_bounds :
    (i n : ℕ)
    → n ≤ 2 ^ i
    → (i ≡ 0) ⊎ (2 ^ (i - 1) < n)
    → let level : ℕ = if i == 0 then 0 else i - 1 in
      (n ≤ 2 ^ suc level) × ((level ≡ 0) ⊎ (2 ^ level < n))
level_bounds zero n h k = (omega arith, inl refl)
level_bounds (suc i) n h k =
    let e : suc i ≡ suc (suc i - 1) = omega arith in
    let z : (suc i == 0) ≡ false = ground arith in
    rw z (subst (λ t. n ≤ 2 ^ t) e h, elim k [ inl a ↦ absurd (omega arith) | inr l ↦ inr l ])

-- The level of a segment of size `n`, at most 2 ^ 63, is found within 63 shifts: its pointer goes to the end of the
-- level whose range of sizes holds `n`, which is created if it is not there, and no other level
-- changes.
pub place_lem :
    (n p : ℕ) (levels : List (List (Option ℕ)))
    → n ≤ 2 ^ shift_fuel
    → (level : ℕ) × (n ≤ 2 ^ suc level)
      × ((level ≡ 0) ⊎ (2 ^ level < n))
      × ((j : ℕ)
          → level_at j (place n p levels)
            ≡ (if level == j then level_at j levels ++ some p ∷ [] else level_at j levels))
unfolding place
place_lem n p levels h =
    let i = (grow_levels shift_fuel 0 n levels).0 in
    let grown = (grow_levels shift_fuel 0 n levels).1 in
    let level : ℕ = if i == 0 then 0 else i - 1 in
    let padded : List (List (Option ℕ)) =
      if level == length grown then grown ++ [] ∷ [] else grown in
    let (upper, lower, long) = grow_levels_lem shift_fuel 0 n levels h (inl refl) (omega arith) in
    (
      level,
      (level_bounds i n upper lower).0,
      (level_bounds i n upper lower).1,
      λ j.
          level_at-push_at level p j padded (bump_length level grown (ground (arith, long)))
          ∙ ap (λ l. if level == j then l ++ some p ∷ [] else l)
              (level_at-bump j (level == length grown) grown
                ∙ level_at-grow_levels shift_fuel 0 n j levels),
    )
