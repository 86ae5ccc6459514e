-- ===== src/TopK.antt =====
-- The bounded result set of Index::search (index/include/Index.h): a std::set ordered by
-- SearchResult::operator< (index/include/Segment.h), cut back to `k` after every insertion.
pub mod Sorting
pub mod Bounded
use vecodex.Prelude.{
  ℕ, suc, ◌+◌, ◌≡◌, Bool, true, false, ◌&&◌, ◌||◌, List, [], ◌∷◌, Order, same, lex_irrefl,
  lex_trans, lex_connex, length, ltb, if◌then◌else◌,
}

pub record SearchResult {ℓ} (Dist IdType : Type ℓ) : Type ℓ where
  pub dist : Dist
  pub id : IdType

module _ {ℓ} {Dist IdType : Type ℓ} ⦃d : Order Dist⦄ ⦃o : Order IdType⦄ where
  unfoldable pub result_less : SearchResult Dist IdType → SearchResult Dist IdType → Bool
  result_less a b = d.less a.dist b.dist || (same a.dist b.dist && o.less a.id b.id)

  pub result_irrefl : (a : SearchResult Dist IdType) → result_less a a ≡ false
  unfolding result_less
  result_irrefl a = lex_irrefl a.dist a.id

  pub result_trans :
      (a b c : SearchResult Dist IdType)
      → result_less a b ≡ true
      → result_less b c ≡ true
      → result_less a c ≡ true
  unfolding result_less
  result_trans a b c = lex_trans a.dist b.dist c.dist a.id b.id c.id

  pub result_connex :
      (a b : SearchResult Dist IdType) → result_less a b ≡ false → result_less b a ≡ false → a ≡ b
  unfolding result_less
  result_connex a b h k =
      let e = lex_connex a.dist b.dist a.id b.id h k in λ i. record { dist = e.0 i; id = e.1 i }

  instance unfoldable pub result_order : Order (SearchResult Dist IdType)
  unfolding result_less
  result_order = record {
    less = result_less;
    less_irrefl = result_irrefl;
    less_trans = result_trans;
    less_connex = result_connex;
  }

module _ {ℓ} {A : Type ℓ} ⦃o : Order A⦄ where
  -- `kth_stat.emplace(x)`: an equivalent element is kept and `x` dropped.
  unfoldable pub emplace : A → List A → List A
  emplace x [] = x ∷ []
  emplace x (y ∷ ys) =
      let rest = emplace x ys in
      if o.less x y then x ∷ y ∷ ys else (if o.less y x then y ∷ rest else y ∷ ys)

  -- `kth_stat.erase(*kth_stat.rbegin())`
  unfoldable pub erase_last : List A → List A
  erase_last [] = []
  erase_last (x ∷ []) = []
  erase_last (x ∷ y ∷ ys) = x ∷ erase_last (y ∷ ys)

  unfoldable pub keep_best : ℕ → A → List A → List A
  unfolding emplace erase_last
  keep_best k x s = let s' = emplace x s in if ltb k (length s') then erase_last s' else s'

  -- One of the loops `for (const auto& p : segmentResults)`.
  unfoldable pub collect : ℕ → List A → List A → List A
  unfolding keep_best
  collect k [] s = s
  collect k (x ∷ xs) s = collect k xs (keep_best k x s)
