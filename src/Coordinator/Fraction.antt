-- ===== src/Coordinator/Fraction.antt =====
-- The doubles of Merging.h and Stats.h (app/include) as exact fractions: no rounding is modelled.
use native.Mathlib.Nat.{mul-le-mul_right, le_of_mul-le-mul_right}
use vecodex.Prelude.{zero, ℕ, ◌+◌, ◌*◌, ◌<◌, ◌≤◌, ◌≡◌, Bool, true, false, arith, ltb}

-- `num / (below + 1)`: no denominator is 0.
pub record Fraction : Type 0 where
  pub num : ℕ
  pub below : ℕ

abbrev pub den : Fraction → ℕ
den a = a.below + 1

-- `1. / (RFF_CONST + id + 1)`, with RFF_CONST = 60.
unfoldable pub get_score : ℕ → Fraction
get_score i = record { num = 1; below = 60 + i }

unfoldable pub add_score : Fraction → Fraction → Fraction
add_score a b = record {
  num = a.num * den b + b.num * den a;
  below = a.below * b.below + a.below + b.below;
}

-- `a > b`
unfoldable pub greater : Fraction → Fraction → Bool
greater a b = ltb (b.num * den a) (a.num * den b)

-- A later place scores less.
pub get_score-falls : (i j : ℕ) → i < j → greater (get_score i) (get_score j) ≡ true
unfolding get_score greater
get_score-falls i j h = ground arith

pub greater_irrefl : (a : Fraction) → greater a a ≡ false
unfolding greater
greater_irrefl a = ground arith

pub greater_asymm : (a b : Fraction) → greater a b ≡ true → greater b a ≡ false
unfolding greater
greater_asymm a b h = ground arith

cross_trans : (a b c x y z : ℕ) → b * x ≤ a * y → c * y ≤ b * z → zero < y → c * x ≤ a * z
cross_trans a b c x y z h k n =
    let p = mul-le-mul_right x k in
    let q = mul-le-mul_right z h in le_of_mul-le-mul_right (omega arith) n

pub greater_trans :
    (a b c : Fraction) → greater b a ≡ false → greater c b ≡ false → greater c a ≡ false
unfolding greater
greater_trans a b c h k =
    let n =
      cross_trans a.num b.num c.num (den a) (den b) (den c) (ground arith) (ground arith)
        (omega arith) in
    ground arith
