-- ===== src/Prelude/Orders.antt =====
-- A strict total order given by a Boolean test, as `operator<` is on identifiers and on distances
-- that are not NaN.
use Prim.Native.Nat.{ℕ}
use mathlib.Core.Path.{◌≡◌}
use mathlib.Core.Bool.{Bool, true, false, ◌&&◌, ◌||◌}
use native.Mathlib.Omega.{arith}
use vecodex.Prelude.Tests.{ltb, if◌then◌else◌}

pub record Order {ℓ} (A : Type ℓ) : Type ℓ where
  pub less : A → A → Bool
  pub less_irrefl : (a : A) → less a a ≡ false
  pub less_trans : (a b c : A) → less a b ≡ true → less b c ≡ true → less a c ≡ true
  pub less_connex : (a b : A) → less a b ≡ false → less b a ≡ false → a ≡ b

pub less-ℕ_irrefl : (a : ℕ) → ltb a a ≡ false
less-ℕ_irrefl a = ground arith

pub less-ℕ_trans : (a b c : ℕ) → ltb a b ≡ true → ltb b c ≡ true → ltb a c ≡ true
less-ℕ_trans a b c h k = ground arith

pub less-ℕ_connex : (a b : ℕ) → ltb a b ≡ false → ltb b a ≡ false → a ≡ b
less-ℕ_connex a b h k = ground arith

instance abbrev pub nat_order : Order ℕ
nat_order = record {
  less = ltb;
  less_irrefl = less-ℕ_irrefl;
  less_trans = less-ℕ_trans;
  less_connex = less-ℕ_connex;
}

-- `a == b` of two values that an order tells apart: neither is less.
abbrev pub same {ℓ} : {A : Type ℓ} ⦃o : Order A⦄ → A → A → Bool
same ⦃o⦄ a b = if o.less a b then false else (if o.less b a then false else true)

-- The lexicographic order of two fields.
module _ {ℓ κ} {A : Type ℓ} {B : Type κ} ⦃d : Order A⦄ ⦃o : Order B⦄ where
  abbrev pub lex : A → B → A → B → Bool
  lex a b a' b' = d.less a a' || (same a a' && o.less b b')

  pub lex_irrefl : (a : A) (b : B) → lex a b a b ≡ false
  lex_irrefl a b = ground (arith, d.less_irrefl a, o.less_irrefl b)

  pub lex_connex :
      (a a' : A) (b b' : B) → lex a b a' b' ≡ false → lex a' b' a b ≡ false → (a ≡ a') × (b ≡ b')
  lex_connex a a' b b' h k = ground (arith, d.less_connex a a', o.less_connex b b')

  pub lex_trans :
      (a a' a'' : A) (b b' b'' : B)
      → lex a b a' b' ≡ true
      → lex a' b' a'' b'' ≡ true
      → lex a b a'' b'' ≡ true
  lex_trans a a' a'' b b' b'' h k = ground (
    arith,
    d.less_connex a a',
    d.less_connex a' a'',
    d.less_irrefl a,
    d.less_trans a a' a'',
    o.less_trans b b' b'',
  )
