-- ===== src/Prelude/Maps.antt =====
-- std::unordered_map and std::unordered_set as lists in the order of insertion.
use Prim.Native.Nat.{ℕ, suc}
use mathlib.Core.Path.{◌≡◌, refl, ◌∙◌}
use mathlib.Core.Logic.{ite, if_pos, if_neg}
use mathlib.Core.Bool.{Bool, true, false}
use mathlib.Core.Option.{Option, none, some}
use mathlib.Core.List.{List, [], ◌∷◌}
use native.Mathlib.Omega.{arith}
use native.Mathlib.Decide.{ℕ_discrete}
use vecodex.Prelude.Tests.{if◌then◌else◌}
use vecodex.Prelude.Lists.{length}

-- The equality of keys.
pub record Key {ℓ} (K : Type ℓ) : Type ℓ where
  pub dec : Discrete K

instance abbrev pub nat_key : Key ℕ
nat_key = record { dec = ℕ_discrete }

module _ {K V : Type 0} ⦃e : Key K⦄ where
  -- `find`; `none` is `end()`.
  unfoldable pub lookup : K → List (K × V) → Option V
  lookup k [] = none
  lookup k ((j, v) ∷ m) = ite (e.dec j k) (some v) (lookup k m)

  unfoldable pub has_key : K → List (K × V) → Bool
  has_key k [] = false
  has_key k ((j, v) ∷ m) = ite (e.dec j k) true (has_key k m)

  -- `m[k] = v`
  unfoldable pub insert : K → V → List (K × V) → List (K × V)
  insert k v [] = (k, v) ∷ []
  insert k v ((j, w) ∷ m) = ite (e.dec j k) ((k, v) ∷ m) ((j, w) ∷ insert k v m)

  pub lookup-insert :
      (k j : K) (v : V) (m : List (K × V))
      → lookup j (insert k v m) ≡ ite (e.dec k j) (some v) (lookup j m)
  unfolding lookup insert
  lookup-insert k j v [] = refl
  lookup-insert k j v ((i, w) ∷ m) = ground (arith, lookup-insert k j v m)

  pub lookup-insert_self : (k : K) (v : V) (m : List (K × V)) → lookup k (insert k v m) ≡ some v
  lookup-insert_self k v m = lookup-insert k k v m ∙ if_pos (e.dec k k) refl (some v) (lookup k m)

  pub has_key-insert :
      (k j : K) (v : V) (m : List (K × V))
      → has_key j (insert k v m) ≡ ite (e.dec k j) true (has_key j m)
  unfolding has_key insert
  has_key-insert k j v [] = refl
  has_key-insert k j v ((i, w) ∷ m) = ground (arith, has_key-insert k j v m)

  pub length-insert :
      (k : K) (v : V) (m : List (K × V))
      → length (insert k v m) ≡ (if has_key k m then length m else suc (length m))
  unfolding has_key insert
  length-insert k v [] = refl
  length-insert k v ((i, w) ∷ m) = ground (arith, length-insert k v m)

  pub has_key-lookup : (k : K) (m : List (K × V)) → has_key k m ≡ false → lookup k m ≡ none
  unfolding has_key lookup
  has_key-lookup k [] h = refl
  has_key-lookup k ((i, w) ∷ m) h = ground (arith, has_key-lookup k m)

  pub lookup-has_key :
      (k : K) (m : List (K × V)) → has_key k m ≡ true → (v : V) × (lookup k m ≡ some v)
  unfolding has_key lookup
  lookup-has_key k [] h = cc
  lookup-has_key k ((i, w) ∷ m) h = elim (e.dec i k) [
    | yes q ↦ (w, if_pos (e.dec i k) q _ _)
    | no q ↦
        let (v, r) = lookup-has_key k m (rw (if_neg (e.dec i k) q) at h) in
        (v, rw (if_neg (e.dec i k) q) r)
  ]

module _ {K V : Type 0} ⦃e : Key K⦄ where
  -- `erase`
  unfoldable pub remove : K → List (K × V) → List (K × V)
  remove k [] = []
  remove k ((j, w) ∷ m) = let rest = remove k m in ite (e.dec j k) rest ((j, w) ∷ rest)

  pub lookup-remove :
      (k j : K) (m : List (K × V)) → lookup j (remove k m) ≡ ite (e.dec k j) none (lookup j m)
  unfolding lookup remove
  lookup-remove k j [] = ground arith
  lookup-remove k j ((i, w) ∷ m) = ground (arith, lookup-remove k j m)

module _ {K : Type 0} ⦃e : Key K⦄ where
  -- `count`
  unfoldable pub member : K → List K → Bool
  member k [] = false
  member k (j ∷ s) = ite (e.dec j k) true (member k s)

  -- `insert`
  unfoldable pub include : K → List K → List K
  include k [] = k ∷ []
  include k (j ∷ s) = ite (e.dec j k) (j ∷ s) (j ∷ include k s)

  pub member-include :
      (k j : K) (s : List K) → member j (include k s) ≡ ite (e.dec k j) true (member j s)
  unfolding member include
  member-include k j [] = refl
  member-include k j (i ∷ s) = ground (arith, member-include k j s)

  pub length-include :
      (k : K) (s : List K)
      → length (include k s) ≡ (if member k s then length s else suc (length s))
  unfolding member include
  length-include k [] = refl
  length-include k (i ∷ s) = ground (arith, length-include k s)

  pub include-member : (k : K) (s : List K) → member k s ≡ true → include k s ≡ s
  unfolding member include
  include-member k [] h = cc
  include-member k (i ∷ s) h = ground (arith, include-member k s)
