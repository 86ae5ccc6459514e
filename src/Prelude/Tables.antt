-- ===== src/Prelude/Tables.antt =====
-- Maps and sets in which no key stands twice, and how they are built up entry by entry.
use mathlib.Core.Path.{◌≡◌, refl, ap, sym, ◌∙◌, subst}
use mathlib.Core.Logic.{if_pos, if_neg}
use mathlib.Core.Bool.{true, false}
use mathlib.Core.List.{List, [], ◌∷◌, ◌++◌}
use native.Mathlib.Omega.{arith}
use vecodex.Prelude.Lists.{append_nil, append_one}
use vecodex.Prelude.Maps.{Key, has_key, insert, has_key-insert, member, include, member-include}

module _ {K V : Type 0} ⦃e : Key K⦄ where
  -- No key stands twice.
  abbrev pub IsOnce : List (K × V) → Type 0
  IsOnce [] = Unit {0}
  IsOnce ((k, v) ∷ m) = (has_key k m ≡ false) × IsOnce m

  pub insert-IsOnce : (k : K) (v : V) (m : List (K × V)) → IsOnce m → IsOnce (insert k v m)
  unfolding insert has_key
  insert-IsOnce k v [] h = (refl, tt)
  insert-IsOnce k v ((j, w) ∷ m) h = elim (e.dec j k) [
    | yes q ↦ rw (if_pos (e.dec j k) q) (subst (λ x. has_key x m ≡ false) q h.0, h.1)
    | no n ↦ rw (if_neg (e.dec j k) n) (
      has_key-insert k j v m ∙ if_neg (e.dec k j) (λ q. n (sym q)) true (has_key j m) ∙ h.0,
      insert-IsOnce k v m h.1,
    )
  ]

  pub insert_absent :
      (k : K) (v : V) (m : List (K × V)) → has_key k m ≡ false → insert k v m ≡ m ++ (k, v) ∷ []
  unfolding insert has_key
  insert_absent k v [] h = refl
  insert_absent k v ((j, w) ∷ m) h = ground (arith, insert_absent k v m)

  pub has_key-append :
      (j k : K) (v : V) (m : List (K × V))
      → has_key j m ≡ false
      → ¬ (k ≡ j)
      → has_key j (m ++ (k, v) ∷ []) ≡ false
  unfolding has_key
  has_key-append j k v [] h n = if_neg (e.dec k j) n true false
  has_key-append j k v ((i, w) ∷ m) h n = ground (arith, has_key-append j k v m)

  -- No key of the first map is one of the second.
  abbrev pub AreAbsent : List (K × V) → List (K × V) → Type 0
  AreAbsent [] m = Unit {0}
  AreAbsent ((k, v) ∷ l) m = (has_key k m ≡ false) × AreAbsent l m

  AreAbsent-append :
      (k : K) (v : V) (l m : List (K × V))
      → has_key k l ≡ false
      → AreAbsent l m
      → AreAbsent l (m ++ (k, v) ∷ [])
  unfolding has_key
  AreAbsent-append k v [] m h a = tt
  AreAbsent-append k v ((j, w) ∷ l) m h a = elim (e.dec j k) [
    | yes q ↦ absurd (ground arith)
    | no n ↦ (
      has_key-append j k v m a.0 (λ q. n (sym q)),
      AreAbsent-append k v l m (sym (if_neg (e.dec j k) n true (has_key k l)) ∙ h) a.1,
    )
  ]

  AreAbsent-nil : (l : List (K × V)) → AreAbsent l []
  unfolding has_key
  AreAbsent-nil [] = tt
  AreAbsent-nil ((k, v) ∷ l) = (refl, AreAbsent-nil l)

  -- `m[k] = v` for every entry.
  abbrev pub insert_all : List (K × V) → List (K × V) → List (K × V)
  insert_all [] m = m
  insert_all ((k, v) ∷ l) m = insert_all l (insert k v m)

  insert_all_absent : (l m : List (K × V)) → IsOnce l → AreAbsent l m → insert_all l m ≡ m ++ l
  insert_all_absent [] m o a = append_nil m
  insert_all_absent ((k, v) ∷ l) m o a =
      ap (insert_all l) (insert_absent k v m a.0)
      ∙ insert_all_absent l (m ++ (k, v) ∷ []) o.1 (AreAbsent-append k v l m o.0 a.1)
      ∙ append_one m (k, v) l

  pub insert_all_once : (l : List (K × V)) → IsOnce l → insert_all l [] ≡ l
  insert_all_once l o = insert_all_absent l [] o (AreAbsent-nil l)

module _ {K : Type 0} ⦃e : Key K⦄ where
  abbrev pub IsDistinct : List K → Type 0
  IsDistinct [] = Unit {0}
  IsDistinct (k ∷ s) = (member k s ≡ false) × IsDistinct s

  pub include-IsDistinct : (k : K) (s : List K) → IsDistinct s → IsDistinct (include k s)
  unfolding include member
  include-IsDistinct k [] h = (refl, tt)
  include-IsDistinct k (j ∷ s) h = elim (e.dec j k) [
    | yes q ↦ rw (if_pos (e.dec j k) q) h
    | no n ↦ rw (if_neg (e.dec j k) n) (
      member-include k j s ∙ if_neg (e.dec k j) (λ q. n (sym q)) true (member j s) ∙ h.0,
      include-IsDistinct k s h.1,
    )
  ]

  include_absent : (k : K) (s : List K) → member k s ≡ false → include k s ≡ s ++ k ∷ []
  unfolding include member
  include_absent k [] h = refl
  include_absent k (j ∷ s) h = ground (arith, include_absent k s)

  member-append :
      (j k : K) (s : List K) → member j s ≡ false → ¬ (k ≡ j) → member j (s ++ k ∷ []) ≡ false
  unfolding member
  member-append j k [] h n = if_neg (e.dec k j) n true false
  member-append j k (i ∷ s) h n = ground (arith, member-append j k s)

  abbrev AreNew : List K → List K → Type 0
  AreNew [] s = Unit {0}
  AreNew (k ∷ l) s = (member k s ≡ false) × AreNew l s

  AreNew-append : (k : K) (l s : List K) → member k l ≡ false → AreNew l s → AreNew l (s ++ k ∷ [])
  unfolding member
  AreNew-append k [] s h a = tt
  AreNew-append k (j ∷ l) s h a = elim (e.dec j k) [
    | yes q ↦ absurd (ground arith)
    | no n ↦ (
      member-append j k s a.0 (λ q. n (sym q)),
      AreNew-append k l s (sym (if_neg (e.dec j k) n true (member k l)) ∙ h) a.1,
    )
  ]

  AreNew-nil : (l : List K) → AreNew l []
  unfolding member
  AreNew-nil [] = tt
  AreNew-nil (k ∷ l) = (refl, AreNew-nil l)

  -- `insert` for every element.
  abbrev pub include_all : List K → List K → List K
  include_all [] s = s
  include_all (k ∷ l) s = include_all l (include k s)

  include_all_new : (l s : List K) → IsDistinct l → AreNew l s → include_all l s ≡ s ++ l
  include_all_new [] s d a = append_nil s
  include_all_new (k ∷ l) s d a =
      ap (include_all l) (include_absent k s a.0)
      ∙ include_all_new l (s ++ k ∷ []) d.1 (AreNew-append k l s d.0 a.1)
      ∙ append_one s k l

  pub include_all_distinct : (l : List K) → IsDistinct l → include_all l [] ≡ l
  include_all_distinct l d = include_all_new l [] d (AreNew-nil l)
