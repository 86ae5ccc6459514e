-- ===== src/Samples.antt =====
-- A faiss index by exhaustive search over numbers, which meets what the theorems ask of faiss.
use vecodex.Prelude.{
  ℕ, zero, suc, ◌+◌, ◌-◌, ◌≤◌, ◌<◌, ◌≡◌, refl, true, false, Option, some, List, [], ◌∷◌, ◌++◌,
  nat_key, member, length, length-append, take, arith, All, All-weaken, min, if_neg, ◌∙◌,
  ℕ_discrete,
}
use vecodex.FaissIndex.{Faiss}
use vecodex.FaissIndex.Counting.{IsDistinct}
use vecodex.FaissIndex.Completeness.{labels, Exhaustive}

abbrev pub rows : ℕ → ℕ → List ℕ → List (ℕ × Option ℕ)
rows p q [] = []
rows p q (v ∷ vs) = ((v - q) + (q - v), some p) ∷ rows (suc p) q vs

abbrev pub nth : List ℕ → ℕ → ℕ
nth [] p = 0
nth (v ∷ vs) zero = v
nth (v ∷ vs) (suc p) = nth vs p

abbrev pub flat : Faiss ℕ ℕ
flat = record {
  State = List ℕ;
  create = [];
  add = λ x vs. x ++ vs;
  search = λ x q n. take n (rows 0 q x);
  reconstruct = nth;
}

rows_range :
    (n a q : ℕ) (xs : List ℕ)
    → All (λ p. (a ≤ p) × (p < a + length xs)) (labels (take n (rows a q xs)))
rows_range zero a q xs = tt
rows_range (suc n) a q [] = tt
rows_range (suc n) a q (x ∷ xs) = (
  (omega arith, omega arith),
  shift (labels (take n (rows (suc a) q xs))) (rows_range n (suc a) q xs),
)
  where
    shift :
        (ps : List ℕ)
        → All (λ p. (suc a ≤ p) × (p < suc a + length xs)) ps
        → All (λ p. (a ≤ p) × (p < a + suc (length xs))) ps
    shift ps h =
        All-weaken (λ p. (suc a ≤ p) × (p < suc a + length xs))
          (λ p. (a ≤ p) × (p < a + suc (length xs))) ps
          (λ p g. (omega (arith, g.0), omega (arith, g.1))) h

not_member : (a : ℕ) (ps : List ℕ) → All (λ p. suc a ≤ p) ps → member a ps ≡ false
unfolding member
not_member a [] h = refl
not_member a (p ∷ ps) h =
    if_neg (ℕ_discrete p a) (omega (arith, h.0)) true (member a ps) ∙ not_member a ps h.1

rows-IsDistinct : (n a q : ℕ) (xs : List ℕ) → IsDistinct (labels (take n (rows a q xs)))
rows-IsDistinct zero a q xs = tt
rows-IsDistinct (suc n) a q [] = tt
rows-IsDistinct (suc n) a q (x ∷ xs) = (
  not_member a (labels (take n (rows (suc a) q xs))) (
      All-weaken (λ p. (suc a ≤ p) × (p < suc a + length xs)) (λ p. suc a ≤ p) _ (λ p h. h.0)
        (rows_range n (suc a) q xs)),
  rows-IsDistinct n (suc a) q xs,
)

rows_count : (n a q : ℕ) (xs : List ℕ) → length (labels (take n (rows a q xs))) ≡ min n (length xs)
rows_count zero a q xs = omega arith
rows_count (suc n) a q [] = omega arith
rows_count (suc n) a q (x ∷ xs) = omega (arith, rows_count n (suc a) q xs)

pub flat-Exhaustive : Exhaustive flat
flat-Exhaustive = record {
  ntotal = length;
  ntotal-create = refl;
  ntotal-add = length-append;
  search_below = λ x q n.
      All-weaken (λ p. (0 ≤ p) × (p < 0 + length x)) (λ p. p < length x) _
        (λ p h. omega (arith, h.1)) (rows_range n 0 q x);
  search_distinct = λ x q n. rows-IsDistinct n 0 q x;
  search_count = λ x q n. rows_count n 0 q x;
}
