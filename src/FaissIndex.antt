-- ===== src/FaissIndex.antt =====
-- baseline::FaissIndex (index/baselines/faiss.h): external identifiers over a faiss index, which
-- knows positions only. Erasing hides a position; nothing is taken out of the faiss index.
pub mod Numbering
pub mod Validity
pub mod History
pub mod Sorting
pub mod Soundness
pub mod Counting
pub mod Completeness
pub mod Interface
pub mod Erasure
pub mod Sizes
pub mod Files
use vecodex.Prelude.{
  ℕ, suc, ◌+◌, ◌-◌, ◌%◌, ◌^◌, Option, none, some, List, [], ◌∷◌, map, Order, nat_order, lex, Key,
  nat_key, lookup, has_key, insert, member, include, length, take, if◌then◌else◌,
}

-- faiss::Index, which is not part of the repository. A label of -1 is `none`.
pub record Faiss (Vec Dist : Type 0) : Type 1 where
  pub State : Type 0
  pub create : State
  pub add : State → List Vec → State
  pub search : State → Vec → ℕ → List (Dist × Option ℕ)
  pub reconstruct : State → ℕ → Vec

abbrev pub size_mod : ℕ
size_mod = 2 ^ 64

pub record FaissIndex {Vec Dist : Type 0} (F : Faiss Vec Dist) (IdType : Type 0) : Type 0 where
  pub index : F.State
  pub next_id : ℕ
  pub ids : List (IdType × ℕ)
  pub inv_ids : List (ℕ × IdType)
  pub erased : List ℕ

module _ {Dist : Type 0} ⦃o : Order Dist⦄ where
  -- `std::sort` of pairs, which compares distances first and positions second.
  unfoldable pub insert_hit : Dist × ℕ → List (Dist × ℕ) → List (Dist × ℕ)
  insert_hit (d, p) [] = (d, p) ∷ []
  insert_hit (d, p) ((d', p') ∷ hits) =
      let rest = insert_hit (d, p) hits in
      if lex d' p' d p then (d', p') ∷ rest else (d, p) ∷ (d', p') ∷ hits

  unfoldable pub sort_hits : List (Dist × ℕ) → List (Dist × ℕ)
  unfolding insert_hit
  sort_hits [] = []
  sort_hits (h ∷ hits) = insert_hit h (sort_hits hits)

abbrev pub ids_of : {IdType Vec : Type 0} → List (IdType × Vec) → List IdType
ids_of = map (λ v. v.0)

module _ {IdType : Type 0} where
  -- The positions and identifiers of `other` that are not erased.
  unfoldable pub live_entries : List ℕ → List (ℕ × IdType) → List (ℕ × IdType)
  live_entries erased [] = []
  live_entries erased ((p, i) ∷ entries) =
      let rest = live_entries erased entries in if member p erased then rest else (p, i) ∷ rest

module _ {Vec Dist IdType : Type 0} (F : Faiss Vec Dist) ⦃e : Key IdType⦄ ⦃o : Order Dist⦄ where
  unfoldable pub create : FaissIndex F IdType
  create = record { index = F.create; next_id = 0; ids = []; inv_ids = []; erased = [] }

  -- The body of the loop of `add_batch`.
  unfoldable pub register : IdType → FaissIndex F IdType → FaissIndex F IdType
  register i s = record s {
    ids = insert i s.next_id s.ids;
    inv_ids = insert s.next_id i s.inv_ids;
    next_id = suc s.next_id;
  }

  unfoldable pub register_all : List IdType → FaissIndex F IdType → FaissIndex F IdType
  unfolding register
  register_all [] s = s
  register_all (i ∷ is) s = register_all is (register i s)

  unfoldable pub add_batch : List (IdType × Vec) → FaissIndex F IdType → FaissIndex F IdType
  unfolding register_all
  add_batch vs s = register_all (ids_of vs) (record s { index = F.add s.index (map (λ v. v.1) vs) })

  -- The hits of the faiss search that `single_search` keeps, with their positions.
  unfoldable pub live_hits : FaissIndex F IdType → List (Dist × Option ℕ) → List (Dist × ℕ)
  live_hits s [] = []
  live_hits s ((d, none) ∷ hits) = live_hits s hits
  live_hits s ((d, some p) ∷ hits) =
      let rest = live_hits s hits in
      if has_key p s.inv_ids then (if member p s.erased then rest else (d, p) ∷ rest) else rest

  -- The loop that reads `inv_ids_.at(value)`; `none` is std::out_of_range.
  unfoldable pub externals : FaissIndex F IdType → List (Dist × ℕ) → Option (List (IdType × Dist))
  externals s [] = some []
  externals s ((d, p) ∷ hits) =
      let rest = externals s hits in
      elim (lookup p s.inv_ids) [
        | none ↦ none
        | some i ↦ elim rest [ none ↦ none | some out ↦ some ((i, d) ∷ out) ]
      ]

  unfoldable pub single_search : ℕ → Vec → FaissIndex F IdType → Option (List (IdType × Dist))
  unfolding live_hits sort_hits externals
  single_search k q s =
      externals s (take k (sort_hits (live_hits s (F.search s.index q (k + length s.erased)))))

  -- The identifiers of `other` that are not erased, with their vectors rebuilt.
  abbrev pub rebuilt : FaissIndex F IdType → List (IdType × Vec)
  rebuilt other =
      map (λ p. (p.1, F.reconstruct other.index p.0)) (live_entries other.erased other.inv_ids)

  unfoldable pub merge_from_other : FaissIndex F IdType → FaissIndex F IdType → FaissIndex F IdType
  unfolding live_entries add_batch
  merge_from_other other s = add_batch (rebuilt other) s

  -- The body of the loop of `erase_batch`.
  unfoldable pub erase_one : IdType → FaissIndex F IdType → FaissIndex F IdType
  erase_one i s = elim (lookup i s.ids) [
    | none ↦ s
    | some p ↦ record s { erased = include p s.erased }
  ]

  unfoldable pub erase_batch : List IdType → FaissIndex F IdType → FaissIndex F IdType
  unfolding erase_one
  erase_batch [] s = s
  erase_batch (i ∷ is) s = erase_batch is (erase_one i s)

  -- `ids_.size() - erased_.size()`, in `size_t`.
  unfoldable pub size : FaissIndex F IdType → ℕ
  size s = (length s.ids + size_mod - length s.erased) % size_mod
