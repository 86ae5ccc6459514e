-- ===== src/Segment.antt =====
-- vecodex::Segment (index/include/Segment.h): a vector index with an identifier of its own. The
-- locks are left out: a step of the model is a whole call.
pub mod Files
use vecodex.Prelude.{ℕ, Option, none, some, List, [], ◌∷◌, Key, insert}
use vecodex.BaseIndex.{IBaseIndex}

pub record Segment {IdType Vec Dist : Type 0} (B : IBaseIndex IdType Vec Dist) : Type 0 where
  pub seg_id : ℕ
  pub index : B.Base

-- The loop `result[indices[i]] = distances[i]`.
unfoldable pub fill_result :
    {IdType Dist : Type 0} ⦃e : Key IdType⦄
    → List (IdType × Dist)
    → List (IdType × Dist)
    → List (IdType × Dist)
fill_result [] result = result
fill_result ((i, d) ∷ hits) result = fill_result hits (insert i d result)

module _ {IdType Vec Dist : Type 0} (B : IBaseIndex IdType Vec Dist) ⦃e : Key IdType⦄ where
  unfoldable pub add_vector_batch : List (IdType × Vec) → Segment B → Segment B
  add_vector_batch vs s = record s { index = B.add_batch s.index vs }

  unfoldable pub delete_batch : List IdType → Segment B → Segment B
  delete_batch is s = record s { index = B.erase_batch is s.index }

  unfoldable pub search_query : ℕ → Vec → Segment B → Option (List (IdType × Dist))
  unfolding fill_result
  search_query k q s = elim (B.single_search k q s.index) [
    | none ↦ none
    | some hits ↦ some (fill_result hits [])
  ]

  -- `other` keeps its vectors.
  unfoldable pub merge_segment : Segment B → Segment B → Segment B
  merge_segment other s = record s { index = B.merge_from_other other.index s.index }

  abbrev pub size : Segment B → ℕ
  size s = B.size s.index
