-- ===== src/BaseIndex.antt =====
-- What an index may rely on of the vector index inside a segment: IBaseIndex
-- (index/include/IBaseIndex.h), as operations and laws.
use vecodex.Prelude.{ℕ, ◌+◌, ◌≤◌, ◌≡◌, List, length, Option}

pub record IBaseIndex (IdType Vec Dist : Type 0) : Type 1 where
  pub Base : Type 0
  pub empty : Base
  pub add_batch : Base → List (IdType × Vec) → Base
  pub single_search : ℕ → Vec → Base → Option (List (IdType × Dist))
  pub erase_batch : List IdType → Base → Base
  pub merge_from_other : Base → Base → Base
  pub size : Base → ℕ
  -- No more vectors are erased than there are identifiers.
  pub IsSound : Base → Type 0
  pub empty-IsSound : IsSound empty
  pub add_batch-IsSound :
      (b : Base) (vs : List (IdType × Vec)) → IsSound b → IsSound (add_batch b vs)
  pub merge-IsSound : (other b : Base) → IsSound b → IsSound (merge_from_other other b)
  pub size-empty : size empty ≡ 0
  pub size-add_batch :
      (b : Base) (vs : List (IdType × Vec)) → IsSound b → size (add_batch b vs) ≤ size b + length vs
