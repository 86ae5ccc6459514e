-- ===== src/Index/Storage.antt =====
-- SegmentStorage::merge (index/include/IIndex.h): pairs of neighbours in a level are merged into
-- the level above, as long as the amount of vectors allows.
use vecodex.Prelude.{
  ℕ, zero, suc, ◌+◌, ◌-◌, ◌%◌, Bool, true, false, not, ◌&&◌, Option, none, some, List, [], ◌∷◌,
  ◌++◌, map, Key, length, leb, ◌==◌, if◌then◌else◌,
}
use vecodex.BaseIndex.{IBaseIndex}
use vecodex.FaissIndex.{size_mod}
use vecodex.Segment
use vecodex.Segment.{Segment}
use vecodex.Index.State.{Index, update, call_back}

-- The variables of the loop over one level.
pub record Scan {IdType Vec Dist : Type 0} (B : IBaseIndex IdType Vec Dist) : Type 0 where
  pub amount : ℕ
  pub heap : ℕ → Segment B
  pub rands : ℕ
  pub counter : ℕ
  pub erased : List ℕ
  pub inserted : List ℕ

unfoldable pub is_empty {ℓ} : {A : Type ℓ} → List A → Bool
is_empty [] = true
is_empty (x ∷ xs) = false

-- `levels[i + 1].push_back(index)`, for the segments merged in level i.
unfoldable pub push_next : List ℕ → List (List (Option ℕ)) → List (List (Option ℕ))
push_next [] ls = ls
push_next (p ∷ ps) [] = (some p ∷ map some ps) ∷ []
push_next (p ∷ ps) (l ∷ ls) = (l ++ some p ∷ map some ps) ∷ ls

-- The last loop of `merge`: null pointers are removed.
unfoldable pub drop_null : List (Option ℕ) → List (Option ℕ)
drop_null [] = []
drop_null (none ∷ l) = drop_null l
drop_null (some p ∷ l) = some p ∷ drop_null l

-- The levels and the pointers in them: the fuel of `merge`.
unfoldable pub merge_fuel : List (List (Option ℕ)) → ℕ
unfolding drop_null
merge_fuel [] = 0
merge_fuel (l ∷ ls) = suc (length (drop_null l)) + merge_fuel ls

module _ {IdType Vec Dist : Type 0} (B : IBaseIndex IdType Vec Dist) ⦃e : Key IdType⦄
    (rand : ℕ → ℕ) where
  -- `levels[i][j]->size() + levels[i][j + 1]->size()`
  abbrev pub pair_size : ℕ → ℕ → Scan B → ℕ
  pair_size p q a = (Segment.size B (a.heap p) + Segment.size B (a.heap q)) % size_mod

  -- `q` is merged into `p`, which gets a new identifier.
  unfoldable pub merge_pair : ℕ → ℕ → Scan B → Scan B
  merge_pair p q a =
      let merged = Segment.merge_segment B (a.heap q) (a.heap p) in
      record {
        amount = a.amount - pair_size p q a;
        heap = update a.heap p (record merged { seg_id = rand a.rands });
        rands = suc a.rands;
        counter = (a.counter + size_mod - 1) % size_mod;
        erased = a.erased ++ (a.heap q).seg_id ∷ (a.heap p).seg_id ∷ [];
        inserted = a.inserted ++ p ∷ [];
      }

  -- The loop over `j`. After a merge both places are null, and the next round skips the second.
  unfoldable pub scan : List (Option ℕ) → Scan B → List (Option ℕ) × Scan B
  unfolding merge_pair
  scan [] a = ([], a)
  scan (none ∷ r) a = let (out, a') = scan r a in (none ∷ out, a')
  scan (some p ∷ []) a = (some p ∷ [], a)
  scan (some p ∷ none ∷ r) a = let (out, a') = scan r a in (some p ∷ none ∷ out, a')
  scan (some p ∷ some q ∷ r) a =
      let taken = scan r (merge_pair p q a) in
      let left = scan (some q ∷ r) a in
      if leb (pair_size p q a) a.amount
      then (none ∷ none ∷ taken.0, taken.1)
      else (some p ∷ left.0, left.1)

  -- `find_if` and `erase` on `segments_`; an id that is not there is skipped.
  unfoldable pub erase_first : (ℕ → Segment B) → ℕ → List ℕ → List ℕ
  erase_first heap id [] = []
  erase_first heap id (p ∷ ps) =
      let rest = erase_first heap id ps in if (heap p).seg_id == id then ps else p ∷ rest

  unfoldable pub erase_all : (ℕ → Segment B) → List ℕ → List ℕ → List ℕ
  unfolding erase_first
  erase_all heap [] ps = ps
  erase_all heap (id ∷ ids) ps = erase_all heap ids (erase_first heap id ps)

  -- What follows the loop over a level.
  unfoldable pub commit : Scan B → Index B → Index B
  unfolding erase_all is_empty
  commit a s =
      let s' = record s {
        heap = a.heap;
        rands = a.rands;
        counter = a.counter;
        segments = erase_all a.heap a.erased (s.segments ++ a.inserted);
      } in
      if not (is_empty a.erased) && not (is_empty a.inserted)
      then call_back B rand a.erased a.inserted s'
      else s'

  abbrev pub start : ℕ → Index B → Scan B
  start amount s = record {
    amount = amount;
    heap = s.heap;
    rands = s.rands;
    counter = s.counter;
    erased = [];
    inserted = [];
  }

  -- The loop over the levels; `none` means that the fuel ran out.
  unfoldable pub merge_levels :
      ℕ → ℕ → List (List (Option ℕ)) → Index B → Option (List (List (Option ℕ)) × Index B)
  unfolding scan commit push_next
  merge_levels fuel amount [] s = some ([], s)
  merge_levels zero amount (l ∷ ls) s = none
  merge_levels (suc fuel) amount (l ∷ ls) s =
      let done = scan l (start amount s) in
      let rest = merge_levels fuel done.1.amount (push_next done.1.inserted ls) (commit done.1 s) in
      if amount == 0
      then some (l ∷ ls, s)
      else elim rest [ none ↦ none | some (ls', s') ↦ some (done.0 ∷ ls', s') ]

  unfoldable pub merge : ℕ → Index B → Option (Index B)
  unfolding merge_levels merge_fuel drop_null
  merge amount s = elim (merge_levels (merge_fuel s.levels) amount s.levels s) [
    | none ↦ none
    | some (ls, s') ↦ some (record s' { levels = map drop_null ls })
  ]
