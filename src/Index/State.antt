-- ===== src/Index/State.antt =====
-- The state of vecodex::IIndex (index/include/IIndex.h), SegmentStorage::add and the loop of
-- Index::add (index/include/Index.h). Segments are shared between `segments_`, `last_` and the
-- levels of the storage, so a list holds pointers, and a heap the segments, which are never freed.
use vecodex.Prelude.{
  ℕ, zero, suc, arith, ◌≡◌, ◌≢◌, ◌+◌, ◌-◌, ◌%◌, ◌^◌, Bool, false, Option, some, List, [], ◌∷◌, ◌++◌,
  Key, length, take, drop, min, ltb, ◌==◌, if◌then◌else◌,
}
use vecodex.BaseIndex.{IBaseIndex}
use vecodex.FaissIndex.{size_mod}
use vecodex.Segment
use vecodex.Segment.{Segment}
use vecodex.TopK.{result_order}

-- A call of the update callback: the ids erased and the segments inserted.
pub record Update : Type 0 where
  pub erased : List ℕ
  pub inserted : List ℕ

pub data Status : Type 0 where
  finished empty_batch out_of_fuel : Status

pub record Index {IdType Vec Dist : Type 0} (B : IBaseIndex IdType Vec Dist) : Type 0 where
  pub enable_merge : Bool
  pub has_callback : Bool
  pub threshold : ℕ
  pub segments : List ℕ
  pub last : ℕ
  pub levels : List (List (Option ℕ))
  pub sz : ℕ
  pub counter : ℕ
  pub heap : ℕ → Segment B
  pub next_ptr : ℕ
  -- How many times `rand` was called.
  pub rands : ℕ
  -- The calls of the callback, oldest first.
  pub updates : List Update

-- The store of the heap.
abbrev pub update {ℓ} : {A : Type ℓ} → (ℕ → A) → ℕ → A → ℕ → A
update h p a q = if p == q then a else h q

module _ {ℓ} {A : Type ℓ} where
  pub update_self : (h : ℕ → A) (p : ℕ) (a : A) → update h p a p ≡ a
  update_self h p a = ground arith

  pub update_ne : (h : ℕ → A) (p q : ℕ) (a : A) → p ≢ q → update h p a q ≡ h q
  update_ne h p q a n = ground arith

-- The loop `for (; (1ll << i) < size; ++i)` of SegmentStorage::add.
unfoldable pub grow_levels : ℕ → ℕ → ℕ → List (List (Option ℕ)) → ℕ × List (List (Option ℕ))
grow_levels zero i n levels = (i, levels)
grow_levels (suc fuel) i n levels =
    let next =
      grow_levels fuel (suc i) n (if i == length levels then levels ++ [] ∷ [] else levels) in
    if ltb (2 ^ i) n then next else (i, levels)

-- `levels[i].push_back(segment)`
unfoldable pub push_at : ℕ → ℕ → List (List (Option ℕ)) → List (List (Option ℕ))
push_at i p [] = []
push_at zero p (l ∷ levels) = (l ++ some p ∷ []) ∷ levels
push_at (suc i) p (l ∷ levels) = l ∷ push_at i p levels

-- `long long` has 63 bits for the shift.
abbrev pub shift_fuel : ℕ
shift_fuel = 63

unfoldable pub place : ℕ → ℕ → List (List (Option ℕ)) → List (List (Option ℕ))
place n p levels =
    let (i, grown) = grow_levels shift_fuel 0 n levels in
    let level = (if i == 0 then 0 else i - 1) in
    push_at level p (if level == length grown then grown ++ [] ∷ [] else grown)

module _ {IdType Vec Dist : Type 0} (B : IBaseIndex IdType Vec Dist) ⦃e : Key IdType⦄
    (rand : ℕ → ℕ) where
  -- `factory_->create()`: a new, empty segment.
  unfoldable pub create_last : Index B → Index B
  create_last s = record s {
    last = s.next_ptr;
    next_ptr = suc s.next_ptr;
    heap = update s.heap s.next_ptr (record { seg_id = rand s.rands; index = B.empty });
    rands = suc s.rands;
  }

  -- The constructor.
  unfoldable pub init : ℕ → Bool → Index B
  unfolding create_last
  init threshold enable_merge = create_last (record {
    enable_merge = enable_merge;
    has_callback = false;
    threshold = threshold;
    segments = [];
    last = 0;
    levels = [];
    sz = 0;
    counter = 0;
    heap = λ p. record { seg_id = 0; index = B.empty };
    next_ptr = 0;
    rands = 0;
    updates = [];
  })

  -- SegmentStorage::add
  unfoldable pub storage_add : ℕ → Index B → Index B
  storage_add p s =
      let n = Segment.size B (s.heap p) in
      record s { counter = s.counter + 1; sz = s.sz + n; levels = place n p s.levels }

  -- `if (callback) callback(erased, inserted)`
  unfoldable pub call_back : List ℕ → List ℕ → Index B → Index B
  call_back erased inserted s =
      if s.has_callback
      then record s { updates = s.updates ++ record { erased = erased; inserted = inserted } ∷ [] }
      else s

  abbrev pub last_size : Index B → ℕ
  last_size s = Segment.size B (s.heap s.last)

  -- What follows a full `last_` in Index::add.
  unfoldable pub close_last : Index B → Index B
  unfolding storage_add create_last
  close_last s =
      let s' = storage_add s.last s in
      create_last (record s' { segments = s'.segments ++ s.last ∷ [] })

  -- `this->last_->addVectorBatch(batch, ids, vectors)`
  unfoldable pub fill_last : List (IdType × Vec) → Index B → Index B
  fill_last vs s = record s {
    heap = update s.heap s.last (Segment.add_vector_batch B vs (s.heap s.last));
  }

  -- `std::min(n, segmentThreshold_ - last_->size())`, in `size_t`.
  abbrev pub batch_size : List (IdType × Vec) → Index B → ℕ
  batch_size vs s = min (length vs) ((s.threshold + size_mod - last_size s) % size_mod)

  -- The loop `while (n)` of Index::add, with the list of the segments that it closed.
  unfoldable pub add_loop : ℕ → List (IdType × Vec) → List ℕ → Index B → Status × List ℕ × Index B
  unfolding fill_last close_last
  add_loop fuel [] inserted s = (finished, inserted, s)
  add_loop zero (v ∷ vs) inserted s = (out_of_fuel, inserted, s)
  add_loop (suc fuel) (v ∷ vs) inserted s =
      let batch = batch_size (v ∷ vs) s in
      let s' = fill_last (take batch (v ∷ vs)) s in
      let full = add_loop fuel (drop batch (v ∷ vs)) (inserted ++ s.last ∷ []) (close_last s') in
      let rest = add_loop fuel (drop batch (v ∷ vs)) inserted s' in
      if batch == 0
      then (empty_batch, inserted, s)
      else (if last_size s' == s.threshold then full else rest)
