-- ===== src/Index/Pointers.antt =====
-- The pointers in the levels and in `segments_`: none is `last_`, under SegmentStorage::add and the
-- loop of Index::add.
use vecodex.Prelude.{
  ℕ, ◌^◌, zero, suc, ◌-◌, ◌<◌, ◌≢◌, sym, subst, Option, none, some, List, [], ◌∷◌, ◌++◌, Key,
  length, take, drop, ltb, ◌==◌, if◌then◌else◌, if_intro, All, All-append, All-weaken, arith,
}
use vecodex.BaseIndex.{IBaseIndex}
use vecodex.Index.State.{
  Index, Status, grow_levels, push_at, place, shift_fuel, close_last, fill_last, batch_size,
  last_size, add_loop,
}
use vecodex.Index.Filling.{add_loop_step, add_loop_nil}

-- A pointer that was allocated, and is not the last segment.
abbrev pub IsClosed : ℕ → ℕ → ℕ → Type 0
IsClosed next last p = (p < next) × (p ≢ last)

abbrev pub IsEntry : (ℕ → Type 0) → Option ℕ → Type 0
IsEntry P none = Unit {0}
IsEntry P (some p) = P p

module _ (P : ℕ → Type 0) where
  abbrev pub AreEntries : List (List (Option ℕ)) → Type 0
  AreEntries levels = All (All (IsEntry P)) levels

  AreEntries-grow_levels :
      (fuel i n : ℕ) (levels : List (List (Option ℕ)))
      → AreEntries levels
      → AreEntries (grow_levels fuel i n levels).1
  unfolding grow_levels
  AreEntries-grow_levels zero i n levels h = h
  AreEntries-grow_levels (suc fuel) i n levels h =
      let grown = if i == length levels then levels ++ [] ∷ [] else levels in
      let rest = AreEntries-grow_levels fuel (suc i) n grown (
        if_intro AreEntries (i == length levels) (levels ++ [] ∷ []) levels
          (λ _. All-append (All (IsEntry P)) levels ([] ∷ []) h (tt, tt)) (λ _. h)) in
      if_intro (λ (r : ℕ × List (List (Option ℕ))). AreEntries r.1) (ltb (2 ^ i) n) _ (i, levels)
        (λ _. rest) (λ _. h)

  AreEntries-push_at :
      (i p : ℕ) (levels : List (List (Option ℕ)))
      → P p
      → AreEntries levels
      → AreEntries (push_at i p levels)
  unfolding push_at
  AreEntries-push_at i p [] q h = tt
  AreEntries-push_at zero p (l ∷ levels) q h =
      (All-append (IsEntry P) l (some p ∷ []) h.0 (q, tt), h.1)
  AreEntries-push_at (suc i) p (l ∷ levels) q h = (h.0, AreEntries-push_at i p levels q h.1)

  pub AreEntries-place :
      (n p : ℕ) (levels : List (List (Option ℕ)))
      → P p
      → AreEntries levels
      → AreEntries (place n p levels)
  unfolding place
  AreEntries-place n p levels q h =
      let grown = grow_levels shift_fuel 0 n levels in
      let level = (if grown.0 == 0 then 0 else grown.0 - 1) in
      let g = AreEntries-grow_levels shift_fuel 0 n levels h in
      AreEntries-push_at level p _ q (
        if_intro AreEntries (level == length grown.1) (grown.1 ++ [] ∷ []) grown.1
          (λ _. All-append (All (IsEntry P)) grown.1 ([] ∷ []) g (tt, tt)) (λ _. g))

IsEntry-weaken :
    (P Q : ℕ → Type 0) → ((p : ℕ) → P p → Q p) → (o : Option ℕ) → IsEntry P o → IsEntry Q o
IsEntry-weaken P Q f none h = tt
IsEntry-weaken P Q f (some p) h = f p h

pub AreEntries-weaken :
    (P Q : ℕ → Type 0) (levels : List (List (Option ℕ)))
    → ((p : ℕ) → P p → Q p)
    → AreEntries P levels
    → AreEntries Q levels
AreEntries-weaken P Q levels f h =
    All-weaken (All (IsEntry P)) (All (IsEntry Q)) levels
      (λ l. All-weaken (IsEntry P) (IsEntry Q) l (IsEntry-weaken P Q f)) h

module _ {IdType Vec Dist : Type 0} (B : IBaseIndex IdType Vec Dist) ⦃e : Key IdType⦄
    (rand : ℕ → ℕ) where
  -- `last_` was allocated, and no pointer of the levels or of `segments_` is `last_`.
  pub record IsApart (s : Index B) : Type 0 where
    pub allocated : s.last < s.next_ptr
    pub in_levels : AreEntries (IsClosed s.next_ptr s.last) s.levels
    pub in_segments : All (IsClosed s.next_ptr s.last) s.segments

  IsApart-fill :
      (vs : List (IdType × Vec)) (s : Index B) → IsApart s → IsApart (fill_last B rand vs s)
  unfolding fill_last
  IsApart-fill vs s a = record {
    allocated = a.allocated;
    in_levels = a.in_levels;
    in_segments = a.in_segments;
  }

  -- The old last segment goes into a level and to `segments_`, and the new one is new.
  IsApart-close : (s : Index B) → IsApart s → IsApart (close_last B rand s)
  unfolding close_last
  IsApart-close s a =
      let Old = IsClosed s.next_ptr s.last in
      let New = IsClosed (suc s.next_ptr) s.next_ptr in
      let old : (p : ℕ) → Old p → New p = λ p h. (omega (arith, h.0), λ q. omega (arith, h.0, q)) in
      let last : New s.last = (omega (arith, a.allocated), λ q. omega (arith, a.allocated, q)) in
      record {
        allocated = omega arith;
        in_levels =
            AreEntries-place New _ s.last s.levels last
              (AreEntries-weaken Old New s.levels old a.in_levels);
        in_segments =
            All-append New s.segments (s.last ∷ [])
              (All-weaken Old New s.segments old a.in_segments) (last, tt);
      }

  pub IsApart-add_loop :
      (fuel : ℕ) (vs : List (IdType × Vec)) (inserted : List ℕ) (s : Index B)
      → IsApart s
      → IsApart (add_loop B rand fuel vs inserted s).2
  unfolding add_loop
  IsApart-add_loop fuel [] inserted s a =
      subst (λ (r : Status × List ℕ × Index B). IsApart r.2)
        (sym (add_loop_nil B rand fuel inserted s)) a
  IsApart-add_loop zero (v ∷ vs) inserted s a = a
  IsApart-add_loop (suc fuel) (v ∷ vs) inserted s a =
      let batch = batch_size B rand (v ∷ vs) s in
      let s' = fill_last B rand (take batch (v ∷ vs)) s in
      let a' = IsApart-fill (take batch (v ∷ vs)) s a in
      subst (λ (r : Status × List ℕ × Index B). IsApart r.2)
        (sym (add_loop_step B rand fuel v vs inserted s))
        (if_intro (λ (r : Status × List ℕ × Index B). IsApart r.2) (batch == 0) _ _ (λ _. a)
          (λ _.
            if_intro (λ (r : Status × List ℕ × Index B). IsApart r.2)
              (last_size B rand s' == s.threshold) _ _
              (λ _.
                IsApart-add_loop fuel (drop batch (v ∷ vs)) (inserted ++ s.last ∷ [])
                  (close_last B rand s') (IsApart-close s' a'))
              (λ _. IsApart-add_loop fuel (drop batch (v ∷ vs)) inserted s' a')))
