-- ===== src/Index/History.antt =====
-- An index over any calls: its last segment always has room for a vector.
use vecodex.Prelude.{
  ℕ, suc, ◌≤◌, ◌<◌, ◌≡◌, sym, subst, ap, ◌∙◌, Bool, List, [], ◌∷◌, ◌++◌, Key, length, if◌then◌else◌,
  if_intro, All, All-append, All-weaken, arith,
}
use vecodex.BaseIndex.{IBaseIndex}
use vecodex.FaissIndex.{size_mod}
use vecodex.Segment
use vecodex.Segment.{Segment, delete_batch}
use vecodex.Index.State.{
  Index, Status, finished, init, create_last, update, update_self, update_ne, add_loop, call_back,
  storage_add,
}
use vecodex.Index.Storage.{is_empty}
use vecodex.Index.Operations.{
  add, finish_add, merge_if_enabled, merge_amount, delete_in, erase, push_segment, erase_segment,
}
use vecodex.Index.Filling.{IsReady, add_loop_lem}
use vecodex.Index.Adding.{add_finished}
use vecodex.Index.Merging.{merge_total}
use vecodex.Index.Pointers.{
  IsClosed, AreEntries-place, AreEntries-weaken, IsApart, IsApart-add_loop,
}
use vecodex.Index.Keeping.{merge-IsReady}

module _ {IdType Vec Dist : Type 0} (B : IBaseIndex IdType Vec Dist) ⦃e : Key IdType⦄
    (rand : ℕ → ℕ) where
  -- The invariant: the last segment is sound and has room, and no other pointer leads to it.
  abbrev pub IsStable : Index B → Type 0
  IsStable s = IsApart B rand s × IsReady B rand s

  IsStable-call_back :
      (erased inserted : List ℕ) (s : Index B)
      → IsStable s
      → IsStable (call_back B rand erased inserted s)
  unfolding call_back
  IsStable-call_back erased inserted s (a, r) =
      if_intro IsStable s.has_callback _ s
        (λ _. (
          record { allocated = a.allocated; in_levels = a.in_levels; in_segments = a.in_segments },
          record { allocated = r.allocated; room = r.room; bounded = r.bounded; sound = r.sound },
        ))
        (λ _. (a, r))

  IsStable-merge_if_enabled : (s : Index B) → IsStable s → IsStable (merge_if_enabled B rand s).1
  unfolding merge_if_enabled
  IsStable-merge_if_enabled s (a, r) =
      let (s', q) = merge_total B rand merge_amount s in
      if_intro (λ (t : Status × Index B). IsStable t.1) s.enable_merge _ (finished, s)
        (λ _. rw (q) (merge-IsReady B rand merge_amount s s' a r q)) (λ _. (a, r))

  pub IsStable-add :
      (vs : List (IdType × Vec)) (s : Index B) → IsStable s → IsStable (add B rand vs s).1
  unfolding add finish_add
  IsStable-add vs s (a, r) =
      let filled = add_loop_lem B rand (length vs) vs [] s (omega arith) r tt in
      let t = add_loop B rand (length vs) vs [] s in
      let apart = IsApart-add_loop B rand (length vs) vs [] s a in
      subst (λ status. IsStable (finish_add B rand status t.1 t.2).1) (sym filled.0)
        (IsStable-merge_if_enabled (if is_empty t.1 then t.2 else call_back B rand [] t.1 t.2) (
          if_intro IsStable (is_empty t.1) t.2 (call_back B rand [] t.1 t.2)
            (λ _. (apart, filled.1)) (λ _. IsStable-call_back [] t.1 t.2 (apart, filled.1))))

  pub IsStable-push_segment :
      (segment : Segment B) (s : Index B) → IsStable s → IsStable (push_segment B rand segment s)
  unfolding push_segment storage_add
  IsStable-push_segment segment s (a, r) =
      let p = s.next_ptr in
      let Old = IsClosed p s.last in
      let New = IsClosed (suc p) s.last in
      let old : (q : ℕ) → Old q → New q = λ q h. (omega (arith, h.0), h.1) in
      let new : New p = (omega arith, λ q. omega (arith, a.allocated, q)) in
      let same : update s.heap p segment s.last ≡ s.heap s.last =
        update_ne s.heap p s.last segment new.1 in
      let heap = update s.heap p segment in
      let s₁ = storage_add B rand p (record s { next_ptr = suc p; heap = heap }) in
      IsStable-call_back [] (p ∷ []) (record s₁ { segments = s₁.segments ++ p ∷ [] })
        (
          record {
            allocated = omega (arith, a.allocated);
            in_levels =
                AreEntries-place New (Segment.size B (heap p)) p s.levels new
                  (AreEntries-weaken Old New s.levels old a.in_levels);
            in_segments =
                All-append New s.segments (p ∷ []) (All-weaken Old New s.segments old a.in_segments)
                  (new, tt);
          },
          record {
            allocated = omega (arith, a.allocated);
            room = subst (λ (t : Segment B). Segment.size B t < s.threshold) (sym same) r.room;
            bounded = r.bounded;
            sound = subst (λ (t : Segment B). B.IsSound t.index) (sym same) r.sound;
          },
        )

  delete_in-other :
      (is : List IdType) (ps : List ℕ) (heap : ℕ → Segment B) (next last : ℕ)
      → All (IsClosed next last) ps
      → delete_in B rand is (ps ++ last ∷ []) heap last ≡ delete_batch B is (heap last)
  unfolding delete_in
  delete_in-other is [] heap next last h = update_self heap last (delete_batch B is (heap last))
  delete_in-other is (p ∷ ps) heap next last h =
      delete_in-other is ps (update heap p (delete_batch B is (heap p))) next last h.1
      ∙ ap (delete_batch B is) (update_ne heap p last (delete_batch B is (heap p)) h.0.1)

  -- Erasing these identifiers leaves the last segment sound and no larger.
  abbrev pub IsHarmless : List IdType → Index B → Type 0
  IsHarmless is s =
      B.IsSound (B.erase_batch is (s.heap s.last).index)
      × (B.size (B.erase_batch is (s.heap s.last).index) ≤ B.size (s.heap s.last).index)

  IsStable-erase :
      (is : List IdType) (s : Index B) → IsHarmless is s → IsStable s → IsStable (erase B rand is s)
  unfolding erase delete_batch
  IsStable-erase is s (sound, smaller) (a, r) =
      let same = delete_in-other is s.segments s.heap s.next_ptr s.last a.in_segments in
      (
        record { allocated = a.allocated; in_levels = a.in_levels; in_segments = a.in_segments },
        record {
          allocated = r.allocated;
          room =
              subst (λ (t : Segment B). Segment.size B t < s.threshold) (sym same)
                (omega (arith, smaller, r.room));
          bounded = r.bounded;
          sound = subst (λ (t : Segment B). B.IsSound t.index) (sym same) sound;
        },
      )

  pub IsStable-init :
      (threshold : ℕ) (enable_merge : Bool)
      → 0 < threshold
      → threshold < size_mod
      → IsStable (init B rand threshold enable_merge)
  unfolding init create_last
  IsStable-init threshold enable_merge h k =
      let new : Segment B = record { seg_id = rand 0; index = B.empty } in
      let old : ℕ → Segment B = λ p. record { seg_id = 0; index = B.empty } in
      let same : update old 0 new 0 ≡ new = update_self old 0 new in
      (
        record { allocated = omega arith; in_levels = tt; in_segments = tt },
        record {
          allocated = omega arith;
          room =
              subst (λ (t : Segment B). Segment.size B t < threshold) (sym same)
                (subst (λ n. n < threshold) (sym B.size-empty) h);
          bounded = k;
          sound = subst (λ (t : Segment B). B.IsSound t.index) (sym same) B.empty-IsSound;
        },
      )

  -- The calls that change an index.
  pub data Call : Type 0 where
    adds : List (IdType × Vec) → Call
    erases : List IdType → Call
    pushes : Segment B → Call
    erases_segment : ℕ → Call

  abbrev pub step : Call → Index B → Index B
  step (adds vs) s = (add B rand vs s).1
  step (erases is) s = erase B rand is s
  step (pushes segment) s = push_segment B rand segment s
  step (erases_segment id) s = (erase_segment B rand id s).1

  abbrev pub run : List Call → Index B → Index B
  run [] s = s
  run (call ∷ calls) s = run calls (step call s)

  -- Every erasure of the calls is harmless where it happens.
  abbrev pub AreHarmless : List Call → Index B → Type 0
  AreHarmless [] s = Unit {0}
  AreHarmless (adds vs ∷ calls) s = AreHarmless calls (step (adds vs) s)
  AreHarmless (erases is ∷ calls) s = IsHarmless is s × AreHarmless calls (step (erases is) s)
  AreHarmless (pushes segment ∷ calls) s = AreHarmless calls (step (pushes segment) s)
  AreHarmless (erases_segment id ∷ calls) s = AreHarmless calls (step (erases_segment id) s)

  IsStable-run :
      (calls : List Call) (s : Index B) → AreHarmless calls s → IsStable s → IsStable (run calls s)
  unfolding erase_segment
  IsStable-run [] s h i = i
  IsStable-run (adds vs ∷ calls) s h i =
      IsStable-run calls (step (adds vs) s) h (IsStable-add vs s i)
  IsStable-run (erases is ∷ calls) s h i =
      IsStable-run calls (step (erases is) s) h.1 (IsStable-erase is s h.0 i)
  IsStable-run (pushes segment ∷ calls) s h i =
      IsStable-run calls (step (pushes segment) s) h (IsStable-push_segment segment s i)
  IsStable-run (erases_segment id ∷ calls) s h i = IsStable-run calls s h i

  pub run-init :
      (calls : List Call) (threshold : ℕ) (enable_merge : Bool)
      → 0 < threshold
      → threshold < size_mod
      → AreHarmless calls (init B rand threshold enable_merge)
      → IsStable (run calls (init B rand threshold enable_merge))
        × ((vs : List (IdType × Vec))
            → (add B rand vs (run calls (init B rand threshold enable_merge))).0 ≡ finished)
  run-init calls threshold enable_merge h k harmless =
      let s = run calls (init B rand threshold enable_merge) in
      let stable =
        IsStable-run calls (init B rand threshold enable_merge) harmless
          (IsStable-init threshold enable_merge h k) in
      (stable, λ vs. add_finished B rand vs s stable.1)
