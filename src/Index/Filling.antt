-- ===== src/Index/Filling.antt =====
-- The loop of Index::add: it ends, throws nothing, and leaves every segment but the last one full.
use mathlib.Core.List.{append-nil, append_assoc}
use vecodex.Prelude.{
  ℕ, zero, suc, ◌+◌, ◌-◌, ◌≤◌, ◌<◌, ◌≡◌, ◌≢◌, refl, ap, subst, sym, ◌∙◌, false, List, [], ◌∷◌, ◌++◌,
  Key, length, length-take, length-drop, take, drop, min, ◌==◌, if◌then◌else◌, arith, All,
  All-weaken, All-append, Bool-cases, inl, inr,
}
use vecodex.BaseIndex.{IBaseIndex}
use vecodex.FaissIndex.{size_mod}
use vecodex.Segment
use vecodex.Segment.{Segment, add_vector_batch}
use vecodex.Index.State.{
  Index, Status, finished, empty_batch, update_self, close_last, fill_last, batch_size, last_size,
  add_loop,
}

module _ {IdType Vec Dist : Type 0} (B : IBaseIndex IdType Vec Dist) ⦃e : Key IdType⦄
    (rand : ℕ → ℕ) where
  -- The last segment is allocated, and has room.
  pub record IsReady (s : Index B) : Type 0 where
    pub allocated : s.last < s.next_ptr
    pub room : last_size B rand s < s.threshold
    pub bounded : s.threshold < size_mod
    pub sound : B.IsSound (s.heap s.last).index

  -- A segment that is full, and not the last one.
  abbrev pub IsFull : Index B → ℕ → Type 0
  IsFull s p = (p < s.next_ptr) × (p ≢ s.last) × (Segment.size B (s.heap p) ≡ s.threshold)

  batch_size_lem :
      (vs : List (IdType × Vec)) (s : Index B)
      → IsReady s
      → batch_size B rand vs s ≡ min (length vs) (s.threshold - last_size B rand s)
  batch_size_lem vs s r = omega (arith, r.room, r.bounded)

  fill_size :
      (vs : List (IdType × Vec)) (s : Index B)
      → IsReady s
      → last_size B rand (fill_last B rand vs s) ≤ last_size B rand s + length vs
  unfolding fill_last add_vector_batch
  fill_size vs s r = ground (arith, B.size-add_batch (s.heap s.last).index vs r.sound)

  fill-IsSound :
      (vs : List (IdType × Vec)) (s : Index B)
      → IsReady s
      → B.IsSound ((fill_last B rand vs s).heap s.last).index
  unfolding fill_last add_vector_batch
  fill-IsSound vs s r =
      subst (λ (t : Segment B). B.IsSound t.index)
        (sym (update_self s.heap s.last (add_vector_batch B vs (s.heap s.last))))
        (B.add_batch-IsSound (s.heap s.last).index vs r.sound)

  fill-IsFull :
      (vs : List (IdType × Vec)) (s : Index B) (p : ℕ)
      → IsFull s p
      → IsFull (fill_last B rand vs s) p
  unfolding fill_last
  fill-IsFull vs s p f = ground arith

  close-IsFull : (s : Index B) (p : ℕ) → IsFull s p → IsFull (close_last B rand s) p
  unfolding close_last
  close-IsFull s p f = ground arith

  close-IsFull_last :
      (s : Index B)
      → s.last < s.next_ptr
      → last_size B rand s ≡ s.threshold
      → IsFull (close_last B rand s) s.last
  unfolding close_last
  close-IsFull_last s a f = ground arith

  close-IsReady :
      (s : Index B) → 0 < s.threshold → s.threshold < size_mod → IsReady (close_last B rand s)
  unfolding close_last
  close-IsReady s a b = record {
    allocated = omega arith;
    room = rw (update_self _ s.next_ptr _, B.size-empty) a;
    bounded = b;
    sound =
        subst (λ (t : Segment B). B.IsSound t.index)
          (sym (update_self s.heap s.next_ptr (record { seg_id = rand s.rands; index = B.empty })))
          B.empty-IsSound;
  }

  fill-IsReady :
      (vs : List (IdType × Vec)) (s : Index B)
      → IsReady s
      → last_size B rand (fill_last B rand vs s) < s.threshold
      → IsReady (fill_last B rand vs s)
  unfolding fill_last
  fill-IsReady vs s r l = record {
    allocated = r.allocated;
    room = l;
    bounded = r.bounded;
    sound = fill-IsSound vs s r;
  }

  abbrev pub Filled : List ℕ → Index B → Status × List ℕ × Index B → Type 0
  Filled inserted s (status, inserted', s') =
      (status ≡ finished)
      × IsReady s'
      × All (IsFull s') inserted'
      × (s'.threshold ≡ s.threshold)
      × (new : List ℕ) × (inserted' ≡ inserted ++ new)
      × (s'.segments ≡ s.segments ++ new)

  -- One round closes the segment or leaves it open; either way the loop goes on as before.
  extend :
      (p : ℕ) (inserted : List ℕ) (s s₁ : Index B) (r : Status × List ℕ × Index B)
      → s₁.threshold ≡ s.threshold
      → s₁.segments ≡ s.segments ++ p ∷ []
      → Filled (inserted ++ p ∷ []) s₁ r
      → Filled inserted s r
  extend p inserted s s₁ (status, inserted', s') t g (a, b, c, d, new, i, j) = (
    a,
    b,
    c,
    d ∙ t,
    p ∷ new,
    i ∙ append_assoc inserted (p ∷ []) new,
    j ∙ ap (λ x. x ++ new) g ∙ append_assoc s.segments (p ∷ []) new,
  )

  -- The same where the last segment stays open.
  stay :
      (inserted : List ℕ) (s s₁ : Index B) (r : Status × List ℕ × Index B)
      → s₁.threshold ≡ s.threshold
      → s₁.segments ≡ s.segments
      → Filled inserted s₁ r
      → Filled inserted s r
  stay inserted s s₁ (status, inserted', s') t g (a, b, c, d, new, i, j) =
      (a, b, c, d ∙ t, new, i, j ∙ ap (λ x. x ++ new) g)

  pub add_loop_step :
      (fuel : ℕ) (v : IdType × Vec) (vs : List (IdType × Vec)) (inserted : List ℕ) (s : Index B)
      → let batch = batch_size B rand (v ∷ vs) s in
        let s' = fill_last B rand (take batch (v ∷ vs)) s in
        add_loop B rand (suc fuel) (v ∷ vs) inserted s ≡ (
          if batch == 0
          then (empty_batch, inserted, s)
          else (if last_size B rand s' == s.threshold
              then add_loop B rand fuel
                  (drop batch (v ∷ vs))
                  (inserted ++ s.last ∷ [])
                  (close_last B rand s')
              else add_loop B rand fuel (drop batch (v ∷ vs)) inserted s'))
  unfolding add_loop
  add_loop_step fuel v vs inserted s = refl

  pub add_loop_nil :
      (fuel : ℕ) (inserted : List ℕ) (s : Index B)
      → add_loop B rand fuel [] inserted s ≡ (finished, inserted, s)
  unfolding add_loop
  add_loop_nil fuel inserted s = refl

  close-fill_fields :
      (vs : List (IdType × Vec)) (s : Index B)
      → let s' = fill_last B rand vs s in
        (s'.threshold ≡ s.threshold)
        × (s'.last ≡ s.last)
        × (s'.segments ≡ s.segments)
        × ((close_last B rand s').threshold ≡ s.threshold)
        × ((close_last B rand s').segments ≡ s.segments ++ s.last ∷ [])
  unfolding close_last fill_last
  close-fill_fields vs s = (refl, refl, refl, refl, refl)

  close-fill-All :
      (vs : List (IdType × Vec)) (inserted : List ℕ) (s : Index B)
      → IsReady s
      → last_size B rand (fill_last B rand vs s) ≡ s.threshold
      → All (IsFull s) inserted
      → IsReady (close_last B rand (fill_last B rand vs s))
        × All (IsFull (close_last B rand (fill_last B rand vs s))) (inserted ++ s.last ∷ [])
  unfolding fill_last
  close-fill-All vs inserted s r full f =
      let s' = fill_last B rand vs s in
      let s'' = close_last B rand s' in
      (
        close-IsReady s' (omega (arith, r.room)) r.bounded,
        All-append (IsFull s'') inserted (s.last ∷ [])
            (All-weaken (IsFull s) (IsFull s'') inserted
              (λ p g. close-IsFull s' p (fill-IsFull vs s p g)) f)
            (close-IsFull_last s' r.allocated full, tt),
      )

  -- A round takes at least one vector, and no more than fit.
  round :
      (fuel : ℕ) (v : IdType × Vec) (vs : List (IdType × Vec)) (s : Index B)
      → length (v ∷ vs) ≤ suc fuel
      → IsReady s
      → let batch = batch_size B rand (v ∷ vs) s in
        ((batch == 0) ≡ false)
        × (length (drop batch (v ∷ vs)) ≤ fuel)
        × (last_size B rand (fill_last B rand (take batch (v ∷ vs)) s) ≤ s.threshold)
  round fuel v vs s l r =
      let batch = batch_size B rand (v ∷ vs) s in
      let eq : batch ≡ min (length (v ∷ vs)) (s.threshold - last_size B rand s) =
        batch_size_lem (v ∷ vs) s r in
      let pos : 0 < batch = omega (arith, r.room, eq) in
      (
        ground (arith, pos),
        omega (arith, pos, length-drop batch (v ∷ vs)),
        omega (arith, eq, r.room, length-take batch (v ∷ vs), fill_size (take batch (v ∷ vs)) s r),
      )

  -- From an index whose last segment is sound and has room, and with fuel for every vector, the loop
  -- of `add` takes in all its vectors: it does not throw, closes the segments that it reports, each
  -- full, and leaves room in the last one.
  pub add_loop_lem :
      (fuel : ℕ) (vs : List (IdType × Vec)) (inserted : List ℕ) (s : Index B)
      → length vs ≤ fuel
      → IsReady s
      → All (IsFull s) inserted
      → Filled inserted s (add_loop B rand fuel vs inserted s)
  add_loop_lem fuel [] inserted s l r f =
      subst (Filled inserted s) (sym (add_loop_nil fuel inserted s))
        (refl, r, f, refl, [], sym (append-nil inserted), sym (append-nil s.segments))
  add_loop_lem zero (v ∷ vs) inserted s l r f = absurd (omega arith)
  add_loop_lem (suc fuel) (v ∷ vs) inserted s l r f =
      let batch = batch_size B rand (v ∷ vs) s in
      let some_vs = take batch (v ∷ vs) in
      let s₁ = fill_last B rand some_vs s in
      let (taken, shorter, fits) = round fuel v vs s l r in
      let (t, same_last, g, t', g') = close-fill_fields some_vs s in
      subst (Filled inserted s) (sym (add_loop_step fuel v vs inserted s))
        (elim (Bool-cases (last_size B rand s₁ == s.threshold)) [
          | inl full ↦
              let (ready, all) = close-fill-All some_vs inserted s r (ground (arith, full)) f in
              rw (taken, full)
                (extend s.last inserted s (close_last B rand s₁) _ t' g' (
                  add_loop_lem fuel (drop batch (v ∷ vs)) (inserted ++ s.last ∷ [])
                    (close_last B rand s₁) shorter ready all))
          | inr open' ↦
              rw (taken, open')
                (stay inserted s s₁ _ t g (
                  add_loop_lem fuel (drop batch (v ∷ vs)) inserted s₁ shorter
                    (fill-IsReady some_vs s r (ground (arith, fits, open')))
                    (All-weaken (IsFull s) (IsFull s₁) inserted (fill-IsFull some_vs s) f)))
        ])
