-- ===== src/Index/Logging.antt =====
-- The log of the update callback only grows.
use mathlib.Core.List.{append-nil, append_assoc}
use mathlib.Core.Option.{some-injective}
use vecodex.Prelude.{
  ℕ, zero, suc, ◌≡◌, refl, ap, ◌∙◌, sym, not, ◌&&◌, Option, some, none≢some, List, [], ◌∷◌, ◌++◌,
  Key, length, take, drop, ◌==◌, if◌then◌else◌, if_intro, Option-cases, Bool-cases, inl, inr,
}
use vecodex.BaseIndex.{IBaseIndex}
use vecodex.Index.State.{
  Index, Update, Status, finished, empty_batch, out_of_fuel, call_back, storage_add, create_last,
  close_last, fill_last, batch_size, last_size, add_loop,
}
use vecodex.Index.Storage.{
  Scan, scan, push_next, merge_fuel, merge_levels, merge, commit, start, erase_all, is_empty,
}
use vecodex.Index.Operations.{add, finish_add, merge_if_enabled, merge_amount}

module _ {IdType Vec Dist : Type 0} {B : IBaseIndex IdType Vec Dist} where
  -- The log of `t` begins with that of `s`.
  abbrev pub Extends : Index B → Index B → Type 0
  Extends s t = (new : List Update) × (t.updates ≡ s.updates ++ new)

  pub Extends-same : (s t : Index B) → t.updates ≡ s.updates → Extends s t
  Extends-same s t h = ([], h ∙ sym (append-nil s.updates))

  pub Extends-trans : (s t u : Index B) → Extends s t → Extends t u → Extends s u
  Extends-trans s t u (new, h) (more, k) =
      (new ++ more, k ∙ ap (λ l. l ++ more) h ∙ append_assoc s.updates new more)

module _ {IdType Vec Dist : Type 0} (B : IBaseIndex IdType Vec Dist) ⦃e : Key IdType⦄
    (rand : ℕ → ℕ) where
  Extends-call_back :
      (erased inserted : List ℕ) (s : Index B) → Extends s (call_back B rand erased inserted s)
  unfolding call_back
  Extends-call_back erased inserted s =
      if_intro (Extends s) s.has_callback _ s
        (λ _. (record { erased = erased; inserted = inserted } ∷ [], refl))
        (λ _. Extends-same s s refl)

  Extends-commit : (a : Scan B) (s : Index B) → Extends s (commit B rand a s)
  unfolding commit
  Extends-commit a s =
      let s' : Index B = record s {
        heap = a.heap;
        rands = a.rands;
        counter = a.counter;
        segments = erase_all B rand a.heap a.erased (s.segments ++ a.inserted);
      } in
      if_intro (Extends s) (not (is_empty a.erased) && not (is_empty a.inserted)) _ s'
        (λ _. Extends-call_back a.erased a.inserted s') (λ _. Extends-same s s' refl)

  Extends-merge_levels :
      (fuel amount : ℕ) (levels levels' : List (List (Option ℕ))) (s s' : Index B)
      → merge_levels B rand fuel amount levels s ≡ some (levels', s')
      → Extends s s'
  unfolding merge_levels
  Extends-merge_levels fuel amount [] levels' s s' h =
      Extends-same s s' (ap (λ r. r.1.updates) (sym (some-injective _ _ h)))
  Extends-merge_levels zero amount (l ∷ ls) levels' s s' h = absurd (none≢some h)
  Extends-merge_levels (suc fuel) amount (l ∷ ls) levels' s s' h =
      let done = scan B rand l (start B rand amount s) in
      let next = push_next done.1.inserted ls in
      elim (Bool-cases (amount == 0)) [
        | inl q ↦
            Extends-same s s'
              (ap (λ r. r.1.updates) (sym (some-injective _ _ (rw (merge_levels, q) at h))))
        | inr q ↦
            elim (Option-cases
              (merge_levels B rand fuel done.1.amount next (commit B rand done.1 s))) [
                | inl r ↦ absurd (none≢some (rw (merge_levels, q, r) at h))
                | inr ((ls', t), r) ↦
                    let same =
                      ap (λ u. u.1.updates)
                        (sym (some-injective _ _ (rw (merge_levels, q, r) at h))) in
                    let committed = commit B rand done.1 s in
                    Extends-trans s t s'
                      (Extends-trans s committed t (Extends-commit done.1 s)
                        (Extends-merge_levels fuel done.1.amount next ls' committed t r))
                      (Extends-same t s' same)
              ]
      ]

  Extends-merge : (amount : ℕ) (s s' : Index B) → merge B rand amount s ≡ some s' → Extends s s'
  unfolding merge
  Extends-merge amount s s' h =
      elim (Option-cases (merge_levels B rand (merge_fuel s.levels) amount s.levels s)) [
        | inl r ↦ absurd (none≢some (rw (merge, r) at h))
        | inr ((ls', t), r) ↦
            let same =
              ap (λ (u : Index B). u.updates) (sym (some-injective _ _ (rw (merge, r) at h))) in
            Extends-trans s t s'
              (Extends-merge_levels (merge_fuel s.levels) amount s.levels ls' s t r)
              (Extends-same t s' same)
      ]

  Extends-merge_if_enabled : (s : Index B) → Extends s (merge_if_enabled B rand s).1
  unfolding merge_if_enabled
  Extends-merge_if_enabled s =
      if_intro (λ (r : Status × Index B). Extends s r.1) s.enable_merge _ (finished, s)
        (λ _. elim (Option-cases (merge B rand merge_amount s)) [
          | inl q ↦ rw q (Extends-same s s refl)
          | inr (t, q) ↦ rw q (Extends-merge merge_amount s t q)
        ])
        (λ _. Extends-same s s refl)

  add_loop-updates :
      (fuel : ℕ) (vs : List (IdType × Vec)) (inserted : List ℕ) (s : Index B)
      → (add_loop B rand fuel vs inserted s).2.updates ≡ s.updates
  unfolding add_loop fill_last close_last storage_add create_last
  add_loop-updates fuel [] inserted s = refl
  add_loop-updates zero (v ∷ vs) inserted s = refl
  add_loop-updates (suc fuel) (v ∷ vs) inserted s =
      let batch = batch_size B rand (v ∷ vs) s in
      let s' = fill_last B rand (take batch (v ∷ vs)) s in
      let P : Status × List ℕ × Index B → Type 0 = λ r. r.2.updates ≡ s.updates in
      if_intro P (batch == 0) (empty_batch, inserted, s) _ (λ _. refl)
        (λ _.
          if_intro P (last_size B rand s' == s.threshold) _ _
            (λ _.
              add_loop-updates fuel (drop batch (v ∷ vs)) (inserted ++ s.last ∷ [])
                (close_last B rand s'))
            (λ _. add_loop-updates fuel (drop batch (v ∷ vs)) inserted s'))

  finish_add-Extends :
      (status : Status) (inserted : List ℕ) (s : Index B)
      → Extends s (finish_add B rand status inserted s).1
  unfolding finish_add
  finish_add-Extends finished inserted s =
      let called = (if is_empty inserted then s else call_back B rand [] inserted s) in
      Extends-trans s called (merge_if_enabled B rand called).1
        (if_intro (Extends s) (is_empty inserted) s (call_back B rand [] inserted s)
          (λ _. Extends-same s s refl) (λ _. Extends-call_back [] inserted s))
        (Extends-merge_if_enabled called)
  finish_add-Extends empty_batch inserted s = Extends-same s s refl
  finish_add-Extends out_of_fuel inserted s = Extends-same s s refl

  pub Extends-add : (vs : List (IdType × Vec)) (s : Index B) → Extends s (add B rand vs s).1
  unfolding add
  Extends-add vs s =
      let r = add_loop B rand (length vs) vs [] s in
      Extends-trans s r.2 (add B rand vs s).1
        (Extends-same s r.2 (add_loop-updates (length vs) vs [] s)) (finish_add-Extends r.0 r.1 r.2)
