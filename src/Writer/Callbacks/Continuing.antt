-- ===== src/Writer/Callbacks/Continuing.antt =====
-- How the tasks that a request posts continue the logs of the indexes.
use mathlib.Core.List.{append-nil}
use mathlib.Core.Option.{some-injective}
use vecodex.Prelude.{
  ℕ, ◌≡◌, refl, ap, ◌∙◌, sym, subst, none, some, none≢some, List, [], ◌++◌, map, Order, Key, lookup,
  length, drop, if_pos, if_neg, Option-cases, ◌⊎◌, inl, inr,
}
use vecodex.BaseIndex.{IBaseIndex}
use vecodex.Index.State.{Index, Update}
use vecodex.Coordinator.Handler.{shards_of}
use vecodex.EtcdClient.{Text}
use vecodex.Searcher.Updating.{entry_after-set_shard}
use vecodex.Writer.{EtcdView, WriteRequest, WriterImpl}
use vecodex.Writer.Indexes.{library}
use vecodex.Writer.Following.{AllCome}
use vecodex.Writer.Callbacks.{Task, post_all, posted_for, settle}
use vecodex.Writer.Callbacks.Logged.{
  calls_of, calls_of-append, calls_of-post_all, drop-length_append, log_of, calls_of-settle_gone,
  calls_of-settle_kept, library-created, IsSilent, Change, posted_for-same, posted_for-changed,
}

module _ {IdType Vec Dist : Type 0} (B : IBaseIndex IdType Vec Dist) ⦃k : Key IdType⦄ ⦃e : Key Text⦄
    (rand : ℕ → ℕ) where
  -- The tasks that are posted continue the log of every shard.
  unfoldable pub Continues :
      Text
      → Text
      → WriterImpl (library Text B rand)
      → WriterImpl (library Text B rand)
      → List (Task B)
      → Type 0
  Continues i s w w' posted =
      ((x : Index B)
        → lookup s (shards_of i w'.shards) ≡ some x
        → (y : Index B) × (lookup s (shards_of i w.shards) ≡ some y)
          × (x.updates ≡ y.updates ++ calls_of B i s posted))
      × (lookup s (shards_of i w'.shards) ≡ none → calls_of B i s posted ≡ [])

  pub Continues-other :
      (i s : Text) (w w' : WriterImpl (library Text B rand)) (posted : List (Task B))
      → lookup s (shards_of i w'.shards) ≡ lookup s (shards_of i w.shards)
      → calls_of B i s posted ≡ []
      → Continues i s w w' posted
  unfolding Continues
  Continues-other i s w w' posted h c =
      (λ x q. (x, sym h ∙ q, sym (append-nil x.updates) ∙ ap (λ l. x.updates ++ l) (sym c)), λ q. c)

  module _ {Time : Type 0} ⦃o : Order Time⦄ (view : EtcdView Text Time)
      (request : WriteRequest Text IdType Vec) where
    pub Continues-posted_for :
        (i s : Text) (w w' : WriterImpl (library Text B rand))
        → (w'.shards ≡ w.shards) ⊎ Change B rand view request w w'
        → Continues i s w w' (posted_for B rand view request w w')
    unfolding Continues
    Continues-posted_for i s w w' (inl h) =
        subst (Continues i s w w') (sym (posted_for-same B rand view request w w' h))
          (Continues-other i s w w' [] (ap (λ m. lookup s (shards_of i m)) h) refl)
    Continues-posted_for i s w w' (inr c) =
        let (new, grown) = c.related in
        let us = drop (length c.x.updates) c.y.updates in
        let new_lem : us ≡ new =
          ap (drop (length c.x.updates)) grown ∙ drop-length_append c.x.updates new in
        let posted = post_all B rand c.i c.s c.y.heap us in
        let calls = calls_of-post_all B i s c.i c.s c.y.heap us rand in
        let entry =
          ap (λ m. lookup s (shards_of i m)) c.shards
          ∙ entry_after-set_shard c.i c.s c.y w.shards i s in
        let old : (c.i ≡ i) → (c.s ≡ s) → lookup s (shards_of i w.shards) ≡ some c.x = λ p q.
          subst (λ j. lookup s (shards_of j w.shards) ≡ some c.x) p
            (subst (λ t. lookup t (shards_of c.i w.shards) ≡ some c.x) q c.old) in
        subst (Continues i s w w') (sym (posted_for-changed B rand view request w w' c))
          (elim (e.dec c.i i) [
            | no p ↦
                Continues-other i s w w' posted (entry ∙ if_neg (e.dec c.i i) p _ _)
                  (calls ∙ if_neg (e.dec c.i i) p _ _)
            | yes p ↦ elim (e.dec c.s s) [
              | no r ↦
                  Continues-other i s w w' posted
                    (entry ∙ if_pos (e.dec c.i i) p _ _ ∙ if_neg (e.dec c.s s) r _ _)
                    (calls ∙ if_pos (e.dec c.i i) p _ _ ∙ if_neg (e.dec c.s s) r _ _)
              | yes r ↦
                  let entry' = entry ∙ if_pos (e.dec c.i i) p _ _ ∙ if_pos (e.dec c.s s) r _ _ in
                  let calls' =
                    calls ∙ if_pos (e.dec c.i i) p _ _ ∙ if_pos (e.dec c.s s) r _ _ ∙ new_lem in
                  (
                    λ x q. (
                      c.x,
                      old p r,
                      ap (λ (y : Index B). y.updates) (some-injective _ _ (sym q ∙ entry'))
                          ∙ grown
                          ∙ ap (λ l. c.x.updates ++ l) (sym calls'),
                    ),
                    λ q. absurd (none≢some (sym q ∙ entry')),
                  )
            ]
          ])

  -- The tasks of a shard have its log before and after a request.
  pub calls_of-continue :
      (i s : Text) (w w₁ w₂ : WriterImpl (library Text B rand)) (tasks posted : List (Task B))
      → AllCome (library Text B rand) (IsSilent B rand) (library-created B rand) w w₁
      → Continues i s w₁ w₂ posted
      → calls_of B i s tasks ≡ log_of B rand i s w
      → calls_of B i s (map (settle B rand w₂) tasks ++ posted) ≡ log_of B rand i s w₂
  unfolding Continues
  calls_of-continue i s w w₁ w₂ tasks posted come (goes, gone) h =
      calls_of-append B i s (map (settle B rand w₂) tasks) posted
      ∙ (elim (Option-cases (lookup s (shards_of i w₂.shards))) [
        | inl q ↦
            ap (λ l. l ++ calls_of B i s posted) (calls_of-settle_gone B rand i s w₂ tasks q)
            ∙ gone q
            ∙ sym (ap (λ l. elim l as (λ u. List Update) [ none ↦ [] | some x ↦ x.updates ]) q)
        | inr (x, q) ↦
            let (y, r, grown) = goes x q in
            let before : log_of B rand i s w ≡ y.updates = elim (come i s y r) [
              | inl (absent, silent) ↦
                  ap (λ l. elim l as (λ u. List Update) [ none ↦ [] | some x ↦ x.updates ]) absent
                  ∙ sym silent
              | inr found ↦
                  ap (λ l. elim l as (λ u. List Update) [ none ↦ [] | some x ↦ x.updates ]) found
            ] in
            ap (λ l. l ++ calls_of B i s posted)
              (calls_of-settle_kept B rand i s w₂ tasks x q ∙ h ∙ before)
            ∙ sym grown
            ∙ sym (ap (λ l. elim l as (λ u. List Update) [ none ↦ [] | some x ↦ x.updates ]) q)
      ])
