-- ===== src/Writer/Following.antt =====
-- updateIndexesState: every index is the one that the shard had, or a new one.

pub mod Configured
use mathlib.Core.Option.{some-injective}
use vecodex.Prelude.{
  ℕ, ◌+◌, ◌≡◌, ◌≢◌, refl, ap, ◌∙◌, sym, subst, Bool, true, false, Option, none, some, none≢some,
  List, [], ◌∷◌, ◌++◌, Order, Key, lookup, has_key, has_key-lookup, insert, lookup-insert, remove,
  lookup-remove, member, ite, if_pos, if_neg, if_intro, if◌then◌else◌, Bool-cases, Option-cases,
  ◌⊎◌, inl, inr, IsOnce, arith,
}
use vecodex.Coordinator.Handler.{shards_of, set_shard}
use vecodex.Writer.{
  IndexOps, EtcdView, WriteRequest, WriteStatus, WriterImpl, exception, keep_listed, add_missing,
  update_listed, update_indexes, choose_shard, name_of, vectors_of, add_vector, erase_vector,
  answer_write, process_write_request,
}
use vecodex.Writer.Updating.{
  shards_of-lookup, shards_of-insert, shards_of-remove, lookup-keep_listed,
}
use vecodex.Searcher.Updating.{entry_after-set_shard}

module _ {Name Ix : Type 0} ⦃e : Key Name⦄ (New : Ix → Type 0) where
  -- An entry of `m'` is the one of `m`, or `m` has none and it is new.
  abbrev pub Comes : List (Name × Ix) → List (Name × Ix) → Type 0
  Comes m m' =
      (t : Name) (x : Ix)
      → lookup t m' ≡ some x
      → ((lookup t m ≡ none) × New x) ⊎ (lookup t m ≡ some x)

  keep_listed-Comes : (ids : List Name) (m : List (Name × Ix)) → Comes m (keep_listed ids m)
  keep_listed-Comes ids m t x h =
      let k = sym (lookup-keep_listed ids t m) ∙ h in
      elim (Bool-cases (member t ids)) [
        | inl q ↦ inr (sym (ap (λ b. if b then lookup t m else none) q) ∙ k)
        | inr q ↦ absurd (none≢some (sym (ap (λ b. if b then lookup t m else none) q) ∙ k))
      ]

  pub Comes-equal : (m m' : List (Name × Ix)) → m' ≡ m → Comes m m'
  Comes-equal m m' q t x h = inr (ap (λ l. lookup t l) (sym q) ∙ h)

module _ {Name Config DocId Vec : Type 0} (O : IndexOps Name Config DocId Vec) ⦃e : Key Name⦄
    (New : O.Ix → Type 0)
    (created : (config : Config) (i s : Name) (x : O.Ix)
      → O.create config ≡ some x
      → New (O.set_update_callback i s x)) where
  add_missing-Comes :
      (i : Name) (config : Config) (ss : List Name) (m₀ m : List (Name × O.Ix))
      → Comes New m₀ m
      → ((t : Name) → member t ss ≡ true → lookup t m ≡ none → lookup t m₀ ≡ none)
      → Comes New m₀ (add_missing O i config ss m).1
  unfolding add_missing member
  add_missing-Comes i config [] m₀ m c n = c
  add_missing-Comes i config (s ∷ ss) m₀ m c n =
      let later = λ (t : Name) (k : member t ss ≡ true) (h : lookup t m ≡ none).
        n t
          (elim (e.dec s t) [
            | yes p ↦ if_pos (e.dec s t) p _ _
            | no p ↦ if_neg (e.dec s t) p _ _ ∙ k
          ])
          h in
      elim (Bool-cases (has_key s m)) [
        | inl q ↦ rw (add_missing, q) (add_missing-Comes i config ss m₀ m c later)
        | inr q ↦ elim (Option-cases (O.create config)) [
          | inl r ↦ rw (add_missing, q, r) c
          | inr (x, r) ↦
              let y = O.set_update_callback i s x in
              let absent = n s (if_pos (e.dec s s) refl _ _) (has_key-lookup s m q) in
              let c' : Comes New m₀ (insert s y m) = λ t x' h. elim (e.dec s t) [
                | yes p ↦ inl (
                  subst (λ u. lookup u m₀ ≡ none) p absent,
                  subst New
                      (some-injective _ _
                        (sym (lookup-insert s t y m ∙ if_pos (e.dec s t) p _ _) ∙ h))
                      (created config i s x r),
                )
                | no p ↦ c t x' (sym (lookup-insert s t y m ∙ if_neg (e.dec s t) p _ _) ∙ h)
              ] in
              let n' = λ (t : Name) (k : member t ss ≡ true) (h : lookup t (insert s y m) ≡ none).
                later t k (elim (e.dec s t) [
                  | yes p ↦
                      absurd (none≢some (sym h ∙ lookup-insert s t y m ∙ if_pos (e.dec s t) p _ _))
                  | no p ↦ sym (lookup-insert s t y m ∙ if_neg (e.dec s t) p _ _) ∙ h
                ]) in
              rw (add_missing, q, r) (add_missing-Comes i config ss m₀ (insert s y m) c' n')
        ]
      ]

  abbrev pub AllCome : WriterImpl O → WriterImpl O → Type 0
  AllCome w w' = (j : Name) → Comes New (shards_of j w.shards) (shards_of j w'.shards)

  pub update_listed-Comes :
      (i : Name) (config : Config) (ids : List Name) (w : WriterImpl O)
      → let w' = (update_listed O i config ids w).1 in
        Comes New (shards_of i w.shards) (shards_of i w'.shards)
        × ((j : Name) → j ≢ i → shards_of j w'.shards ≡ shards_of j w.shards)
  unfolding update_listed lookup
  update_listed-Comes i config [] w = (
    λ t x' h. absurd (none≢some (ap (λ l. lookup t l) (sym (shards_of-remove i w.shards)) ∙ h)),
    λ j n.
        shards_of-lookup j (remove i w.shards) w.shards
          (lookup-remove i j w.shards ∙ if_neg (e.dec i j) (λ q. n (sym q)) _ _),
  )
  update_listed-Comes i config (s ∷ ss) w =
      let ids = s ∷ ss in
      let old = shards_of i w.shards in
      let m = (add_missing O i config ids (keep_listed ids old)).1 in
      let kept = λ (t : Name) (k : member t ids ≡ true) (h : lookup t (keep_listed ids old) ≡ none).
        ap (λ b. if b then lookup t old else none) (sym k)
        ∙ sym (lookup-keep_listed ids t old)
        ∙ h in
      (
        subst (Comes New old) (sym (shards_of-insert i m w.shards)) (
            add_missing-Comes i config ids old (keep_listed ids old) (keep_listed-Comes New ids old)
              kept),
        λ j n.
            shards_of-lookup j (insert i m w.shards) w.shards
              (lookup-insert i j m w.shards ∙ if_neg (e.dec i j) (λ q. n (sym q)) _ _),
      )

  -- The indexes that are not configured keep their shards.
  abbrev pub IsFollowed : List (Name × Config) → WriterImpl O → WriterImpl O → Type 0
  IsFollowed args w w' =
      AllCome w w'
      × ((j : Name) → has_key j args ≡ false → shards_of j w'.shards ≡ shards_of j w.shards)

  listed-first :
      (i : Name) (config : Config) (args : List (Name × Config)) (ids : List Name)
      (w w' : WriterImpl O)
      → has_key i args ≡ false
      → IsFollowed args (update_listed O i config ids w).1 w'
      → IsFollowed ((i, config) ∷ args) w w'
  unfolding has_key
  listed-first i config args ids w w' o (c, f) =
      let w₁ = (update_listed O i config ids w).1 in
      let (here, others) = update_listed-Comes i config ids w in
      (
        λ j. elim (e.dec i j) [
          | yes p ↦
              subst (λ k. Comes New (shards_of k w.shards) (shards_of k w'.shards)) p
                (subst (Comes New (shards_of i w.shards)) (sym (f i o)) here)
          | no n ↦
              subst (λ m. Comes New m (shards_of j w'.shards)) (others j (λ q. n (sym q))) (c j)
        ],
        λ j h. elim (e.dec i j) [
          | yes p ↦ cc (h, if_pos (e.dec i j) p true (has_key j args))
          | no n ↦ f j (sym (if_neg (e.dec i j) n _ _) ∙ h) ∙ others j (λ q. n (sym q))
        ],
      )

  IsFollowed-same : (args : List (Name × Config)) (w : WriterImpl O) → IsFollowed args w w
  IsFollowed-same args w =
      (λ j. Comes-equal New (shards_of j w.shards) (shards_of j w.shards) refl, λ j h. refl)

  pub update_indexes-IsFollowed :
      {Time : Type 0} (view : EtcdView Name Time) (args : List (Name × Config)) (w : WriterImpl O)
      → IsOnce args
      → IsFollowed args w (update_indexes O view args w).1
  unfolding update_indexes
  update_indexes-IsFollowed view [] w o = IsFollowed-same [] w
  update_indexes-IsFollowed view ((i, config) ∷ args) w o =
      elim (Option-cases (view.list_shard_ids i)) [
        | inl q ↦ rw (update_indexes, q) (IsFollowed-same ((i, config) ∷ args) w)
        | inr (ids, q) ↦
            let first = update_listed O i config ids w in
            rw (update_indexes, q)
              (if_intro (λ (r : Bool × WriterImpl O). IsFollowed ((i, config) ∷ args) w r.1) first.0
                (update_indexes O view args first.1) (false, first.1)
                (λ t.
                  listed-first i config args ids w (update_indexes O view args first.1).1 o.0
                    (update_indexes-IsFollowed view args first.1 o.1))
                (λ t. listed-first i config args ids w first.1 o.0 (IsFollowed-same args first.1)))
      ]
