-- ===== src/Writer/Updating.antt =====
-- updateIndexesState: the writer's shards of an index against those that etcd lists.
pub mod Looping
use vecodex.Prelude.{
  ◌≡◌, ◌≢◌, refl, ap, ◌∙◌, sym, subst, Bool, true, false, Option, none, some, List, [], ◌∷◌, ◌++◌,
  Key, lookup, has_key, has_key-lookup, lookup-has_key, insert, lookup-insert, lookup-insert_self,
  remove, lookup-remove, member, ite, if_pos, if_neg, Bool-cases, Option-cases, inl, inr,
  if◌then◌else◌, arith,
}
use vecodex.Coordinator.Handler.{shards_of}
use vecodex.Writer.{IndexOps, WriterImpl, keep_listed, add_missing, update_listed}

-- The entry of a shard after add_missing, `y` for a new one.
abbrev kept_or {ℓ} : {A : Type ℓ} → Option A → Bool → A → Option A
kept_or none b y = if b then some y else none
kept_or (some x) b y = some x

-- An index that is there, or the new one.
abbrev pub or_new {ℓ} : {A : Type ℓ} → Option A → A → A
or_new none y = y
or_new (some x) y = x

kept_or-if {ℓ} :
    {A : Type ℓ} (l : Option A) (b : Bool) (y : A)
    → kept_or (if b then l else none) b y ≡ (if b then some (or_new l y) else none)
kept_or-if none true y = refl
kept_or-if (some x) true y = refl
kept_or-if l false y = refl

module _ {Name Ix : Type 0} ⦃e : Key Name⦄ where
  pub lookup-keep_listed :
      (ids : List Name) (t : Name) (m : List (Name × Ix))
      → lookup t (keep_listed ids m) ≡ (if member t ids then lookup t m else none)
  unfolding keep_listed lookup
  lookup-keep_listed ids t [] = ground arith
  lookup-keep_listed ids t ((s, x) ∷ m) = elim (e.dec s t) [
    | yes q ↦
        subst
          (λ u.
            lookup u (if member s ids then (s, x) ∷ keep_listed ids m else keep_listed ids m)
            ≡ (if member u ids then ite (e.dec s u) (some x) (lookup u m) else none))
          q (ground (arith, lookup-keep_listed ids s m))
    | no n ↦ ground (arith, lookup-keep_listed ids t m)
  ]

module _ {Name V : Type 0} ⦃e : Key Name⦄ where
  pub shards_of-lookup :
      (i : Name) (m m' : List (Name × List (Name × V)))
      → lookup i m ≡ lookup i m'
      → shards_of i m ≡ shards_of i m'
  unfolding shards_of
  shards_of-lookup i m m' h = ap (λ l. elim l [ none ↦ [] | some shards ↦ shards ]) h

  pub shards_of-insert :
      (i : Name) (l : List (Name × V)) (m : List (Name × List (Name × V)))
      → shards_of i (insert i l m) ≡ l
  unfolding shards_of
  shards_of-insert i l m = rw (shards_of, lookup-insert_self i l m) refl

  pub shards_of-remove :
      (i : Name) (m : List (Name × List (Name × V))) → shards_of i (remove i m) ≡ []
  unfolding shards_of
  shards_of-remove i m =
      rw (shards_of, lookup-remove i i m ∙ if_pos (e.dec i i) refl none (lookup i m)) refl

module _ {Name Config DocId Vec : Type 0} (O : IndexOps Name Config DocId Vec) ⦃e : Key Name⦄
    (i : Name) (config : Config) (new : O.Ix) where
  known :
      (s t : Name) (ss : List Name) (m : List (Name × O.Ix))
      → has_key s m ≡ true
      → kept_or (lookup t m) (member t ss) (O.set_update_callback i t new)
        ≡ kept_or (lookup t m) (member t (s ∷ ss)) (O.set_update_callback i t new)
  unfolding member
  known s t ss m q = elim (e.dec s t) [
    | yes p ↦
        let (v, l) = lookup-has_key s m q in
        let l' = subst (λ u. lookup u m ≡ some v) p l in rw l' refl
    | no n ↦
        ap (λ b. kept_or (lookup t m) b (O.set_update_callback i t new))
          (sym (if_neg (e.dec s t) n true (member t ss)))
  ]

  added :
      (s t : Name) (ss : List Name) (m : List (Name × O.Ix))
      → has_key s m ≡ false
      → kept_or
          (lookup t (insert s (O.set_update_callback i s new) m))
          (member t ss)
          (O.set_update_callback i t new)
        ≡ kept_or (lookup t m) (member t (s ∷ ss)) (O.set_update_callback i t new)
  unfolding member
  added s t ss m q = elim (e.dec s t) [
    | yes p ↦
        let l = subst (λ u. lookup u m ≡ none) p (has_key-lookup s m q) in
        let k =
          subst
            (λ u.
              lookup u (insert s (O.set_update_callback i s new) m)
              ≡ some (O.set_update_callback i u new))
            p (lookup-insert_self s (O.set_update_callback i s new) m) in
        rw (k, l, if_pos (e.dec s t) p true (member t ss)) refl
    | no n ↦
        rw
          (
            lookup-insert s t (O.set_update_callback i s new) m,
            if_neg (e.dec s t) n (some (O.set_update_callback i s new)) (lookup t m),
            if_neg (e.dec s t) n true (member t ss),
          )
          refl
  ]

  add_missing_lem :
      (ss : List Name) (m : List (Name × O.Ix))
      → O.create config ≡ some new
      → (m' : List (Name × O.Ix)) × (add_missing O i config ss m ≡ (true, m'))
        × ((t : Name)
            → lookup t m' ≡ kept_or (lookup t m) (member t ss) (O.set_update_callback i t new))
  unfolding add_missing member
  add_missing_lem [] m h = (
    m,
    refl,
    λ t. elim (Option-cases (lookup t m)) [ inl q ↦ rw q refl | inr (x, q) ↦ rw q refl ],
  )
  add_missing_lem (s ∷ ss) m h = elim (Bool-cases (has_key s m)) [
    | inl q ↦
        let (m', x, y) = add_missing_lem ss m h in
        (m', rw (add_missing, q) x, λ t. y t ∙ known s t ss m q)
    | inr q ↦
        let (m', x, y) = add_missing_lem ss (insert s (O.set_update_callback i s new) m) h in
        (m', rw (add_missing, q, h) x, λ t. y t ∙ added s t ss m q)
  ]

  pub update_listed_lem :
      (ids : List Name) (w : WriterImpl O)
      → O.create config ≡ some new
      → (w' : WriterImpl O) × (update_listed O i config ids w ≡ (true, w'))
        × ((t : Name)
            → lookup t (shards_of i w'.shards) ≡ (
                if member t ids
                then some (or_new (lookup t (shards_of i w.shards)) (O.set_update_callback i t new))
                else none))
        × ((j : Name) → j ≢ i → lookup j w'.shards ≡ lookup j w.shards)
  unfolding update_listed member lookup
  update_listed_lem [] w h = (
    record w { shards = remove i w.shards },
    refl,
    λ t. ap (λ l. lookup t l) (shards_of-remove i w.shards),
    λ j n.
        lookup-remove i j w.shards ∙ if_neg (e.dec i j) (λ q. n (sym q)) none (lookup j w.shards),
  )
  update_listed_lem (s ∷ ss) w h =
      let ids = s ∷ ss in
      let old = shards_of i w.shards in
      let (m, x, y) = add_missing_lem ids (keep_listed ids old) h in
      (
        record w {
          shards = insert i m w.shards;
          buckets = (if has_key i w.shards then w.buckets else w.buckets ++ i ∷ []);
        },
        ap
            (λ r. (
              r.0,
              record w {
                shards = insert i r.1 w.shards;
                buckets = (if has_key i w.shards then w.buckets else w.buckets ++ i ∷ []);
              },
            ))
            x,
        λ t.
            ap (λ l. lookup t l) (shards_of-insert i m w.shards)
            ∙ y t
            ∙ ap (λ l. kept_or l (member t ids) (O.set_update_callback i t new))
                (lookup-keep_listed ids t old)
            ∙ kept_or-if (lookup t old) (member t ids) (O.set_update_callback i t new),
        λ j n.
            lookup-insert i j m w.shards
            ∙ if_neg (e.dec i j) (λ q. n (sym q)) (some m) (lookup j w.shards),
      )
