-- ===== src/Writer/Callbacks/Logged.antt =====
-- What the tasks have of the calls of an index, and what a request posts.
use mathlib.Core.Option.{some-injective}
use vecodex.Prelude.{
  ℕ, ◌≡◌, refl, ap, ◌∙◌, sym, none, some, List, [], ◌∷◌, ◌++◌, map, Order, Key, lookup, length,
  drop, if◌then◌else◌, ite, Option-cases, inl, inr, arith,
}
use vecodex.BaseIndex.{IBaseIndex}
use vecodex.Segment.{Segment}
use vecodex.Index.State.{Index, Update, init, create_last}
use vecodex.Index.Operations
use vecodex.Index.Logging.{Extends, Extends-same, Extends-add}
use vecodex.Coordinator.Handler.{shards_of}
use vecodex.Coordinator.Handler.Asking.{lookup-shards_of-set_shard}
use vecodex.EtcdClient.{Text}
use vecodex.Writer.{EtcdView, WriteRequest, WriterImpl}
use vecodex.Writer.Indexes.{library, IndexConfig}
use vecodex.Writer.Targeting.{target, Follows, IsChanged}
use vecodex.Writer.Callbacks.{Task, post_all, posted_for, settle}

module _ {IdType Vec Dist : Type 0} (B : IBaseIndex IdType Vec Dist) ⦃e : Key Text⦄ where
  -- The calls of the index that the writer has for a shard, among the tasks.
  abbrev pub calls_of : Text → Text → List (Task B) → List Update
  calls_of i s [] = []
  calls_of i s (t ∷ ts) =
      let rest = calls_of i s ts in
      if t.is_live
      then ite (e.dec t.index_id i) (ite (e.dec t.shard_id s) (t.update ∷ rest) rest) rest
      else rest

  pub calls_of-append :
      (i s : Text) (l m : List (Task B)) → calls_of i s (l ++ m) ≡ calls_of i s l ++ calls_of i s m
  calls_of-append i s [] m = refl
  calls_of-append i s (t ∷ l) m = ground (arith, calls_of-append i s l m)

  pub calls_of-post_all :
      (i s j u : Text) (heap : ℕ → Segment B) (us : List Update) ⦃k : Key IdType⦄ (rand : ℕ → ℕ)
      → calls_of i s (post_all B rand j u heap us) ≡ ite (e.dec j i) (ite (e.dec u s) us []) []
  calls_of-post_all i s j u heap [] rand = ground arith
  calls_of-post_all i s j u heap (x ∷ us) rand =
      ground (arith, calls_of-post_all i s j u heap us rand)

pub drop-length_append : {A : Type 0} (l m : List A) → drop (length l) (l ++ m) ≡ m
drop-length_append [] m = refl
drop-length_append (x ∷ l) m = drop-length_append l m

drop-length : {A : Type 0} (l : List A) → drop (length l) l ≡ []
drop-length [] = refl
drop-length (x ∷ l) = drop-length l

module _ {IdType Vec Dist : Type 0} (B : IBaseIndex IdType Vec Dist) ⦃k : Key IdType⦄ ⦃e : Key Text⦄
    (rand : ℕ → ℕ) where
  -- The calls that the index of a shard has made.
  abbrev pub log_of : Text → Text → WriterImpl (library Text B rand) → List Update
  log_of i s w = elim (lookup s (shards_of i w.shards)) [ none ↦ [] | some x ↦ x.updates ]

  pub calls_of-settle_gone :
      (i s : Text) (w : WriterImpl (library Text B rand)) (l : List (Task B))
      → lookup s (shards_of i w.shards) ≡ none
      → calls_of B i s (map (settle B rand w) l) ≡ []
  unfolding settle
  calls_of-settle_gone i s w [] h = refl
  calls_of-settle_gone i s w (t ∷ l) h = ground (arith, calls_of-settle_gone i s w l h)

  pub calls_of-settle_kept :
      (i s : Text) (w : WriterImpl (library Text B rand)) (l : List (Task B)) (x : Index B)
      → lookup s (shards_of i w.shards) ≡ some x
      → calls_of B i s (map (settle B rand w) l) ≡ calls_of B i s l
  unfolding settle
  calls_of-settle_kept i s w [] x h = refl
  calls_of-settle_kept i s w (t ∷ l) x h = ground (arith, calls_of-settle_kept i s w l x h)

  pub library-Follows : Follows (library Text B rand) Extends
  unfolding Operations.erase
  library-Follows = record {
    added = λ id v x. Extends-add B rand ((id, v) ∷ []) x;
    erased = λ id x. Extends-same x (Operations.erase B rand (id ∷ []) x) refl;
  }

  -- A new index has called nobody.
  abbrev pub IsSilent : Index B → Type 0
  IsSilent x = x.updates ≡ []

  pub library-created :
      (config : IndexConfig) (i s : Text) (x : Index B)
      → (library Text B rand).create config ≡ some x
      → IsSilent ((library Text B rand).set_update_callback i s x)
  unfolding init create_last
  library-created config i s x h = ap (λ (y : Index B). y.updates) (sym (some-injective _ _ h))

  module _ {Time : Type 0} ⦃o : Order Time⦄ (view : EtcdView Text Time)
      (request : WriteRequest Text IdType Vec) where
    abbrev pub Change : WriterImpl (library Text B rand) → WriterImpl (library Text B rand) → Type 0
    Change w w' = IsChanged (library Text B rand) [] view request Extends library-Follows w w'

    pub posted_for-same :
        (w w' : WriterImpl (library Text B rand))
        → w'.shards ≡ w.shards
        → posted_for B rand view request w w' ≡ []
    unfolding posted_for
    posted_for-same w w' h = elim (Option-cases (target (library Text B rand) [] view request w)) [
      | inl q ↦ rw (posted_for, q) refl
      | inr ((i, s), q) ↦ elim (Option-cases (lookup s (shards_of i w.shards))) [
        | inl r ↦ rw (posted_for, q, r) refl
        | inr (x, r) ↦
            let r' = ap (λ m. lookup s (shards_of i m)) h ∙ r in
            rw (posted_for, q, r, r') (ap (post_all B rand i s x.heap) (drop-length x.updates))
      ]
    ]

    pub posted_for-changed :
        (w w' : WriterImpl (library Text B rand)) (c : Change w w')
        → posted_for B rand view request w w'
          ≡ post_all B rand c.i c.s c.y.heap (drop (length c.x.updates) c.y.updates)
    unfolding posted_for
    posted_for-changed w w' c =
        let r =
          ap (λ m. lookup c.s (shards_of c.i m)) c.shards
          ∙ lookup-shards_of-set_shard c.i c.s c.y w.shards in
        rw (posted_for, c.is_target, c.old, r) refl
