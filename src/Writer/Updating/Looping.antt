-- ===== src/Writer/Updating/Looping.antt =====
-- The loop of updateIndexesState over all configured indexes.
use vecodex.Prelude.{
  ◌≡◌, refl, ap, ◌∙◌, sym, subst, true, false, Option, none, some, List, [], ◌∷◌, Key, lookup,
  has_key-lookup, member, IsOnce, if_pos, if_neg, if◌then◌else◌,
}
use vecodex.Coordinator.Handler.{shards_of}
use vecodex.Writer.{IndexOps, EtcdView, WriterImpl, update_indexes}
use vecodex.Writer.Updating.{or_new, shards_of-lookup, update_listed_lem}

module _ {Name Config DocId Vec Time : Type 0} (O : IndexOps Name Config DocId Vec) ⦃e : Key Name⦄
    (view : EtcdView Name Time) (ids : Name → List Name) (new : Config → O.Ix) where
  -- The entry of the shard `t` of the index `i` after the loop, from its configuration and its old
  -- entry.
  abbrev pub shard_after : Name → Name → Option Config → Option O.Ix → Option O.Ix
  shard_after i t none old = old
  shard_after i t (some config) old =
      if member t (ids i) then some (or_new old (O.set_update_callback i t (new config))) else none

  -- If etcd lists the shards `ids` of every index, every configuration is valid and no index is
  -- configured twice, updateIndexesState ends without an exception. A configured index then has
  -- exactly the shards that etcd lists: those that it had with their indexes, and the others with
  -- new ones. An index that is not configured keeps its shards.
  pub update_indexes_lem :
      (args : List (Name × Config)) (w : WriterImpl O)
      → ((i : Name) → view.list_shard_ids i ≡ some (ids i))
      → ((config : Config) → O.create config ≡ some (new config))
      → IsOnce args
      → (w' : WriterImpl O) × (update_indexes O view args w ≡ (true, w'))
        × ((i t : Name)
            → lookup t (shards_of i w'.shards)
              ≡ shard_after i t (lookup i args) (lookup t (shards_of i w.shards)))
  unfolding update_indexes lookup
  update_indexes_lem [] w l c o = (w, refl, λ i t. refl)
  update_indexes_lem ((j, cfg) ∷ args) w l c o =
      let (w₁, x, y, z) = update_listed_lem O j cfg (new cfg) (ids j) w (c cfg) in
      let (w₂, x', u) = update_indexes_lem args w₁ l c o.1 in
      let here : (t : Name)
          → lookup t (shards_of j w₂.shards)
            ≡ shard_after j t (some cfg) (lookup t (shards_of j w.shards)) =
        λ t.
          u j t
          ∙ ap (λ k. shard_after j t k (lookup t (shards_of j w₁.shards)))
              (has_key-lookup j args o.0)
          ∙ y t in
      (
        w₂,
        rw (update_indexes, l j)
            (ap (λ r. if r.0 then update_indexes O view args r.1 else (false, r.1)) x ∙ x'),
        λ i t. elim (e.dec j i) [
          | yes p ↦
              subst
                (λ k.
                  lookup t (shards_of k w₂.shards)
                  ≡ shard_after k t (some cfg) (lookup t (shards_of k w.shards)))
                p (here t)
              ∙ ap (λ k. shard_after i t k (lookup t (shards_of i w.shards)))
                  (sym (if_pos (e.dec j i) p (some cfg) (lookup i args)))
          | no n ↦
              u i t
              ∙ ap (λ m. shard_after i t (lookup i args) (lookup t m))
                  (shards_of-lookup i w₁.shards w.shards (z i (λ q. n (sym q))))
              ∙ ap (λ k. shard_after i t k (lookup t (shards_of i w.shards)))
                  (sym (if_neg (e.dec j i) n (some cfg) (lookup i args)))
        ],
      )
