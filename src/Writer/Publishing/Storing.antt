-- ===== src/Writer/Publishing/Storing.antt =====
-- indexUpdateCallback: the objects that it leaves in the storage.
use vecodex.Prelude.{
  ℕ, ◌<◌, ◌≡◌, refl, sym, ◌∙◌, true, false, Option, some, List, [], ◌∷◌, map, Key, nat_key,
  ℕ_discrete, member, lookup-insert_self, insert, remove, IsDistinct, All, if_neg, arith,
}
use vecodex.Binary.{Binary}
use vecodex.BaseIndex.{IBaseIndex}
use vecodex.Numerals.{bit_limit, decimal, decimal_injective}
use vecodex.Segment.Files.{
  SegmentPtr, null, flat_segment, hnsw_segment, serialize_segment, IsWritablePtr,
}
use vecodex.EtcdClient.{Text}
use vecodex.Searcher.{answer}
use vecodex.StorageClient.{S3, Files, Credentials, make_bucket_name, put_object, del_object}
use vecodex.StorageClient.Transferring.{IsStorage, session}
use vecodex.Writer.Publishing.{get_id, withdraw, publish_one, publish}

pub member-All : (k : ℕ) (l : List ℕ) → member k l ≡ false → All (λ d. ¬ (d ≡ k)) l
unfolding member
member-All k [] h = tt
member-All k (t ∷ l) h = elim (ℕ_discrete t k) [
  | yes q ↦ absurd (ground arith)
  | no n ↦ (n, member-All k l (sym (if_neg (ℕ_discrete t k) n true (member k l)) ∙ h))
]

All-map :
    {A B : Type 0} (P : B → Type 0) (f : A → B) (l : List A)
    → All P (map f l)
    → All (λ a. P (f a)) l
All-map P f [] h = tt
All-map P f (a ∷ l) h = (h.0, All-map P f l h.1)

pub All-both :
    {A : Type 0} (P Q R : A → Type 0) (l : List A)
    → ((a : A) → P a → Q a → R a)
    → All P l
    → All Q l
    → All R l
All-both P Q R [] f h k = tt
All-both P Q R (a ∷ l) f h k = (f a h.0 k.0, All-both P Q R l f h.1 k.1)

module _ {IdType Vec Dist : Type 0} {Flat Hnsw : IBaseIndex IdType Vec Dist} where
  -- The id of a segment, 0 for a null pointer.
  abbrev pub id_of : SegmentPtr Flat Hnsw → ℕ
  id_of null = 0
  id_of (flat_segment s) = s.seg_id
  id_of (hnsw_segment s) = s.seg_id

module _ {IdType Vec Dist : Type 0} {Flat Hnsw : IBaseIndex IdType Vec Dist}
    (flat : Binary Flat.Base) (hnsw : Binary Hnsw.Base) where
  -- A segment whose numbers fit into their bytes.
  abbrev pub IsPublishable : SegmentPtr Flat Hnsw → Type 0
  IsPublishable null = ⊥
  IsPublishable (flat_segment s) = IsWritablePtr Flat Hnsw flat hnsw (flat_segment s)
  IsPublishable (hnsw_segment s) = IsWritablePtr Flat Hnsw flat hnsw (hnsw_segment s)

  IsPublishable-get_id : (s : SegmentPtr Flat Hnsw) → IsPublishable s → get_id s ≡ some (id_of s)
  IsPublishable-get_id null p = absurd p
  IsPublishable-get_id (flat_segment s) p = refl
  IsPublishable-get_id (hnsw_segment s) p = refl

  IsPublishable-serialize :
      (s : SegmentPtr Flat Hnsw)
      → IsPublishable s
      → (bytes : List ℕ) × (serialize_segment Flat Hnsw flat hnsw s ≡ some bytes)
  unfolding serialize_segment
  IsPublishable-serialize null p = absurd p
  IsPublishable-serialize (flat_segment s) p = (_, refl)
  IsPublishable-serialize (hnsw_segment s) p = (_, refl)

  pub IsPublishable-limit : (s : SegmentPtr Flat Hnsw) → IsPublishable s → id_of s < bit_limit 64
  IsPublishable-limit null p = absurd p
  IsPublishable-limit (flat_segment s) p = p.1
  IsPublishable-limit (hnsw_segment s) p = p.1

module _ (S : S3) (hash : Text → ℕ) (c : Credentials) (i : Text) where
  -- What the storage has for an id in the bucket of the index.
  abbrev pub stored : S.State → ℕ → Option (List ℕ)
  stored st id = S.get_object c (make_bucket_name hash i) (decimal id) st

  module _ {IdType Vec Dist : Type 0} {Flat Hnsw : IBaseIndex IdType Vec Dist}
      (flat : Binary Flat.Base) (hnsw : Binary Hnsw.Base) where
    -- The storage has what SerializeSegment writes of the segment.
    abbrev pub IsStored : S.State → SegmentPtr Flat Hnsw → Type 0
    IsStored st s =
        (bytes : List ℕ) × (serialize_segment Flat Hnsw flat hnsw s ≡ some bytes)
        × (stored st (id_of s) ≡ some bytes)

module _ (S : S3) (hash : Text → ℕ) (storage : IsStorage S) (c : Credentials) (i : Text) where
  pub withdraw_lem :
      (ids : List ℕ) (st : S.State)
      → All (λ d. d < bit_limit 64) ids
      → (st' : S.State) × (withdraw S hash (session c) i ids st ≡ answer st')
        × ((id : ℕ)
            → id < bit_limit 64
            → All (λ d. ¬ (d ≡ id)) ids
            → stored S hash c i st' id ≡ stored S hash c i st id)
  unfolding withdraw del_object
  withdraw_lem [] st h = (st, refl, λ id l n. refl)
  withdraw_lem (d ∷ ids) st h =
      let st₁ = (S.delete_object c (make_bucket_name hash i) (decimal d) st).1 in
      let (st', p, q) = withdraw_lem ids st₁ h.1 in
      (
        st',
        p,
        λ id l n.
            q id l n.1
            ∙ storage.get-delete_other c (make_bucket_name hash i) (decimal d) (decimal id) st
                (λ r. n.0 (decimal_injective d id h.0 l r)),
      )

  module _ {IdType Vec Dist : Type 0} {Flat Hnsw : IBaseIndex IdType Vec Dist}
      (flat : Binary Flat.Base) (hnsw : Binary Hnsw.Base) ⦃e : Key Text⦄
      (accepts : (k : Text) (v : List ℕ) (st : S.State)
        → (S.put_object c (make_bucket_name hash i) k v st).0 ≡ true) where
    pub publish_lem :
        (segs : List (SegmentPtr Flat Hnsw)) (files : Files) (st : S.State)
        → All (IsPublishable flat hnsw) segs
        → IsDistinct (map id_of segs)
        → (files' : Files) × (st' : S.State) × (publish flat hnsw S hash (session c) i segs files st
            ≡ answer (map id_of segs, files', st'))
          × All (IsStored S hash c i flat hnsw st') segs
          × ((id : ℕ)
              → id < bit_limit 64
              → All (λ s. ¬ (id_of s ≡ id)) segs
              → stored S hash c i st' id ≡ stored S hash c i st id)
    unfolding publish publish_one put_object
    publish_lem [] files st w d = (files, st, refl, tt, λ id l n. refl)
    publish_lem (s ∷ segs) files st w d =
        let bucket = make_bucket_name hash i in
        let id = id_of s in
        let (bytes, b) = IsPublishable-serialize flat hnsw s w.0 in
        let written = insert (decimal id) bytes files in
        let put = S.put_object c bucket (decimal id) bytes st in
        let (files', st', p, kept, q) =
          publish_lem segs (remove (decimal id) written) put.1 w.1 d.1 in
        let limit = IsPublishable-limit flat hnsw s w.0 in
        let apart = All-map (λ t. ¬ (t ≡ id)) id_of segs (member-All id (map id_of segs) d.0) in
        (
          files',
          st',
          rw
              (
                publish,
                IsPublishable-get_id flat hnsw s w.0,
                b,
                publish_one,
                put_object,
                lookup-insert_self (decimal id) bytes files,
                p,
              )
              refl,
          (
            (
              bytes,
              b,
              q id limit apart
                  ∙ storage.get-put c bucket (decimal id) bytes st (accepts (decimal id) bytes st),
            ),
            kept,
          ),
          λ j l n.
              q j l n.1
              ∙ storage.get-put_other c bucket (decimal id) (decimal j) bytes st
                  (λ r. n.0 (decimal_injective id j limit l r)),
        )
