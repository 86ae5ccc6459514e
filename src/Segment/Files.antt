-- ===== src/Segment/Files.antt =====
-- Segments in files: Segment::serialize and its constructor that reads (index/include/Segment.h),
-- SerializeSegment and DeserealizeSegment (index/baselines/IndexFactory.h).
use mathlib.Core.Option.{some-injective}
use vecodex.Prelude.{
  sym, ℕ, ◌<◌, ◌≡◌, ap, ◌∙◌, ◌>>=◌, ◌==◌, Option, none, some, List, ◌++◌, if◌then◌else◌, arith,
}
use vecodex.Binary.{Binary, word, word_limit}
use vecodex.BaseIndex.{IBaseIndex}
use vecodex.FaissIndex.Files.{bind_write, bind_write_then}
use vecodex.Segment.{Segment}

module _ {IdType Vec Dist : Type 0} (B : IBaseIndex IdType Vec Dist) (base : Binary B.Base) where
  unfoldable pub serialize : Segment B → List ℕ
  serialize s = base.write s.index ++ (word 8).write s.seg_id

  -- The constructor `Segment(FILE*)`.
  unfoldable pub read_from : List ℕ → Option (Segment B × List ℕ)
  read_from bytes = do
    (index, bytes₁) ← base.read bytes
    (seg_id, bytes₂) ← (word 8).read bytes₁
    some (record { seg_id = seg_id; index = index }, bytes₂)

  abbrev pub IsWritable : Segment B → Type 0
  IsWritable s = base.IsWritable s.index × (s.seg_id < word_limit 8)

  read_from-serialize :
      (s : Segment B) (rest : List ℕ)
      → IsWritable s
      → read_from (serialize s ++ rest) ≡ some (s, rest)
  unfolding read_from serialize
  read_from-serialize s rest (i, n) =
      bind_write_then base s.index ((word 8).write s.seg_id) rest _ i
      ∙ bind_write (word 8) s.seg_id rest _ n

-- SegmentType (index/include/ISegment.h)
abbrev pub faiss_flat : ℕ
faiss_flat = 0

abbrev pub faiss_hnsw : ℕ
faiss_hnsw = 1

-- A pointer to a segment over one of the two kinds of faiss indexes; `null` is `{}`.
pub data SegmentPtr {IdType Vec Dist : Type 0} (Flat Hnsw : IBaseIndex IdType Vec Dist)
    : Type 0 where
  null : SegmentPtr Flat Hnsw
  flat_segment : Segment Flat → SegmentPtr Flat Hnsw
  hnsw_segment : Segment Hnsw → SegmentPtr Flat Hnsw

module _ {IdType Vec Dist : Type 0} {Flat Hnsw : IBaseIndex IdType Vec Dist} where
  abbrev pub as_flat : Segment Flat × List ℕ → Option (SegmentPtr Flat Hnsw × List ℕ)
  as_flat (s, bytes) = some (flat_segment s, bytes)

  abbrev pub as_hnsw : Segment Hnsw × List ℕ → Option (SegmentPtr Flat Hnsw × List ℕ)
  as_hnsw (s, bytes) = some (hnsw_segment s, bytes)

module _ {IdType Vec Dist : Type 0} (Flat Hnsw : IBaseIndex IdType Vec Dist)
    (flat : Binary Flat.Base) (hnsw : Binary Hnsw.Base) where
  -- `none` is the crash on a null pointer.
  unfoldable pub serialize_segment : SegmentPtr Flat Hnsw → Option (List ℕ)
  unfolding serialize
  serialize_segment null = none
  serialize_segment (flat_segment s) = some ((word 4).write faiss_flat ++ serialize Flat flat s)
  serialize_segment (hnsw_segment s) = some ((word 4).write faiss_hnsw ++ serialize Hnsw hnsw s)

  -- What follows the type in DeserealizeSegment.
  unfoldable pub read_segment : ℕ → List ℕ → Option (SegmentPtr Flat Hnsw × List ℕ)
  unfolding read_from
  read_segment seg_type bytes =
      if seg_type == faiss_flat
      then read_from Flat flat bytes >>= as_flat
      else (if seg_type == faiss_hnsw
          then read_from Hnsw hnsw bytes >>= as_hnsw
          else some (null, bytes))

  unfoldable pub deserialize_segment : List ℕ → Option (SegmentPtr Flat Hnsw × List ℕ)
  unfolding read_segment
  deserialize_segment bytes = do
    (seg_type, bytes₁) ← (word 4).read bytes
    read_segment seg_type bytes₁

  abbrev pub IsWritablePtr : SegmentPtr Flat Hnsw → Type 0
  IsWritablePtr null = Unit {0}
  IsWritablePtr (flat_segment s) = IsWritable Flat flat s
  IsWritablePtr (hnsw_segment s) = IsWritable Hnsw hnsw s

  -- If the numbers of a segment fit into their bytes, DeserealizeSegment gives back the segment that
  -- SerializeSegment wrote, of either kind, and stops where it ends.
  pub deserialize_segment-serialize_segment :
      (s : SegmentPtr Flat Hnsw) (bytes rest : List ℕ)
      → IsWritablePtr s
      → serialize_segment s ≡ some bytes
      → deserialize_segment (bytes ++ rest) ≡ some (s, rest)
  unfolding deserialize_segment read_segment serialize_segment
  deserialize_segment-serialize_segment null bytes rest w h = cc
  deserialize_segment-serialize_segment (flat_segment s) bytes rest w h =
      ap (λ b. deserialize_segment (b ++ rest)) (some-injective _ _ (sym h))
      ∙ bind_write_then (word 4) faiss_flat (serialize Flat flat s) rest _ (omega arith)
      ∙ ap (λ r. r >>= as_flat) (read_from-serialize Flat flat s rest w)
  deserialize_segment-serialize_segment (hnsw_segment s) bytes rest w h =
      ap (λ b. deserialize_segment (b ++ rest)) (some-injective _ _ (sym h))
      ∙ bind_write_then (word 4) faiss_hnsw (serialize Hnsw hnsw s) rest _ (omega arith)
      ∙ ap (λ r. r >>= as_hnsw) (read_from-serialize Hnsw hnsw s rest w)
