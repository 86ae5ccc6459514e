-- ===== src/Index/Erasing.antt =====
-- What Index::erase and eraseSegment do to the segments.
use vecodex.Prelude.{
  ℕ, suc, ◌<◌, ◌≡◌, ◌↔◌, refl, true, false, Bool, ◌||◌, List, [], ◌∷◌, ◌++◌, Key, ◌==◌,
  if◌then◌else◌, arith,
}
use vecodex.BaseIndex.{IBaseIndex}
use vecodex.Segment.{Segment, delete_batch}
use vecodex.Index.State.{Index, update}
use vecodex.Index.Operations.{delete_in, erase, has_segment, erase_segment}

abbrev pub is_in : ℕ → List ℕ → Bool
is_in p [] = false
is_in p (q ∷ ps) = q == p || is_in p ps

module _ {IdType Vec Dist : Type 0} (B : IBaseIndex IdType Vec Dist) ⦃e : Key IdType⦄
    (rand : ℕ → ℕ) where
  -- Erasing the same identifiers twice is erasing them once.
  abbrev pub ErasesOnce : Type 0
  ErasesOnce =
      (is : List IdType) (b : B.Base) → B.erase_batch is (B.erase_batch is b) ≡ B.erase_batch is b

  module _ (once : ErasesOnce) where
    delete_in_lem :
        (is : List IdType) (ps : List ℕ) (heap : ℕ → Segment B) (p : ℕ)
        → delete_in B rand is ps heap p
          ≡ (if is_in p ps then delete_batch B is (heap p) else heap p)
    unfolding delete_in delete_batch
    delete_in_lem is [] heap p = refl
    delete_in_lem is (q ∷ ps) heap p = ground (
      arith,
      delete_in_lem is ps (update heap q (delete_batch B is (heap q))) p,
      once is (heap p).index,
    )

    -- If it makes no difference to a vector index to erase the same identifiers twice, `erase` erases
    -- them in every segment once, however often `segments_` lists it, and leaves every other segment
    -- and the lists of pointers as they are.
    pub erase_lem :
        (is : List IdType) (s : Index B) (p : ℕ)
        → ((erase B rand is s).heap p ≡ (
            if is_in p (s.segments ++ s.last ∷ []) then delete_batch B is (s.heap p) else s.heap p))
          × ((erase B rand is s).segments ≡ s.segments)
          × ((erase B rand is s).last ≡ s.last)
          × ((erase B rand is s).levels ≡ s.levels)
    unfolding erase
    erase_lem is s p = (delete_in_lem is (s.segments ++ s.last ∷ []) s.heap p, refl, refl, refl)

  abbrev with_id : ℕ → (ℕ → Segment B) → List ℕ → ℕ
  with_id id heap [] = 0
  with_id id heap (p ∷ ps) =
      let n = with_id id heap ps in if (heap p).seg_id == id then suc n else n

  has_segment_lem :
      (id : ℕ) (heap : ℕ → Segment B) (ps : List ℕ)
      → (has_segment B rand id heap ps ≡ true) ↔ (0 < with_id id heap ps)
  unfolding has_segment
  has_segment_lem id heap [] = (λ h. cc, λ h. absurd (omega arith))
  has_segment_lem id heap (p ∷ ps) = (
    ground (arith, (has_segment_lem id heap ps).0),
    ground (arith, (has_segment_lem id heap ps).1),
  )

  -- `eraseSegment` says whether a segment has the identifier, and the segment stays: as many
  -- segments have the identifier as before.
  erase_segment_lem :
      (id : ℕ) (s : Index B)
      → let (found, s') = erase_segment B rand id s in
        ((found ≡ true) ↔ (0 < with_id id s.heap s.segments))
        × (with_id id s'.heap s'.segments ≡ with_id id s.heap s.segments)
  unfolding erase_segment
  erase_segment_lem id s = (has_segment_lem id s.heap s.segments, refl)
