-- ===== src/FaissIndex/History.antt =====
-- Any sequence of calls on a FaissIndex, and the invariant over it.
use mathlib.Core.List.{append-nil, append_assoc}
use vecodex.Prelude.{List, [], ◌∷◌, ◌++◌, Order, Key}
use vecodex.FaissIndex.{
  Faiss, FaissIndex, create, add_batch, erase_batch, merge_from_other, rebuilt, ids_of,
}
use vecodex.FaissIndex.Validity.{IsValid, create-IsValid, add_batch-IsValid, erase_batch-IsValid}

-- What a client can do with the index of a segment.
pub data Call {Vec Dist : Type 0} (F : Faiss Vec Dist) (IdType : Type 0) : Type 0 where
  adds : List (IdType × Vec) → Call F IdType
  erases : List IdType → Call F IdType
  merges : FaissIndex F IdType → Call F IdType

module _ {Vec Dist IdType : Type 0} (F : Faiss Vec Dist) ⦃e : Key IdType⦄ ⦃o : Order Dist⦄ where
  unfoldable pub step : Call F IdType → FaissIndex F IdType → FaissIndex F IdType
  step (adds vs) s = add_batch F vs s
  step (erases is) s = erase_batch F is s
  step (merges other) s = merge_from_other F other s

  -- The identifiers that a call adds.
  abbrev pub added : Call F IdType → List IdType
  added (adds vs) = ids_of vs
  added (erases is) = []
  added (merges other) = ids_of (rebuilt F other)

  unfoldable pub run : List (Call F IdType) → FaissIndex F IdType → FaissIndex F IdType
  unfolding step
  run [] s = s
  run (c ∷ cs) s = run cs (step c s)

  abbrev pub all_added : List (Call F IdType) → List IdType
  all_added [] = []
  all_added (c ∷ cs) = added c ++ all_added cs

  step-IsValid :
      (c : Call F IdType) (h : List IdType) (s : FaissIndex F IdType)
      → IsValid F h s
      → IsValid F (h ++ added c) (step c s)
  unfolding step merge_from_other
  step-IsValid (adds vs) h s v = add_batch-IsValid F vs h s v
  step-IsValid (erases is) h s v = rw append-nil (erase_batch-IsValid F is h s v)
  step-IsValid (merges other) h s v = add_batch-IsValid F _ h s v

  run-IsValid :
      (cs : List (Call F IdType)) (h : List IdType) (s : FaissIndex F IdType)
      → IsValid F h s
      → IsValid F (h ++ all_added cs) (run cs s)
  unfolding run
  run-IsValid [] h s v = rw append-nil v
  run-IsValid (c ∷ cs) h s v =
      rw (← append_assoc h (added c) (all_added cs))
        (run-IsValid cs (h ++ added c) (step c s) (step-IsValid c h s v))

  -- After any calls, the positions number all the identifiers that were added, in order; an
  -- identifier's current position leads back to it; and every erased position is one that was
  -- given out, erased once, so that live entries and erased positions add up to all of them.
  pub run-create-IsValid :
      (cs : List (Call F IdType)) → IsValid F (all_added cs) (run cs (create F))
  run-create-IsValid cs = run-IsValid cs [] (create F) (create-IsValid F)
