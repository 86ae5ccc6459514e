-- ===== src/Tests/Files.antt =====
-- Segments written to files and read back.
use vecodex.FaissIndex.Files.{write_entries, write_elements}
use vecodex.Prelude.{
  zero, suc, ℕ, ◌≡◌, refl, some, List, [], ◌∷◌, ◌++◌, arith, nat_key, nat_order, insert, lookup,
  include, ℕ_discrete,
}
use vecodex.Binary.{Binary, word, text, write_string, write_word}
use vecodex.Samples.{flat}
use vecodex.BaseIndex.{IBaseIndex}
use vecodex.FaissIndex.{FaissIndex, create, add_batch, register_all, erase_batch}
use vecodex.FaissIndex.History.{Call, adds, erases, run}
use vecodex.FaissIndex.Interface.{faiss_base}
use vecodex.FaissIndex.Files.{faiss_index, read_from, serialize_index, write_table, write_set}
use vecodex.FaissIndex.Files.Restoring.{Fits, read_from-run}
use vecodex.Segment.{Segment}
use vecodex.Segment.Files.{
  SegmentPtr, flat_segment, serialize_segment, deserialize_segment, serialize, IsWritablePtr,
  deserialize_segment-serialize_segment,
}

abbrev calls : List (Call flat ℕ)
calls = adds ((7, 5) ∷ (8, 9) ∷ []) ∷ erases (8 ∷ []) ∷ []

calls-Fits : Fits flat text (word 8) (run flat calls (create flat))
unfolding run create add_batch register_all erase_batch insert lookup include ℕ_discrete
calls-Fits = (
  omega arith,
  omega arith,
  omega arith,
  (omega arith, omega arith, (omega arith, omega arith, tt)),
  omega arith,
  (omega arith, omega arith, (omega arith, omega arith, tt)),
  omega arith,
  (omega arith, tt),
)

read_from-run_example :
    read_from flat text
      (word 8)
      (serialize_index flat text (word 8) (run flat calls (create flat)) ++ 1 ∷ [])
    ≡ some (run flat calls (create flat), 1 ∷ [])
read_from-run_example = read_from-run flat text (word 8) calls (1 ∷ []) calls-Fits

abbrev pub base : IBaseIndex ℕ ℕ ℕ
base = faiss_base flat ℕ

abbrev pub binary : Binary (FaissIndex flat ℕ)
binary = faiss_index flat text (word 8)

abbrev pub segment : Segment base
segment = record { seg_id = 12; index = create flat }

abbrev pub pointer : SegmentPtr base base
pointer = flat_segment segment

abbrev zeros : ℕ → List ℕ → List ℕ
zeros zero rest = rest
zeros (suc n) rest = 0 ∷ zeros n rest

-- The type, an empty faiss index, the next position, three empty tables, and the number 12.
abbrev bytes : List ℕ
bytes = zeros 44 (12 ∷ zeros 7 [])

serialize_pointer : serialize_segment base base binary binary pointer ≡ some bytes
unfolding serialize_segment serialize serialize_index write_table write_entries write_set
    write_elements write_string write_word create
serialize_pointer = refl

pub pointer_fits : IsWritablePtr base base binary binary pointer
unfolding create
pointer_fits = (
  (omega arith, omega arith, (omega arith, tt, tt), (omega arith, tt, tt), (omega arith, tt, tt)),
  omega arith,
)

deserialize_segment-serialize_segment_example :
    deserialize_segment base base binary binary (bytes ++ 5 ∷ []) ≡ some (pointer, 5 ∷ [])
deserialize_segment-serialize_segment_example =
    deserialize_segment-serialize_segment base base binary binary pointer bytes (5 ∷ [])
      pointer_fits serialize_pointer
