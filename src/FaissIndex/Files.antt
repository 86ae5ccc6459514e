-- ===== src/FaissIndex/Files.antt =====
-- FaissIndex in a file (index/baselines/faiss.h): serialize_index and the constructor that reads.
-- `store` stands for faiss::write_index and faiss::read_index.
pub mod Restoring
use vecodex.FaissIndex.{Faiss, FaissIndex}
use mathlib.Core.List.{append_assoc}
use vecodex.Prelude.{
  include, IsDistinct, include_all, include_all_distinct, ℕ, zero, suc, ◌<◌, ◌≡◌, refl, ap, ◌∙◌,
  ◌>>=◌, Option, some, List, [], ◌∷◌, ◌++◌, length, Key, nat_key, insert, IsOnce, insert_all,
  insert_all_once,
}
use vecodex.Binary.{Binary, word, word_limit}

pub bind_write :
    {A C : Type 0} (b : Binary A) (a : A) (rest : List ℕ) (f : A × List ℕ → Option C)
    → b.IsWritable a
    → (b.read (b.write a ++ rest) >>= f) ≡ f (a, rest)
bind_write b a rest f h = ap (λ r. r >>= f) (b.read-write a rest h)

-- A value and what follows it.
pub bind_write_then :
    {A C : Type 0} (b : Binary A) (a : A) (next rest : List ℕ) (f : A × List ℕ → Option C)
    → b.IsWritable a
    → (b.read ((b.write a ++ next) ++ rest) >>= f) ≡ f (a, next ++ rest)
bind_write_then b a next rest f h =
    ap (λ bytes. b.read bytes >>= f) (append_assoc (b.write a) next rest)
    ∙ bind_write b a (next ++ rest) f h

module _ {K V : Type 0} (key : Binary K) (value : Binary V) ⦃e : Key K⦄ where
  -- The loop that writes the entries of `ids_` or `inv_ids_`.
  unfoldable pub write_entries : List (K × V) → List ℕ
  write_entries [] = []
  write_entries ((k, v) ∷ m) = key.write k ++ (value.write v ++ write_entries m)

  -- The loop that reads `n` entries into `m`.
  unfoldable pub read_entries : ℕ → List (K × V) → List ℕ → Option (List (K × V) × List ℕ)
  read_entries zero m bytes = some (m, bytes)
  read_entries (suc n) m bytes = do
    (k, bytes₁) ← key.read bytes
    (v, bytes₂) ← value.read bytes₁
    read_entries n (insert k v m) bytes₂

  unfoldable pub write_table : List (K × V) → List ℕ
  unfolding write_entries
  write_table m = (word 8).write (length m) ++ write_entries m

  unfoldable pub read_table : List ℕ → Option (List (K × V) × List ℕ)
  unfolding read_entries
  read_table bytes = do (n, bytes₁) ← (word 8).read bytes; read_entries n [] bytes₁

  abbrev pub AreWritable : List (K × V) → Type 0
  AreWritable [] = Unit {0}
  AreWritable ((k, v) ∷ m) = key.IsWritable k × value.IsWritable v × AreWritable m

  read_entries-write_entries :
      (m acc : List (K × V)) (rest : List ℕ)
      → AreWritable m
      → read_entries (length m) acc (write_entries m ++ rest) ≡ some (insert_all m acc, rest)
  unfolding read_entries write_entries
  read_entries-write_entries [] acc rest h = refl
  read_entries-write_entries ((k, v) ∷ m) acc rest h =
      bind_write_then key k (value.write v ++ write_entries m) rest _ h.0
      ∙ bind_write_then value v (write_entries m) rest _ h.1
      ∙ read_entries-write_entries m (insert k v acc) rest h.2

  abbrev pub IsWritableTable : List (K × V) → Type 0
  IsWritableTable m = (length m < word_limit 8) × IsOnce m × AreWritable m

  pub read_table-write_table :
      (m : List (K × V)) (rest : List ℕ)
      → IsWritableTable m
      → read_table (write_table m ++ rest) ≡ some (m, rest)
  unfolding read_table write_table
  read_table-write_table m rest (n, o, a) =
      bind_write_then (word 8) (length m) (write_entries m) rest _ n
      ∙ read_entries-write_entries m [] rest a
      ∙ ap (λ l. some (l, rest)) (insert_all_once m o)

  abbrev pub table : Binary (List (K × V))
  table = record {
    write = write_table;
    read = read_table;
    IsWritable = IsWritableTable;
    read-write = read_table-write_table;
  }

-- The loops over `erased_`.
unfoldable pub write_elements : List ℕ → List ℕ
write_elements [] = []
write_elements (p ∷ s) = (word 8).write p ++ write_elements s

unfoldable pub read_elements : ℕ → List ℕ → List ℕ → Option (List ℕ × List ℕ)
read_elements zero s bytes = some (s, bytes)
read_elements (suc n) s bytes = do
  (p, bytes₁) ← (word 8).read bytes
  read_elements n (include p s) bytes₁

unfoldable pub write_set : List ℕ → List ℕ
unfolding write_elements
write_set s = (word 8).write (length s) ++ write_elements s

unfoldable pub read_set : List ℕ → Option (List ℕ × List ℕ)
unfolding read_elements
read_set bytes = do (n, bytes₁) ← (word 8).read bytes; read_elements n [] bytes₁

abbrev pub AreWords : List ℕ → Type 0
AreWords [] = Unit {0}
AreWords (p ∷ s) = (p < word_limit 8) × AreWords s

read_elements-write_elements :
    (s acc rest : List ℕ)
    → AreWords s
    → read_elements (length s) acc (write_elements s ++ rest) ≡ some (include_all s acc, rest)
unfolding read_elements write_elements
read_elements-write_elements [] acc rest h = refl
read_elements-write_elements (p ∷ s) acc rest h =
    bind_write_then (word 8) p (write_elements s) rest _ h.0
    ∙ read_elements-write_elements s (include p acc) rest h.1

abbrev pub IsWritableSet : List ℕ → Type 0
IsWritableSet s = (length s < word_limit 8) × IsDistinct s × AreWords s

read_set-write_set :
    (s rest : List ℕ) → IsWritableSet s → read_set (write_set s ++ rest) ≡ some (s, rest)
unfolding read_set write_set
read_set-write_set s rest (n, d, w) =
    bind_write_then (word 8) (length s) (write_elements s) rest _ n
    ∙ read_elements-write_elements s [] rest w
    ∙ ap (λ l. some (l, rest)) (include_all_distinct s d)

abbrev elements : Binary (List ℕ)
elements = record {
  write = write_set;
  read = read_set;
  IsWritable = IsWritableSet;
  read-write = read_set-write_set;
}

module _ {Vec Dist IdType : Type 0} (F : Faiss Vec Dist) ⦃e : Key IdType⦄ (store : Binary F.State)
    (id : Binary IdType) where
  unfoldable pub serialize_index : FaissIndex F IdType → List ℕ
  unfolding write_table write_set
  serialize_index s =
      store.write s.index
      ++ ((word 8).write s.next_id
          ++ (write_table id (word 8) s.ids
              ++ (write_table (word 8) id s.inv_ids ++ write_set s.erased)))

  -- The constructor `FaissIndex(FILE*)`.
  unfoldable pub read_from : List ℕ → Option (FaissIndex F IdType × List ℕ)
  unfolding read_table read_set
  read_from bytes = do
    (index, bytes₁) ← store.read bytes
    (next_id, bytes₂) ← (word 8).read bytes₁
    (ids, bytes₃) ← read_table id (word 8) bytes₂
    (inv_ids, bytes₄) ← read_table (word 8) id bytes₃
    (erased, bytes₅) ← read_set bytes₄
    some (
      record { index = index; next_id = next_id; ids = ids; inv_ids = inv_ids; erased = erased },
      bytes₅,
    )

  -- The numbers and sizes of the index fit into their bytes, and no key stands twice.
  abbrev pub IsWritable : FaissIndex F IdType → Type 0
  IsWritable s =
      store.IsWritable s.index
      × (s.next_id < word_limit 8)
      × IsWritableTable id (word 8) s.ids
      × IsWritableTable (word 8) id s.inv_ids
      × IsWritableSet s.erased

  -- Reading what serialize_index wrote gives the same index, and stops where that ends.
  pub read_from-serialize_index :
      (s : FaissIndex F IdType) (rest : List ℕ)
      → IsWritable s
      → read_from (serialize_index s ++ rest) ≡ some (s, rest)
  unfolding read_from serialize_index
  read_from-serialize_index s rest (i, n, t, u, w) =
      let set_bytes = write_set s.erased in
      let inv_bytes = write_table (word 8) id s.inv_ids ++ set_bytes in
      let ids_bytes = write_table id (word 8) s.ids ++ inv_bytes in
      bind_write_then store s.index ((word 8).write s.next_id ++ ids_bytes) rest _ i
      ∙ bind_write_then (word 8) s.next_id ids_bytes rest _ n
      ∙ bind_write_then (table id (word 8)) s.ids inv_bytes rest _ t
      ∙ bind_write_then (table (word 8) id) s.inv_ids set_bytes rest _ u
      ∙ bind_write elements s.erased rest _ w

  abbrev pub faiss_index : Binary (FaissIndex F IdType)
  faiss_index = record {
    write = serialize_index;
    read = read_from;
    IsWritable = IsWritable;
    read-write = read_from-serialize_index;
  }
