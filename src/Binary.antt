-- ===== src/Binary.antt =====
-- writeBinary and readBinary (index/baselines/io.h): files as lists of bytes, on a machine that is
-- little-endian. A result `none` is a short read: the source does not notice it, and its value is
-- then not determined.
use mathlib.Core.List.{append_assoc}
use vecodex.Prelude.{
  ◌>>=◌, ℕ, zero, suc, ◌+◌, ◌*◌, ◌/◌, ◌%◌, ◌<◌, ◌≡◌, refl, ap, ◌∙◌, subst, Option, none, some, List,
  [], ◌∷◌, ◌++◌, length, arith,
}

-- A type of values that are written and read, with what is known of reading back.
pub record Binary (A : Type 0) : Type 1 where
  pub write : A → List ℕ
  pub read : List ℕ → Option (A × List ℕ)
  pub IsWritable : A → Type 0
  pub read-write : (a : A) (rest : List ℕ) → IsWritable a → read (write a ++ rest) ≡ some (a, rest)

-- The bytes of a number of `w` bytes.
unfoldable pub write_word : ℕ → ℕ → List ℕ
write_word zero n = []
write_word (suc w) n = (n % 256) ∷ write_word w (n / 256)

unfoldable pub read_word : ℕ → List ℕ → Option (ℕ × List ℕ)
read_word zero bytes = some (0, bytes)
read_word (suc w) [] = none
read_word (suc w) (b ∷ bytes) = do (n, rest) ← read_word w bytes; some (b + 256 * n, rest)

-- How many numbers have `w` bytes.
abbrev pub word_limit : ℕ → ℕ
word_limit zero = 1
word_limit (suc w) = 256 * word_limit w

abbrev found : ℕ → List ℕ → Option (ℕ × List ℕ)
found n rest = some (n, rest)

pub read_word-write_word :
    (w n : ℕ) (rest : List ℕ)
    → n < word_limit w
    → read_word w (write_word w n ++ rest) ≡ some (n, rest)
unfolding read_word write_word
read_word-write_word zero n rest h =
    let q : 0 ≡ n = omega arith in subst (λ k. read_word 0 rest ≡ some (k, rest)) q refl
read_word-write_word (suc w) n rest h =
    let q : n % 256 + 256 * (n / 256) ≡ n = omega arith in
    rw (read_word-write_word w (n / 256) rest (omega arith)) (ap (λ k. found k rest) q)

-- `fread` of `n` bytes.
unfoldable pub read_bytes : ℕ → List ℕ → Option (List ℕ × List ℕ)
read_bytes zero bytes = some ([], bytes)
read_bytes (suc n) [] = none
read_bytes (suc n) (b ∷ bytes) = do (s, rest) ← read_bytes n bytes; some (b ∷ s, rest)

read_bytes-append : (s rest : List ℕ) → read_bytes (length s) (s ++ rest) ≡ some (s, rest)
unfolding read_bytes
read_bytes-append [] rest = refl
read_bytes-append (b ∷ s) rest = rw (read_bytes-append s rest) refl

abbrev pub word : ℕ → Binary ℕ
word w = record {
  write = write_word w;
  read = read_word w;
  IsWritable = λ n. n < word_limit w;
  read-write = read_word-write_word w;
}

-- A std::string: its size in 8 bytes, then its characters.
unfoldable pub write_string : List ℕ → List ℕ
unfolding write_word
write_string s = write_word 8 (length s) ++ s

unfoldable pub read_string : List ℕ → Option (List ℕ × List ℕ)
unfolding read_word read_bytes
read_string bytes = do (n, rest) ← read_word 8 bytes; read_bytes n rest

pub read_string-write_string :
    (s rest : List ℕ)
    → length s < word_limit 8
    → read_string (write_string s ++ rest) ≡ some (s, rest)
unfolding read_string write_string
read_string-write_string s rest h =
    ap read_string (append_assoc (write_word 8 (length s)) s rest)
    ∙ ap (λ r. r >>= (λ p. read_bytes p.0 p.1)) (read_word-write_word 8 (length s) (s ++ rest) h)
    ∙ read_bytes-append s rest

abbrev pub text : Binary (List ℕ)
text = record {
  write = write_string;
  read = read_string;
  IsWritable = λ s. length s < word_limit 8;
  read-write = read_string-write_string;
}
