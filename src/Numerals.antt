-- ===== src/Numerals.antt =====
-- std::to_string of a `size_t` and std::hex, as lists of characters.
use vecodex.Prelude.{
  ℕ, zero, suc, ◌+◌, ◌-◌, ◌*◌, ◌/◌, ◌%◌, ◌≤◌, ◌<◌, ◌≡◌, refl, sym, ap, ◌∙◌, List, [], ◌∷◌, ◌++◌,
  ltb, if◌then◌else◌, if_intro, ltb→lt, arith,
}

-- How many numbers have `w` bits.
abbrev pub bit_limit : ℕ → ℕ
bit_limit zero = 1
bit_limit (suc w) = 2 * bit_limit w

-- "0" to "9", then "a" to "f".
unfoldable pub digit : ℕ → ℕ
digit d = if ltb d 10 then 48 + d else 87 + d

unfoldable pub undigit : ℕ → ℕ
undigit c = if ltb c 87 then c - 48 else c - 87

-- The numeral of a number of at most `w` bits, which has at most `w` digits.
unfoldable pub numeral : ℕ → ℕ → ℕ → List ℕ
unfolding digit
numeral b zero n = []
numeral b (suc w) n =
    let rest = numeral b w (n / b) in if ltb n b then digit n ∷ [] else rest ++ digit (n % b) ∷ []

-- The number that a numeral stands for, after the digits of `acc`.
unfoldable pub value : ℕ → ℕ → List ℕ → ℕ
unfolding undigit
value b acc [] = acc
value b acc (c ∷ cs) = value b (acc * b + undigit c) cs

unfoldable pub decimal : ℕ → List ℕ
unfolding numeral
decimal n = numeral 10 64 n

unfoldable pub hexadecimal : ℕ → List ℕ
unfolding numeral
hexadecimal n = numeral 16 64 n

-- What a base has to be for the numerals to be read back.
record IsBase (b : ℕ) : Type 0 where
  few : b ≤ 16
  divides : (n : ℕ) → n / b * b + n % b ≡ n
  halves : (n : ℕ) → n / b * 2 ≤ n
  rests : (n : ℕ) → n % b < 16

ten-IsBase : IsBase 10
ten-IsBase = record {
  few = omega arith;
  divides = λ n. omega arith;
  halves = λ n. omega arith;
  rests = λ n. omega arith;
}

sixteen-IsBase : IsBase 16
sixteen-IsBase = record {
  few = omega arith;
  divides = λ n. omega arith;
  halves = λ n. omega arith;
  rests = λ n. omega arith;
}

undigit-digit : (d : ℕ) → d < 16 → undigit (digit d) ≡ d
unfolding undigit digit
undigit-digit d h = ground arith

value_append :
    (b acc : ℕ) (cs : List ℕ) (c : ℕ) → value b acc (cs ++ c ∷ []) ≡ value b acc cs * b + undigit c
unfolding value
value_append b acc [] c = refl
value_append b acc (d ∷ cs) c = value_append b (acc * b + undigit d) cs c

value-numeral : (b w n : ℕ) → IsBase b → n < bit_limit w → value b 0 (numeral b w n) ≡ n
unfolding value numeral
value-numeral b zero n B h = omega arith
value-numeral b (suc w) n B h =
    if_intro (λ s. value b 0 s ≡ n) (ltb n b) (digit n ∷ [])
      (numeral b w (n / b) ++ digit (n % b) ∷ [])
      (λ t.
        ap (λ d. 0 * b + d) (undigit-digit n (let l = ltb→lt n b t in let f = B.few in omega arith))
        ∙ omega arith)
      (λ t.
        value_append b 0 (numeral b w (n / b)) (digit (n % b))
        ∙ ap (λ v. v * b + undigit (digit (n % b)))
            (value-numeral b w (n / b) B (let q = B.halves n in omega arith))
        ∙ ap (λ d. n / b * b + d) (undigit-digit (n % b) (B.rests n))
        ∙ B.divides n)

pub value-decimal : (n : ℕ) → n < bit_limit 64 → value 10 0 (decimal n) ≡ n
unfolding decimal
value-decimal n h = value-numeral 10 64 n ten-IsBase h

pub value-hexadecimal : (n : ℕ) → n < bit_limit 64 → value 16 0 (hexadecimal n) ≡ n
unfolding hexadecimal
value-hexadecimal n h = value-numeral 16 64 n sixteen-IsBase h

-- Different numbers have different names.
pub decimal_injective :
    (m n : ℕ) → m < bit_limit 64 → n < bit_limit 64 → decimal m ≡ decimal n → m ≡ n
decimal_injective m n h k q = sym (value-decimal m h) ∙ ap (λ t. value 10 0 t) q ∙ value-decimal n k

pub hexadecimal_injective :
    (m n : ℕ) → m < bit_limit 64 → n < bit_limit 64 → hexadecimal m ≡ hexadecimal n → m ≡ n
hexadecimal_injective m n h k q =
    sym (value-hexadecimal m h) ∙ ap (λ t. value 16 0 t) q ∙ value-hexadecimal n k
