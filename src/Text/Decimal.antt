-- ===== src/Text/Decimal.antt =====
-- Decimal numerals, as `to_string` writes them and `parse` of an integer type reads them.
use certo.Prelude.{
  ℕ, zero, suc, ◌+◌, ◌-◌, ◌*◌, ◌%◌, ◌/◌, ◌≤◌, ◌<◌, ◌≡◌, refl, ap, ◌∙◌, Bool, true, ◌&&◌, ◌||◌, not,
  Option, none, some, [], ◌∷◌, arith, if◌then◌else◌, ltb, leb, all, is_empty, inl, inr, Bool-cases,
}
use mathlib.Core.Option
use certo.Text.{Str, str, strip_prefix}

-- The digits of `n` before `rest`; `fuel` bounds the number of digits after the first.
unfoldable pub digits : ℕ → ℕ → Str → Str
digits zero n rest = (48 + n % 10) ∷ rest
digits (suc fuel) n rest =
    let more = digits fuel (n / 10) ((48 + n % 10) ∷ rest) in
    if ltb n 10 then (48 + n) ∷ rest else more

unfoldable pub to_string : ℕ → Str
unfolding digits
to_string n = digits n n []

unfoldable pub is_digit : ℕ → Bool
is_digit c = leb b'0' c && leb c b'9'

unfoldable pub value : ℕ → Str → ℕ
value acc [] = acc
value acc (c ∷ s) = value (acc * 10 + (c - 48)) s

unfoldable pub numeral : Str → Option ℕ
numeral s = if is_empty s || not (all is_digit s) then none else some (value 0 s)

abbrev pub below : ℕ → Option ℕ → Option ℕ
below bound none = none
below bound (some n) = if ltb n bound then some n else none

-- `parse::<u32>`
unfoldable pub parse_u32 : Str → Option ℕ
parse_u32 s = elim (strip_prefix s (str "+")) [
  | some t ↦ below 4294967296 (numeral t)
  | none ↦ below 4294967296 (numeral s)
]

pub data I64 : Type 0 where
  pos negsuc : ℕ → I64

abbrev pub negated : ℕ → I64
negated zero = pos 0
negated (suc n) = negsuc n

-- `parse::<i64>`
unfoldable pub parse_i64 : Str → Option I64
parse_i64 s = elim (strip_prefix s (str "-")) [
  | some t ↦ Option.map negated (below 9223372036854775809 (numeral t))
  | none ↦ elim (strip_prefix s (str "+")) [
    | some t ↦ Option.map pos (below 9223372036854775808 (numeral t))
    | none ↦ Option.map pos (below 9223372036854775808 (numeral s))
  ]
]

-- Overflow is left out.
unfoldable pub plus : I64 → I64 → I64
plus (pos a) (pos b) = pos (a + b)
plus (pos a) (negsuc b) = if ltb b a then pos (a - (b + 1)) else negsuc (b - a)
plus (negsuc a) (pos b) = if ltb a b then pos (b - (a + 1)) else negsuc (a - b)
plus (negsuc a) (negsuc b) = negsuc (a + b + 1)

value-digits : (fuel n : ℕ) (rest : Str) → n ≤ fuel → value 0 (digits fuel n rest) ≡ value n rest
unfolding value digits
value-digits zero n rest h = ap (λ k. value k rest) (omega arith)
value-digits (suc fuel) n rest h = elim (Bool-cases (ltb n 10)) [
  | inl e ↦ rw e (ap (λ k. value k rest) (omega arith))
  | inr e ↦ rw e (
      value-digits fuel (n / 10) ((48 + n % 10) ∷ rest) (ground arith)
      ∙ ap (λ k. value k rest) (omega arith))
]

pub all-digits :
    (fuel n : ℕ) (rest : Str) → all is_digit rest ≡ true → all is_digit (digits fuel n rest) ≡ true
unfolding digits is_digit
all-digits zero n rest h = ground arith
all-digits (suc fuel) n rest h = elim (Bool-cases (ltb n 10)) [
  | inl e ↦ rw e (ground arith)
  | inr e ↦ rw e (all-digits fuel (n / 10) ((48 + n % 10) ∷ rest) (ground arith))
]

-- A numeral is written with at least one digit.
starts_with_digit : (fuel n : ℕ) (rest : Str) → (c : ℕ) × (t : Str) × (digits fuel n rest ≡ c ∷ t)
unfolding digits
starts_with_digit zero n rest = (_, _, refl)
starts_with_digit (suc fuel) n rest = elim (Bool-cases (ltb n 10)) [
  | inl e ↦ (48 + n, rest, rw e)
  | inr e ↦ let (c, t, q) = starts_with_digit fuel (n / 10) ((48 + n % 10) ∷ rest) in (c, t, rw e q)
]

-- Digits alone are read as the number that they write.
parse_i64-all-is_digit :
    (c : ℕ) (t : Str)
    → all is_digit (c ∷ t) ≡ true
    → parse_i64 (c ∷ t) ≡ Option.map pos (below 9223372036854775808 (some (value 0 (c ∷ t))))
unfolding parse_i64 strip_prefix numeral is_digit
parse_i64-all-is_digit c t h = ground arith

parse_i64_digits :
    (s : Str) (c : ℕ) (t : Str)
    → s ≡ c ∷ t
    → all is_digit s ≡ true
    → parse_i64 s ≡ Option.map pos (below 9223372036854775808 (some (value 0 s)))
parse_i64_digits s c t e h =
    let h' : all is_digit (c ∷ t) ≡ true = rw e at h in rw e (parse_i64-all-is_digit c t h')

-- What `to_string` writes of a number below 2^63, `parse::<i64>` reads as that number.
pub parse_i64-to_string : (n : ℕ) → n < 9223372036854775808 → parse_i64 (to_string n) ≡ some (pos n)
unfolding to_string value
parse_i64-to_string n h =
    let (c, t, q) = starts_with_digit n n [] in
    let read : value 0 (digits n n []) ≡ n = value-digits n n [] (omega arith) in
    parse_i64_digits (digits n n []) c t q (all-digits n n [] refl) ∙ rw read (ground arith)
