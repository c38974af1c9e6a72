-- ===== src/Names/Canonical.antt =====
-- `normalize` and `parse_zone_name`: what a canonical name looks like, and that it is a fixed point.

use mathlib.Core.Bool.{false≢true}
use certo.Prelude.{
  ℕ, ◌≤◌, ◌≡◌, refl, ap, sym, ◌∙◌, Bool, true, false, not, ◌||◌, Option, none, some, List, [], ◌∷◌,
  ◌++◌, arith, ltb, ◌==◌, inl, inr, Bool-cases, &&-eq-true, ok, all, All, length,
}
use certo.Text.{
  Str, str, str_eq, split, strip_suffix, trim, utf8_len, to_ascii_lowercase, is_whitespace,
  lower_ascii,
}
use certo.Text.Affix.{str_eq_iff, strip_suffix_sound, strip_dot-append, strip_dot-none}
use certo.Text.Split.{split-append, all-split}
use certo.Text.Trim.{trim-none, lower-none, all-weaken}
use certo.Names.{label_char, valid_label, valid_labels, valid_name, normalize, parse_zone_name}
use certo.Names.Inside.{labels}

-- The characters of a valid name.
abbrev pub name_char : ℕ → Bool
name_char c = label_char c || c == b'*'

abbrev pub dotted_char : ℕ → Bool
dotted_char c = name_char c || c == b'.'

valid_label-chars : (l : Str) (a : Bool) → valid_label l a ≡ true → all name_char l ≡ true
unfolding valid_label
valid_label-chars l a h = elim (Bool-cases (str_eq l (str "*"))) [
  | inl e ↦ rw ((str_eq_iff l (str "*")).0 e) (unfold label_char in refl)
  | inr e ↦ all-weaken label_char name_char (λ c q. rw q) l (ground arith)
]

valid_labels-chars :
    (a : Bool) (ls : List Str) → valid_labels a ls ≡ true → all (all name_char) ls ≡ true
unfolding valid_labels
valid_labels-chars a [] h = refl
valid_labels-chars a (l ∷ ls) h =
    let (first, rest) = &&-eq-true _ _ h in
    rw (valid_label-chars l a first, valid_labels-chars false ls rest)

-- A valid name has lower-case letters, digits, `-`, `_`, `*` and dots.
pub valid_name-chars : (a : Bool) (n : Str) → valid_name a n ≡ true → all dotted_char n ≡ true
unfolding valid_name
valid_name-chars a n h =
    all-split name_char b'.' n (valid_labels-chars a (labels n) (&&-eq-true _ _ h).1)

no_space : (c : ℕ) → dotted_char c ≡ true → not (is_whitespace c) ≡ true
unfolding label_char is_whitespace
no_space c h = ground arith

is_lower : (c : ℕ) → dotted_char c ≡ true → (lower_ascii c == c) ≡ true
unfolding label_char lower_ascii
is_lower c h = ground arith

pub trim-name : (n : Str) → all dotted_char n ≡ true → trim n ≡ n
trim-name n h = trim-none n (all-weaken dotted_char (λ c. not (is_whitespace c)) no_space n h)

pub lower-name : (n : Str) → all dotted_char n ≡ true → to_ascii_lowercase n ≡ n
lower-name n h = lower-none n (all-weaken dotted_char (λ c. lower_ascii c == c) is_lower n h)

valid_labels-last : (a : Bool) (ls : List Str) → valid_labels a (ls ++ ([] ∷ [])) ≡ false
unfolding valid_labels valid_label
valid_labels-last a [] = refl
valid_labels-last a (l ∷ ls) = ground (arith, valid_labels-last false ls)

-- A valid name has no trailing dot.
pub strip_dot-valid : (a : Bool) (n : Str) → valid_name a n ≡ true → strip_suffix n (str ".") ≡ none
unfolding valid_name
strip_dot-valid a n h = go (strip_suffix n (str ".")) refl
  where
    go : (o : Option Str) → strip_suffix n (str ".") ≡ o → strip_suffix n (str ".") ≡ none
    go none e = e
    go (some r) e =
        let same : labels n ≡ labels r ++ ([] ∷ []) =
          ap labels (strip_suffix_sound n (str ".") r e)
          ∙ split-append b'.' r []
          ∙ ap (λ ls. labels r ++ ls) (unfold split in refl) in
        let good : valid_labels a (labels n) ≡ true = (&&-eq-true _ _ h).1 in
        let no_good : true ≡ false =
          sym good ∙ ap (valid_labels a) same ∙ valid_labels-last a (labels r) in
        absurd (false≢true (sym no_good))

-- `normalize` accepts a valid name as it is, and with a trailing dot.
pub normalize-valid : (a : Bool) (n : Str) → valid_name a n ≡ true → normalize n a ≡ ok n
unfolding normalize
normalize-valid a n h =
    let chars = valid_name-chars a n h in
    rw (trim-name n chars, lower-name n chars, strip_dot-none n (strip_dot-valid a n h)) (rw h)

pub normalize_sound : (input n : Str) (a : Bool) → normalize input a ≡ ok n → valid_name a n ≡ true
unfolding normalize
normalize_sound input n a h = ground arith

pub dotted-append :
    (p : ℕ → Bool) (s : Str) → all p s ≡ true → p b'.' ≡ true → all p (s ++ str ".") ≡ true
dotted-append p [] h k = ground arith
dotted-append p (c ∷ s) h k = ground (arith, dotted-append p s)

pub normalize-absolute :
    (a : Bool) (n : Str) → valid_name a n ≡ true → normalize (n ++ str ".") a ≡ ok n
unfolding normalize
normalize-absolute a n h =
    let chars = dotted-append dotted_char n (valid_name-chars a n h) (unfold label_char in refl) in
    rw (trim-name (n ++ str ".") chars, lower-name (n ++ str ".") chars, strip_dot-append n) (rw h)

-- A canonical zone name in words: two labels or more, each of 1 to 63 bytes, 253 bytes in all, and
-- no character but lower-case letters, digits, `-`, `_` and the dots.
pub record IsCanonical (n : Str) : Type 0 where
  pub two_labels : 2 ≤ length (labels n)
  pub short : utf8_len n ≤ 253
  pub label_sizes : All (λ l. (1 ≤ utf8_len l) × (utf8_len l ≤ 63)) (labels n)
  pub chars : all (λ c. label_char c || c == b'.') n ≡ true

utf8_len-pos : (c : ℕ) (l : Str) → 1 ≤ utf8_len (c ∷ l)
unfolding utf8_len
utf8_len-pos c l = ground arith

plain_label :
    (l : Str)
    → valid_label l false ≡ true
    → (1 ≤ utf8_len l) × (utf8_len l ≤ 63) × (all label_char l ≡ true)
unfolding valid_label
plain_label [] h = cc
plain_label (c ∷ l) h = (ground (arith, utf8_len-pos c l), ground arith, ground arith)

plain_labels :
    (ls : List Str)
    → valid_labels false ls ≡ true
    → All (λ l. (1 ≤ utf8_len l) × (utf8_len l ≤ 63)) ls × (all (all label_char) ls ≡ true)
unfolding valid_labels
plain_labels [] h = (tt, refl)
plain_labels (l ∷ ls) h =
    let (first, rest) = &&-eq-true _ _ h in
    let (low, high, cs) = plain_label l first in
    let (sizes, more) = plain_labels ls rest in (((low, high), sizes), ground arith)

parse_zone_name_sound :
    (input n : Str)
    → parse_zone_name input ≡ ok n
    → (valid_name false n ≡ true) × (ltb (length (labels n)) 2 ≡ false)
unfolding parse_zone_name
parse_zone_name_sound input n h = ground (arith, normalize_sound input n false)

valid_name-parts :
    (n : Str)
    → valid_name false n ≡ true
    → (utf8_len n ≤ 253) × (valid_labels false (labels n) ≡ true)
unfolding valid_name
valid_name-parts n h = (ground arith, (&&-eq-true _ _ h).1)

-- If `parse_zone_name` accepts `input` as `n`, then `n` is canonical.
pub parse_zone_name-IsCanonical : (input n : Str) → parse_zone_name input ≡ ok n → IsCanonical n
parse_zone_name-IsCanonical input n h =
    let (valid, two) = parse_zone_name_sound input n h in
    let (len, ls) = valid_name-parts n valid in
    let (sizes, cs) = plain_labels (labels n) ls in
    record {
      two_labels = ground arith;
      short = len;
      label_sizes = sizes;
      chars = all-split label_char b'.' n cs;
    }

-- If `parse_zone_name` accepts `input` as `n`, then it accepts `n` itself, and `n` with a trailing
-- dot, as `n`.
pub parse_zone_name_idempotent :
    (input n : Str)
    → parse_zone_name input ≡ ok n
    → (parse_zone_name n ≡ ok n) × (parse_zone_name (n ++ str ".") ≡ ok n)
unfolding parse_zone_name
parse_zone_name_idempotent input n h =
    let (valid, two) = parse_zone_name_sound input n h in
    (rw (normalize-valid false n valid) (rw two), rw (normalize-absolute false n valid) (rw two))
