-- ===== src/Text.antt =====
-- Strings of the program as lists of Unicode code points, with the methods of Rust's `str` that the
-- program calls. `str::to_lowercase` rests on the Unicode tables and is a parameter (`Unicode`).
pub mod Decimal
pub mod Affix
pub mod Split
pub mod Trim
use Prim.Native.Char.{code}
use mathlib.Core.Option
use certo.Prelude.{
  ℕ, ◌+◌, ◌-◌, String, ◌≡◌, Bool, true, false, ◌&&◌, ◌||◌, Option, none, some, List, [], ◌∷◌, ◌++◌,
  map, ltb, leb, ◌==◌, if◌then◌else◌, is_some, All, ◌<◌,
}

abbrev pub Str : Type 0
Str = List ℕ

-- The code points of a text literal.
abbrev pub str : String → Str
str String.[] = []
str (String.◌∷◌ c s) = code c ∷ str s

-- ==
unfoldable pub str_eq : Str → Str → Bool
str_eq [] [] = true
str_eq (a ∷ s) (b ∷ t) = a == b && str_eq s t
str_eq _ _ = false

-- Lexicographic order by code point: SQLite's BINARY collation of UTF-8 text.
unfoldable pub str_leb : Str → Str → Bool
str_leb [] t = true
str_leb (a ∷ s) [] = false
str_leb (a ∷ s) (b ∷ t) = ltb a b || (a == b && str_leb s t)

-- `[_]::contains`
abbrev pub contains : List Str → Str → Bool
contains [] x = false
contains (y ∷ ys) x = str_eq y x || contains ys x

-- str::strip_prefix
unfoldable pub strip_prefix : Str → Str → Option Str
strip_prefix s [] = some s
strip_prefix [] (p ∷ ps) = none
strip_prefix (c ∷ s) (p ∷ ps) = let rest = strip_prefix s ps in if c == p then rest else none

-- str::starts_with
unfoldable pub starts_with : Str → Str → Bool
unfolding strip_prefix
starts_with s p = is_some (strip_prefix s p)

-- str::strip_suffix: what stands before the place where the rest is the suffix.
unfoldable pub strip_suffix : Str → Str → Option Str
unfolding str_eq
strip_suffix [] p = if str_eq [] p then some [] else none
strip_suffix (c ∷ s) p =
    let rest = Option.map (λ r. c ∷ r) (strip_suffix s p) in
    if str_eq (c ∷ s) p then some [] else rest

-- str::ends_with
unfoldable pub ends_with : Str → Str → Bool
unfolding strip_suffix
ends_with s p = is_some (strip_suffix s p)

-- `s.strip_suffix('.').unwrap_or(s)`
unfoldable pub strip_dot : Str → Str
unfolding strip_suffix
strip_dot s = elim (strip_suffix s (b'.' ∷ [])) [ none ↦ s | some r ↦ r ]

abbrev push_front : ℕ → List Str → List Str
push_front c [] = (c ∷ []) ∷ []
push_front c (l ∷ ls) = (c ∷ l) ∷ ls

-- str::split at a character.
unfoldable pub split : ℕ → Str → List Str
split d [] = [] ∷ []
split d (c ∷ s) = let rest = split d s in if c == d then [] ∷ rest else push_front c rest

-- str::split_once at a character.
unfoldable pub split_once : ℕ → Str → Option (Str × Str)
split_once d [] = none
split_once d (c ∷ s) =
    let rest = Option.map {B = Str × Str} (λ r. (c ∷ r.0, r.1)) (split_once d s) in
    if c == d then some ([], s) else rest

-- str::replace of a character by a text.
unfoldable pub replace_char : ℕ → Str → Str → Str
replace_char c by [] = []
replace_char c by (x ∷ s) = (if x == c then by else x ∷ []) ++ replace_char c by s

unfoldable pub join : Str → List Str → Str
join sep [] = []
join sep (l ∷ []) = l
join sep (l ∷ m ∷ ls) = l ++ (sep ++ join sep (m ∷ ls))

-- char::is_whitespace, the Unicode property White_Space.
unfoldable pub is_whitespace : ℕ → Bool
is_whitespace c =
    (leb 9 c && leb c 13)
    || c == 32
    || c == 0x85
    || c == 0xA0
    || c == 0x1680
    || (leb 0x2000 c && leb c 0x200A)
    || c == 0x2028
    || c == 0x2029
    || c == 0x202F
    || c == 0x205F
    || c == 0x3000

unfoldable pub trim_start_matches : (ℕ → Bool) → Str → Str
trim_start_matches p [] = []
trim_start_matches p (c ∷ s) = let rest = trim_start_matches p s in if p c then rest else c ∷ s

abbrev pub keep_end : (ℕ → Bool) → ℕ → Str → Str
keep_end p c [] = if p c then [] else c ∷ []
keep_end p c (d ∷ s) = c ∷ d ∷ s

unfoldable pub trim_end_matches : (ℕ → Bool) → Str → Str
trim_end_matches p [] = []
trim_end_matches p (c ∷ s) = keep_end p c (trim_end_matches p s)

-- str::trim
unfoldable pub trim : Str → Str
unfolding trim_start_matches trim_end_matches is_whitespace
trim s = trim_end_matches is_whitespace (trim_start_matches is_whitespace s)

-- `trim_end_matches('.')`
unfoldable pub trim_dots : Str → Str
unfolding trim_end_matches
trim_dots s = trim_end_matches (λ c. c == b'.') s

abbrev pub utf8_width : ℕ → ℕ
utf8_width c = if ltb c 0x80 then 1 else if ltb c 0x800 then 2 else if ltb c 0x10000 then 3 else 4

-- str::len, in bytes of UTF-8.
unfoldable pub utf8_len : Str → ℕ
utf8_len [] = 0
utf8_len (c ∷ s) = utf8_width c + utf8_len s

unfoldable pub lower_ascii : ℕ → ℕ
lower_ascii c = if leb b'A' c && leb c b'Z' then c + 32 else c

unfoldable pub upper_ascii : ℕ → ℕ
upper_ascii c = if leb b'a' c && leb c b'z' then c - 32 else c

abbrev pub to_ascii_lowercase : Str → Str
to_ascii_lowercase s = map lower_ascii s

abbrev pub to_ascii_uppercase : Str → Str
to_ascii_uppercase s = map upper_ascii s

abbrev pub IsAscii : Str → Type 0
IsAscii s = All (λ c. c < 128) s

-- Unicode case mapping, whose tables the program takes from its standard library. On ASCII text it
-- is ASCII case mapping.
pub record Unicode : Type 0 where
  pub lowercase : Str → Str
  pub lowercase_ascii : (s : Str) → IsAscii s → lowercase s ≡ to_ascii_lowercase s
