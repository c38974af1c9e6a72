-- ===== src/Names/Txt.antt =====
-- `txt_content`: the quoting of a TXT value loses nothing.
use mathlib.Core.List.{append_assoc}
use certo.Prelude.{
  ℕ, ◌≡◌, refl, ap, sym, Bool, true, false, Option, none, some, [], ◌∷◌, ◌++◌, arith, ◌==◌,
  if◌then◌else◌, inl, inr, Bool-cases, ==_iff,
}
use certo.Text.{Str, replace_char}
use certo.Names.{escape, txt_content}

prepend : ℕ → Option (Str × Str) → Option (Str × Str)
prepend c none = none
prepend c (some (s, rest)) = some (c ∷ s, rest)

-- The reader of a quoted character-string, as a zone file has it: a backslash takes the next
-- character as it is, and the closing quote ends the text. What follows it is returned too.
read_quoted : Bool → Str → Option (Str × Str)
read_quoted escaped [] = none
read_quoted true (c ∷ s) = prepend c (read_quoted false s)
read_quoted false (c ∷ s) =
    let plain = prepend c (read_quoted false s) in
    let taken = read_quoted true s in
    if c == 92 then taken else if c == b'"' then some ([], s) else plain

pub unquote : Str → Option (Str × Str)
unfolding read_quoted
unquote [] = none
unquote (c ∷ s) = if c == b'"' then read_quoted false s else none

abbrev escape_char : ℕ → Str
escape_char c = if c == 92 then 92 ∷ 92 ∷ [] else if c == b'"' then 92 ∷ b'"' ∷ [] else c ∷ []

escape-cons : (c : ℕ) (s : Str) → escape (c ∷ s) ≡ escape_char c ++ escape s
unfolding escape replace_char
escape-cons c s = ground arith

read-escape : (v rest : Str) → read_quoted false (escape v ++ (b'"' ∷ rest)) ≡ some (v, rest)
unfolding read_quoted prepend
read-escape [] rest = unfold escape replace_char in refl
read-escape (c ∷ v) rest = rw (escape-cons c v) (elim (Bool-cases (c == 92)) [
  | inl e ↦
      rw e
        (rw (read-escape v rest, prepend) (ap (λ x. some (x ∷ v, rest)) (sym ((==_iff c 92).0 e))))
  | inr e ↦ elim (Bool-cases (c == b'"')) [
    | inl q ↦
        rw (e, q)
          (rw (read-escape v rest, prepend)
            (ap (λ x. some (x ∷ v, rest)) (sym ((==_iff c b'"').0 q))))
    | inr q ↦ rw (e, q) (rw (e, q) (rw (read-escape v rest, prepend) refl))
  ]
])

-- For every value, quoting it and reading the quoted text back gives the value, with nothing left
-- over and whatever text follows untouched.
pub unquote-txt_content :
    (value rest : Str) → unquote (txt_content value ++ rest) ≡ some (value, rest)
unfolding unquote txt_content
unquote-txt_content value rest =
    rw (append_assoc (escape value) (b'"' ∷ []) rest) (read-escape value rest)
