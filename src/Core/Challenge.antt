-- ===== src/Core/Challenge.antt =====
-- Challenge names: `internal_domain` against `extract_subdomain_from_fqdn`.

use mathlib.Core.Option
use mathlib.Core.Path.{ap₂}
use certo.Prelude.{
  ℕ, ◌≡◌, ◌≢◌, refl, ◌∙◌, Bool, true, false, none, some, [], ◌∷◌, ◌++◌, arith, inl, inr, Bool-cases,
  any, all, ◌==◌,
}
use certo.Text.{Str, Unicode, str, IsAscii, strip_suffix, strip_dot}
use certo.Text.Affix.{strip_suffix-append, strip_dot-append, strip_dot-none}
use certo.Names.{label_char, valid_name}
use certo.Names.Canonical.{
  dotted_char, valid_name-chars, trim-name, lower-name, strip_dot-valid, dotted-append,
}
use certo.Core.{internal_domain, sanitize_fqdn, extract_subdomain_from_fqdn}

dotted-IsAscii : (s : Str) → all dotted_char s ≡ true → IsAscii s
unfolding label_char
dotted-IsAscii [] h = tt
dotted-IsAscii (c ∷ s) h = (ground arith, dotted-IsAscii s (ground arith))

all-append : (p : ℕ → Bool) (s t : Str) → all p s ≡ true → all p t ≡ true → all p (s ++ t) ≡ true
all-append p [] t h k = k
all-append p (c ∷ s) t h k = ground (arith, all-append p s t)

label-dotted : (s : Str) → all label_char s ≡ true → all dotted_char s ≡ true
label-dotted [] h = refl
label-dotted (c ∷ s) h = ground (arith, label-dotted s)

no_dots : (s : Str) → all label_char s ≡ true → any (λ c. c == b'.') s ≡ false
unfolding label_char
no_dots [] h = refl
no_dots (c ∷ s) h = ground (arith, no_dots s)

strip_dot-cons :
    (c : ℕ) (t : Str)
    → t ≢ []
    → strip_suffix t (str ".") ≡ none
    → strip_suffix (c ∷ t) (str ".") ≡ none
unfolding strip_suffix
strip_dot-cons c [] n h = absurd (n refl)
strip_dot-cons c (d ∷ t) n h = elim (Bool-cases (c == b'.')) [
  | inl e ↦ rw e (rw (h, Option.map) refl)
  | inr e ↦ rw e (rw (h, Option.map) refl)
]

append-ne-nil : (s base : Str) → base ≢ [] → s ++ base ≢ []
append-ne-nil [] base n = n
append-ne-nil (c ∷ s) base n = λ e. cc e

-- A name below a base has a trailing dot only if the base has one.
strip_dot-under :
    (s base : Str)
    → base ≢ []
    → strip_suffix base (str ".") ≡ none
    → strip_suffix (s ++ base) (str ".") ≡ none
strip_dot-under [] base n h = h
strip_dot-under (c ∷ s) base n h =
    strip_dot-cons c (s ++ base) (append-ne-nil s base n) (strip_dot-under s base n h)

valid-ne-nil : (base : Str) → valid_name false base ≡ true → base ≢ []
unfolding valid_name
valid-ne-nil [] h = cc
valid-ne-nil (c ∷ base) h = λ e. cc e

module _ ⦃u : Unicode⦄ where
  sanitize-dotted : (n : Str) → all dotted_char n ≡ true → sanitize_fqdn n ≡ strip_dot n
  unfolding sanitize_fqdn
  sanitize-dotted n h = rw (trim-name n h, u.lowercase_ascii n (dotted-IsAscii n h), lower-name n h)

  under_dotted :
      (sub base : Str)
      → all label_char sub ≡ true
      → valid_name false base ≡ true
      → all dotted_char (sub ++ (b'.' ∷ base)) ≡ true
  under_dotted sub base h k =
      all-append dotted_char sub (b'.' ∷ base) (label-dotted sub h)
        (ground (arith, valid_name-chars false base k))

  internal-eq :
      (sub base : Str)
      → valid_name false base ≡ true
      → internal_domain sub base ≡ sub ++ (b'.' ∷ base)
  unfolding internal_domain
  internal-eq sub base k = rw (
    trim-name base (valid_name-chars false base k),
    strip_dot-none base (strip_dot-valid false base k),
  )

  sanitize-base : (base : Str) → valid_name false base ≡ true → sanitize_fqdn base ≡ base
  sanitize-base base k =
      sanitize-dotted base (valid_name-chars false base k)
      ∙ strip_dot-none base (strip_dot-valid false base k)

  sanitize-internal :
      (sub base : Str)
      → all label_char sub ≡ true
      → valid_name false base ≡ true
      → (sanitize_fqdn (internal_domain sub base) ≡ sub ++ (b'.' ∷ base))
        × (sanitize_fqdn (internal_domain sub base ++ str ".") ≡ sub ++ (b'.' ∷ base))
  sanitize-internal sub base h k =
      let chars = under_dotted sub base h k in
      let n : Str = sub ++ (b'.' ∷ base) in
      let below : strip_suffix (b'.' ∷ base) (str ".") ≡ none =
        strip_dot-under (str ".") base (valid-ne-nil base k) (strip_dot-valid false base k) in
      rw (internal-eq sub base k) (
        sanitize-dotted n chars
            ∙ strip_dot-none n (strip_dot-under sub (b'.' ∷ base) (λ e. cc e) below),
        sanitize-dotted (n ++ str ".")
              (dotted-append dotted_char n chars (unfold label_char in refl))
            ∙ strip_dot-append n,
      )

  extract-below :
      (fqdn sub base : Str)
      → sub ≢ []
      → all label_char sub ≡ true
      → sanitize_fqdn base ≡ base
      → sanitize_fqdn fqdn ≡ sub ++ (b'.' ∷ base)
      → extract_subdomain_from_fqdn fqdn base ≡ some sub
  unfolding extract_subdomain_from_fqdn
  extract-below fqdn [] base n h k e = absurd (n refl)
  extract-below fqdn (c ∷ sub) base n h k e =
      let found : strip_suffix (sanitize_fqdn fqdn) (b'.' ∷ sanitize_fqdn base) ≡ some (c ∷ sub) =
        ap₂ (λ f b. strip_suffix f (b'.' ∷ b)) e k ∙ strip_suffix-append (c ∷ sub) (b'.' ∷ base) in
      rw (found, extract_subdomain_from_fqdn) (rw (no_dots (c ∷ sub) h))

  -- For a nonempty subdomain of lower-case letters, digits, `-` and `_`, and a valid base domain: the
  -- subdomain is read back from its internal challenge name, with or without a trailing dot.
  pub extract_subdomain-internal_domain :
      (sub base : Str)
      → sub ≢ []
      → all label_char sub ≡ true
      → valid_name false base ≡ true
      → (extract_subdomain_from_fqdn (internal_domain sub base) base ≡ some sub)
        × (extract_subdomain_from_fqdn (internal_domain sub base ++ str ".") base ≡ some sub)
  extract_subdomain-internal_domain sub base n h k =
      let (plain, absolute) = sanitize-internal sub base h k in
      (
        extract-below _ sub base n h (sanitize-base base k) plain,
        extract-below _ sub base n h (sanitize-base base k) absolute,
      )
