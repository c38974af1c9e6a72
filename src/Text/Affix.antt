-- ===== src/Text/Affix.antt =====
-- Equality of texts, prefixes and suffixes.
use mathlib.Core.Option
use certo.Prelude.{
  ℕ, ◌≡◌, ◌↔◌, refl, ap, true, false, Option, none, some, [], ◌∷◌, ◌++◌, arith, inl, inr,
  Bool-cases, is_some, length, length-append,
}
use certo.Text.{Str, str_eq, strip_prefix, starts_with, strip_suffix, ends_with, strip_dot, str}

str_eq_sound : (s t : Str) → str_eq s t ≡ true → s ≡ t
unfolding str_eq
str_eq_sound [] [] h = refl
str_eq_sound (a ∷ s) (b ∷ t) h = ground (arith, str_eq_sound s t)
str_eq_sound [] (b ∷ t) h = cc
str_eq_sound (a ∷ s) [] h = cc

pub str_eq_refl : (s : Str) → str_eq s s ≡ true
unfolding str_eq
str_eq_refl [] = refl
str_eq_refl (a ∷ s) = ground (arith, str_eq_refl s)

pub str_eq_iff : (s t : Str) → (str_eq s t ≡ true) ↔ (s ≡ t)
str_eq_iff s t = (str_eq_sound s t, λ e. rw e (str_eq_refl t))

pub str_eq_comm : (s t : Str) → str_eq s t ≡ str_eq t s
unfolding str_eq
str_eq_comm [] [] = refl
str_eq_comm [] (b ∷ t) = refl
str_eq_comm (a ∷ s) [] = refl
str_eq_comm (a ∷ s) (b ∷ t) = ground (arith, str_eq_comm s t)

pub starts_with-append : (p s : Str) → starts_with (p ++ s) p ≡ true
unfolding starts_with
starts_with-append [] [] = refl
starts_with-append [] (c ∷ s) = refl
starts_with-append (c ∷ p) s = ground (arith, starts_with-append p s)

pub strip_suffix_sound : (s p r : Str) → strip_suffix s p ≡ some r → s ≡ r ++ p
unfolding strip_suffix
strip_suffix_sound [] p r h = ground (arith, str_eq_sound [] p)
strip_suffix_sound (c ∷ s) p r h = elim (Bool-cases (str_eq (c ∷ s) p)) [
  | inl e ↦ let q : [] ≡ r = ground arith in rw (← q) (str_eq_sound (c ∷ s) p e)
  | inr e ↦
      let g : Option.map (λ t. c ∷ t) (strip_suffix s p) ≡ some r = ground arith in
      let (t, found, same) = (Option.map-eq-some_iff _ _).0 g in
      rw (← same) (ap (λ x. c ∷ x) (strip_suffix_sound s p t found))
]

longer-ne : (c : ℕ) (r p : Str) → str_eq (c ∷ (r ++ p)) p ≡ false
longer-ne c r p = elim (Bool-cases (str_eq (c ∷ (r ++ p)) p)) [
  | inl e ↦ absurd (omega (arith, ap length (str_eq_sound _ p e), length-append r p))
  | inr e ↦ e
]

strip_suffix_self : (p : Str) → strip_suffix p p ≡ some []
unfolding strip_suffix
strip_suffix_self [] = refl
strip_suffix_self (c ∷ p) = rw (str_eq_refl (c ∷ p))

pub strip_suffix-append : (r p : Str) → strip_suffix (r ++ p) p ≡ some r
unfolding strip_suffix
strip_suffix-append [] p = strip_suffix_self p
strip_suffix-append (c ∷ r) p = rw (longer-ne c r p) (rw (strip_suffix-append r p))

pub ends_with-append : (r p : Str) → ends_with (r ++ p) p ≡ true
unfolding ends_with
ends_with-append r p = rw (strip_suffix-append r p)

pub ends_with_sound : (s p : Str) → ends_with s p ≡ true → (r : Str) × (s ≡ r ++ p)
unfolding ends_with
ends_with_sound s p h = go (strip_suffix s p) refl h
  where
    go : (o : Option Str) → strip_suffix s p ≡ o → is_some o ≡ true → (r : Str) × (s ≡ r ++ p)
    go none e h = cc
    go (some r) e h = (r, strip_suffix_sound s p r e)

pub ends_with-none : (s p : Str) → ends_with s p ≡ false → strip_suffix s p ≡ none
unfolding ends_with
ends_with-none s p h = ground arith

-- `strip_dot` drops one trailing dot, and leaves a text without one.
pub strip_dot-append : (s : Str) → strip_dot (s ++ str ".") ≡ s
unfolding strip_dot
strip_dot-append s = rw (strip_suffix-append s (str "."), strip_dot) refl

pub strip_dot-none : (s : Str) → strip_suffix s (str ".") ≡ none → strip_dot s ≡ s
unfolding strip_dot
strip_dot-none s e = rw (e, strip_dot) refl

pub strip_prefix-append : (p s : Str) → strip_prefix (p ++ s) p ≡ some s
unfolding strip_prefix
strip_prefix-append [] s = refl
strip_prefix-append (c ∷ p) s = ground (arith, strip_prefix-append p s)

pub strip_prefix_sound : (s p r : Str) → strip_prefix s p ≡ some r → s ≡ p ++ r
unfolding strip_prefix
strip_prefix_sound s [] r h = ground arith
strip_prefix_sound [] (c ∷ p) r h = cc
strip_prefix_sound (d ∷ s) (c ∷ p) r h = ground (arith, strip_prefix_sound s p r)
