-- ===== src/Text/Trim.antt =====
-- Trimming and ASCII case mapping leave a text alone that has nothing to trim or to map.
use certo.Prelude.{ℕ, ◌≡◌, refl, Bool, true, false, not, [], ◌∷◌, arith, ◌==◌, all}
use certo.Text.{
  Str, trim, trim_start_matches, trim_end_matches, keep_end, is_whitespace, to_ascii_lowercase,
  lower_ascii,
}

module _ (p : ℕ → Bool) where
  trim_start_matches-none : (s : Str) → all (λ c. not (p c)) s ≡ true → trim_start_matches p s ≡ s
  unfolding trim_start_matches
  trim_start_matches-none [] h = refl
  trim_start_matches-none (c ∷ s) h = ground arith

  keep_end-cons : (c : ℕ) (s : Str) → p c ≡ false → keep_end p c s ≡ c ∷ s
  keep_end-cons c [] h = rw h
  keep_end-cons c (d ∷ s) h = refl

  pub trim_end_matches-none : (s : Str) → all (λ c. not (p c)) s ≡ true → trim_end_matches p s ≡ s
  unfolding trim_end_matches
  trim_end_matches-none [] h = refl
  trim_end_matches-none (c ∷ s) h = ground (arith, trim_end_matches-none s, keep_end-cons c s)

-- Trimming changes nothing where no character is white space.
pub trim-none : (s : Str) → all (λ c. not (is_whitespace c)) s ≡ true → trim s ≡ s
unfolding trim
trim-none s h =
    rw (trim_start_matches-none is_whitespace s h) (trim_end_matches-none is_whitespace s h)

pub lower-none : (s : Str) → all (λ c. lower_ascii c == c) s ≡ true → to_ascii_lowercase s ≡ s
lower-none [] h = refl
lower-none (c ∷ s) h = ground (arith, lower-none s)

pub all-weaken :
    (p q : ℕ → Bool)
    → ((c : ℕ) → p c ≡ true → q c ≡ true)
    → (s : Str) → all p s ≡ true
    → all q s ≡ true
all-weaken p q f [] h = refl
all-weaken p q f (c ∷ s) h = ground (arith, f c, all-weaken p q f s)
