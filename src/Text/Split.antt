-- ===== src/Text/Split.antt =====
-- Splitting at a character: against joining, and against a separator in the middle.
use mathlib.Core.List.{append_assoc}
use certo.Prelude.{
  ℕ, ◌≡◌, ◌≢◌, refl, ap, sym, ◌∙◌, Bool, true, List, [], ◌∷◌, ◌++◌, arith, ◌==◌, inl, inr,
  Bool-cases, ==_iff, all, ◌||◌,
}
use certo.Text.{Str, split, join, push_front}

push_front-append :
    (c : ℕ) (ls ms : List Str) → ls ≢ [] → push_front c (ls ++ ms) ≡ push_front c ls ++ ms
push_front-append c [] ms h = absurd (h refl)
push_front-append c (l ∷ ls) ms h = refl

push_front-ne-nil : (c : ℕ) (ls : List Str) → push_front c ls ≢ []
push_front-ne-nil c [] = cc
push_front-ne-nil c (l ∷ ls) = cc

pub split-ne-nil : (d : ℕ) (s : Str) → split d s ≢ []
unfolding split
split-ne-nil d [] = cc
split-ne-nil d (c ∷ s) = ground (arith, push_front-ne-nil c (split d s))

-- A separator in the middle splits the text in two.
pub split-append : (d : ℕ) (s t : Str) → split d (s ++ (d ∷ t)) ≡ split d s ++ split d t
unfolding split
split-append d [] t = ground arith
split-append d (c ∷ s) t = elim (Bool-cases (c == d)) [
  | inl e ↦ rw e (ap (λ ls. [] ∷ ls) (split-append d s t))
  | inr e ↦
      rw e
        (rw (split-append d s t) (push_front-append c (split d s) (split d t) (split-ne-nil d s)))
]

join-push_front :
    (c : ℕ) (sep : Str) (ls : List Str) → ls ≢ [] → join sep (push_front c ls) ≡ c ∷ join sep ls
unfolding join
join-push_front c sep [] h = absurd (h refl)
join-push_front c sep (l ∷ []) h = refl
join-push_front c sep (l ∷ m ∷ ls) h = refl

join-nil_cons : (d : ℕ) (ls : List Str) → ls ≢ [] → join (d ∷ []) ([] ∷ ls) ≡ d ∷ join (d ∷ []) ls
unfolding join
join-nil_cons d [] h = absurd (h refl)
join-nil_cons d (l ∷ ls) h = refl

pub join-split : (d : ℕ) (s : Str) → join (d ∷ []) (split d s) ≡ s
unfolding split join
join-split d [] = refl
join-split d (c ∷ s) = elim (Bool-cases (c == d)) [
  | inl e ↦ rw e (
      join-nil_cons d (split d s) (split-ne-nil d s)
      ∙ ap (λ t. d ∷ t) (join-split d s)
      ∙ ap (λ x. x ∷ s) (sym ((==_iff c d).0 e)))
  | inr e ↦
      rw e (
        join-push_front c (d ∷ []) (split d s) (split-ne-nil d s)
        ∙ ap (λ t. c ∷ t) (join-split d s))
]

pub join-append :
    (sep : Str) (ls ms : List Str)
    → ls ≢ []
    → ms ≢ []
    → join sep (ls ++ ms) ≡ join sep ls ++ (sep ++ join sep ms)
unfolding join
join-append sep [] ms h k = absurd (h refl)
join-append sep (l ∷ []) [] h k = absurd (k refl)
join-append sep (l ∷ []) (m ∷ ms) h k = refl
join-append sep (l ∷ l' ∷ ls) ms h k =
    rw (join-append sep (l' ∷ ls) ms (λ e. cc e) k) (simp append_assoc)

all-push_front :
    (p : ℕ → Bool) (c : ℕ) (ls : List Str)
    → all (all p) (push_front c ls) ≡ true
    → (p c ≡ true) × (all (all p) ls ≡ true)
all-push_front p c [] h = ground arith
all-push_front p c (l ∷ ls) h = ground arith

-- What holds of the characters of every part holds of every character but the separators.
pub all-split :
    (p : ℕ → Bool) (d : ℕ) (s : Str)
    → all (all p) (split d s) ≡ true
    → all (λ c. p c || c == d) s ≡ true
unfolding split
all-split p d [] h = refl
all-split p d (c ∷ s) h = ground (arith, all-split p d s, all-push_front p c (split d s))
