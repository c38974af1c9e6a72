-- ===== src/Prelude/Lists.antt =====
-- Lists over the native numbers, Boolean quantifiers, and the selection of rows.
use Prim.Native.Nat.{ℕ, zero, suc, ◌+◌, ◌≤◌}
use mathlib.Core.Path.{◌≡◌, refl}
use mathlib.Core.Bool.{Bool, true, false, not, ◌&&◌, ◌||◌}
use mathlib.Core.Option.{Option, none, some}
use mathlib.Core.List.{List, [], ◌∷◌, ◌++◌}
use native.Mathlib.Omega.{arith}
use mathlib.Core.Logic.{◌⊎◌, inl, inr}
use certo.Prelude.Tests.{if◌then◌else◌, ||-eq-true, Bool-cases}

module _ {ℓ} {A : Type ℓ} where
  abbrev pub length : List A → ℕ
  length [] = 0
  length (x ∷ xs) = suc (length xs)

  abbrev pub take : ℕ → List A → List A
  take zero xs = []
  take (suc n) [] = []
  take (suc n) (x ∷ xs) = x ∷ take n xs

  abbrev pub is_empty : List A → Bool
  is_empty [] = true
  is_empty (x ∷ xs) = false

  abbrev pub any : (A → Bool) → List A → Bool
  any p [] = false
  any p (x ∷ xs) = p x || any p xs

  abbrev pub all : (A → Bool) → List A → Bool
  all p [] = true
  all p (x ∷ xs) = p x && all p xs

  -- The rows that satisfy a condition, in order.
  abbrev pub select : (A → Bool) → List A → List A
  select p [] = []
  select p (x ∷ xs) = let rest = select p xs in if p x then x ∷ rest else rest

  abbrev pub reject : (A → Bool) → List A → List A
  reject p = select (λ x. not (p x))

  -- The first row that satisfies a condition.
  abbrev pub find : (A → Bool) → List A → Option A
  find p [] = none
  find p (x ∷ xs) = let rest = find p xs in if p x then some x else rest

  abbrev pub All {κ} : (A → Type κ) → List A → Type κ
  All P [] = Unit
  All P (x ∷ xs) = P x × All P xs

  -- Some element satisfies the predicate.
  abbrev pub Some : (A → Type 0) → List A → Type 0
  Some P [] = ⊥
  Some P (x ∷ xs) = P x ⊎ Some P xs

  pub All-append {κ} : (P : A → Type κ) (xs ys : List A) → All P xs → All P ys → All P (xs ++ ys)
  All-append P [] ys h k = k
  All-append P (x ∷ xs) ys (h, hs) k = (h, All-append P xs ys hs k)

  pub All-select {κ} :
      (P : A → Type κ) (p : A → Bool) (xs : List A) → All P xs → All P (select p xs)
  All-select P p [] h = tt
  All-select P p (x ∷ xs) (h, hs) = ground (arith, All-select P p xs hs)

  pub length-append : (xs ys : List A) → length (xs ++ ys) ≡ length xs + length ys
  length-append [] ys = omega arith
  length-append (x ∷ xs) ys = omega (arith, length-append xs ys)

  pub length-select-le : (p : A → Bool) (xs : List A) → length (select p xs) ≤ length xs
  length-select-le p [] = omega arith
  length-select-le p (x ∷ xs) = ground (arith, length-select-le p xs)

  pub select-append :
      (p : A → Bool) (xs ys : List A) → select p (xs ++ ys) ≡ select p xs ++ select p ys
  select-append p [] ys = refl
  select-append p (x ∷ xs) ys = ground (arith, select-append p xs ys)

  pub any_sound : (p : A → Bool) (xs : List A) → any p xs ≡ true → Some (λ x. p x ≡ true) xs
  any_sound p [] h = cc
  any_sound p (x ∷ xs) h = elim (||-eq-true _ _ h) [
    | inl e ↦ inl e
    | inr e ↦ inr (any_sound p xs e)
  ]

  pub any_complete : (p : A → Bool) (xs : List A) → Some (λ x. p x ≡ true) xs → any p xs ≡ true
  any_complete p [] h = elim h [ ]
  any_complete p (x ∷ xs) (inl e) = rw e
  any_complete p (x ∷ xs) (inr e) = ground (arith, any_complete p xs e)

  pub Some-map : (P Q : A → Type 0) → ((x : A) → P x → Q x) → (xs : List A) → Some P xs → Some Q xs
  Some-map P Q f [] h = elim h [ ]
  Some-map P Q f (x ∷ xs) (inl h) = inl (f x h)
  Some-map P Q f (x ∷ xs) (inr h) = inr (Some-map P Q f xs h)

  pub select-snoc_other :
      (p : A → Bool) (xs : List A) (y : A) → p y ≡ false → select p (xs ++ (y ∷ [])) ≡ select p xs
  select-snoc_other p [] y h = rw h
  select-snoc_other p (x ∷ xs) y h = ground (arith, select-snoc_other p xs y h)

  -- Every two elements, the earlier one first, are related.
  abbrev pub Apart : (A → A → Type 0) → List A → Type 0
  Apart R [] = Unit
  Apart R (x ∷ xs) = All (R x) xs × Apart R xs

  pub Apart-select :
      (R : A → A → Type 0) (p : A → Bool) (xs : List A) → Apart R xs → Apart R (select p xs)
  Apart-select R p [] h = tt
  Apart-select R p (x ∷ xs) (h, hs) = elim (Bool-cases (p x)) [
    | inl e ↦ rw e (All-select (R x) p xs h, Apart-select R p xs hs)
    | inr e ↦ rw e (Apart-select R p xs hs)
  ]

  pub Apart-snoc :
      (R : A → A → Type 0) (xs : List A) (y : A)
      → Apart R xs
      → All (λ x. R x y) xs
      → Apart R (xs ++ (y ∷ []))
  Apart-snoc R [] y h k = (tt, tt)
  Apart-snoc R (x ∷ xs) y (h, hs) (k, ks) =
      (All-append (R x) xs (y ∷ []) h (k, tt), Apart-snoc R xs y hs ks)

  pub All-map : (P Q : A → Type 0) → ((x : A) → P x → Q x) → (xs : List A) → All P xs → All Q xs
  All-map P Q f [] h = tt
  All-map P Q f (x ∷ xs) (h, hs) = (f x h, All-map P Q f xs hs)

  pub All-of_any-false : (p : A → Bool) (xs : List A) → any p xs ≡ false → All (λ x. p x ≡ false) xs
  All-of_any-false p [] h = tt
  All-of_any-false p (x ∷ xs) h = (ground arith, All-of_any-false p xs (ground arith))
