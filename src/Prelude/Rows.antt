-- ===== src/Prelude/Rows.antt =====
-- Tables as lists of rows: updates, look-ups by a key, ordering.
use mathlib.Core.Option
use mathlib.Core.Path.{◌≡◌, refl, sym, subst, ◌∙◌}
use mathlib.Core.Logic.{◌⊎◌, inl, inr}
use mathlib.Core.Bool.{Bool, true, false}
use mathlib.Core.Option.{Option, none, some}
use mathlib.Core.List.{List, [], ◌∷◌, ◌++◌}
use native.Mathlib.Omega.{arith}
use certo.Prelude.Tests.{if◌then◌else◌, Bool-cases}
use certo.Prelude.Lists.{select, reject, find, any, All, Apart}

module _ {ℓ} {A : Type ℓ} where
  -- UPDATE … WHERE p
  abbrev pub update_where : (A → Bool) → (A → A) → List A → List A
  update_where p f [] = []
  update_where p f (x ∷ xs) = (if p x then f x else x) ∷ update_where p f xs

  -- One insertion of an insertion sort, which keeps the order of equals.
  abbrev pub insert_by : (A → A → Bool) → A → List A → List A
  insert_by le x [] = x ∷ []
  insert_by le x (y ∷ ys) = let rest = insert_by le x ys in if le x y then x ∷ y ∷ ys else y ∷ rest

  -- ORDER BY
  abbrev pub order_by : (A → A → Bool) → List A → List A
  order_by le [] = []
  order_by le (x ∷ xs) = insert_by le x (order_by le xs)

  pub find-update_where :
      (p q : A → Bool) (f : A → A) (xs : List A)
      → ((x : A) → q x ≡ true → p (f x) ≡ p x)
      → find p (update_where q f xs) ≡ Option.map (λ x. if q x then f x else x) (find p xs)
  find-update_where p q f [] h = refl
  find-update_where p q f (x ∷ xs) h = ground (arith, h x, find-update_where p q f xs h)

  -- Rows that a condition removes are not those that a disjoint condition selects.
  pub select-reject :
      (p q : A → Bool) (xs : List A)
      → ((x : A) → p x ≡ true → q x ≡ false)
      → select p (reject q xs) ≡ select p xs
  select-reject p q [] h = refl
  select-reject p q (x ∷ xs) h = ground (arith, h x, select-reject p q xs h)

  pub find-reject :
      (p q : A → Bool) (xs : List A)
      → ((x : A) → p x ≡ true → q x ≡ false)
      → find p (reject q xs) ≡ find p xs
  find-reject p q [] h = refl
  find-reject p q (x ∷ xs) h = ground (arith, h x, find-reject p q xs h)

  pub find_sound : (p : A → Bool) (xs : List A) (x : A) → find p xs ≡ some x → p x ≡ true
  find_sound p [] x h = cc
  find_sound p (y ∷ ys) x h = ground (arith, find_sound p ys x)

  pub find-append :
      (p : A → Bool) (xs : List A) (y x : A) → find p xs ≡ some x → find p (xs ++ (y ∷ [])) ≡ some x
  find-append p [] y x h = cc
  find-append p (z ∷ xs) y x h = ground (arith, find-append p xs y x)

  pub update_where-update_where :
      (p : A → Bool) (f g : A → A) (xs : List A)
      → ((x : A) → p (f x) ≡ p x)
      → update_where p g (update_where p f xs) ≡ update_where p (λ x. g (f x)) xs
  update_where-update_where p f g [] h = refl
  update_where-update_where p f g (x ∷ xs) h =
      ground (arith, h x, update_where-update_where p f g xs h)

  pub any-update_where :
      (p q : A → Bool) (f : A → A) (xs : List A)
      → ((x : A) → p (f x) ≡ p x)
      → any p (update_where q f xs) ≡ any p xs
  any-update_where p q f [] h = refl
  any-update_where p q f (x ∷ xs) h = ground (arith, h x, any-update_where p q f xs h)

  pub find-of_any : (p : A → Bool) (xs : List A) → any p xs ≡ true → (x : A) × (find p xs ≡ some x)
  find-of_any p [] h = cc
  find-of_any p (x ∷ xs) h = elim (Bool-cases (p x)) [
    | inl e ↦ (x, rw e)
    | inr e ↦ let (y, found) = find-of_any p xs (rw e at h) in (y, rw e found)
  ]

  pub find-reject_sound :
      (p q : A → Bool) (xs : List A) (x : A) → find p (reject q xs) ≡ some x → q x ≡ false
  find-reject_sound p q [] x h = cc
  find-reject_sound p q (y ∷ xs) x h = ground (arith, find-reject_sound p q xs x)

  pub find-snoc_new :
      (p : A → Bool) (xs : List A) (y : A)
      → any p xs ≡ false
      → p y ≡ false
      → find p (xs ++ (y ∷ [])) ≡ find p xs
  find-snoc_new p [] y h k = ground arith
  find-snoc_new p (x ∷ xs) y h k = ground (arith, find-snoc_new p xs y)

  pub find-All :
      (P : A → Type 0) (p : A → Bool) (xs : List A) (x : A) → All P xs → find p xs ≡ some x → P x
  find-All P p [] x h e = cc
  find-All P p (y ∷ xs) x (h, hs) e = elim (Bool-cases (p y)) [
    | inl q ↦ subst P (Option.some-injective _ _ (rw q at e)) h
    | inr q ↦ find-All P p xs x hs (rw q at e)
  ]

  -- A row that is found after others were removed was there before.
  pub find-of_reject :
      (p q : A → Bool) (xs : List A) (x : A)
      → find p (reject q xs) ≡ some x
      → (y : A) × (find p xs ≡ some y)
  find-of_reject p q [] x e = cc
  find-of_reject p q (y ∷ xs) x e = elim (Bool-cases (p y)) [
    | inl h ↦ (y, rw h)
    | inr h ↦ rw h (find-of_reject p q xs x (ground arith))
  ]

  pub find-of_snoc :
      (p : A → Bool) (xs : List A) (y x : A)
      → p y ≡ false
      → find p (xs ++ (y ∷ [])) ≡ some x
      → find p xs ≡ some x
  find-of_snoc p [] y x h e = ground arith
  find-of_snoc p (z ∷ xs) y x h e = ground (arith, find-of_snoc p xs y x)

  -- Two rows of a table are one row or are related, in the order in which they stand.
  pub Apart-find :
      (R : A → A → Type 0) (p q : A → Bool) (xs : List A) (a b : A)
      → Apart R xs
      → find p xs ≡ some a
      → find q xs ≡ some b
      → (a ≡ b) ⊎ R a b ⊎ R b a
  Apart-find R p q [] a b h e f = cc
  Apart-find R p q (x ∷ xs) a b (h, hs) e f = elim (Bool-cases (p x)) [
    | inl e1 ↦
        let xa : x ≡ a = Option.some-injective _ _ (rw e1 at e) in
        elim (Bool-cases (q x)) [
          | inl f1 ↦ inl (sym xa ∙ Option.some-injective _ _ (rw f1 at f))
          | inr f1 ↦ inr (inl (subst (λ y. R y b) xa (find-All (R x) q xs b h (rw f1 at f))))
        ]
    | inr e1 ↦ elim (Bool-cases (q x)) [
      | inl f1 ↦
          let xb : x ≡ b = Option.some-injective _ _ (rw f1 at f) in
          inr (inr (subst (λ y. R y a) xb (find-All (R x) p xs a h (rw e1 at e))))
      | inr f1 ↦ Apart-find R p q xs a b hs (rw e1 at e) (rw f1 at f)
    ]
  ]
