-- ===== src/Names/Owner.antt =====
-- `owner_name`: the spellings of an owner, and what it returns.
use certo.Prelude.{
  ◌≡◌, refl, subst, true, false, List, [], ◌∷◌, ◌++◌, arith, if◌then◌else◌, inl, inr, Bool-cases,
  ok, err, is_empty, all,
}
use certo.Text.{Str, str, str_eq, ends_with}
use certo.Text.Affix.{str_eq_iff, ends_with-append}
use certo.Names.{label_char, valid_name, name_outside_zone, inside, owner_name}
use certo.Names.Inside.{labels, inside_iff-labels, inside-under, inside_refl}
use certo.Names.Canonical.{
  dotted_char, valid_name-chars, trim-name, strip_dot-valid, normalize-valid, normalize-absolute,
  dotted-append,
}

valid-ne-empty : (n : Str) → valid_name true n ≡ true → is_empty n ≡ false
unfolding valid_name
valid-ne-empty [] h = cc
valid-ne-empty (c ∷ n) h = refl

valid-ne-at : (n : Str) → valid_name true n ≡ true → str_eq n (str "@") ≡ false
unfolding label_char
valid-ne-at n h = elim (Bool-cases (str_eq n (str "@"))) [
  | inl e ↦
      let bad : all dotted_char (str "@") ≡ true =
        subst (λ t. all dotted_char t ≡ true) ((str_eq_iff n (str "@")).0 e)
          (valid_name-chars true n h) in
      cc bad
  | inr e ↦ e
]

no_dot_end : (n : Str) → valid_name true n ≡ true → ends_with n (str ".") ≡ false
unfolding ends_with
no_dot_end n h = rw (strip_dot-valid true n h)

dotted-ne-empty : (n : Str) → is_empty (n ++ str ".") ≡ false
dotted-ne-empty [] = refl
dotted-ne-empty (c ∷ n) = refl

dotted-ne-at : (n : Str) → str_eq (n ++ str ".") (str "@") ≡ false
unfolding str_eq
dotted-ne-at [] = refl
dotted-ne-at (c ∷ []) = ground arith
dotted-ne-at (c ∷ d ∷ n) = ground arith

-- For a valid name `n`, the absolute spelling `n.` is accepted as `n` if `n` is inside the zone, and
-- is refused as outside the zone if it is not.
pub owner_name_absolute :
    (zone n : Str)
    → valid_name true n ≡ true
    → owner_name zone (n ++ str ".") ≡ (if inside n zone then ok n else err name_outside_zone)
unfolding owner_name
owner_name_absolute zone n h =
    let chars =
      dotted-append dotted_char n (valid_name-chars true n h) (unfold label_char in refl) in
    rw
      (
        trim-name (n ++ str ".") chars,
        dotted-ne-empty n,
        dotted-ne-at n,
        normalize-absolute true n h,
        ends_with-append n (str "."),
      )
      (ground arith)

-- For a valid name `n`, the spelling without a trailing dot is never refused: it stands for `n` if
-- `n` is inside the zone, and for `n` below the zone otherwise.
pub owner_name_relative :
    (zone n : Str)
    → valid_name true n ≡ true
    → owner_name zone n ≡ ok (if inside n zone then n else n ++ (b'.' ∷ zone))
unfolding owner_name
owner_name_relative zone n h =
    rw
      (
        trim-name n (valid_name-chars true n h),
        valid-ne-empty n h,
        valid-ne-at n h,
        normalize-valid true n h,
        no_dot_end n h,
      )
      (ground (arith, inside-under n zone))

pub owner_name-inside : (zone input n : Str) → owner_name zone input ≡ ok n → inside n zone ≡ true
unfolding owner_name
owner_name-inside zone input n h = ground (arith, inside_refl zone)

-- Whatever the input, the labels of an accepted owner end in the labels of the zone.
pub owner_name-labels :
    (zone input n : Str)
    → owner_name zone input ≡ ok n
    → (above : List Str) × (labels n ≡ above ++ labels zone)
owner_name-labels zone input n h = (inside_iff-labels n zone).0 (owner_name-inside zone input n h)
