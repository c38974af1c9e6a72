-- ===== src/Names/Inside.antt =====
-- `inside` compares texts; what it decides is containment of DNS names, label by label.
use mathlib.Core.List.{append_assoc}
use certo.Prelude.{
  ◌≡◌, ◌↔◌, ap, sym, ◌∙◌, subst, true, ◌||◌, List, [], ◌∷◌, ◌++◌, arith, inl, inr, ||-eq-true,
}
use certo.Text.{Str, str_eq, split, join, ends_with}
use certo.Text.Affix.{str_eq_iff, str_eq_refl, ends_with-append, ends_with_sound}
use certo.Text.Split.{split-append, split-ne-nil, join-split, join-append}
use certo.Names.{inside}

-- The labels of a name.
abbrev pub labels : Str → List Str
labels name = split b'.' name

inside-labels :
    (name zone : Str)
    → inside name zone ≡ true
    → (above : List Str) × (labels name ≡ above ++ labels zone)
unfolding inside
inside-labels name zone h = elim (||-eq-true _ _ h) [
  | inl e ↦ ([], ap labels ((str_eq_iff name zone).0 e))
  | inr e ↦
      let (r, same) = ends_with_sound name (b'.' ∷ zone) e in
      (labels r, ap labels same ∙ split-append b'.' r zone)
]

labels-inside :
    (name zone : Str) (above : List Str)
    → labels name ≡ above ++ labels zone
    → inside name zone ≡ true
unfolding inside
labels-inside name zone [] e =
    let same : name ≡ zone =
      sym (join-split b'.' name) ∙ ap (join (b'.' ∷ [])) e ∙ join-split b'.' zone in
    rw (same, str_eq_refl zone)
labels-inside name zone (l ∷ ls) e =
    let same : name ≡ join (b'.' ∷ []) (l ∷ ls) ++ (b'.' ∷ zone) =
      sym (join-split b'.' name)
      ∙ ap (join (b'.' ∷ [])) e
      ∙ join-append (b'.' ∷ []) (l ∷ ls) (labels zone) (λ q. cc q) (split-ne-nil b'.' zone)
      ∙ ap (λ t. join (b'.' ∷ []) (l ∷ ls) ++ (b'.' ∷ t)) (join-split b'.' zone) in
    subst (λ n. (str_eq n zone || ends_with n (b'.' ∷ zone)) ≡ true) (sym same)
      (ground (arith, ends_with-append (join (b'.' ∷ []) (l ∷ ls)) (b'.' ∷ zone)))

-- For all texts `name` and `zone`: `inside name zone` is true exactly if the labels of `zone` are
-- the last labels of `name`.
pub inside_iff-labels :
    (name zone : Str)
    → (inside name zone ≡ true) ↔ ((above : List Str) × (labels name ≡ above ++ labels zone))
inside_iff-labels name zone = (inside-labels name zone, λ (a, e). labels-inside name zone a e)

-- A name is inside itself, and to be inside is transitive.
pub inside_trans : (a b c : Str) → inside a b ≡ true → inside b c ≡ true → inside a c ≡ true
inside_trans a b c h k =
    let (x, e) = inside-labels a b h in
    let (y, f) = inside-labels b c k in
    labels-inside a c (x ++ y) (rw (e, f) (sym (append_assoc x y (labels c))))

pub inside-under : (prefix zone : Str) → inside (prefix ++ (b'.' ∷ zone)) zone ≡ true
unfolding inside
inside-under prefix zone = ground (arith, ends_with-append prefix (b'.' ∷ zone))

pub inside_refl : (zone : Str) → inside zone zone ≡ true
unfolding inside
inside_refl zone = rw (str_eq_refl zone)
