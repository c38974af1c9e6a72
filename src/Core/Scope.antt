-- ===== src/Core/Scope.antt =====
-- API key scopes (`ApiKey::has_domain_access`): what a key reaches, in terms of labels.
use mathlib.Core.List.{append_assoc}
use certo.Prelude.{
  ◌≡◌, ◌↔◌, ◌⊎◌, refl, ap, sym, ◌∙◌, subst, true, false, ◌||◌, Option, none, some, List, ◌∷◌, ◌++◌,
  arith, inl, inr, Bool-cases, ||-eq-true, any, Some, Some-map, any_sound, any_complete,
}
use certo.Text.{Str, Unicode, str, str_eq, strip_prefix, strip_suffix, ends_with, trim}
use certo.Text.Affix.{
  str_eq_iff, ends_with-append, ends_with_sound, strip_suffix_sound, strip_suffix-append,
  strip_prefix_sound, strip_prefix-append,
}
use certo.Names.{inside}
use certo.Names.Inside.{labels, inside_iff-labels}
use certo.Core.{ApiKey, is_global, under_root, wildcard_covers, scope_covers, has_domain_access}

under_root-inside : (d root : Str) → under_root d root ≡ true → inside d root ≡ true
unfolding under_root inside
under_root-inside d root h = elim (Bool-cases (str_eq d root)) [
  | inl e ↦ rw e
  | inr e ↦ go (strip_suffix d root) refl (rw e at h)
]
  where
    go :
        (o : Option Str)
        → strip_suffix d root ≡ o
        → (elim o [ none ↦ false | some rest ↦ ends_with rest (str ".") ]) ≡ true
        → (str_eq d root || ends_with d (b'.' ∷ root)) ≡ true
    go none e k = cc
    go (some rest) e k =
        let (r, same) = ends_with_sound rest (str ".") k in
        let whole : d ≡ r ++ (b'.' ∷ root) =
          strip_suffix_sound d root rest e
          ∙ ap (λ t. t ++ root) same
          ∙ append_assoc r (str ".") root in
        subst (λ t. (str_eq t root || ends_with t (b'.' ∷ root)) ≡ true) (sym whole)
          (ground (arith, ends_with-append r (b'.' ∷ root)))

inside-under_root : (d root : Str) → inside d root ≡ true → under_root d root ≡ true
unfolding under_root inside
inside-under_root d root h = elim (||-eq-true (str_eq d root) (ends_with d (b'.' ∷ root)) h) [
  | inl e ↦ rw e
  | inr e ↦
      let (r, same) = ends_with_sound d (b'.' ∷ root) e in
      let whole : d ≡ (r ++ str ".") ++ root = same ∙ sym (append_assoc r (str ".") root) in
      subst (λ t. under_root t root ≡ true) (sym whole)
        (rw (strip_suffix-append (r ++ str ".") root, under_root)
          (ground (arith, ends_with-append r (str "."))))
]

-- What one prepared scope entry grants: the domain that it names, or, if it is `*.root`, `root` and
-- every name whose last labels are those of `root`.
abbrev pub Grants : Str → Str → Type 0
Grants s d =
    (s ≡ d)
    ⊎ ((root : Str) × (s ≡ str "*." ++ root)
        × ((above : List Str) × (labels d ≡ above ++ labels root)))

covers-Grants :
    (s d : Str)
    → ((str_eq s d || wildcard_covers d (strip_prefix s (str "*."))) ≡ true) ↔ Grants s d
covers-Grants s d = (to, from)
  where
    at_root :
        (o : Option Str) → strip_prefix s (str "*.") ≡ o → wildcard_covers d o ≡ true → Grants s d
    at_root none e k = cc
    at_root (some root) e k = inr (
      root,
      strip_prefix_sound s (str "*.") root e,
      (inside_iff-labels d root).0 (under_root-inside d root k),
    )

    to : (str_eq s d || wildcard_covers d (strip_prefix s (str "*."))) ≡ true → Grants s d
    to h = elim (||-eq-true (str_eq s d) (wildcard_covers d (strip_prefix s (str "*."))) h) [
      | inl e ↦ inl ((str_eq_iff s d).0 e)
      | inr e ↦ at_root (strip_prefix s (str "*.")) refl e
    ]

    from : Grants s d → (str_eq s d || wildcard_covers d (strip_prefix s (str "*."))) ≡ true
    from (inl e) = rw ((str_eq_iff s d).1 e)
    from (inr (root, same, above)) =
        let covered = inside-under_root d root ((inside_iff-labels d root).1 above) in
        let found : strip_prefix s (str "*.") ≡ some root =
          ap (λ t. strip_prefix t (str "*.")) same ∙ strip_prefix-append (str "*.") root in
        rw found (ground arith)

module _ ⦃u : Unicode⦄ where
  -- A key may act on a domain exactly if it is global or one of its entries, trimmed and lower-cased,
  -- grants the trimmed and lower-cased domain.
  pub has_domain_access_iff :
      (k : ApiKey) (domain : Str)
      → (has_domain_access k domain ≡ true) ↔ (
          (is_global k ≡ true)
          ⊎ Some (λ entry. Grants (u.lowercase (trim entry)) (u.lowercase (trim domain))) k.scope)
  unfolding has_domain_access scope_covers
  has_domain_access_iff k domain = (to, from)
    where
      d : Str
      d = u.lowercase (trim domain)

      to :
          (is_global k || any (scope_covers d) k.scope) ≡ true
          → (is_global k ≡ true) ⊎ Some (λ entry. Grants (u.lowercase (trim entry)) d) k.scope
      to h = elim (||-eq-true (is_global k) (any (scope_covers d) k.scope) h) [
        | inl e ↦ inl e
        | inr e ↦ inr (
            Some-map _ _ (λ entry q. (covers-Grants (u.lowercase (trim entry)) d).0 q) k.scope
              (any_sound (scope_covers d) k.scope e))
      ]

      from :
          (is_global k ≡ true) ⊎ Some (λ entry. Grants (u.lowercase (trim entry)) d) k.scope
          → (is_global k || any (scope_covers d) k.scope) ≡ true
      from (inl e) = rw e
      from (inr e) =
          let found = any_complete (scope_covers d) k.scope (
            Some-map _ _ (λ entry q. (covers-Grants (u.lowercase (trim entry)) d).1 q) k.scope e) in
          ground arith
