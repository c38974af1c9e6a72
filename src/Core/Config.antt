-- ===== src/Core/Config.antt =====
-- crates/certo-core/src/config.rs: `Config::validated`. The fields that it reads or writes are
-- modelled; the others pass through it unchanged.
use certo.Text.Affix.{str_eq_refl, str_eq_iff}
use certo.Names.{inside}
use certo.Names.Inside.{labels, inside_iff-labels}
use certo.Prelude.{
  ℕ, ◌≡◌, refl, ap, sym, subst, Bool, true, false, not, ◌&&◌, Option, none, some, List, [], ◌∷◌,
  ◌++◌, arith, inl, inr, Bool-cases, ◌==◌, is_empty, if◌then◌else◌, Result, ok, err, ok-injective,
}
use certo.Text.{Str, str, str_eq, ends_with, trim_dots, keep_end, lower_ascii, to_ascii_lowercase}

pub data ConfigError : Type 0 where
  bad_engine missing_connection acme_outside : ConfigError

pub record Config : Type 0 where
  pub domain : Str
  pub acme_domain : Str
  pub engine : Str
  pub connection : Str
  pub acme_cache_dir : Str
  pub allow_registration : Option Bool

unfoldable pub registration_allowed : Config → Bool
registration_allowed c = elim c.allow_registration [ none ↦ true | some b ↦ b ]

-- `domain.trim_end_matches('.').to_ascii_lowercase()`
unfoldable pub plain : Str → Str
plain s = to_ascii_lowercase (trim_dots s)

abbrev with_acme_domain : Config → Str → Config
with_acme_domain c acme = record c { acme_domain = acme }

check_acme : Config → Result ConfigError Config
check_acme c =
    let domain = plain c.domain in
    let acme = plain c.acme_domain in
    if is_empty acme
    then ok (with_acme_domain c domain)
    else if not (str_eq acme domain) && not (ends_with acme (b'.' ∷ domain))
    then err acme_outside
    else ok (with_acme_domain c acme)

abbrev default_text : Str → Str → Str
default_text d s = if is_empty s then d else s

unfoldable pub validated : Config → Result ConfigError Config
unfolding check_acme
validated c =
    let engine = default_text (str "sqlite") c.engine in
    if not (str_eq engine (str "sqlite"))
    then err bad_engine
    else if is_empty c.connection
    then err missing_connection
    else check_acme (record c {
      engine = engine;
      acme_cache_dir = default_text (str "data/certs") c.acme_cache_dir;
    })

lower-dot : (c : ℕ) → (lower_ascii c == b'.') ≡ (c == b'.')
unfolding lower_ascii
lower-dot c = ground arith

lower-lower : (c : ℕ) → lower_ascii (lower_ascii c) ≡ lower_ascii c
unfolding lower_ascii
lower-lower c = ground arith

lower_idempotent : (s : Str) → to_ascii_lowercase (to_ascii_lowercase s) ≡ to_ascii_lowercase s
lower_idempotent [] = refl
lower_idempotent (c ∷ s) = rw (lower-lower c, lower_idempotent s)

keep_end-lower :
    (c : ℕ) (s : Str)
    → keep_end (λ x. x == b'.') (lower_ascii c) (to_ascii_lowercase s)
      ≡ to_ascii_lowercase (keep_end (λ x. x == b'.') c s)
keep_end-lower c [] = rw (lower-dot c) (ground arith)
keep_end-lower c (d ∷ s) = refl

trim_dots-lower : (s : Str) → trim_dots (to_ascii_lowercase s) ≡ to_ascii_lowercase (trim_dots s)
unfolding trim_dots
trim_dots-lower [] = refl
trim_dots-lower (c ∷ s) = rw (trim_dots-lower s) (keep_end-lower c (trim_dots s))

keep_end_idempotent :
    (c : ℕ) (s : Str)
    → trim_dots s ≡ s
    → trim_dots (keep_end (λ x. x == b'.') c s) ≡ keep_end (λ x. x == b'.') c s
unfolding trim_dots
keep_end_idempotent c [] h = elim (Bool-cases (c == b'.')) [ inl e ↦ rw e | inr e ↦ rw e (rw e) ]
keep_end_idempotent c (d ∷ s) h = ap (keep_end (λ x. x == b'.') c) h

trim_dots_idempotent : (s : Str) → trim_dots (trim_dots s) ≡ trim_dots s
unfolding trim_dots
trim_dots_idempotent [] = refl
trim_dots_idempotent (c ∷ s) = keep_end_idempotent c (trim_dots s) (trim_dots_idempotent s)

plain_idempotent : (s : Str) → plain (plain s) ≡ plain s
unfolding plain
plain_idempotent s =
    rw (trim_dots-lower (trim_dots s), trim_dots_idempotent s) (lower_idempotent (trim_dots s))

-- The challenge domain that `check_acme` settles on.
record Settled (c : Config) (acme : Str) : Type 0 where
  fixed : plain acme ≡ acme
  contained : inside acme (plain c.domain) ≡ true

check_acme-Settled :
    (c c' : Config)
    → check_acme c ≡ ok c'
    → (acme : Str) × (c' ≡ with_acme_domain c acme) × Settled c acme
unfolding check_acme inside
check_acme-Settled c c' h = elim (Bool-cases (is_empty (plain c.acme_domain))) [
  | inl e ↦ (
    plain c.domain,
    sym (ok-injective (rw e at h)),
    record { fixed = plain_idempotent c.domain; contained = rw (str_eq_refl (plain c.domain)) },
  )
  | inr e ↦ (
    plain c.acme_domain,
    ground arith,
    record { fixed = plain_idempotent c.acme_domain; contained = ground arith },
  )
]

default_text-ne : (d s : Str) → is_empty d ≡ false → is_empty (default_text d s) ≡ false
default_text-ne d [] h = h
default_text-ne d (c ∷ s) h = refl

-- What the two earlier checks of `validated` establish.
prepared : Config → Config
prepared c = record c {
  engine = default_text (str "sqlite") c.engine;
  acme_cache_dir = default_text (str "data/certs") c.acme_cache_dir;
}

two_checks :
    (b1 b2 : Bool) (r : Result ConfigError Config) (c : Config)
    → (if not b1 then err bad_engine else if b2 then err missing_connection else r) ≡ ok c
    → (b1 ≡ true) × (b2 ≡ false) × (r ≡ ok c)
two_checks false b2 r c h = cc
two_checks true true r c h = cc
two_checks true false r c h = (refl, refl, h)

validated-parts :
    (c c' : Config)
    → validated c ≡ ok c'
    → (str_eq (prepared c).engine (str "sqlite") ≡ true)
      × (is_empty c.connection ≡ false)
      × (check_acme (prepared c) ≡ ok c')
unfolding validated prepared
validated-parts c c' h = two_checks _ _ _ c' h

-- If `validated` accepts, the engine is SQLite, there is a connection and a certificate cache, the
-- base domain is as given, and the labels of the challenge domain end in those of the base domain,
-- lower-cased and without trailing dots.
pub validated_sound :
    (c c' : Config)
    → validated c ≡ ok c'
    → (c'.engine ≡ str "sqlite")
      × (is_empty c'.connection ≡ false)
      × (is_empty c'.acme_cache_dir ≡ false)
      × (c'.domain ≡ c.domain)
      × ((above : List Str) × (labels c'.acme_domain ≡ above ++ labels (plain c.domain)))
validated_sound c c' h =
    let (engine, connection, checked) = validated-parts c c' h in
    let (acme, same, settled) = check_acme-Settled (prepared c) c' checked in
    subst
      (λ r.
        (r.engine ≡ str "sqlite")
        × (is_empty r.connection ≡ false)
        × (is_empty r.acme_cache_dir ≡ false)
        × (r.domain ≡ c.domain)
        × ((above : List Str) × (labels r.acme_domain ≡ above ++ labels (plain c.domain))))
      (sym same)
      (unfold prepared in
        (
          (str_eq_iff (prepared c).engine (str "sqlite")).0 engine,
          connection,
          default_text-ne (str "data/certs") c.acme_cache_dir refl,
          refl,
          (inside_iff-labels acme (plain c.domain)).0 settled.contained,
        ))
