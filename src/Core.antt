-- ===== src/Core.antt =====
-- crates/certo-core/src/types.rs: accounts, API keys and their scopes, challenge names, zone rows.
-- Row ids and Unix times are natural numbers.
pub mod Scope
pub mod Challenge
pub mod Ids
pub mod Config
use certo.Prelude.{
  ℕ, Bool, true, false, not, ◌&&◌, ◌||◌, Option, none, some, List, [], ◌∷◌, ◌++◌, if◌then◌else◌,
  any, is_some, is_empty, ◌==◌,
}
use certo.Text.{Str, Unicode, str, str_eq, strip_prefix, strip_suffix, ends_with, strip_dot, trim}

pub record User : Type 0 where
  pub id : ℕ
  pub username : Str
  pub password_hash : Str
  pub created_at : ℕ

pub record UserDomain : Type 0 where
  pub domain : Str
  pub subdomain : Str
  pub owner : Option Str

pub record ApiKey : Type 0 where
  pub id : ℕ
  pub user_id : ℕ
  pub name : Str
  pub key : Str
  pub scope : List Str
  pub created_at : ℕ

pub record TxtRecord : Type 0 where
  pub domain : Str
  pub value : Str
  pub last_update : ℕ

pub record Zone : Type 0 where
  pub id : ℕ
  pub user_id : Option ℕ
  pub owner : Option Str
  pub name : Str
  pub active : Bool
  pub exempt : Bool
  pub verified_at : Option ℕ
  pub last_check : Option ℕ
  pub last_error : Option Str
  pub failed_checks : ℕ
  pub version : ℕ
  pub axfr_allow_from : List Str
  pub created_at : ℕ

pub record ZoneRrSet : Type 0 where
  pub name : Str
  pub rtype : Str
  pub ttl : ℕ
  pub records : List Str

pub record ZoneDnssec : Type 0 where
  pub nsec3 : Bool
  pub algorithm : Str
  pub private_key : Str

pub record ZoneTsigKey : Type 0 where
  pub name : Str
  pub algorithm : Str
  pub secret : Str

unfoldable pub is_system : Zone → Bool
is_system z = not (is_some z.user_id)

abbrev pub acmedns_txt_length : ℕ
acmedns_txt_length = 43

abbrev pub max_txt_value_length : ℕ
max_txt_value_length = 255

unfoldable pub is_global : ApiKey → Bool
is_global k = any (λ s. str_eq s (str "*")) k.scope

-- `<subdomain>.<base domain>`; the base is trimmed and loses one trailing dot.
unfoldable pub internal_domain : Str → Str → Str
internal_domain subdomain base_domain = subdomain ++ (b'.' ∷ strip_dot (trim base_domain))

abbrev or_else {ℓ} : {A : Type ℓ} → A → Option A → A
or_else d none = d
or_else d (some a) = a

-- Whether the domain is the root or ends in `.root`, in the way that the code tests it.
unfoldable pub under_root : Str → Str → Bool
under_root domain root =
    str_eq domain root
    || elim (strip_suffix domain root) [ none ↦ false | some rest ↦ ends_with rest (str ".") ]

abbrev pub wildcard_covers : Str → Option Str → Bool
wildcard_covers domain none = false
wildcard_covers domain (some root) = under_root domain root

module _ ⦃u : Unicode⦄ where
  -- The closure of `has_domain_access`, for the prepared domain.
  unfoldable pub scope_covers : Str → Str → Bool
  scope_covers domain entry =
      let s = u.lowercase (trim entry) in
      str_eq s domain || wildcard_covers domain (strip_prefix s (str "*."))

  unfoldable pub has_domain_access : ApiKey → Str → Bool
  has_domain_access k domain = is_global k || any (scope_covers (u.lowercase (trim domain))) k.scope

  unfoldable pub sanitize_fqdn : Str → Str
  sanitize_fqdn fqdn = strip_dot (u.lowercase (trim fqdn))

  unfoldable pub extract_domain_from_fqdn : Str → Str
  extract_domain_from_fqdn fqdn =
      let f = sanitize_fqdn fqdn in or_else f (strip_prefix f (str "_acme-challenge."))

  unfoldable pub extract_subdomain_from_fqdn : Str → Str → Option Str
  extract_subdomain_from_fqdn fqdn base_domain =
      elim (strip_suffix (sanitize_fqdn fqdn) (b'.' ∷ sanitize_fqdn base_domain)) [
        | none ↦ none
        | some sub ↦ if not (is_empty sub) && not (any (λ c. c == b'.') sub) then some sub else none
      ]
