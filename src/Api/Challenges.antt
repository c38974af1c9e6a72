-- ===== src/Api/Challenges.antt =====
-- crates/certo-api/src/httpreq.rs and acmedns.rs: setting and clearing challenge values.
pub mod Updates
pub mod Presenting
use certo.Prelude.{
  ℕ, Bool, true, false, not, ◌&&◌, ◌||◌, ◌==◌, Option, none, some, List, [], ◌∷◌, map, select,
  Result, ok, err, if◌then◌else◌, is_empty, ltb, any, is_some,
}
use certo.Text.{Str, Unicode, str, trim, utf8_len, strip_dot, strip_prefix}
use certo.Core.{
  User, UserDomain, ApiKey, has_domain_access, internal_domain, extract_domain_from_fqdn,
  extract_subdomain_from_fqdn, acmedns_txt_length, max_txt_value_length,
}
use certo.Db.{Db, DbError, normalize}
use certo.Db.Txt.{present_txt, cleanup_txt, update_acmedns_txt}
use certo.Db.Accounts.{
  Draw, create_acmedns_account, add_user_domain, subdomain_by_user_domain, subdomain_owner,
  user_domain_by_subdomain, user_domains_of,
}
use certo.Service.{World, pure, fail, ◌>>=◌, ◌>>◌, require, reads, attempt}
use certo.Service.Seed.{sync_txt}
use certo.Api.{
  ApiError, new_error, bad_request, forbidden, db_error, AppState, Handler, serves, stores, writes,
  wanted, answered,
}
use certo.Api.Auth.{to_option}

abbrev pub owned_by : ℕ → Option Str → Option ℕ → Option Str
owned_by uid none owner = none
owned_by uid (some sub) none = none
owned_by uid (some sub) (some owner) = if owner == uid then some sub else none

abbrev of_option : {A : Type 0} → ApiError → Option A → Result ApiError A
of_option e none = err e
of_option e (some a) = ok a

abbrev pub subdomain_of : Result ApiError UserDomain → Option Str → Option Str
subdomain_of (ok d) later = some d.subdomain
subdomain_of (err e) later = later

-- Whether the address is in one of the networks; an empty list allows all.
unfoldable pub ip_allowed : {S : Type 0} → AppState S → Str → List Str → Bool
ip_allowed state ip allow_from =
    is_empty allow_from
    || (state.is_ip ip && any (λ net. state.net_contains (trim net) ip) allow_from)

module _ ⦃u : Unicode⦄ where
  abbrev strip_wildcard : Str → Str
  strip_wildcard d = elim (strip_prefix d (str "*.")) [ none ↦ d | some rest ↦ rest ]

  unfoldable pub normalize_domain : Str → Str
  normalize_domain domain = strip_wildcard (strip_dot (u.lowercase (trim domain)))

  abbrev pub allowed_owner :
      ℕ → Result DbError (ℕ × Str × List Str) → Result ApiError (Str × List Str)
  allowed_owner uid (err e) = err (forbidden (str "forbidden"))
  allowed_owner uid (ok (owner, domain, allow_from)) =
      if owner == uid then ok (domain, allow_from) else err (forbidden (str "forbidden"))

module _ ⦃u : Unicode⦄ {S : Type 0} (state : AppState S) where
  unfoldable pub resolve_subdomain : Db → ℕ → Str → Option Str
  resolve_subdomain db uid fqdn =
      let extracted = extract_subdomain_from_fqdn fqdn state.base_domain in
      let owner : Option ℕ = elim extracted [
        | none ↦ none
        | some sub ↦ to_option (subdomain_owner db sub)
      ] in
      elim (owned_by uid extracted owner) [
        | some sub ↦ some sub
        | none ↦ to_option (subdomain_by_user_domain db uid (extract_domain_from_fqdn fqdn))
      ]

  unfoldable pub auto_create : User → Str → Str → Handler S (Option Str)
  auto_create user fqdn domain =
      if is_some (extract_subdomain_from_fqdn fqdn state.base_domain) then pure none else (do
        created ← attempt (
            stores (λ _. db_error)
              (λ db. add_user_domain state.sha256 db user.id user.username domain))
        later ← reads (λ db. to_option (subdomain_by_user_domain db user.id domain))
        pure (subdomain_of created later))

  abbrev pub resolved_or_created : User → Str → Str → Option Str → Handler S (Option Str)
  resolved_or_created user fqdn domain (some sub) = pure (some sub)
  resolved_or_created user fqdn domain none = auto_create user fqdn domain

  abbrev pub checked : Str → Str → Handler S (Unit {0})
  checked fqdn value =
      require (not (is_empty fqdn || is_empty value)) (bad_request (str "missing_fqdn_or_value"))

  unfoldable pub present : ℕ → User → ApiKey → Str → Str → Handler S Str
  present time user key fqdn value = do
    checked fqdn value
    require (not (ltb max_txt_value_length (utf8_len value))) (bad_request (str "value_too_long"))
    require (has_domain_access key (extract_domain_from_fqdn fqdn))
        (forbidden (str "domain_not_in_scope"))
    known ← reads (λ db. resolve_subdomain db user.id fqdn)
    found ← resolved_or_created user fqdn (extract_domain_from_fqdn fqdn) known
    sub ← wanted found (forbidden (str "domain_not_authorized"))
    let name = internal_domain sub state.base_domain
    writes (λ db. (tt, present_txt db time name value))
    serves (sync_txt state.zones name)
    pure name

  unfoldable pub cleanup : User → ApiKey → Str → Str → Handler S (Unit {0})
  cleanup user key fqdn value = do
    checked fqdn value
    require (has_domain_access key (extract_domain_from_fqdn fqdn))
        (forbidden (str "domain_not_in_scope"))
    known ← reads (λ db. resolve_subdomain db user.id fqdn)
    sub ← wanted known (forbidden (str "domain_not_authorized"))
    let name = internal_domain sub state.base_domain
    writes (λ db. (tt, cleanup_txt db name value))
    serves (sync_txt state.zones name)

  -- `POST /update`
  unfoldable pub update : ℕ → User → ApiKey → Str → Str → Str → Handler S (Unit {0})
  update time user key ip given txt = do
    require (utf8_len txt == acmedns_txt_length) (bad_request (str "bad_txt"))
    let sub = u.lowercase (trim given)
    looked ← reads (λ db. allowed_owner user.id (user_domain_by_subdomain db sub))
    found ← answered looked
    require (has_domain_access key found.0) (forbidden (str "domain_not_in_scope"))
    require (ip_allowed state ip found.1) (forbidden (str "ip_not_allowed"))
    let name = internal_domain sub state.base_domain
    writes (λ db. (tt, update_acmedns_txt db time name txt))
    serves (sync_txt state.zones name)

  -- `POST /register`
  unfoldable pub register : ℕ → (ℕ → Draw) → List Str → Handler S Draw
  register time draws allow_from = do
    require state.allow_registration (forbidden (str "registration_disabled"))
    stores (λ _. db_error) (λ db. create_acmedns_account db time draws allow_from)

  abbrev pub provisioned : User → Str → Option Str → Handler S Str
  provisioned user domain (some sub) = pure sub
  provisioned user domain none = do
    d ← stores (λ _. db_error) (λ db. add_user_domain state.sha256 db user.id user.username domain)
    pure d.subdomain

  -- `StorageAuth::subdomain`
  unfoldable pub storage_subdomain : User → ApiKey → Str → Handler S Str
  storage_subdomain user key domain = do
    require (has_domain_access key domain) (forbidden (str "domain_not_in_scope"))
    known ← reads (λ db. to_option (subdomain_by_user_domain db user.id domain))
    provisioned user domain known

  -- `storage_fetch`: the account of the domain, by its subdomain.
  unfoldable pub storage_fetch : User → ApiKey → Str → Handler S Str
  storage_fetch user key given = do
    let domain = normalize_domain given
    require (not (is_empty domain)) (new_error 404 (str "domain_not_found"))
    storage_subdomain user key domain

  unfoldable pub storage_fetch_all : User → ApiKey → Handler S (List UserDomain)
  storage_fetch_all user key =
      reads (λ db. select (λ d. has_domain_access key d.domain) (user_domains_of db user.id))
