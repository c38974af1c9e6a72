-- ===== src/Api/Accounts.antt =====
-- crates/certo-api/src/web.rs: accounts, their domains and keys. A handler answers with what its view shows.
use certo.Prelude.{
  ℕ, not, ◌||◌, Option, none, some, List, [], ◌∷◌, map, select, Result, ok, err, if◌then◌else◌,
  is_empty, ltb, is_some,
}
use certo.Text.{Str, Unicode, str, trim, utf8_len}
use certo.Text.Decimal.{I64, pos, negsuc, parse_i64}
use certo.Core.{User, UserDomain, ApiKey, TxtRecord, internal_domain}
use certo.Db.{Db, DbError, not_found, conflict}
use certo.Db.Txt.{list_txt_records_by_domains}
use certo.Db.Accounts.{
  create_user, set_password_hash, user_by_username, delete_user, add_user_domain,
  remove_user_domain, user_domains_of, create_api_key, list_api_keys, delete_api_key,
}
use certo.Service.{pure, fail, ◌>>=◌, ◌>>◌, require, reads, attempt}
use certo.Service.Seed.{sync_txt}
use certo.Service.Lifecycle.{remove_user_zones}
use certo.Api.{
  wanted, answered, ApiError, new_error, bad_request, forbidden, db_error, internal, AppState,
  Handler, serves, stores, writes,
}
use certo.Api.Auth.{Bearer, to_option, may_access, issue_token}

abbrev pub min_password_len : ℕ
min_password_len = 6

-- `Credentials::validated`
unfoldable pub validated : Str → Str → Result ApiError (Str × Str)
validated username password =
    if is_empty (trim username) || ltb (utf8_len password) min_password_len
    then err (bad_request (str "username required, password min 6 chars"))
    else ok (trim username, password)

abbrev pub username_error : DbError → ApiError
username_error (conflict what) = new_error 409 (str "username_taken")
username_error _ = db_error

abbrev pub user_error : DbError → ApiError
user_error (not_found what) = new_error 404 (str "user_not_found")
user_error _ = db_error

abbrev pub domain_error : DbError → ApiError
domain_error (conflict what) = new_error 409 (str "domain_already_exists")
domain_error _ = db_error

-- A store's update without a result.
abbrev pub no_result : Result DbError Db → Result DbError (Unit {0} × Db)
no_result (ok db) = ok (tt, db)
no_result (err e) = err e

-- `"*"` when the request names no scope.
abbrev pub default_scope : List Str → List Str
default_scope [] = str "*" ∷ []
default_scope (s ∷ scope) = s ∷ scope

-- Row ids are not negative.
abbrev pub delete_key_of : Db → ℕ → I64 → Db
delete_key_of db uid (pos id) = delete_api_key db uid id
delete_key_of db uid (negsuc n) = db

module _ ⦃u : Unicode⦄ {S : Type 0} (state : AppState S) where
  -- The token and the name of a new session.
  unfoldable pub session : ℕ → User → Handler S (Str × Str)
  session now user = do token ← answered (issue_token state now user); pure (token, user.username)

  abbrev pub hashed : Str → Handler S Str
  hashed password = wanted (state.hash_password password) (internal (str "internal_error"))

  -- `key` is the text of the account's first API key.
  unfoldable pub register : ℕ → Str → Str → Str → Handler S (Str × Str)
  register now key username password = do
    require state.allow_registration (forbidden (str "registration_disabled"))
    creds ← answered (validated username password)
    hash ← hashed creds.1
    user ← stores username_error (λ db. create_user db now key creds.0 hash)
    session now user

  abbrev pub known_user : ℕ → Str → Option User → Handler S (Str × Str)
  known_user now password none = fail (new_error 401 (str "invalid_credentials"))
  known_user now password (some user) = do
    require (state.verify_password password user.password_hash)
        (new_error 401 (str "invalid_credentials"))
    session now user

  -- The test against a dummy hash that an unknown user costs is left out.
  unfoldable pub login : ℕ → Str → Str → Handler S (Str × Str)
  login now username password = do
    user ← reads (λ db. to_option (user_by_username db (trim username)))
    known_user now password user

  unfoldable pub set_password : ℕ → Str → Handler S (Unit {0})
  set_password user_id password = do
    require (not (ltb (utf8_len password) min_password_len)) (bad_request (str "invalid_password"))
    hash ← hashed password
    stores user_error (λ db. no_result (set_password_hash db user_id hash))

  unfoldable pub change_password : Bearer → Str → Str → Handler S (Unit {0})
  change_password auth current new = do
    require (not (is_some auth.key)) (forbidden (str "session_required"))
    require (state.verify_password current auth.user.password_hash)
        (new_error 401 (str "invalid_credentials"))
    set_password auth.user.id new

  -- A failure is logged only.
  unfoldable pub pushes_txt : Str → Handler S (Unit {0})
  pushes_txt name = do _ ← attempt (serves (sync_txt state.zones name)); pure tt

  unfoldable pub push_each : List Str → Handler S (Unit {0})
  push_each [] = pure tt
  push_each (name ∷ names) = do pushes_txt name; push_each names

  -- `delete_user_for`, and `delete_account` for the caller's own id.
  unfoldable pub delete_user_for : ℕ → Handler S (Unit {0})
  delete_user_for user_id = do
    serves (remove_user_zones state.zones user_id)
    names ← writes (λ db. delete_user db user_id state.base_domain)
    push_each names

module _ ⦃u : Unicode⦄ {S : Type 0} (state : AppState S) where
  unfoldable pub list_domains : Bearer → Handler S (List UserDomain)
  list_domains auth =
      reads (λ db. select (λ d. may_access auth d.domain) (user_domains_of db auth.user.id))

  unfoldable pub add_domain_for : ℕ → Str → Str → Handler S UserDomain
  add_domain_for user_id username domain =
      stores domain_error (λ db. add_user_domain state.sha256 db user_id username domain)

  unfoldable pub add_domain : Bearer → Str → Handler S UserDomain
  add_domain auth given = do
    let domain = u.lowercase (trim given)
    require (not (is_empty domain)) (bad_request (str "domain_required"))
    require (may_access auth domain) (forbidden (str "domain_not_in_scope"))
    add_domain_for auth.user.id auth.user.username domain

  abbrev pub removed_name : Option Str → Handler S (Unit {0})
  removed_name none = pure tt
  removed_name (some name) = pushes_txt state name

  unfoldable pub remove_domain : Bearer → Str → Handler S (Unit {0})
  remove_domain auth given = do
    let domain = u.lowercase (trim given)
    require (may_access auth domain) (forbidden (str "domain_not_in_scope"))
    removed ← writes (λ db. remove_user_domain db auth.user.id domain state.base_domain)
    removed_name removed

  unfoldable pub list_records : Bearer → Handler S (List TxtRecord)
  list_records auth = do
    domains ← reads (λ db. user_domains_of db auth.user.id)
    let seen = select (λ d. may_access auth d.domain) domains
    let names = map (λ d. internal_domain d.subdomain state.base_domain) seen
    reads (λ db. list_txt_records_by_domains db names)

module _ ⦃u : Unicode⦄ {S : Type 0} (state : AppState S) where
  unfoldable pub list_keys : Bearer → Handler S (List ApiKey)
  list_keys auth = reads (λ db. list_api_keys db auth.user.id)

  -- `key` is the text of the new key.
  unfoldable pub create_key : ℕ → Str → Bearer → Str → List Str → Handler S ApiKey
  create_key now key auth name scope = do
    require (not (is_empty name)) (bad_request (str "name_required"))
    stores (λ _. db_error) (λ db. create_api_key db now key auth.user.id name (default_scope scope))

  unfoldable pub delete_key : Bearer → Str → Handler S (Unit {0})
  delete_key auth given = do
    id ← wanted (parse_i64 given) (bad_request (str "invalid_id"))
    writes (λ db. (tt, delete_key_of db auth.user.id id))
