-- ===== src/Api/Auth.antt =====
-- crates/certo-api/src/auth.rs: who sends a request, and what the key may act on.
pub mod Sessions
use certo.Prelude.{
  ℕ, zero, suc, Bool, true, false, not, ◌+◌, ◌&&◌, ◌||◌, ◌==◌, Option, none, some, List, [], ◌∷◌,
  Result, ok, err, if◌then◌else◌, is_empty, ltb, length, take,
}
use certo.Text.{Str, Unicode, str, str_eq, split_once, strip_prefix, to_ascii_lowercase}
use certo.Core.{User, ApiKey, has_domain_access, is_global}
use certo.Db.{Db, DbError}
use certo.Db.Accounts.{user_by_username, user_by_id, api_key_by_value}
use certo.Api.{ApiError, new_error, forbidden, unauthorized, challenge, internal, AppState}

abbrev pub drop : ℕ → Str → Str
drop n [] = []
drop zero (c ∷ s) = c ∷ s
drop (suc n) (c ∷ s) = drop n s

abbrev pub to_option : {A : Type 0} → Result DbError A → Option A
to_option (ok a) = some a
to_option (err e) = none

abbrev split_credentials : Option Str → Option (Str × Str)
split_credentials none = none
split_credentials (some decoded) = split_once b':' decoded

-- The header is visible ASCII, so bytes are characters.
unfoldable pub basic_credentials : (Str → Option Str) → Option Str → Option (Str × Str)
basic_credentials decode none = none
basic_credentials decode (some value) =
    if ltb (length value) 6 || not (str_eq (to_ascii_lowercase (take 6 value)) (str "basic "))
    then none
    else split_credentials (decode (drop 6 value))

abbrev matching : Option User → Option ApiKey → Option (User × ApiKey)
matching none key = none
matching (some user) none = none
matching (some user) (some key) = if key.user_id == user.id then some (user, key) else none

unfoldable pub user_key : Db → Str → Str → Option (User × ApiKey)
user_key db username secret =
    if is_empty username || is_empty secret
    then none
    else matching (to_option (user_by_username db username))
        (to_option (api_key_by_value db secret))

pub record Bearer : Type 0 where
  pub user : User
  pub key : Option ApiKey

module _ ⦃u : Unicode⦄ where
  unfoldable pub may_access : Bearer → Str → Bool
  may_access bearer domain = elim bearer.key [ none ↦ true | some k ↦ has_domain_access k domain ]

abbrev pub with_key : Db → Option ApiKey → Result ApiError Bearer
with_key db none = err unauthorized
with_key db (some key) = elim (user_by_id db key.user_id) [
  | ok user ↦ ok (record { user = user; key = some key })
  | err e ↦ err unauthorized
]

abbrev pub session_user : Db → Option ℕ → Option User
session_user db none = none
session_user db (some uid) = to_option (user_by_id db uid)

abbrev pub token_ttl : ℕ
token_ttl = 259200

abbrev pub signed : Option Str → Result ApiError Str
signed none = err (internal (str "token_error"))
signed (some token) = ok token

-- `iat` is the time of the call.
unfoldable pub issue_token : {S : Type 0} → AppState S → ℕ → User → Result ApiError Str
issue_token state iat user = signed (
    state.encode_token
      (record { uid = user.id; usr = user.username; exp = iat + token_ttl; iat = iat }))

-- The signature and the expiry are checked by the decoder, at the time of the call.
unfoldable pub verify_token : {S : Type 0} → AppState S → ℕ → Str → Option ℕ
verify_token state now token = elim (state.decode_token now token) [
  | none ↦ none
  | some claims ↦ some claims.uid
]

unfoldable pub bearer_of_token : {S : Type 0} → AppState S → ℕ → Db → Str → Result ApiError Bearer
bearer_of_token state now db token = elim (session_user db (verify_token state now token)) [
  | some user ↦ ok (record { user = user; key = none })
  | none ↦ with_key db (to_option (api_key_by_value db token))
]

-- `Bearer::from_request_parts`, from the Authorization header.
unfoldable pub bearer : {S : Type 0} → AppState S → ℕ → Db → Option Str → Result ApiError Bearer
bearer state now db none = err unauthorized
bearer state now db (some header) = elim (strip_prefix header (str "Bearer ")) [
  | none ↦ err unauthorized
  | some token ↦ bearer_of_token state now db token
]

abbrev global_only : Bearer → Result ApiError Bearer
global_only b = elim b.key [
  | none ↦ ok b
  | some k ↦ if is_global k then ok b else err (forbidden (str "global_key_required"))
]

-- `GlobalBearer::from_request_parts`
unfoldable pub global_bearer :
    {S : Type 0} → AppState S → ℕ → Db → Option Str → Result ApiError Bearer
global_bearer state now db header = elim (bearer state now db header) [
  | err e ↦ err e
  | ok b ↦ global_only b
]

-- `HttpreqAuth`, `StorageAuth`: Basic credentials that are a user and one of the user's keys.
unfoldable pub basic_auth :
    {S : Type 0} → AppState S → Db → Str → Option Str → Result ApiError (User × ApiKey)
basic_auth state db realm header = elim (basic_credentials state.decode header) [
  | none ↦ err (challenge realm)
  | some c ↦ elim (user_key db c.0 c.1) [ some found ↦ ok found | none ↦ err (challenge realm) ]
]

unfoldable pub check_admin : {S : Type 0} → AppState S → Option Str → Result ApiError (Unit {0})
check_admin state given = elim state.admin_key [
  | none ↦ err (forbidden (str "admin_key_not_configured"))
  | some expected ↦
      if str_eq (elim given [ none ↦ [] | some g ↦ g ]) expected
      then ok tt
      else err (new_error 401 (str "invalid_admin_key"))
]
