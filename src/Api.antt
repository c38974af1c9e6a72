-- ===== src/Api.antt =====
-- crates/certo-api/src: the HTTP handlers, over the database and the zone service. A handler takes what
-- its extractors have read of the request and answers with a value or an `ApiError`; messages, logging
-- and the shape of JSON bodies are left out. Tokens, passwords and addresses are read by other packages.
pub mod Auth
pub mod Challenges
pub mod Accounts
pub mod Hosting
pub mod Runs
use certo.Prelude.{ℕ, Bool, true, false, Option, none, some, List, Result, ok, err}
use certo.Text.{Str, str}
use certo.Names.{
  Code, invalid_name, name_outside_zone, empty_change, unsupported_type, invalid_ttl, invalid_data,
  cname_at_apex, ptr_outside_reverse_zone, invalid_nsec_mode, invalid_algorithm, tsig_key_exists,
  invalid_cidr, pdns_rejected,
}
use certo.Db.{What, Db, DbError}
use certo.Service.{
  Zones, World, ZoneOpError, invalid, not_allowed, exists, missing, not_active, rate_limited, check,
  of_db, of_pdns, Op, Action, pure, fail,
}

-- crates/certo-api/src/error.rs
pub record ApiError : Type 0 where
  pub status : ℕ
  pub code : Str
  pub realm : Option Str

-- `ApiError::new`
abbrev pub new_error : ℕ → Str → ApiError
new_error status code = record { status = status; code = code; realm = none }

abbrev pub bad_request : Str → ApiError
bad_request code = new_error 400 code

abbrev pub forbidden : Str → ApiError
forbidden code = new_error 403 code

abbrev pub unauthorized : ApiError
unauthorized = new_error 401 (str "unauthorized")

-- `ApiError::basic`
abbrev pub challenge : Str → ApiError
challenge realm = record { status = 401; code = str "unauthorized"; realm = some realm }

abbrev pub internal : Str → ApiError
internal code = new_error 500 code

-- `ApiError::db`
abbrev pub db_error : ApiError
db_error = internal (str "db_error")

-- The text of a code.
abbrev pub code_text : Code → Str
code_text invalid_name = str "invalid_name"
code_text name_outside_zone = str "name_outside_zone"
code_text empty_change = str "empty_change"
code_text unsupported_type = str "unsupported_type"
code_text invalid_ttl = str "invalid_ttl"
code_text invalid_data = str "invalid_data"
code_text cname_at_apex = str "cname_at_apex"
code_text ptr_outside_reverse_zone = str "ptr_outside_reverse_zone"
code_text invalid_nsec_mode = str "invalid_nsec_mode"
code_text invalid_algorithm = str "invalid_algorithm"
code_text tsig_key_exists = str "tsig_key_exists"
code_text invalid_cidr = str "invalid_cidr"
code_text pdns_rejected = str "pdns_rejected"

abbrev missing_error : What → ApiError
missing_error What.tsig_key = new_error 404 (str "tsig_key_not_found")
missing_error _ = new_error 404 (str "zone_not_found")

-- crates/certo-api/src/zones.rs, `From<ZoneOpError>`
unfoldable pub from_zone : ZoneOpError → ApiError
from_zone (invalid code) = bad_request (code_text code)
from_zone (not_allowed why) = forbidden (str "zone_not_allowed")
from_zone exists = new_error 409 (str "zone_already_exists")
from_zone (missing what) = missing_error what
from_zone not_active = new_error 409 (str "zone_not_active")
from_zone rate_limited = new_error 429 (str "check_rate_limited")
from_zone (check why) = new_error 503 (str "check_failed")
from_zone (of_db e) = internal (str "zone_error")
from_zone (of_pdns e) = internal (str "zone_error")

-- crates/certo-api/src/state.rs, and what other packages do for the handlers: JSON web tokens, bcrypt,
-- SHA-256, Base64 with UTF-8, and the reading of addresses and networks.
pub record Claims : Type 0 where
  pub uid : ℕ
  pub usr : Str
  pub exp : ℕ
  pub iat : ℕ

pub record AppState (S : Type 0) : Type 0 where
  pub zones : Zones S
  pub base_domain : Str
  pub allow_registration : Bool
  pub admin_key : Option Str
  pub encode_token : Claims → Option Str
  pub decode_token : ℕ → Str → Option Claims
  pub verify_password : Str → Str → Bool
  pub hash_password : Str → Option Str
  pub sha256 : Str → List ℕ
  pub decode : Str → Option Str
  pub is_ip : Str → Bool
  pub net_contains : Str → Str → Bool

abbrev pub Handler : Type 0 → Type 0 → Type 0
Handler S A = Action ApiError S A

abbrev pub or_error : {E A : Type 0} → (E → ApiError) → Result E A → Result ApiError A
or_error f (ok a) = ok a
or_error f (err e) = err (f e)

-- An operation of the zone service.
unfoldable pub serves : {S A : Type 0} → Op S A → Handler S A
serves m w = (or_error from_zone (m w).0, (m w).1)

abbrev pub stored :
    {S A : Type 0}
    → (DbError → ApiError)
    → World S
    → Result DbError (A × Db)
    → Result ApiError A × World S
stored f w (ok (a, db)) = (ok a, record w { db = db })
stored f w (err e) = (err (f e), w)

-- A transaction of the store, with a reading of its errors.
unfoldable pub stores :
    {S A : Type 0} → (DbError → ApiError) → (Db → Result DbError (A × Db)) → Handler S A
stores f action w = stored f w (action w.db)

-- A transaction that cannot fail.
unfoldable pub writes : {S A : Type 0} → (Db → A × Db) → Handler S A
writes action w = (ok (action w.db).0, record w { db = (action w.db).1 })

-- `ok_or` and `?`.
abbrev pub wanted : {S A : Type 0} → Option A → ApiError → Handler S A
wanted none e = fail e
wanted (some a) e = pure a

abbrev pub answered : {S A : Type 0} → Result ApiError A → Handler S A
answered (ok a) = pure a
answered (err e) = fail e
