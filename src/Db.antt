-- ===== src/Db.antt =====
-- crates/certo-db: the SQLite database. A table (crates/certo-db/src/schema.rs) is a list of rows in
-- the order of their rowids, and a statement is the list operation that it denotes; a list column
-- (`scope`, `records`, …) is kept as the list that its JSON text encodes. A function of the store
-- takes the database and returns a result with the next database; an error returns none, which is
-- the rollback of the transaction. Failures of SQLite itself are left out, but for constraints.
pub mod Zones
pub mod Txt
pub mod Accounts
pub mod Shape
pub mod Shapes
pub mod Evolves
pub mod Deletion
pub mod Leftovers
pub mod Step
use mathlib.Core.Option
use certo.Prelude.{
  ℕ, suc, ◌+◌, Bool, true, false, not, ◌&&◌, ◌||◌, Option, none, some, List, [], ◌∷◌, ◌++◌, ltb,
  ◌==◌, if◌then◌else◌, Result, ok, err, any, select, reject, find, update_where,
}
use certo.Text.{Str, Unicode, str_eq, trim}
use certo.Core.{User, ApiKey, Zone, ZoneDnssec, ZoneTsigKey}

-- What a `NotFound`, `Conflict` or `Exhausted` names.
pub data What : Type 0 where
  user domain subdomain api_key zone zone_overlap tsig_key acmedns_account : What

-- `constraint` is the `Sqlite` error of a constraint that the code does not map.
pub data DbError : Type 0 where
  not_found : What → DbError
  conflict : What → DbError
  exhausted : What → DbError
  constraint : DbError

pub record DomainRow : Type 0 where
  pub user_id : ℕ
  pub domain : Str
  pub subdomain : Str
  pub allowfrom : List Str

pub record TxtRow : Type 0 where
  pub rowid : ℕ
  pub domain : Str
  pub value : Str
  pub last_update : Option ℕ

pub record ZoneRow : Type 0 where
  pub id : ℕ
  pub user_id : Option ℕ
  pub name : Str
  pub active : Bool
  pub exempt : Bool
  pub verified_at : Option ℕ
  pub last_check : Option ℕ
  pub last_error : Option Str
  pub failed_checks : ℕ
  pub version : ℕ
  pub axfr_allow_from : List Str
  pub created_at : ℕ

pub record RrsetRow : Type 0 where
  pub zone_id : ℕ
  pub name : Str
  pub rtype : Str
  pub ttl : ℕ
  pub records : List Str

pub record DnssecRow : Type 0 where
  pub zone_id : ℕ
  pub key : ZoneDnssec

pub record TsigRow : Type 0 where
  pub zone_id : ℕ
  pub key : ZoneTsigKey

-- `last_user`, `last_key` and `last_zone` are the AUTOINCREMENT counters: an id is never given twice.
pub record Db : Type 0 where
  pub txt : List TxtRow
  pub users : List User
  pub user_domains : List DomainRow
  pub api_keys : List ApiKey
  pub zones : List ZoneRow
  pub zone_rrsets : List RrsetRow
  pub zone_dnssec : List DnssecRow
  pub zone_tsig_keys : List TsigRow
  pub last_user : ℕ
  pub last_key : ℕ
  pub last_zone : ℕ

abbrev pub empty : Db
empty = record {
  txt = [];
  users = [];
  user_domains = [];
  api_keys = [];
  zones = [];
  zone_rrsets = [];
  zone_dnssec = [];
  zone_tsig_keys = [];
  last_user = 0;
  last_key = 0;
  last_zone = 0;
}

-- `WHERE user_id IS ?`
abbrev pub same_user : Option ℕ → Option ℕ → Bool
same_user none none = true
same_user none (some b) = false
same_user (some a) none = false
same_user (some a) (some b) = a == b

abbrev pub is_owned : ZoneRow → Bool
is_owned z = elim z.user_id [ none ↦ false | some _ ↦ true ]

-- `normalize` of store.rs
unfoldable pub normalize : ⦃u : Unicode⦄ → Str → Str
normalize ⦃u⦄ given = u.lowercase (trim given)

abbrev pub or_not_found {ℓ} : {A : Type ℓ} → What → Option A → Result DbError A
or_not_found w none = err (not_found w)
or_not_found w (some a) = ok a

owner_of : Db → Option ℕ → Option Str
owner_of db none = none
owner_of db (some uid) = Option.map (λ u. u.username) (find (λ u. u.id == uid) db.users)

-- One row of `ZONE_SELECT`, read by `zone_row`: the owner's name is joined from the users.
unfoldable pub zone_row : Db → ZoneRow → Zone
unfolding owner_of
zone_row db z = record {
  id = z.id;
  user_id = z.user_id;
  owner = owner_of db z.user_id;
  name = z.name;
  active = z.active;
  exempt = z.exempt;
  verified_at = z.verified_at;
  last_check = z.last_check;
  last_error = z.last_error;
  failed_checks = z.failed_checks;
  version = z.version;
  axfr_allow_from = z.axfr_allow_from;
  created_at = z.created_at;
}
