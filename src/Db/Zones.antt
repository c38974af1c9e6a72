-- ===== src/Db/Zones.antt =====
-- crates/certo-db/src/zones.rs: zone ownership, activation and the zone data that PowerDNS is rebuilt
-- from. `time` is the result of `now()`.
pub mod Found
pub mod Versions
pub mod Tracking
pub mod Lifecycle
pub mod Rrsets
use certo.Prelude.{
  ℕ, suc, ◌+◌, Bool, true, false, not, ◌&&◌, ◌||◌, Option, none, some, List, [], ◌∷◌, ◌++◌, map,
  ltb, leb, ◌==◌, if◌then◌else◌, is_some, is_empty, Result, ok, err, ◌>>=◌, ◌>>◌, guard, any,
  select, reject, find, update_where, order_by,
}
use certo.Text.{Str, Unicode, str_eq, str_leb, ends_with}
use certo.Core.{Zone, ZoneRrSet, ZoneDnssec, ZoneTsigKey}
use certo.Db.{
  What, DbError, zone, zone_overlap, tsig_key, not_found, conflict, constraint, ZoneRow, RrsetRow,
  DnssecRow, TsigRow, Db, same_user, is_owned, normalize, or_not_found, zone_row,
}

abbrev pub has_id : ℕ → ZoneRow → Bool
has_id id z = z.id == id

-- The closure of `check_overlap`.
unfoldable pub below : Str → Str → Bool
below child parent = ends_with child (b'.' ∷ parent)

unfoldable pub overlaps : Option ℕ → Str → ZoneRow → Bool
overlaps user_id name z =
    is_owned z && not (same_user z.user_id user_id) && (below name z.name || below z.name name)

unfoldable pub check_overlap : Db → Option ℕ → Str → Result DbError (Unit {0})
unfolding overlaps below
check_overlap db user_id name =
    guard (not (any (overlaps user_id name) db.zones)) (conflict zone_overlap)

unfoldable pub delete_zone_data : Db → ℕ → Db
delete_zone_data db id = record db {
  zone_rrsets = reject (λ r. r.zone_id == id) db.zone_rrsets;
  zone_dnssec = reject (λ r. r.zone_id == id) db.zone_dnssec;
  zone_tsig_keys = reject (λ r. r.zone_id == id) db.zone_tsig_keys;
}

unfoldable pub delete_each : Db → List ZoneRow → Db
delete_each db [] = db
delete_each db (z ∷ zs) = delete_each (delete_zone_data db z.id) zs

unfoldable pub delete_user_zones : Db → ℕ → Db
unfolding delete_each
delete_user_zones db user_id =
    let owned = λ (z : ZoneRow). same_user z.user_id (some user_id) in
    let db1 = delete_each db (select owned db.zones) in
    record db1 { zones = reject owned db1.zones }

abbrev pub bumped : ZoneRow → ZoneRow
bumped z = record z { version = z.version + 1 }

unfoldable pub bump_base_zone : Db → Db
bump_base_zone db = record db { zones = update_where (λ z. not (is_owned z)) bumped db.zones }

unfoldable pub zone_by_id : Db → ℕ → Result DbError Zone
zone_by_id db id = do z ← or_not_found zone (find (has_id id) db.zones); ok (zone_row db z)

-- `bump`; the new version comes with the database.
unfoldable pub bump : Db → ℕ → Result DbError (ℕ × Db)
bump db id = do
  guard (any (has_id id) db.zones) (not_found zone)
  let db1 = record db { zones = update_where (has_id id) bumped db.zones }
  z ← or_not_found zone (find (has_id id) db1.zones)
  ok (z.version, db1)

abbrev pub is_rrset : ℕ → ZoneRrSet → RrsetRow → Bool
is_rrset id rr r = r.zone_id == id && (str_eq r.name rr.name && str_eq r.rtype rr.rtype)

abbrev pub rrset_row : ℕ → ZoneRrSet → RrsetRow
rrset_row id rr = record {
  zone_id = id;
  name = rr.name;
  rtype = rr.rtype;
  ttl = rr.ttl;
  records = rr.records;
}

unfoldable pub insert_rrsets : List RrsetRow → ℕ → List ZoneRrSet → List RrsetRow
insert_rrsets rows id [] = rows
insert_rrsets rows id (rr ∷ rrs) =
    let kept = reject (is_rrset id rr) rows in
    insert_rrsets (if is_empty rr.records then kept else kept ++ (rrset_row id rr ∷ [])) id rrs

abbrev pub new_zone : ℕ → Option ℕ → Str → ℕ → ZoneRow
new_zone id user_id name time = record {
  id = id;
  user_id = user_id;
  name = name;
  active = false;
  exempt = false;
  verified_at = none;
  last_check = none;
  last_error = none;
  failed_checks = 0;
  version = 1;
  axfr_allow_from = [];
  created_at = time;
}

-- The foreign key of `zones.user_id`.
abbrev pub user_exists : Db → Option ℕ → Bool
user_exists db none = true
user_exists db (some uid) = any (λ u. u.id == uid) db.users

unfoldable pub create_zone : ⦃u : Unicode⦄ → Db → ℕ → Option ℕ → Str → Result DbError (Zone × Db)
create_zone db time user_id given = do
  let name = normalize given
  guard (not (any (λ z. str_eq z.name name) db.zones)) (conflict zone)
  check_overlap db user_id name
  guard (user_exists db user_id) constraint
  let id = db.last_zone + 1
  let db1 = record db { zones = db.zones ++ (new_zone id user_id name time ∷ []); last_zone = id }
  z ← zone_by_id db1 id
  ok (z, db1)

unfoldable pub zone_by_name : ⦃u : Unicode⦄ → Db → Str → Result DbError Zone
zone_by_name db given = do
  z ← or_not_found zone (find (λ z. str_eq z.name (normalize given)) db.zones)
  ok (zone_row db z)

abbrev by_name : ZoneRow → ZoneRow → Bool
by_name a b = str_leb a.name b.name

abbrev pub wanted_by : Option ℕ → ZoneRow → Bool
wanted_by none z = true
wanted_by (some uid) z = same_user z.user_id (some uid)

-- `Db::zones`
unfoldable pub list_zones : Db → Option ℕ → List Zone
list_zones db user_id = map (zone_row db) (order_by by_name (select (wanted_by user_id) db.zones))

unfoldable pub delete_zone : Db → ℕ → Result DbError Db
delete_zone db id = do
  let db1 = delete_zone_data db id
  guard (any (has_id id) db1.zones) (not_found zone)
  ok (record db1 { zones = reject (has_id id) db1.zones })

abbrev pub activated : ℕ → Bool → ZoneRow → ZoneRow
activated time exempt z = record z {
  active = true;
  exempt = exempt;
  verified_at = some time;
  last_check = some time;
  last_error = none;
  failed_checks = 0;
}

abbrev pub update_zone : Db → ℕ → (ZoneRow → ZoneRow) → Db
update_zone db id f = record db { zones = update_where (has_id id) f db.zones }

-- The bump of `activate_zone`, for a zone that was inactive.
abbrev pub bump_unless : Bool → Db → ℕ → Result DbError Db
bump_unless true db id = ok db
bump_unless false db id = do r ← bump db id; ok r.1

unfoldable pub activate_zone : Db → ℕ → ℕ → Bool → Result DbError (Zone × Db)
activate_zone db time id exempt = do
  before ← zone_by_id db id
  db1 ← bump_unless before.active (update_zone db id (activated time exempt)) id
  z ← zone_by_id db1 id
  ok (z, db1)

abbrev pub check_failed : ℕ → Str → ZoneRow → ZoneRow
check_failed time error z = record z {
  last_check = some time;
  last_error = some error;
  failed_checks = z.failed_checks + 1;
}

unfoldable pub record_zone_check_failure : Db → ℕ → ℕ → Str → Result DbError (Zone × Db)
record_zone_check_failure db time id error = do
  guard (any (has_id id) db.zones) (not_found zone)
  let db1 = update_zone db id (check_failed time error)
  z ← zone_by_id db1 id
  ok (z, db1)

abbrev pub deactivated : ZoneRow → ZoneRow
deactivated z = record z { active = false; exempt = false }

unfoldable pub deactivate_zone : Db → ℕ → Result DbError (Zone × Db)
deactivate_zone db id = do
  r ← bump (update_zone db id deactivated) id
  z ← zone_by_id r.1 id
  ok (z, r.1)

abbrev pub unexempted : ZoneRow → ZoneRow
unexempted z = record z { exempt = false; failed_checks = 0 }

unfoldable pub clear_zone_exemption : Db → ℕ → Result DbError (Zone × Db)
clear_zone_exemption db id = do
  guard (any (has_id id) db.zones) (not_found zone)
  let db1 = update_zone db id unexempted
  z ← zone_by_id db1 id
  ok (z, db1)

abbrev sum_versions : List ZoneRow → ℕ
sum_versions [] = 0
sum_versions (z ∷ zs) = z.version + sum_versions zs

unfoldable pub dns_version : Db → ℕ
dns_version db = sum_versions (select (λ z. z.active) db.zones)

abbrev rrset_le : RrsetRow → RrsetRow → Bool
rrset_le a b = if str_eq a.name b.name then str_leb a.rtype b.rtype else str_leb a.name b.name

abbrev pub stored_rrset : RrsetRow → ZoneRrSet
stored_rrset r = record { name = r.name; rtype = r.rtype; ttl = r.ttl; records = r.records }

-- `Db::zone_rrsets`
unfoldable pub rrsets_of : Db → ℕ → List ZoneRrSet
rrsets_of db id =
    map stored_rrset (order_by rrset_le (select (λ r. r.zone_id == id) db.zone_rrsets))

unfoldable pub apply_zone_rrsets : Db → ℕ → List ZoneRrSet → Result DbError (ℕ × Db)
apply_zone_rrsets db id rrsets = do
  r ← bump db id
  ok (r.0, record r.1 { zone_rrsets = insert_rrsets r.1.zone_rrsets id rrsets })

unfoldable pub replace_zone_rrsets : Db → ℕ → List ZoneRrSet → Result DbError (ℕ × Db)
replace_zone_rrsets db id rrsets = do
  r ← bump db id
  let kept = reject (λ x. x.zone_id == id) r.1.zone_rrsets
  ok (r.0, record r.1 { zone_rrsets = insert_rrsets kept id rrsets })

-- `Db::zone_dnssec`
unfoldable pub dnssec_of : Db → ℕ → Option ZoneDnssec
dnssec_of db id = elim (find (λ r. r.zone_id == id) db.zone_dnssec) [
  | none ↦ none
  | some r ↦ some r.key
]

abbrev pub key_rows : ℕ → Option ZoneDnssec → List DnssecRow
key_rows id none = []
key_rows id (some k) = record { zone_id = id; key = k } ∷ []

unfoldable pub set_zone_dnssec : Db → ℕ → Option ZoneDnssec → Result DbError (ℕ × Db)
set_zone_dnssec db id key = do
  r ← bump db id
  let kept = reject (λ x. x.zone_id == id) r.1.zone_dnssec
  ok (r.0, record r.1 { zone_dnssec = kept ++ key_rows id key })

abbrev tsig_le : TsigRow → TsigRow → Bool
tsig_le a b = str_leb a.key.name b.key.name

-- `Db::zone_tsig_keys`
unfoldable pub tsig_keys_of : Db → ℕ → List ZoneTsigKey
tsig_keys_of db id =
    map (λ r. r.key) (order_by tsig_le (select (λ r. r.zone_id == id) db.zone_tsig_keys))

abbrev pub is_tsig : ℕ → Str → TsigRow → Bool
is_tsig id name r = r.zone_id == id && str_eq r.key.name name

unfoldable pub add_zone_tsig_key : Db → ℕ → ZoneTsigKey → Result DbError (ℕ × Db)
add_zone_tsig_key db id key = do
  r ← bump db id
  guard (not (any (is_tsig id key.name) r.1.zone_tsig_keys)) (conflict tsig_key)
  ok (
    r.0,
    record r.1 { zone_tsig_keys = r.1.zone_tsig_keys ++ (record { zone_id = id; key = key } ∷ []) },
  )

unfoldable pub delete_zone_tsig_key : Db → ℕ → Str → Result DbError (ℕ × Db)
delete_zone_tsig_key db id name = do
  guard (any (is_tsig id name) db.zone_tsig_keys) (not_found tsig_key)
  bump (record db { zone_tsig_keys = reject (is_tsig id name) db.zone_tsig_keys }) id

abbrev pub allowing : List Str → ZoneRow → ZoneRow
allowing allow_from z = record z { axfr_allow_from = allow_from }

unfoldable pub set_zone_axfr_allow_from : Db → ℕ → List Str → Result DbError (ℕ × Db)
set_zone_axfr_allow_from db id allow_from = do
  r ← bump db id
  ok (r.0, update_zone r.1 id (allowing allow_from))
