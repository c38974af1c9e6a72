-- ===== src/Db/Step.antt =====
-- One call of a mutating function of the store, as a step; and sequences of them. Each call runs in
-- one transaction under the connection's lock, so a history of the database is such a sequence.
pub mod Laws
pub mod History
use certo.Prelude.{ℕ, Bool, ◌≡◌, Option, List, ok}
use certo.Text.{Str, Unicode}
use certo.Core.{User, UserDomain, ApiKey, Zone, ZoneRrSet, ZoneDnssec, ZoneTsigKey}
use certo.Db.{Db}
use certo.Db.Zones.{
  create_zone, delete_zone, activate_zone, record_zone_check_failure, deactivate_zone,
  clear_zone_exemption, apply_zone_rrsets, replace_zone_rrsets, set_zone_dnssec, add_zone_tsig_key,
  delete_zone_tsig_key, set_zone_axfr_allow_from,
}
use certo.Db.Txt.{present_txt, cleanup_txt, update_acmedns_txt, expire_txt}
use certo.Db.Accounts.{
  Draw, create_user, create_acmedns_account, set_password_hash, delete_user, add_user_domain,
  remove_user_domain, create_api_key, delete_api_key, update_api_key_scope,
}

module _ ⦃u : Unicode⦄ (sha256 : Str → List ℕ) where
  pub data Step (db : Db) : Db → Type 0 where
    creates_zone :
        {db' : Db} (time : ℕ) (user_id : Option ℕ) (name : Str) (z : Zone)
        → create_zone db time user_id name ≡ ok (z, db')
        → Step db db'
    deletes_zone : {db' : Db} (id : ℕ) → delete_zone db id ≡ ok db' → Step db db'
    activates_zone :
        {db' : Db} (time id : ℕ) (exempt : Bool) (z : Zone)
        → activate_zone db time id exempt ≡ ok (z, db')
        → Step db db'
    records_failure :
        {db' : Db} (time id : ℕ) (error : Str) (z : Zone)
        → record_zone_check_failure db time id error ≡ ok (z, db')
        → Step db db'
    deactivates_zone :
        {db' : Db} (id : ℕ) (z : Zone) → deactivate_zone db id ≡ ok (z, db') → Step db db'
    clears_exemption :
        {db' : Db} (id : ℕ) (z : Zone) → clear_zone_exemption db id ≡ ok (z, db') → Step db db'
    applies_rrsets :
        {db' : Db} (id : ℕ) (rrs : List ZoneRrSet) (v : ℕ)
        → apply_zone_rrsets db id rrs ≡ ok (v, db')
        → Step db db'
    replaces_rrsets :
        {db' : Db} (id : ℕ) (rrs : List ZoneRrSet) (v : ℕ)
        → replace_zone_rrsets db id rrs ≡ ok (v, db')
        → Step db db'
    sets_dnssec :
        {db' : Db} (id : ℕ) (key : Option ZoneDnssec) (v : ℕ)
        → set_zone_dnssec db id key ≡ ok (v, db')
        → Step db db'
    adds_tsig :
        {db' : Db} (id : ℕ) (key : ZoneTsigKey) (v : ℕ)
        → add_zone_tsig_key db id key ≡ ok (v, db')
        → Step db db'
    deletes_tsig :
        {db' : Db} (id : ℕ) (name : Str) (v : ℕ)
        → delete_zone_tsig_key db id name ≡ ok (v, db')
        → Step db db'
    sets_allow_from :
        {db' : Db} (id : ℕ) (allow_from : List Str) (v : ℕ)
        → set_zone_axfr_allow_from db id allow_from ≡ ok (v, db')
        → Step db db'
    presents_txt :
        {db' : Db} (time : ℕ) (fqdn value : Str)
        → present_txt db time fqdn value ≡ db'
        → Step db db'
    cleans_txt : {db' : Db} (fqdn value : Str) → cleanup_txt db fqdn value ≡ db' → Step db db'
    updates_acmedns :
        {db' : Db} (time : ℕ) (fqdn value : Str)
        → update_acmedns_txt db time fqdn value ≡ db'
        → Step db db'
    expires_txt : {db' : Db} (before : ℕ) → (expire_txt db before).1 ≡ db' → Step db db'
    creates_user :
        {db' : Db} (time : ℕ) (key username hash : Str) (user : User)
        → create_user db time key username hash ≡ ok (user, db')
        → Step db db'
    creates_account :
        {db' : Db} (time : ℕ) (draws : ℕ → Draw) (allow_from : List Str) (d : Draw)
        → create_acmedns_account db time draws allow_from ≡ ok (d, db')
        → Step db db'
    sets_password :
        {db' : Db} (id : ℕ) (hash : Str) → set_password_hash db id hash ≡ ok db' → Step db db'
    deletes_user : {db' : Db} (id : ℕ) (base : Str) → (delete_user db id base).1 ≡ db' → Step db db'
    adds_domain :
        {db' : Db} (uid : ℕ) (username name : Str) (d : UserDomain)
        → add_user_domain sha256 db uid username name ≡ ok (d, db')
        → Step db db'
    removes_domain :
        {db' : Db} (uid : ℕ) (name base : Str)
        → (remove_user_domain db uid name base).1 ≡ db'
        → Step db db'
    creates_key :
        {db' : Db} (time uid : ℕ) (key name : Str) (scope : List Str) (k : ApiKey)
        → create_api_key db time key uid name scope ≡ ok (k, db')
        → Step db db'
    deletes_key : {db' : Db} (uid id : ℕ) → delete_api_key db uid id ≡ db' → Step db db'
    rescopes_key :
        {db' : Db} (id : ℕ) (scope : List Str)
        → update_api_key_scope db id scope ≡ db'
        → Step db db'

  -- A history, the latest step last.
  pub data Run (db : Db) : Db → Type 0 where
    here : Run db db
    next : {mid db' : Db} → Run db mid → Step mid db' → Run db db'
