-- ===== src/Tests/History.antt =====
-- A history of the database: two users register, each creates a zone, the first zone is activated and
-- gets a record, the second is deleted, and the first user creates another.
use certo.Prelude.{ℕ, ◌≡◌, ◌≢◌, refl, arith, true, false, none, some, List, [], ◌∷◌, ◌++◌, ok, find}
use certo.Text.{Str, str}
use certo.Core.{User, ApiKey, ZoneRrSet}
use certo.Names.Inside.{labels}
use certo.Db.{Db, ZoneRow, empty, zone_row}
use certo.Db.Zones.{
  has_id, new_zone, rrset_row, create_zone, activate_zone, apply_zone_rrsets, replace_zone_rrsets,
  is_rrset, delete_zone,
}
use certo.Db.Zones.Rrsets.{outcome, last_change, find-apply_zone_rrsets, find-replace_zone_rrsets}
use certo.Db.Zones.Versions.{Follows}
use certo.Db.Accounts.{create_user}
use certo.Db.Step.{
  Run, here, next, creates_user, creates_zone, activates_zone, applies_rrsets, deletes_zone,
}
use certo.Db.Step.History.{Run-Follows, Run-separate, Run-distinct, Run-no_return}
use certo.Tests.Core.{ascii_only, zero_digest}

abbrev new_user : ℕ → Str → ℕ → User
new_user id username time = record {
  id = id;
  username = username;
  password_hash = str "h";
  created_at = time;
}

abbrev default_key : ℕ → Str → ℕ → ApiKey
default_key id key time = record {
  id = id;
  user_id = id;
  name = str "Default";
  key = key;
  scope = str "*" ∷ [];
  created_at = time;
}

abbrev one_user : Db
one_user = record empty {
  users = new_user 1 (str "bob") 10 ∷ [];
  last_user = 1;
  api_keys = default_key 1 (str "k1") 10 ∷ [];
  last_key = 1;
}

abbrev two_users : Db
two_users = record one_user {
  users = new_user 1 (str "bob") 10 ∷ new_user 2 (str "eve") 11 ∷ [];
  last_user = 2;
  api_keys = default_key 1 (str "k1") 10 ∷ default_key 2 (str "k2") 11 ∷ [];
  last_key = 2;
}

abbrev zone_of_bob : ZoneRow
zone_of_bob = new_zone 1 (some 1) (str "ex.org") 20

abbrev zone_of_eve : ZoneRow
zone_of_eve = new_zone 2 (some 2) (str "eve.net") 21

abbrev one_zone : Db
one_zone = record two_users { zones = zone_of_bob ∷ []; last_zone = 1 }

abbrev two_zones : Db
two_zones = record two_users { zones = zone_of_bob ∷ zone_of_eve ∷ []; last_zone = 2 }

abbrev zone_activated : ZoneRow
zone_activated = record zone_of_bob {
  active = true;
  verified_at = some 30;
  last_check = some 30;
  version = 2;
}

abbrev one_active : Db
one_active = record two_zones { zones = zone_activated ∷ zone_of_eve ∷ [] }

abbrev zone_changed : ZoneRow
zone_changed = record zone_activated { version = 3 }

abbrev www : ZoneRrSet
www = record { name = str "www.ex.org."; rtype = str "A"; ttl = 60; records = str "192.0.2.1" ∷ [] }

abbrev with_record : Db
with_record = record two_zones {
  zones = zone_changed ∷ zone_of_eve ∷ [];
  zone_rrsets = rrset_row 1 www ∷ [];
}

abbrev after_delete : Db
after_delete = record with_record { zones = zone_changed ∷ [] }

abbrev after_create : Db
after_create = record after_delete {
  zones = zone_changed ∷ new_zone 3 (some 1) (str "new.org") 40 ∷ [];
  last_zone = 3;
}

bob_registers :
    create_user empty 10 (str "k1") (str "bob") (str "h") ≡ ok (new_user 1 (str "bob") 10, one_user)
unfolding create_user
bob_registers = refl

eve_registers :
    create_user one_user 11 (str "k2") (str "eve") (str "h")
    ≡ ok (new_user 2 (str "eve") 11, two_users)
unfolding create_user certo.Text.str_eq
eve_registers = refl

bob_creates :
    create_zone ⦃u = ascii_only⦄ two_users 20 (some 1) (str " Ex.org")
    ≡ ok (zone_row two_users zone_of_bob, one_zone)
unfolding create_zone certo.Db.Zones.check_overlap certo.Db.Zones.zone_by_id certo.Db.normalize
    certo.Text.trim certo.Text.lower_ascii zone_row
bob_creates = refl

eve_creates :
    create_zone ⦃u = ascii_only⦄ one_zone 21 (some 2) (str "eve.net")
    ≡ ok (zone_row two_users zone_of_eve, two_zones)
unfolding create_zone certo.Text.str_eq certo.Db.normalize certo.Text.trim certo.Text.lower_ascii
    certo.Db.Zones.check_overlap certo.Text.ends_with certo.Db.Zones.zone_by_id zone_row
eve_creates = refl

bob_activates :
    activate_zone two_zones 30 1 false ≡ ok (zone_row two_users zone_activated, one_active)
unfolding activate_zone certo.Db.Zones.zone_by_id zone_row certo.Db.Zones.bump
bob_activates = refl

bob_changes : apply_zone_rrsets one_active 1 (www ∷ []) ≡ ok (3, with_record)
unfolding apply_zone_rrsets certo.Db.Zones.bump certo.Db.Zones.insert_rrsets
bob_changes = refl

eve_deletes : delete_zone with_record 2 ≡ ok after_delete
unfolding delete_zone certo.Db.Zones.delete_zone_data
eve_deletes = refl

bob_creates_again :
    create_zone ⦃u = ascii_only⦄ after_delete 40 (some 1) (str "new.org")
    ≡ ok (zone_row two_users (new_zone 3 (some 1) (str "new.org") 40), after_create)
unfolding create_zone certo.Text.str_eq certo.Db.normalize certo.Text.trim certo.Text.lower_ascii
    certo.Db.Zones.check_overlap certo.Db.Zones.zone_by_id zone_row
bob_creates_again = refl

Run-two_zones : Run ⦃u = ascii_only⦄ zero_digest empty two_zones
Run-two_zones =
    next
      (next
        (next
          (next here (
            creates_user 10 (str "k1") (str "bob") (str "h") (new_user 1 (str "bob") 10)
              bob_registers))
          (creates_user 11 (str "k2") (str "eve") (str "h") (new_user 2 (str "eve") 11)
            eve_registers))
        (creates_zone 20 (some 1) (str " Ex.org") (zone_row two_users zone_of_bob) bob_creates))
      (creates_zone 21 (some 2) (str "eve.net") (zone_row two_users zone_of_eve) eve_creates)

Run-changes : Run ⦃u = ascii_only⦄ zero_digest two_zones with_record
Run-changes =
    next (next here (activates_zone 30 1 false (zone_row two_users zone_activated) bob_activates))
      (applies_rrsets 1 (www ∷ []) 3 bob_changes)

Run-all : Run ⦃u = ascii_only⦄ zero_digest empty after_delete
Run-all =
    next
      (next
        (next Run-two_zones
          (activates_zone 30 1 false (zone_row two_users zone_activated) bob_activates))
        (applies_rrsets 1 (www ∷ []) 3 bob_changes))
      (deletes_zone 2 eve_deletes)

Run-again : Run ⦃u = ascii_only⦄ zero_digest after_delete after_create
Run-again = next here (creates_zone 40 (some 1) (str "new.org") _ bob_creates_again)

Run-Follows_example : Follows two_zones with_record zone_of_bob zone_changed
Run-Follows_example =
    Run-Follows ⦃u = ascii_only⦄ zero_digest two_zones with_record 1 zone_of_bob zone_changed
      Run-two_zones Run-changes refl refl

one-ne-two : ◌≢◌ {A = ℕ} 1 2
one-ne-two e = omega (arith, e)

Run-separate_example :
    ¬ ((above : List Str) × (labels (str "ex.org") ≡ above ++ labels (str "eve.net")))
Run-separate_example =
    Run-separate ⦃u = ascii_only⦄ zero_digest two_zones 1 2 zone_of_bob zone_of_eve 1 2
      Run-two_zones refl refl refl refl one-ne-two

Run-distinct_example : str "ex.org" ≢ str "eve.net"
Run-distinct_example =
    Run-distinct ⦃u = ascii_only⦄ zero_digest two_zones 1 2 zone_of_bob zone_of_eve Run-two_zones
      refl refl one-ne-two

Run-no_return_example : find (has_id 2) after_create.zones ≡ none
Run-no_return_example =
    Run-no_return ⦃u = ascii_only⦄ zero_digest after_delete after_create 2 Run-all Run-again
      (omega arith) refl

find-apply_zone_rrsets_example :
    find (is_rrset 1 www) with_record.zone_rrsets
    ≡ outcome 1 (find (is_rrset 1 www) one_active.zone_rrsets) (last_change www (www ∷ []))
find-apply_zone_rrsets_example =
    find-apply_zone_rrsets one_active with_record 1 3 (www ∷ []) www bob_changes

abbrev mail : ZoneRrSet
mail = record {
  name = str "ex.org.";
  rtype = str "MX";
  ttl = 300;
  records = str "10 mail.ex.org." ∷ [];
}

abbrev replaced_record : Db
replaced_record = record with_record {
  zones = record zone_changed { version = 4 } ∷ zone_of_eve ∷ [];
  zone_rrsets = rrset_row 1 mail ∷ [];
}

bob_replaces : replace_zone_rrsets with_record 1 (mail ∷ []) ≡ ok (4, replaced_record)
unfolding replace_zone_rrsets certo.Db.Zones.bump certo.Db.Zones.insert_rrsets
bob_replaces = refl

find-replace_zone_rrsets_example :
    find (is_rrset 1 www) replaced_record.zone_rrsets ≡ outcome 1 none (last_change www (mail ∷ []))
find-replace_zone_rrsets_example =
    find-replace_zone_rrsets with_record replaced_record 1 4 (mail ∷ []) www bob_replaces

-- The first user has a challenge domain with a value.
abbrev with_domain : Db
with_domain = record with_record {
  user_domains =
      record { user_id = 1; domain = str "ex.org"; subdomain = str "d41d8cd9"; allowfrom = [] }
      ∷ [];
  txt =
      record { rowid = 1; domain = str "d41d8cd9.acme.org"; value = str "v"; last_update = some 50 }
      ∷ [];
}
