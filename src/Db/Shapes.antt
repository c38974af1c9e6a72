-- ===== src/Db/Shapes.antt =====
-- The shape of each operation of the zone store.
use mathlib.Core.Bool.{false≢true}
use certo.Prelude.{
  ℕ, ◌+◌, ◌≡◌, ◌≢◌, refl, ap, sym, subst, ◌∙◌, Bool, true, false, not, Option, List, [], ◌∷◌, ◌++◌,
  arith, ◌==◌, any, reject, update_where, update_where-update_where, All, All-of_any-false, ok,
  passed, >>=-eq-ok, ok-injective,
}
use certo.Text.{Str, Unicode, str_eq}
use certo.Text.Affix.{str_eq_iff, str_eq_comm}
use certo.Names.{inside}
use certo.Core.{Zone, ZoneRrSet, ZoneDnssec, ZoneTsigKey}
use certo.Db.{
  not_found, conflict, constraint, zone, zone_overlap, tsig_key, ZoneRow, Db, is_owned, same_user,
  normalize,
}
use certo.Db.Zones.{
  has_id, bumped, bump, zone_by_id, update_zone, insert_rrsets, apply_zone_rrsets,
  replace_zone_rrsets, set_zone_dnssec, key_rows, add_zone_tsig_key, is_tsig, delete_zone_tsig_key,
  allowing, set_zone_axfr_allow_from, deactivated, deactivate_zone, activated, activate_zone,
  bump_unless, check_failed, record_zone_check_failure, unexempted, clear_zone_exemption,
  delete_zone_data, delete_zone, create_zone, new_zone, bump_base_zone, check_overlap, overlaps,
  below,
}
use certo.Db.Zones.Versions.{Keeps}
use certo.Db.Zones.Tracking.{bumped_db, bump-eq, bump_then}
use certo.Db.Zones.Lifecycle.{read_back}
use certo.Db.Shape.{Compatible, Shape, updated, removed, added}

Keeps-bumped : Keeps bumped
Keeps-bumped = record { id = λ z. refl; user_id = λ z. refl; name = λ z. refl }

-- A database whose zones are those of the bumped one.
module _ (db db' : Db) (id : ℕ) where
  bumped-Shape :
      db'.zones ≡ update_where (has_id id) bumped db.zones
      → db'.last_zone ≡ db.last_zone
      → Shape db db'
  bumped-Shape e n = updated (has_id id) bumped Keeps-bumped e n

pub apply_zone_rrsets-Shape :
    (db : Db) (id : ℕ) (rrs : List ZoneRrSet) (out : ℕ × Db)
    → apply_zone_rrsets db id rrs ≡ ok out
    → Shape db out.1
unfolding apply_zone_rrsets bumped_db
apply_zone_rrsets-Shape db id rrs out h =
    bump_then (Shape db) db id (λ d. record d { zone_rrsets = insert_rrsets d.zone_rrsets id rrs })
      out h (bumped-Shape db _ id refl refl)

pub replace_zone_rrsets-Shape :
    (db : Db) (id : ℕ) (rrs : List ZoneRrSet) (out : ℕ × Db)
    → replace_zone_rrsets db id rrs ≡ ok out
    → Shape db out.1
unfolding replace_zone_rrsets bumped_db
replace_zone_rrsets-Shape db id rrs out h =
    bump_then (Shape db) db id
      (λ d. record d {
        zone_rrsets = insert_rrsets (reject (λ x. x.zone_id == id) d.zone_rrsets) id rrs;
      })
      out h (bumped-Shape db _ id refl refl)

pub set_zone_dnssec-Shape :
    (db : Db) (id : ℕ) (key : Option ZoneDnssec) (out : ℕ × Db)
    → set_zone_dnssec db id key ≡ ok out
    → Shape db out.1
unfolding set_zone_dnssec bumped_db
set_zone_dnssec-Shape db id key out h =
    bump_then (Shape db) db id
      (λ d. record d {
        zone_dnssec = reject (λ x. x.zone_id == id) d.zone_dnssec ++ key_rows id key;
      })
      out h (bumped-Shape db _ id refl refl)

pub set_zone_axfr_allow_from-Shape :
    (db : Db) (id : ℕ) (a : List Str) (out : ℕ × Db)
    → set_zone_axfr_allow_from db id a ≡ ok out
    → Shape db out.1
unfolding set_zone_axfr_allow_from bumped_db
set_zone_axfr_allow_from-Shape db id a out h =
    bump_then (Shape db) db id (λ d. update_zone d id (allowing a)) out h
      (updated (has_id id) (λ z. allowing a (bumped z))
        (record { id = λ z. refl; user_id = λ z. refl; name = λ z. refl })
        (update_where-update_where (has_id id) bumped (allowing a) db.zones (λ z. refl)) refl)

pub add_zone_tsig_key-Shape :
    (db : Db) (id : ℕ) (key : ZoneTsigKey) (out : ℕ × Db)
    → add_zone_tsig_key db id key ≡ ok out
    → Shape db out.1
unfolding add_zone_tsig_key bumped_db
add_zone_tsig_key-Shape db id key out h =
    let (r, b, h1) = >>=-eq-ok (bump db id) _ h in
    let (_, h2) =
      passed (not (any (is_tsig id key.name) r.1.zone_tsig_keys)) (conflict tsig_key) _ h1 in
    let same = (bump-eq db id r b).0 in
    subst (λ o. Shape db o.1) (ok-injective h2)
      (bumped-Shape db _ id (ap (λ (d : Db). d.zones) same) (ap (λ (d : Db). d.last_zone) same))

pub delete_zone_tsig_key-Shape :
    (db : Db) (id : ℕ) (name : Str) (out : ℕ × Db)
    → delete_zone_tsig_key db id name ≡ ok out
    → Shape db out.1
unfolding delete_zone_tsig_key bumped_db
delete_zone_tsig_key-Shape db id name out h =
    let (_, b) = passed (any (is_tsig id name) db.zone_tsig_keys) (not_found tsig_key) _ h in
    let same = (bump-eq _ id out b).0 in
    bumped-Shape db out.1 id (ap (λ (d : Db). d.zones) same) (ap (λ (d : Db). d.last_zone) same)

pub deactivate_zone-Shape :
    (db : Db) (id : ℕ) (out : Zone × Db) → deactivate_zone db id ≡ ok out → Shape db out.1
unfolding deactivate_zone bumped_db
deactivate_zone-Shape db id out h =
    let (r, b, h1) = >>=-eq-ok (bump (update_zone db id deactivated) id) _ h in
    subst (Shape db) (sym (bump-eq _ id r b).0 ∙ read_back r.1 id out h1) (
      updated (has_id id) (λ z. bumped (deactivated z))
        (record { id = λ z. refl; user_id = λ z. refl; name = λ z. refl })
        (update_where-update_where (has_id id) deactivated bumped db.zones (λ z. refl)) refl)

pub record_zone_check_failure-Shape :
    (db : Db) (time id : ℕ) (error : Str) (out : Zone × Db)
    → record_zone_check_failure db time id error ≡ ok out
    → Shape db out.1
unfolding record_zone_check_failure
record_zone_check_failure-Shape db time id error out h =
    let (_, h1) = passed (any (has_id id) db.zones) (not_found zone) _ h in
    subst (Shape db) (read_back _ id out h1) (
      updated (has_id id) (check_failed time error)
        (record { id = λ z. refl; user_id = λ z. refl; name = λ z. refl }) refl refl)

pub clear_zone_exemption-Shape :
    (db : Db) (id : ℕ) (out : Zone × Db) → clear_zone_exemption db id ≡ ok out → Shape db out.1
unfolding clear_zone_exemption
clear_zone_exemption-Shape db id out h =
    let (_, h1) = passed (any (has_id id) db.zones) (not_found zone) _ h in
    subst (Shape db) (read_back _ id out h1) (
      updated (has_id id) unexempted
        (record { id = λ z. refl; user_id = λ z. refl; name = λ z. refl }) refl refl)

activated-Shape :
    (db db1 : Db) (time id : ℕ) (exempt on : Bool)
    → bump_unless on (update_zone db id (activated time exempt)) id ≡ ok db1
    → Shape db db1
unfolding bumped_db
activated-Shape db db1 time id exempt true h = subst (Shape db) (ok-injective h) (
    updated (has_id id) (activated time exempt)
      (record { id = λ z. refl; user_id = λ z. refl; name = λ z. refl }) refl refl)
activated-Shape db db1 time id exempt false h =
    let (r, b, same) = >>=-eq-ok (bump (update_zone db id (activated time exempt)) id) _ h in
    subst (Shape db) (sym (bump-eq _ id r b).0 ∙ ok-injective same) (
      updated (has_id id) (λ z. bumped (activated time exempt z))
        (record { id = λ z. refl; user_id = λ z. refl; name = λ z. refl })
        (update_where-update_where (has_id id) (activated time exempt) bumped db.zones (λ z. refl))
        refl)

pub activate_zone-Shape :
    (db : Db) (time id : ℕ) (exempt : Bool) (out : Zone × Db)
    → activate_zone db time id exempt ≡ ok out
    → Shape db out.1
unfolding activate_zone
activate_zone-Shape db time id exempt out h =
    let (before, _, h1) = >>=-eq-ok (zone_by_id db id) _ h in
    let (db1, b, h2) =
      >>=-eq-ok (bump_unless before.active (update_zone db id (activated time exempt)) id) _ h1 in
    subst (Shape db) (read_back db1 id out h2)
      (activated-Shape db db1 time id exempt before.active b)

pub delete_zone-Shape : (db db' : Db) (id : ℕ) → delete_zone db id ≡ ok db' → Shape db db'
unfolding delete_zone delete_zone_data
delete_zone-Shape db db' id h =
    let (_, same) = passed (any (has_id id) db.zones) (not_found zone) _ h in
    subst (Shape db) (ok-injective same) (removed (has_id id) refl refl)

-- The name and overlap checks of `create_zone` make the new zone compatible with each zone.
checked-Compatible :
    (user_id : Option ℕ) (name : Str) (z : ZoneRow) (x : ZoneRow)
    → z.name ≡ name
    → z.user_id ≡ user_id
    → str_eq x.name name ≡ false
    → overlaps user_id name x ≡ false
    → x.id ≢ z.id
    → Compatible x z
unfolding overlaps below inside
checked-Compatible user_id name z x n u s o i = record {
  ids = i;
  names = λ e. absurd (false≢true (sym s ∙ (str_eq_iff x.name name).1 (e ∙ n)));
  separate = λ a b d.
      let d' : same_user x.user_id user_id ≡ false =
        subst (λ w. same_user x.user_id w ≡ false) u d in
      subst (λ m. (inside x.name m ≡ false) × (inside m x.name ≡ false)) (sym n)
        (ground (arith, str_eq_comm x.name name));
}

All-Compatible :
    (user_id : Option ℕ) (name : Str) (z : ZoneRow) (zs : List ZoneRow)
    → z.name ≡ name
    → z.user_id ≡ user_id
    → All (λ x. str_eq x.name name ≡ false) zs
    → All (λ x. overlaps user_id name x ≡ false) zs
    → All (λ x. x.id ≢ z.id → Compatible x z) zs
All-Compatible user_id name z [] n u s o = tt
All-Compatible user_id name z (x ∷ xs) n u (s, ss) (o, os) =
    (λ i. checked-Compatible user_id name z x n u s o i, All-Compatible user_id name z xs n u ss os)

none_of :
    {A : Type 0} (p : A → Bool) (xs : List A) → not (any p xs) ≡ true → All (λ x. p x ≡ false) xs
none_of p xs h = All-of_any-false p xs (ground arith)

pub create_zone-Shape :
    ⦃u : Unicode⦄ (db : Db) (time : ℕ) (user_id : Option ℕ) (given : Str) (out : Zone × Db)
    → create_zone db time user_id given ≡ ok out
    → Shape db out.1
unfolding create_zone check_overlap
create_zone-Shape ⦃u⦄ db time user_id given out h =
    let name : Str = normalize given in
    let z : ZoneRow = new_zone (db.last_zone + 1) user_id name time in
    let (unused, h1) = passed _ (conflict zone) _ h in
    let (alone, h2) = passed _ (conflict zone_overlap) _ h1 in
    let (_, h3) = passed _ constraint _ h2 in
    subst (Shape db) (read_back _ (db.last_zone + 1) out h3) (
      added z refl
        (All-Compatible user_id name z db.zones refl refl
          (none_of (λ x. str_eq x.name name) db.zones unused)
          (none_of (overlaps user_id name) db.zones alone))
        refl refl)

pub bump_base_zone-Shape :
    (db db' : Db)
    → db'.zones ≡ db.zones
    → db'.last_zone ≡ db.last_zone
    → Shape db (bump_base_zone db')
unfolding bump_base_zone
bump_base_zone-Shape db db' e n =
    updated (λ z. not (is_owned z)) bumped Keeps-bumped
      (ap (update_where (λ z. not (is_owned z)) bumped) e) n
