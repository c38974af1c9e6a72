-- ===== src/Db/Zones/Lifecycle.antt =====
-- Creating, activating, deactivating and deleting zones keeps versions in step with what is served.
use certo.Prelude.{
  ℕ, ◌+◌, ◌≡◌, refl, ap, sym, subst, ◌∙◌, Bool, true, false, not, Option, none, some, List, arith,
  ◌==◌, find, find_sound, find-append, find-reject, find-reject_sound, reject,
  update_where-update_where, ==_iff, any, Result, ok, ◌>>=◌, passed, >>=-eq-ok, ok-injective,
}
use certo.Text.{Str, Unicode}
use certo.Core.{Zone}
use certo.Db.{
  What, DbError, not_found, conflict, zone, constraint, normalize, TxtRow, ZoneRow, Db, is_owned,
  or_not_found, zone_row,
}
use certo.Db.Zones.{
  has_id, bumped, bump, zone_by_id, update_zone, deactivated, deactivate_zone, activated,
  activate_zone, bump_unless, check_failed, record_zone_check_failure, unexempted,
  clear_zone_exemption, delete_zone_data, delete_zone, create_zone, check_overlap, new_zone,
  bump_base_zone,
}
use certo.Db.Zones.Versions.{
  some-inj, SameData, Follows, Tracks, Keeps, Tracks-update, Tracks-quiet,
}
use certo.Db.Zones.Tracking.{bumped_db, bump-eq, Tracks-one, others_differ, rows_others}

-- The last step of an operation reads the zone back, and returns the database that it has.
pub read_back :
    (db1 : Db) (id : ℕ) (out : Zone × Db)
    → (zone_by_id db1 id >>= λ z. ok (z, db1)) ≡ ok out
    → db1 ≡ out.1
read_back db1 id out h =
    let (z, _, same) = >>=-eq-ok (zone_by_id db1 id) _ h in ap (λ o. o.1) (ok-injective same)

Keeps-deactivated : Keeps (λ z. bumped (deactivated z))
Keeps-deactivated = record { id = λ z. refl; user_id = λ z. refl; name = λ z. refl }

pub deactivate_zone-Tracks :
    (db : Db) (id : ℕ) (out : Zone × Db) → deactivate_zone db id ≡ ok out → Tracks db out.1
unfolding deactivate_zone bumped_db
deactivate_zone-Tracks db id out h =
    let (r, b, h1) = >>=-eq-ok (bump (update_zone db id deactivated) id) _ h in
    subst (Tracks db) (sym (bump-eq _ id r b).0 ∙ read_back r.1 id out h1) (
      Tracks-one db _ id (λ z. bumped (deactivated z)) Keeps-deactivated (λ z. refl)
        (update_where-update_where (has_id id) deactivated bumped db.zones (λ z. refl)) refl
        (λ j n. record { rrsets = refl; dnssec = refl; tsig = refl }))

pub record_zone_check_failure-Tracks :
    (db : Db) (time id : ℕ) (error : Str) (out : Zone × Db)
    → record_zone_check_failure db time id error ≡ ok out
    → Tracks db out.1
unfolding record_zone_check_failure
record_zone_check_failure-Tracks db time id error out h =
    let (_, h1) = passed (any (has_id id) db.zones) (not_found zone) _ h in
    subst (Tracks db) (read_back _ id out h1) (
      Tracks-quiet (has_id id) (check_failed time error) db _
        (record { id = λ z. refl; user_id = λ z. refl; name = λ z. refl }) (λ z. refl)
        (λ z _ _. refl) (λ z. refl) refl (λ j. record { rrsets = refl; dnssec = refl; tsig = refl })
        refl)

pub clear_zone_exemption-Tracks :
    (db : Db) (id : ℕ) (out : Zone × Db) → clear_zone_exemption db id ≡ ok out → Tracks db out.1
unfolding clear_zone_exemption
clear_zone_exemption-Tracks db id out h =
    let (_, h1) = passed (any (has_id id) db.zones) (not_found zone) _ h in
    subst (Tracks db) (read_back _ id out h1) (
      Tracks-quiet (has_id id) unexempted db _
        (record { id = λ z. refl; user_id = λ z. refl; name = λ z. refl }) (λ z. refl)
        (λ z _ _. refl) (λ z. refl) refl (λ j. record { rrsets = refl; dnssec = refl; tsig = refl })
        refl)

or_not_found_sound :
    (w : What) (o : Option ZoneRow) (z : ZoneRow) → or_not_found w o ≡ ok z → o ≡ some z
or_not_found_sound w none z h = cc
or_not_found_sound w (some x) z h = ap some (ok-injective h)

-- A lookup that succeeded, and what ran after it.
found_row :
    {A : Type 0} (db : Db) (id : ℕ) (k : Zone → Result DbError A) {a : A}
    → (zone_by_id db id >>= k) ≡ ok a
    → (z : ZoneRow) × (find (has_id id) db.zones ≡ some z) × (k (zone_row db z) ≡ ok a)
unfolding zone_by_id
found_row {A} db id k {a} h =
    let (seen, e, h1) = >>=-eq-ok (zone_by_id db id) k h in
    let (row, f, g) = >>=-eq-ok (or_not_found zone (find (has_id id) db.zones)) _ e in
    (
      row,
      or_not_found_sound zone (find (has_id id) db.zones) row f,
      subst (λ v. k v ≡ ok a) (sym (ok-injective g)) h1,
    )

Keeps-activated : (time : ℕ) (exempt : Bool) → Keeps (activated time exempt)
Keeps-activated time exempt = record { id = λ z. refl; user_id = λ z. refl; name = λ z. refl }

-- An activation of an inactive zone bumps it.
activate_inactive-Tracks :
    (db : Db) (time id : ℕ) (exempt : Bool) (r : ℕ × Db)
    → bump (update_zone db id (activated time exempt)) id ≡ ok r
    → Tracks db r.1
unfolding bumped_db
activate_inactive-Tracks db time id exempt r b = subst (Tracks db) (sym (bump-eq _ id r b).0) (
    Tracks-one db _ id (λ z. bumped (activated time exempt z))
      (record { id = λ z. refl; user_id = λ z. refl; name = λ z. refl }) (λ z. refl)
      (update_where-update_where (has_id id) (activated time exempt) bumped db.zones (λ z. refl))
      refl (λ j n. record { rrsets = refl; dnssec = refl; tsig = refl }))

-- An activation of an active zone is invisible. `before` is the row that was read.
activate_active-Tracks :
    (db : Db) (time id : ℕ) (exempt : Bool) (before : ZoneRow)
    → find (has_id id) db.zones ≡ some before
    → before.active ≡ true
    → Tracks db (update_zone db id (activated time exempt))
activate_active-Tracks db time id exempt before found on =
    Tracks-quiet (has_id id) (activated time exempt) db _ (Keeps-activated time exempt) (λ z. refl)
      (λ z p e. sym (was_on z p e)) (λ z. refl) refl
      (λ j. record { rrsets = refl; dnssec = refl; tsig = refl }) refl
  where
    was_on :
        (z : ZoneRow) → has_id id z ≡ true → find (has_id z.id) db.zones ≡ some z → z.active ≡ true
    was_on z p e =
        let same : before ≡ z =
          some-inj
            (sym found ∙ subst (λ j. find (has_id j) db.zones ≡ some z) ((==_iff z.id id).0 p) e) in
        subst (λ x. x.active ≡ true) same on

activated-Tracks :
    (db db1 : Db) (time id : ℕ) (exempt : Bool) (row : ZoneRow) (on : Bool)
    → find (has_id id) db.zones ≡ some row
    → row.active ≡ on
    → bump_unless on (update_zone db id (activated time exempt)) id ≡ ok db1
    → Tracks db db1
activated-Tracks db db1 time id exempt row true found was h =
    subst (Tracks db) (ok-injective h) (activate_active-Tracks db time id exempt row found was)
activated-Tracks db db1 time id exempt row false found was h =
    let (r, b, same) = >>=-eq-ok (bump (update_zone db id (activated time exempt)) id) _ h in
    subst (Tracks db) (ok-injective same) (activate_inactive-Tracks db time id exempt r b)

pub activate_zone-Tracks :
    (db : Db) (time id : ℕ) (exempt : Bool) (out : Zone × Db)
    → activate_zone db time id exempt ≡ ok out
    → Tracks db out.1
unfolding activate_zone zone_row
activate_zone-Tracks db time id exempt out h =
    let (row, found, h1) = found_row db id _ h in
    let (db1, b, h2) =
      >>=-eq-ok (bump_unless row.active (update_zone db id (activated time exempt)) id) _ h1 in
    subst (Tracks db) (read_back db1 id out h2)
      (activated-Tracks db db1 time id exempt row row.active found refl b)

-- Zones may go, and others may come, where the rows and the data of those that stay are kept.
module _ (db db' : Db)
    (rows : (id : ℕ) (z z' : ZoneRow)
      → find (has_id id) db.zones ≡ some z
      → find (has_id id) db'.zones ≡ some z'
      → z ≡ z')
    (held : (id : ℕ) (z' : ZoneRow) → find (has_id id) db'.zones ≡ some z' → SameData db db' id)
    (txt : db.txt ≡ db'.txt) where
  pub Tracks-kept : Tracks db db'
  Tracks-kept id z z' e e' = subst (Follows db db' z) (rows id z z' e e') (record {
    name = refl;
    owner = refl;
    grows = omega arith;
    same = λ _. record {
      active = refl;
      axfr = refl;
      held =
          subst (SameData db db') (sym ((==_iff z.id id).0 (find_sound (has_id id) db.zones z e)))
            (held id z' e');
      challenges = λ _. txt;
    };
  })

without_zone : Db → ℕ → Db
unfolding delete_zone_data
without_zone db id =
    let db1 = delete_zone_data db id in record db1 { zones = reject (has_id id) db1.zones }

pub delete_zone-Tracks : (db db' : Db) (id : ℕ) → delete_zone db id ≡ ok db' → Tracks db db'
unfolding delete_zone without_zone
delete_zone-Tracks db db' id h =
    let (_, same) = passed (any (has_id id) db.zones) (not_found zone) _ h in
    subst (Tracks db) (ok-injective same) (Tracks-kept db (without_zone db id) rows held refl)
  where
    differs :
        (j : ℕ) (z' : ZoneRow)
        → find (has_id j) (reject (has_id id) db.zones) ≡ some z'
        → j == id ≡ false
    differs j z' e' =
        subst (λ k. k == id ≡ false)
          ((==_iff z'.id j).0 (find_sound (has_id j) (reject (has_id id) db.zones) z' e'))
          (find-reject_sound (has_id j) (has_id id) db.zones z' e')

    rows :
        (j : ℕ) (z z' : ZoneRow)
        → find (has_id j) db.zones ≡ some z
        → find (has_id j) (reject (has_id id) db.zones) ≡ some z'
        → z ≡ z'
    rows j z z' e e' = some-inj (
        sym e
        ∙ sym (
            find-reject (has_id j) (has_id id) db.zones
              (λ x q. others_differ j id x.id (differs j z' e') q))
        ∙ e')

    held :
        (j : ℕ) (z' : ZoneRow)
        → find (has_id j) (reject (has_id id) db.zones) ≡ some z'
        → SameData db (without_zone db id) j
    held j z' e' = record {
      rrsets = sym (rows_others (λ r. r.zone_id) db.zone_rrsets id j (differs j z' e'));
      dnssec = sym (rows_others (λ r. r.zone_id) db.zone_dnssec id j (differs j z' e'));
      tsig = sym (rows_others (λ r. r.zone_id) db.zone_tsig_keys id j (differs j z' e'));
    }

-- A new zone takes an id that no zone has had.
pub create_zone-Tracks :
    ⦃u : Unicode⦄ (db : Db) (time : ℕ) (user_id : Option ℕ) (name : Str) (out : Zone × Db)
    → create_zone db time user_id name ≡ ok out
    → Tracks db out.1
unfolding create_zone
create_zone-Tracks ⦃u⦄ db time user_id name out h =
    let (_, h1) = passed _ (conflict zone) _ h in
    let (_, _, h2) = >>=-eq-ok (check_overlap db user_id (normalize name)) _ h1 in
    let (_, h3) = passed _ constraint _ h2 in
    subst (Tracks db) (read_back _ (db.last_zone + 1) out h3) (
      Tracks-kept db _
        (λ id z z' e e'. some-inj (
          sym (
            find-append (has_id id) db.zones
              (new_zone (db.last_zone + 1) user_id (normalize name) time) z e)
          ∙ e'))
        (λ id z' e'. record { rrsets = refl; dnssec = refl; tsig = refl }) refl)

-- A change of the challenge values comes with a bump of the base zone.
pub bump_base_zone-Tracks :
    (db : Db) (rows : List TxtRow) → Tracks db (bump_base_zone (record db { txt = rows }))
unfolding bump_base_zone
bump_base_zone-Tracks db rows =
    Tracks-update (λ z. not (is_owned z)) bumped db _
      (record { id = λ z. refl; user_id = λ z. refl; name = λ z. refl }) (λ z. refl) refl
      (λ z _. record { rrsets = refl; dnssec = refl; tsig = refl }) (λ z p q. ground arith)
