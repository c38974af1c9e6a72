-- ===== src/Db/Zones/Found.antt =====
-- What the statements on one zone do, when the zone is there: each succeeds, and the row is changed.
use certo.Prelude.{
  ℕ, ◌+◌, ◌≡◌, refl, ◌∙◌, Bool, true, false, some, List, [], ◌∷◌, arith, ok, any, find,
  find-update_where, find_sound,
}
use certo.Text.{Str}
use certo.Db.{ZoneRow, Db, zone_row}
use certo.Db.Zones.{
  has_id, update_zone, bumped, activated, check_failed, deactivated, bump, zone_by_id, bump_unless,
  activate_zone, record_zone_check_failure, deactivate_zone,
}

any-of_find :
    (id : ℕ) (xs : List ZoneRow) (z : ZoneRow)
    → find (has_id id) xs ≡ some z
    → any (has_id id) xs ≡ true
any-of_find id [] z h = cc
any-of_find id (x ∷ xs) z h = ground (arith, any-of_find id xs z)

module _ (db : Db) (id : ℕ) (z : ZoneRow) (there : find (has_id id) db.zones ≡ some z) where
  pub find-update_zone :
      (f : ZoneRow → ZoneRow)
      → ((x : ZoneRow) → has_id id (f x) ≡ has_id id x)
      → find (has_id id) (update_zone db id f).zones ≡ some (f z)
  find-update_zone f h =
      find-update_where (has_id id) (has_id id) f db.zones (λ x _. h x)
      ∙ rw there (rw (find_sound (has_id id) db.zones z there))

  pub zone_by_id-found : zone_by_id db id ≡ ok (zone_row db z)
  unfolding zone_by_id
  zone_by_id-found = rw there

  pub bump-found : bump db id ≡ ok (z.version + 1, update_zone db id bumped)
  unfolding bump
  bump-found = rw (any-of_find id db.zones z there) (rw (find-update_zone bumped (λ x. refl)))

pub record_zone_check_failure-found :
    (db : Db) (time id : ℕ) (reason : Str) (z : ZoneRow)
    → find (has_id id) db.zones ≡ some z
    → record_zone_check_failure db time id reason
      ≡ ok (
        zone_row (update_zone db id (check_failed time reason)) (check_failed time reason z),
        update_zone db id (check_failed time reason),
      )
unfolding record_zone_check_failure
record_zone_check_failure-found db time id reason z there =
    let after = find-update_zone db id z there (check_failed time reason) (λ x. refl) in
    rw (any-of_find id db.zones z there)
      (rw (zone_by_id-found (update_zone db id (check_failed time reason)) id _ after))

-- The database after `deactivate_zone`.
abbrev pub after_deactivation : Db → ℕ → Db
after_deactivation db id = update_zone (update_zone db id deactivated) id bumped

pub find-after_deactivation :
    (db : Db) (id : ℕ) (z : ZoneRow)
    → find (has_id id) db.zones ≡ some z
    → find (has_id id) (after_deactivation db id).zones ≡ some (bumped (deactivated z))
find-after_deactivation db id z there =
    find-update_zone (update_zone db id deactivated) id _
      (find-update_zone db id z there deactivated (λ x. refl)) bumped (λ x. refl)

pub deactivate_zone-found :
    (db : Db) (id : ℕ) (z : ZoneRow)
    → find (has_id id) db.zones ≡ some z
    → deactivate_zone db id
      ≡ ok (zone_row (after_deactivation db id) (bumped (deactivated z)), after_deactivation db id)
unfolding deactivate_zone
deactivate_zone-found db id z there =
    let inactive = find-update_zone db id z there deactivated (λ x. refl) in
    rw (bump-found (update_zone db id deactivated) id _ inactive) (
      rw (zone_by_id-found (after_deactivation db id) id _ (find-after_deactivation db id z there)))

-- The database after `activate_zone`, for a zone that was active or was not.
abbrev pub after_activation : Bool → Db → ℕ → ℕ → Bool → Db
after_activation true db time id exempt = update_zone db id (activated time exempt)
after_activation false db time id exempt =
    update_zone (update_zone db id (activated time exempt)) id bumped

abbrev pub activated_row : Bool → ℕ → Bool → ZoneRow → ZoneRow
activated_row true time exempt z = activated time exempt z
activated_row false time exempt z = bumped (activated time exempt z)

module _ (db : Db) (time id : ℕ) (exempt : Bool) (z : ZoneRow)
    (there : find (has_id id) db.zones ≡ some z) where
  pub find-after_activation :
      (was : Bool)
      → find (has_id id) (after_activation was db time id exempt).zones
        ≡ some (activated_row was time exempt z)
  find-after_activation true = find-update_zone db id z there (activated time exempt) (λ x. refl)
  find-after_activation false =
      find-update_zone (update_zone db id (activated time exempt)) id _
        (find-update_zone db id z there (activated time exempt) (λ x. refl)) bumped (λ x. refl)

  bump_unless-found :
      (was : Bool)
      → bump_unless was (update_zone db id (activated time exempt)) id
        ≡ ok (after_activation was db time id exempt)
  bump_unless-found true = refl
  bump_unless-found false = rw (
      bump-found (update_zone db id (activated time exempt)) id _
        (find-update_zone db id z there (activated time exempt) (λ x. refl)))

  pub activate_zone-found :
      activate_zone db time id exempt
      ≡ ok (
        zone_row
            (after_activation z.active db time id exempt)
            (activated_row z.active time exempt z),
        after_activation z.active db time id exempt,
      )
  unfolding activate_zone zone_row
  activate_zone-found = rw (zone_by_id-found db id z there) (
      rw (bump_unless-found z.active) (
        rw (
          zone_by_id-found (after_activation z.active db time id exempt) id _
            (find-after_activation z.active))))
