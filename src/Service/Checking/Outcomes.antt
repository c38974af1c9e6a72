-- ===== src/Service/Checking/Outcomes.antt =====
-- The outcomes of a delegation check, on the zone's row and on PowerDNS.
pub mod Streak
use certo.Prelude.{
  ℕ, suc, ◌+◌, ◌≡◌, refl, sym, ap, ◌∙◌, subst, Bool, true, false, not, ◌&&◌, Option, none, some,
  List, arith, Result, ok, err, Bool-cases, inl, inr, leb, ltb, find, if◌then◌else◌, find_sound,
}
use certo.Text.{Unicode, Str}
use certo.Core.{Zone}
use certo.Db.{Db, DbError, ZoneRow, zone_row}
use certo.Db.Zones.{
  has_id, update_zone, activated, check_failed, bumped, deactivated, activate_zone,
  record_zone_check_failure, deactivate_zone,
}
use certo.Db.Zones.Found.{
  find-update_zone, record_zone_check_failure-found, after_deactivation, find-after_deactivation,
  deactivate_zone-found, after_activation, activated_row, find-after_activation,
  activate_zone-found,
}
use certo.Service.{
  Zones, World, ZoneOpError, check, Op, Delegation, delegated, not_delegated, pure, fail, go_on,
  ◌>>=◌, ◌>>◌, stored, transacts,
}
use certo.Service.Keeping.{Keeps, Same, Same-Preorder, keeping}
use certo.Service.Untouched.{remove_from_pdns-Keeps, converge-Keeps, served_now-Keeps}
use certo.Service.Convergence.{converge}
use certo.Service.Lifecycle.{
  max_failed_checks, remove_from_pdns, deactivate, served_now, activate, check_outcome, run_check,
}

module _ {S : Type 0} where
  -- A transaction that succeeds, and what follows it.
  after_transaction :
      {A B : Type 0} (f : Db → Result DbError (A × Db)) (k : A → Op S B) (w : World S) (a : A)
      (db : Db)
      → f w.db ≡ ok (a, db)
      → (transacts f >>= k) w ≡ k a (record w { db = db })
  unfolding transacts ◌>>=◌
  after_transaction f k w a db e = rw e

  -- The same, for the database, if what follows leaves it.
  after_transaction_db :
      {A B : Type 0} (f : Db → Result DbError (A × Db)) (k : A → Op S B) (w : World S) (a : A)
      (db : Db)
      → f w.db ≡ ok (a, db)
      → ((x : A) → Keeps Same (k x))
      → ((transacts f >>= k) w).1.db ≡ db
  after_transaction_db f k w a db e same =
      ap (λ p. p.1.db) (after_transaction f k w a db e)
      ∙ sym ((same a).keeps (record w { db = db }))

  transacts-ok :
      {A : Type 0} (f : Db → Result DbError (A × Db)) (w : World S) (a : A) (db : Db)
      → f w.db ≡ ok (a, db)
      → transacts f w ≡ (ok a, record w { db = db })
  unfolding transacts
  transacts-ok f w a db e = rw e

-- The test after a failed check.
abbrev pub lapsed : ZoneRow → Bool
lapsed z = z.active && leb max_failed_checks (z.failed_checks + 1)

abbrev pub succeeded : {A : Type 0} → Result ZoneOpError A → Bool
succeeded (ok a) = true
succeeded (err e) = false

-- The row after a check: the machine that the service runs for each zone. `done` tells whether the
-- check, with the deactivation in it, succeeded.
abbrev pub row_after : ℕ → Bool → Result Str Delegation → Bool → ZoneRow → ZoneRow
row_after time exempt (err message) done z = z
row_after time exempt (ok delegated) done z = activated_row z.active time exempt z
row_after time exempt (ok (not_delegated reason)) done z =
    if lapsed z && done
    then bumped (deactivated (check_failed time reason z))
    else check_failed time reason z

module _ {S : Type 0} (zones : Zones S) where
  removed :
      (id : ℕ) (z : ZoneRow) (out : Result ZoneOpError (Unit {0}) × World S)
      → find (has_id id) out.1.db.zones ≡ some z
      → let end = go_on (λ _. transacts (λ db. deactivate_zone db id)) out in
        find (has_id id) end.1.db.zones
        ≡ some (if succeeded end.0 then bumped (deactivated z) else z)
  removed id z (err e, w) there = there
  removed id z (ok _, w) there =
      rw (transacts-ok (λ db. deactivate_zone db id) w _ _ (deactivate_zone-found w.db id z there))
        (find-after_deactivation w.db id z there)

  -- A deactivation switches the row off, or fails and leaves it.
  deactivate-row :
      (zone : Zone) (w : World S) (z : ZoneRow)
      → find (has_id zone.id) w.db.zones ≡ some z
      → find (has_id zone.id) (deactivate zones zone w).1.db.zones
        ≡ some (if succeeded (deactivate zones zone w).0 then bumped (deactivated z) else z)
  unfolding deactivate ◌>>◌ ◌>>=◌
  deactivate-row zone w z there = removed zone.id z (remove_from_pdns zones zone w) (
      subst (λ d. find (has_id zone.id) d.zones ≡ some z)
        ((remove_from_pdns-Keeps zones {R = Same} zone).keeps w) there)

module _ ⦃u : Unicode⦄ {S : Type 0} (zones : Zones S) (time : ℕ) (zone : Zone) (w : World S)
    (z : ZoneRow) (there : find (has_id zone.id) w.db.zones ≡ some z) where
  pub check_outcome-stays :
      (reason : Str)
      → lapsed z ≡ false
      → check_outcome zones time zone (ok (not_delegated reason)) w ≡ (
        ok (
            zone_row
              (update_zone w.db zone.id (check_failed time reason))
              (check_failed time reason z)),
        record w { db = update_zone w.db zone.id (check_failed time reason) },
      )
  unfolding check_outcome zone_row pure
  check_outcome-stays reason k =
      after_transaction _ _ w _ _ (record_zone_check_failure-found w.db time zone.id reason z there)
      ∙ rw k

  own_id : zone.id ≡ z.id
  own_id = ground (arith, find_sound (has_id zone.id) w.db.zones z there)

  -- The rest of the check of a lapsed zone is its deactivation.
  lapsed-deactivates :
      (reason : Str)
      → lapsed z ≡ true
      → check_outcome zones time zone (ok (not_delegated reason)) w
        ≡ deactivate zones
            (zone_row
              (update_zone w.db zone.id (check_failed time reason))
              (check_failed time reason z))
            (record w { db = update_zone w.db zone.id (check_failed time reason) })
  unfolding check_outcome zone_row
  lapsed-deactivates reason k =
      after_transaction _ _ w _ _ (record_zone_check_failure-found w.db time zone.id reason z there)
      ∙ rw k

  check_outcome-lapses :
      (reason : Str)
      → lapsed z ≡ true
      → let end = check_outcome zones time zone (ok (not_delegated reason)) w in
        find (has_id zone.id) end.1.db.zones
        ≡ some (row_after time zone.exempt (ok (not_delegated reason)) (succeeded end.0) z)
  unfolding zone_row
  check_outcome-lapses reason k =
      let failed = update_zone w.db zone.id (check_failed time reason) in
      let row = find-update_zone w.db zone.id z there (check_failed time reason) (λ x. refl) in
      rw (lapsed-deactivates reason k, k)
        (subst
          (λ i.
            find (has_id i)
              (deactivate zones (zone_row failed (check_failed time reason z))
                (record w { db = failed })).1.db.zones
            ≡ some (
                if succeeded
                  (deactivate zones (zone_row failed (check_failed time reason z))
                    (record w { db = failed })).0
                then bumped (deactivated (check_failed time reason z))
                else check_failed time reason z))
          (sym own_id)
          (deactivate-row zones (zone_row failed (check_failed time reason z))
            (record w { db = failed }) (check_failed time reason z)
            (subst (λ i. find (has_id i) failed.zones ≡ some (check_failed time reason z)) own_id
              row)))

  activate-db :
      (exempt : Bool)
      → (activate zones time zone exempt w).1.db
        ≡ after_activation z.active w.db time zone.id exempt
  unfolding activate
  activate-db exempt =
      after_transaction_db _ _ w _ _ (activate_zone-found w.db time zone.id exempt z there)
        (λ updated. search (keeping, served_now-Keeps, converge-Keeps) depth 12)

  -- A check that finds the delegation activates the row, whatever PowerDNS answers then.
  pub check_outcome-activates :
      find (has_id zone.id) (check_outcome zones time zone (ok delegated) w).1.db.zones
      ≡ some (activated_row z.active time zone.exempt z)
  unfolding check_outcome
  check_outcome-activates =
      subst
        (λ db. find (has_id zone.id) db.zones ≡ some (activated_row z.active time zone.exempt z))
        (sym (activate-db zone.exempt))
        (find-after_activation w.db time zone.id zone.exempt z there z.active)

  check_outcome-row :
      (verdict : Result Str Delegation)
      → let end = check_outcome zones time zone verdict w in
        find (has_id zone.id) end.1.db.zones
        ≡ some (row_after time zone.exempt verdict (succeeded end.0) z)
  unfolding check_outcome fail
  check_outcome-row (err message) = there
  check_outcome-row (ok delegated) = check_outcome-activates
  check_outcome-row (ok (not_delegated reason)) = elim (Bool-cases (lapsed z)) [
    | inl k ↦ check_outcome-lapses reason k
    | inr k ↦
        rw (check_outcome-stays reason k, k)
          (find-update_zone w.db zone.id z there (check_failed time reason) (λ x. refl))
  ]

  pub run_check-row_after :
      find (has_id zone.id) (run_check zones time zone w).1.db.zones
      ≡ some (
          row_after time zone.exempt
            (zones.checker zone.name zones.policy.nsname)
            (succeeded (run_check zones time zone w).0)
            z)
  unfolding run_check
  run_check-row_after = check_outcome-row (zones.checker zone.name zones.policy.nsname)
