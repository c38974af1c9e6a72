-- ===== src/Service/Checking.antt =====
-- crates/certo-pdns/src/zones.rs: `run_checks`, one pass of the periodic checks.
pub mod Outcomes
use certo.Prelude.{
  ℕ, ◌+◌, ◌-◌, Bool, true, false, not, ◌&&◌, ◌||◌, none, List, [], ◌∷◌, Result, ok, err,
  if◌then◌else◌, ltb,
}
use certo.Text.{Unicode}
use certo.Core.{Zone, is_system}
use certo.Db.{Db}
use certo.Db.Zones.{list_zones, delete_zone}
use certo.Service.{Zones, World, ZoneOpError, Op, pure, ◌>>=◌, ◌>>◌, reads, updates, attempt}
use certo.Service.Lifecycle.{recent, run_check}

-- One hour, one day and thirty days, in seconds.
abbrev pub pending_check_interval : ℕ
pending_check_interval = 3600

abbrev pub active_recheck_interval : ℕ
active_recheck_interval = 86400

abbrev pub pending_expiry : ℕ
pending_expiry = 2592000

pub record CheckReport : Type 0 where
  pub checked : ℕ
  pub activated : ℕ
  pub deactivated : ℕ
  pub expired : ℕ

abbrev empty_report : CheckReport
empty_report = record { checked = 0; activated = 0; deactivated = 0; expired = 0 }

-- What the loop of `run_checks` does with a zone.
pub data Due : Type 0 where
  skipped expires checks : Due

unfoldable pub due : ℕ → Zone → Due
due time zone =
    if is_system zone || zone.exempt
    then skipped
    else if not zone.active && ltb pending_expiry (time - zone.created_at)
    then expires
    else if recent time (if zone.active then active_recheck_interval else pending_check_interval)
        zone.last_check
    then skipped
    else checks

abbrev count_outcome : CheckReport → Zone → Result ZoneOpError Zone → CheckReport
count_outcome report zone (err e) = report
count_outcome report zone (ok updated) =
    if updated.active && not zone.active
    then record report { activated = report.activated + 1 }
    else if not updated.active && zone.active
    then record report { deactivated = report.deactivated + 1 }
    else report

module _ ⦃u : Unicode⦄ {S : Type 0} (zones : Zones S) where
  abbrev pub handle : ℕ → CheckReport → Zone → Due → Op S CheckReport
  handle time report zone skipped = pure report
  handle time report zone expires = do
    updates (λ db. delete_zone db zone.id)
    pure (record report { expired = report.expired + 1 })
  handle time report zone checks = do
    outcome ← attempt (run_check zones time zone)
    pure (count_outcome (record report { checked = report.checked + 1 }) zone outcome)

  unfoldable pub check_each : ℕ → CheckReport → List Zone → Op S CheckReport
  check_each time report [] = pure report
  check_each time report (zone ∷ rest) = do
    next ← handle time report zone (due time zone)
    check_each time next rest

  unfoldable pub run_checks : ℕ → Op S CheckReport
  run_checks time = do
    all_zones ← reads (λ db. list_zones db none)
    check_each time empty_report all_zones
