-- ===== src/Service/Runs.antt =====
-- What the operations of the zone service do to the database is a history of it.
pub mod Acts
use certo.Prelude.{ℕ, ◌≡◌, Bool, true, false, Option, none, some, List, [], ◌∷◌, Result, ok, err}
use certo.Text.{Unicode, Str}
use certo.Names.{RrSetChange, parse_zone_name, parse_key_name, validate_changes}
use certo.Core.{Zone, ZoneRrSet, ZoneDnssec, ZoneTsigKey}
use certo.Db.{Db}
use certo.Db.Zones.{
  create_zone, delete_zone, activate_zone, record_zone_check_failure, deactivate_zone,
  clear_zone_exemption, apply_zone_rrsets, replace_zone_rrsets, set_zone_dnssec, add_zone_tsig_key,
  delete_zone_tsig_key, set_zone_axfr_allow_from,
}
use certo.Db.Step.{
  Run, here, next, creates_zone, deletes_zone, activates_zone, records_failure, deactivates_zone,
  clears_exemption, applies_rrsets, replaces_rrsets, sets_dnssec, adds_tsig, deletes_tsig,
  sets_allow_from,
}
use certo.Pdns.{CryptoKey, PdnsZone, ZoneSummary, TsigKey, Api, PdnsError}
use certo.Service.{
  Zones, World, Op, Delegation, delegated, not_delegated, ZoneOpError, transacts, updates,
}
use certo.Service.Keeping.{Keeps, Preorder, keeping, transacts-Keeps, updates-Keeps}
use certo.Service.Untouched.{
  stamp-Keeps, remove_matching-Keeps, remove_pdns_tsig_keys-Keeps, remove_unserved-Keeps,
  status-Keeps, remove_from_pdns-Keeps, delete_keys-Keeps, dnssec-Keeps, converge-Keeps,
  transfer-Keeps, served_now-Keeps,
}
use certo.Service.Seed.{
  StaticRecord, base_row, seed_rrsets, build_base, unless_active, ensure_base_zone,
}
use certo.Service.Syncing.{
  SyncReport, store_key, key_to_adopt, store_allow_from, adopt_allow_from, adopt, converged,
  adopt_served, sync_zone, sync_zones, sync,
}
use certo.Service.Lifecycle.{
  deactivate, delete, activate, check_outcome, run_check, verify, create, set_exempt,
}
use certo.Service.Checking.{
  CheckReport, Due, skipped, expires, checks, handle, check_each, run_checks,
}
use certo.Service.Records.{patch_rrsets, active_or_new, switch_dnssec, set_dnssec}
use certo.Service.Transfers.{set_transfer_allow_from, add_tsig_key, delete_tsig_key}

module _ ⦃u : Unicode⦄ (sha256 : Str → List ℕ) where
  pub Run-trans : {a b c : Db} → Run sha256 a b → Run sha256 b c → Run sha256 a c
  Run-trans r here = r
  Run-trans r (next s step) = next (Run-trans r s) step

instance abbrev pub Run-Preorder : ⦃u : Unicode⦄ {sha256 : Str → List ℕ} → Preorder (Run sha256)
Run-Preorder {sha256} = record { same = λ db. here; trans = Run-trans sha256 }

module _ ⦃u : Unicode⦄ (sha256 : Str → List ℕ) {S : Type 0} where
  create_step :
      (time : ℕ) (user_id : Option ℕ) (name : Str)
      → Keeps {S = S} (Run sha256) (transacts (λ db. create_zone db time user_id name))
  create_step time user_id name =
      transacts-Keeps _ λ db db' a e. next here (creates_zone time user_id name a e)

  activate_step :
      (time id : ℕ) (exempt : Bool)
      → Keeps {S = S} (Run sha256) (transacts (λ db. activate_zone db time id exempt))
  activate_step time id exempt =
      transacts-Keeps _ λ db db' a e. next here (activates_zone time id exempt a e)

  failure_step :
      (time id : ℕ) (error : Str)
      → Keeps {S = S} (Run sha256) (transacts (λ db. record_zone_check_failure db time id error))
  failure_step time id error =
      transacts-Keeps _ λ db db' a e. next here (records_failure time id error a e)

  deactivate_step : (id : ℕ) → Keeps {S = S} (Run sha256) (transacts (λ db. deactivate_zone db id))
  deactivate_step id = transacts-Keeps _ λ db db' a e. next here (deactivates_zone id a e)

  unexempt_step :
      (id : ℕ) → Keeps {S = S} (Run sha256) (transacts (λ db. clear_zone_exemption db id))
  unexempt_step id = transacts-Keeps _ λ db db' a e. next here (clears_exemption id a e)

  apply_step :
      (id : ℕ) (rrs : List ZoneRrSet)
      → Keeps {S = S} (Run sha256) (transacts (λ db. apply_zone_rrsets db id rrs))
  apply_step id rrs = transacts-Keeps _ λ db db' a e. next here (applies_rrsets id rrs a e)

  replace_step :
      (id : ℕ) (rrs : List ZoneRrSet)
      → Keeps {S = S} (Run sha256) (transacts (λ db. replace_zone_rrsets db id rrs))
  replace_step id rrs = transacts-Keeps _ λ db db' a e. next here (replaces_rrsets id rrs a e)

  dnssec_step :
      (id : ℕ) (key : Option ZoneDnssec)
      → Keeps {S = S} (Run sha256) (transacts (λ db. set_zone_dnssec db id key))
  dnssec_step id key = transacts-Keeps _ λ db db' a e. next here (sets_dnssec id key a e)

  add_tsig_step :
      (id : ℕ) (key : ZoneTsigKey)
      → Keeps {S = S} (Run sha256) (transacts (λ db. add_zone_tsig_key db id key))
  add_tsig_step id key = transacts-Keeps _ λ db db' a e. next here (adds_tsig id key a e)

  delete_tsig_step :
      (id : ℕ) (name : Str)
      → Keeps {S = S} (Run sha256) (transacts (λ db. delete_zone_tsig_key db id name))
  delete_tsig_step id name = transacts-Keeps _ λ db db' a e. next here (deletes_tsig id name a e)

  allow_from_step :
      (id : ℕ) (allow_from : List Str)
      → Keeps {S = S} (Run sha256) (transacts (λ db. set_zone_axfr_allow_from db id allow_from))
  allow_from_step id allow_from =
      transacts-Keeps _ λ db db' a e. next here (sets_allow_from id allow_from a e)

  delete_step : (id : ℕ) → Keeps {S = S} (Run sha256) (updates (λ db. delete_zone db id))
  delete_step id = updates-Keeps _ λ db db' e. next here (deletes_zone id e)

ruleset steps = (
  create_step, activate_step, failure_step, deactivate_step, unexempt_step, apply_step,
  replace_step, dnssec_step, add_tsig_step, delete_tsig_step, allow_from_step, delete_step,
)

module _ ⦃u : Unicode⦄ (sha256 : Str → List ℕ) {S : Type 0} (zones : Zones S) where
  base_row-Run : (time : ℕ) (o : Option Zone) → Keeps (Run sha256) (base_row zones time o)
  base_row-Run time none = search (keeping, steps)
  base_row-Run time (some z) = search keeping

  seed_rrsets-Run :
      (id : ℕ) (rows rrs : List ZoneRrSet) → Keeps (Run sha256) (seed_rrsets zones id rows rrs)
  seed_rrsets-Run id [] rrs = search (keeping, steps) depth 12
  seed_rrsets-Run id (r ∷ rs) rrs = search keeping

  build_base-Run :
      (time : ℕ) (seed : List Str) (o : Option Zone)
      → Keeps (Run sha256) (build_base zones time seed o)
  unfolding build_base
  build_base-Run time seed o = search (keeping, steps, base_row-Run, seed_rrsets-Run) depth 12

  unless_active-Run :
      (time : ℕ) (seed : List Str) (o : Option Zone)
      → Keeps (Run sha256) (unless_active zones time seed o)
  unless_active-Run time seed none = build_base-Run time seed none
  unless_active-Run time seed (some z) = search (keeping, build_base-Run)

  pub ensure_base_zone-Run :
      (time : ℕ) (seed : List Str) → Keeps (Run sha256) (ensure_base_zone zones time seed)
  unfolding ensure_base_zone
  ensure_base_zone-Run time seed = search (keeping, unless_active-Run)

  activate-Run :
      (time : ℕ) (zone : Zone) (exempt : Bool)
      → Keeps (Run sha256) (activate zones time zone exempt)
  unfolding activate
  activate-Run time zone exempt = search (keeping, steps, served_now-Keeps, converge-Keeps) depth 12

  deactivate-Run : (zone : Zone) → Keeps (Run sha256) (deactivate zones zone)
  unfolding deactivate
  deactivate-Run zone = search (keeping, steps, remove_from_pdns-Keeps)

  pub delete-Run : (zone : Zone) → Keeps (Run sha256) (delete zones zone)
  unfolding delete
  delete-Run zone = search (keeping, steps, remove_from_pdns-Keeps) depth 12

  check_outcome-Run :
      (time : ℕ) (zone : Zone) (outcome : Result Str Delegation)
      → Keeps (Run sha256) (check_outcome zones time zone outcome)
  unfolding check_outcome
  check_outcome-Run time zone (err e) = search keeping
  check_outcome-Run time zone (ok delegated) = search activate-Run
  check_outcome-Run time zone (ok (not_delegated reason)) =
      search (keeping, steps, deactivate-Run) depth 12

  pub run_check-Run : (time : ℕ) (zone : Zone) → Keeps (Run sha256) (run_check zones time zone)
  unfolding run_check
  run_check-Run time zone = check_outcome-Run time zone _

  pub verify-Run : (time : ℕ) (zone : Zone) → Keeps (Run sha256) (verify zones time zone)
  unfolding verify
  verify-Run time zone = search (keeping, run_check-Run) depth 12

  pub create-Run :
      (time : ℕ) (user_id : Option ℕ) (name : Str)
      → Keeps (Run sha256) (create zones time user_id name)
  unfolding create
  create-Run time user_id name = search (keeping, steps, run_check-Run) depth 20

  pub set_exempt-Run :
      (time : ℕ) (zone : Zone) (exempt : Bool)
      → Keeps (Run sha256) (set_exempt zones time zone exempt)
  unfolding set_exempt
  set_exempt-Run time zone exempt = search (keeping, steps, activate-Run) depth 12

  pub patch_rrsets-Run :
      (zone : Zone) (changes : List RrSetChange)
      → Keeps (Run sha256) (patch_rrsets zones zone changes)
  unfolding patch_rrsets
  patch_rrsets-Run zone changes = search (keeping, steps, stamp-Keeps) depth 12

  active_or_new-Run :
      (zone : Zone) (o : Option CryptoKey) → Keeps (Run sha256) (active_or_new zones zone o)
  active_or_new-Run zone none = search keeping
  active_or_new-Run zone (some k) = search keeping

  switch_dnssec-Run :
      (zone : Zone) (b : Bool) (mode : Str) (keys : List CryptoKey)
      → Keeps (Run sha256) (switch_dnssec zones zone b mode keys)
  switch_dnssec-Run zone true mode keys = search (keeping, steps, active_or_new-Run) depth 12
  switch_dnssec-Run zone false mode keys = search (keeping, steps, delete_keys-Keeps) depth 12

  pub set_dnssec-Run :
      (zone : Zone) (b : Bool) (mode : Str) → Keeps (Run sha256) (set_dnssec zones zone b mode)
  unfolding set_dnssec
  set_dnssec-Run zone b mode =
      search (keeping, switch_dnssec-Run, stamp-Keeps, dnssec-Keeps) depth 12

  pub set_transfer_allow_from-Run :
      (zone : Zone) (allow : List Str)
      → Keeps (Run sha256) (set_transfer_allow_from zones zone allow)
  unfolding set_transfer_allow_from
  set_transfer_allow_from-Run zone allow =
      search (keeping, steps, stamp-Keeps, transfer-Keeps) depth 12

  pub add_tsig_key-Run :
      (zone : Zone) (name algorithm : Str)
      → Keeps (Run sha256) (add_tsig_key zones zone name algorithm)
  unfolding add_tsig_key
  add_tsig_key-Run zone name algorithm = search (keeping, steps, stamp-Keeps) depth 20

  pub delete_tsig_key-Run :
      (zone : Zone) (name : Str) → Keeps (Run sha256) (delete_tsig_key zones zone name)
  unfolding delete_tsig_key
  delete_tsig_key-Run zone name =
      search (keeping, steps, stamp-Keeps, remove_pdns_tsig_keys-Keeps) depth 12

  handle-Run :
      (time : ℕ) (report : CheckReport) (zone : Zone) (d : Due)
      → Keeps (Run sha256) (handle zones time report zone d)
  handle-Run time report zone skipped = search keeping
  handle-Run time report zone expires = search (keeping, steps)
  handle-Run time report zone checks = search (keeping, run_check-Run)

  check_each-Run :
      (time : ℕ) (report : CheckReport) (zs : List Zone)
      → Keeps (Run sha256) (check_each zones time report zs)
  unfolding check_each
  check_each-Run time report [] = search keeping
  check_each-Run time report (z ∷ zs) =
      let rest = λ (r : CheckReport). check_each-Run time r zs in search (keeping, handle-Run)

  pub run_checks-Run : (time : ℕ) → Keeps (Run sha256) (run_checks zones time)
  unfolding run_checks
  run_checks-Run time = search (keeping, check_each-Run)

  store_key-Run :
      (zone : Zone) (served : PdnsZone) (o : Option CryptoKey)
      → Keeps (Run sha256) (store_key zones zone served o)
  store_key-Run zone served none = search keeping
  store_key-Run zone served (some k) = search (keeping, steps)

  key_to_adopt-Run :
      (zone : Zone) (o : Option ZoneDnssec) → Keeps (Run sha256) (key_to_adopt zones zone o)
  key_to_adopt-Run zone none = search keeping
  key_to_adopt-Run zone (some k) = search keeping

  store_allow_from-Run :
      (zone : Zone) (allow : List Str) → Keeps (Run sha256) (store_allow_from zones zone allow)
  store_allow_from-Run zone [] = search keeping
  store_allow_from-Run zone (a ∷ rest) = search (keeping, steps)

  adopt-Run : (zone : Zone) (served : PdnsZone) → Keeps (Run sha256) (adopt zones zone served)
  unfolding adopt
  adopt-Run zone served =
      search (keeping, steps, key_to_adopt-Run, store_key-Run, store_allow_from-Run) depth 20

  adopt_served-Run :
      (report : SyncReport) (zone : Zone) (o : Option PdnsZone)
      → Keeps (Run sha256) (adopt_served zones report zone o)
  adopt_served-Run report zone none = search keeping
  adopt_served-Run report zone (some z) = search (keeping, adopt-Run) depth 12

  sync_zone-Run :
      (force : Bool) (served : List ZoneSummary) (report : SyncReport) (zone : Zone)
      → Keeps (Run sha256) (sync_zone zones force served report zone)
  unfolding sync_zone
  sync_zone-Run force served report zone =
      search (keeping, adopt_served-Run, converge-Keeps) depth 20

  sync_zones-Run :
      (force : Bool) (served : List ZoneSummary) (zs : List Zone) (wanted : List Str)
      (report : SyncReport)
      → Keeps (Run sha256) (sync_zones zones force served zs wanted report)
  unfolding sync_zones
  sync_zones-Run force served [] wanted report = search keeping
  sync_zones-Run force served (z ∷ zs) wanted report =
      let rest = λ (names : List Str) (r : SyncReport). sync_zones-Run force served zs names r in
      search (keeping, sync_zone-Run) depth 12

  pub sync-Run : (force : Bool) → Keeps (Run sha256) (sync zones force)
  unfolding sync
  sync-Run force =
      search (keeping, sync_zones-Run, remove_unserved-Keeps, remove_matching-Keeps, status-Keeps)
        depth 20
