-- ===== src/Service/Lifecycle.antt =====
-- crates/certo-pdns/src/zones.rs: creation, activation, deactivation and deletion of zones, and the
-- check of one delegation.
use certo.Prelude.{
  ℕ, ◌-◌, Bool, true, false, not, ◌&&◌, Option, none, some, List, [], ◌∷◌, map, Result, ok, err,
  if◌then◌else◌, ltb, leb, is_some,
}
use certo.Text.{Str, Unicode, str}
use certo.Names.{default_ttl, inside, parse_zone_name, Code}
use certo.Core.{Zone, ZoneRrSet, is_system}
use certo.Sync.{apex}
use certo.Db.{What}
use certo.Db.Zones.{
  create_zone, zone_by_name, list_zones, delete_zone, activate_zone, record_zone_check_failure,
  deactivate_zone, clear_zone_exemption, apply_zone_rrsets, tsig_keys_of,
}
use certo.Pdns.Client
use certo.Service.{
  Zones, ZoneOpError, not_allowed, missing, rate_limited, check, Delegation, delegated,
  not_delegated, Op, pure, fail, ◌>>=◌, ◌>>◌, require, checked, reads, looks_up, transacts, updates,
  sends, attempt,
}
use certo.Service.Convergence.{converge}
use certo.Service.Syncing.{remove_pdns_tsig_keys}

abbrev pub max_failed_checks : ℕ
max_failed_checks = 7

abbrev pub verify_cooldown : ℕ
verify_cooldown = 60

-- `now - t < limit`: as signed numbers, and as natural numbers whose difference stops at 0.
abbrev pub recent : ℕ → ℕ → Option ℕ → Bool
recent time limit none = false
recent time limit (some t) = ltb (time - t) limit

abbrev pub apex_ns : Str → Str → ZoneRrSet
apex_ns name nsname = record {
  name = apex name;
  rtype = str "NS";
  ttl = default_ttl;
  records = apex nsname ∷ [];
}

module _ {S : Type 0} (zones : Zones S) where
  unfoldable pub remove_from_pdns : Zone → Op S (Unit {0})
  remove_from_pdns zone = do
    sends (Client.delete_zone zones.server zone.name)
    keys ← reads (λ db. tsig_keys_of db zone.id)
    remove_pdns_tsig_keys zones (map (λ k. k.name) keys)

  unfoldable pub deactivate : Zone → Op S Zone
  deactivate zone = do remove_from_pdns zone; transacts (λ db. deactivate_zone db zone.id)

  unfoldable pub delete : Zone → Op S (Unit {0})
  delete zone = do
    require (not (is_system zone)) (not_allowed (str "the base zone cannot be deleted"))
    remove_from_pdns zone
    updates (λ db. delete_zone db zone.id)

  unfoldable pub remove_each : List Zone → Op S (Unit {0})
  remove_each [] = pure tt
  remove_each (zone ∷ rest) = do remove_from_pdns zone; remove_each rest

  unfoldable pub remove_user_zones : ℕ → Op S (Unit {0})
  remove_user_zones user_id = do
    owned ← reads (λ db. list_zones db (some user_id))
    remove_each owned

module _ ⦃u : Unicode⦄ {S : Type 0} (zones : Zones S) where
  abbrev pub served_now : Zone → Op S Bool
  served_now zone =
      if zone.active
      then (do served ← sends (Client.zone zones.server zone.name); pure (is_some served))
      else pure false

  unfoldable pub activate : ℕ → Zone → Bool → Op S Zone
  activate time zone exempt = do
    updated ← transacts (λ db. activate_zone db time zone.id exempt)
    present ← served_now zone
    if present then pure updated else (do _ ← converge zones updated; pure updated)

  -- The outcome of the check is an argument.
  unfoldable pub check_outcome : ℕ → Zone → Result Str Delegation → Op S Zone
  check_outcome time zone (err message) = fail (check message)
  check_outcome time zone (ok delegated) = activate time zone zone.exempt
  check_outcome time zone (ok (not_delegated reason)) = do
    updated ← transacts (λ db. record_zone_check_failure db time zone.id reason)
    if updated.active && leb max_failed_checks updated.failed_checks
        then deactivate zones updated
        else pure updated

  unfoldable pub run_check : ℕ → Zone → Op S Zone
  run_check time zone = check_outcome time zone (zones.checker zone.name zones.policy.nsname)

  unfoldable pub verify : ℕ → Zone → Op S Zone
  verify time zone = do
    require (not (is_system zone)) (not_allowed (str "the base zone is always active"))
    require (not (recent time verify_cooldown zone.last_check)) rate_limited
    run_check time zone

  abbrev pub or_created : Zone → Result ZoneOpError Zone → Zone
  or_created created (ok updated) = updated
  or_created created (err e) = created

  unfoldable pub create : ℕ → Option ℕ → Str → Op S Zone
  create time user_id given = do
    name ← checked (parse_zone_name given)
    require (not (inside name zones.policy.base_zone))
        (not_allowed (str "inside the server's own zone"))
    require (not (zones.is_public_suffix name))
        (not_allowed (str "a public suffix cannot be a zone"))
    row ← transacts (λ db. create_zone db time user_id name)
    _ ← transacts (λ db. apply_zone_rrsets db row.id (apex_ns name zones.policy.nsname ∷ []))
    created ← looks_up (λ db. zone_by_name db name)
    outcome ← attempt (run_check time created)
    pure (or_created created outcome)

  abbrev pub as_zone_name : Result Code Str → Op S Str
  as_zone_name (ok name) = pure name
  as_zone_name (err code) = fail (missing What.zone)

  unfoldable pub get : Str → Op S Zone
  get given = do name ← as_zone_name (parse_zone_name given); looks_up (λ db. zone_by_name db name)

  unfoldable pub set_exempt : ℕ → Zone → Bool → Op S Zone
  set_exempt time zone exempt = do
    require (not (is_system zone)) (not_allowed (str "the base zone is always exempt"))
    if exempt
        then activate time zone true
        else if zone.active
        then transacts (λ db. clear_zone_exemption db zone.id)
        else pure zone
