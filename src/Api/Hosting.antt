-- ===== src/Api/Hosting.antt =====
-- crates/certo-api/src/zones.rs: the zone a request names, and what a caller does with zones.
pub mod Owners
use certo.Prelude.{
  ℕ, Bool, true, false, not, ◌||◌, ◌==◌, Option, none, some, List, [], ◌∷◌, select, Result, ok, err,
  if◌then◌else◌, is_empty,
}
use certo.Text.{Str, Unicode, str, trim}
use certo.Names.{RrSet, RrSetChange, Code, parse_zone_name}
use certo.Core.{User, Zone}
use certo.Db.{What, Db}
use certo.Db.Zones.{list_zones}
use certo.Db.Accounts.{user_by_id}
use certo.Service.{World, ZoneOpError, invalid, missing, pure, fail, ◌>>=◌, ◌>>◌, require, reads}
use certo.Service.Lifecycle.{get, create, set_exempt, verify, delete}
use certo.Service.Records.{DnssecInfo, rrsets, patch_rrsets, dnssec, set_dnssec}
use certo.Service.Transfers.{
  TransferInfo, TsigKeyInfo, transfer, set_transfer_allow_from, add_tsig_key,
}
use certo.Api.{
  wanted, answered, ApiError, new_error, bad_request, forbidden, from_zone, AppState, Handler,
  serves,
}
use certo.Api.Auth.{Bearer, to_option, may_access, bearer, check_admin}

-- The zone, and whether an operator asks for it.
pub record ZoneCtx : Type 0 where
  pub zone : Zone
  pub admin : Bool

abbrev pub is_owner : Option ℕ → ℕ → Bool
is_owner none id = false
is_owner (some owner) id = owner == id

abbrev pub zone_name : Result Code Str → Result ApiError Str
zone_name (ok name) = ok name
zone_name (err code) = err (from_zone (invalid code))

module _ ⦃u : Unicode⦄ {S : Type 0} (state : AppState S) where
  -- The routes under `/admin/`.
  unfoldable pub admin_ctx : Option Str → Str → Handler S ZoneCtx
  admin_ctx admin_key name = do
    answered (check_admin state admin_key)
    zone ← serves (get state.zones name)
    pure (record { zone = zone; admin = true })

  -- The routes of owners.
  unfoldable pub owner_ctx : ℕ → Option Str → Str → Handler S ZoneCtx
  owner_ctx now header name = do
    who ← reads (λ db. bearer state now db header)
    auth ← answered who
    zone ← serves (get state.zones name)
    require (is_owner zone.user_id auth.user.id) (from_zone (missing What.zone))
    require (may_access auth zone.name) (forbidden (str "domain_not_in_scope"))
    pure (record { zone = zone; admin = false })

  unfoldable pub list : Bearer → Handler S (List Zone)
  list auth = reads (λ db. select (λ z. may_access auth z.name) (list_zones db (some auth.user.id)))

  unfoldable pub create_zone_for : ℕ → Bearer → Str → Handler S Zone
  create_zone_for time auth given = do
    name ← answered (zone_name (parse_zone_name given))
    require (may_access auth name) (forbidden (str "domain_not_in_scope"))
    serves (create state.zones time (some auth.user.id) name)

  unfoldable pub admin_create : ℕ → ℕ → Str → Handler S Zone
  admin_create time user_id name = do
    require (not (user_id == 0 || is_empty (trim name)))
        (bad_request (str "user_id and name required"))
    found ← reads (λ db. to_option (user_by_id db user_id))
    user ← wanted found (new_error 404 (str "user_not_found"))
    serves (create state.zones time (some user.id) name)

  -- `PATCH .../rrsets`: the changes, then the rrsets of the zone.
  unfoldable pub patch : ZoneCtx → List RrSetChange → Handler S (List RrSet)
  patch ctx changes = do
    serves (patch_rrsets state.zones ctx.zone changes)
    serves (rrsets state.zones ctx.zone)

  abbrev shown_rrsets : Zone → Bool → Handler S (Option (List RrSet))
  shown_rrsets zone true = do found ← serves (rrsets state.zones zone); pure (some found)
  shown_rrsets zone false = pure none

  unfoldable pub get_zone : ZoneCtx → Handler S (Zone × Option (List RrSet))
  get_zone ctx = do found ← shown_rrsets ctx.zone ctx.zone.active; pure (ctx.zone, found)

  unfoldable pub change_dnssec : ZoneCtx → Bool → Str → Handler S DnssecInfo
  change_dnssec ctx enabled nsec_mode =
      serves (set_dnssec state.zones ctx.zone enabled (u.lowercase (trim nsec_mode)))

  abbrev pub algorithm_or_default : Option Str → Str
  algorithm_or_default none = str "hmac-sha256"
  algorithm_or_default (some algorithm) = algorithm

  unfoldable pub new_tsig_key : ZoneCtx → Str → Option Str → Handler S (TsigKeyInfo × Str)
  new_tsig_key ctx name algorithm =
      serves (add_tsig_key state.zones ctx.zone name (algorithm_or_default algorithm))
