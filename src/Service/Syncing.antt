-- ===== src/Service/Syncing.antt =====
-- crates/certo-pdns/src/zones.rs: `sync`, the pass over all zones, and `status`.
pub mod Skipping
use certo.Prelude.{
  ℕ, ◌+◌, ◌==◌, Bool, true, false, not, ◌&&◌, ◌||◌, Option, none, some, List, [], ◌∷◌, ◌++◌, map,
  if◌then◌else◌, is_empty, is_some, any, select, reject, find, length,
}
use certo.Text.{Str, Unicode, str, str_eq, contains, trim_dots}
use certo.Text.Decimal.{I64, pos, negsuc, plus}
use certo.Names.{RrSet}
use certo.Core.{Zone, ZoneRrSet, ZoneDnssec, ZoneTsigKey, is_system}
use certo.Sync.{ZonePolicy, apex, to_stored, challenge_ttl, is_protected}
use certo.Db.{Db}
use certo.Db.Zones.{
  zone_by_name, list_zones, replace_zone_rrsets, dnssec_of, set_zone_dnssec, tsig_keys_of,
  set_zone_axfr_allow_from,
}
use certo.Pdns.{ZoneSummary, PdnsZone, CryptoKey, TsigKey}
use certo.Pdns.Client
use certo.Service.{Zones, World, Op, pure, ◌>>=◌, ◌>>◌, reads, looks_up, transacts, sends}
use certo.Service.Stamps.{version_metadata, parse_version, stamp}
use certo.Service.Convergence.{Converged, allow_axfr_from, converge}

pub record ZoneVersions : Type 0 where
  pub name : Str
  pub db : Option ℕ
  pub pdns : Option I64

pub record SyncStatus : Type 0 where
  pub db_version : ℕ
  pub pdns_version : I64
  pub zones : List ZoneVersions

pub record SyncReport : Type 0 where
  pub created : ℕ
  pub removed : ℕ
  pub rrsets_changed : ℕ
  pub keys_imported : ℕ
  pub records_adopted : ℕ
  pub status : SyncStatus

abbrev pub no_status : SyncStatus
no_status = record { db_version = 0; pdns_version = pos 0; zones = [] }

abbrev pub no_report : SyncReport
no_report = record {
  created = 0;
  removed = 0;
  rrsets_changed = 0;
  keys_imported = 0;
  records_adopted = 0;
  status = no_status;
}

-- The rrsets that `adopt` takes over.
unfoldable pub adopted : ZonePolicy → Zone → List RrSet → List ZoneRrSet
adopted policy zone rrs = map to_stored (
    select
      (λ rr.
        not (is_protected policy zone rr)
        && not (is_system zone && (str_eq rr.rtype (str "TXT") && rr.ttl == challenge_ttl)))
      rrs)

abbrev pub is_version : ℕ → Option I64 → Bool
is_version version none = false
is_version version (some (negsuc n)) = false
is_version version (some (pos n)) = n == version

abbrev pub or_zero : Option I64 → I64
or_zero none = pos 0
or_zero (some n) = n

abbrev pub count_created : Converged → ℕ
count_created done = if done.created then 1 else 0

abbrev is_active_key : CryptoKey → Bool
is_active_key k = k.active

abbrev pub active_zones : List Zone → List Zone
active_zones zs = select (λ z. z.active) zs

abbrev pub is_served : List ZoneSummary → Zone → Bool
is_served served zone = any (λ s. str_eq s.name (apex zone.name)) served

-- A set of names is the list of its insertions.
abbrev pub apexes : List Zone → List Str
apexes zs = map (λ z. apex z.name) zs

module _ {S : Type 0} (zones : Zones S) where
  unfoldable pub remove_matching : (TsigKey → Bool) → List TsigKey → Op S (Unit {0})
  remove_matching p [] = pure tt
  remove_matching p (key ∷ keys) = do
    if p key then sends (Client.delete_tsig_key zones.server key.id) else pure tt
    remove_matching p keys

  unfoldable pub remove_pdns_tsig_keys : List Str → Op S (Unit {0})
  remove_pdns_tsig_keys [] = pure tt
  remove_pdns_tsig_keys (n ∷ ns) = do
    keys ← sends (Client.tsig_keys zones.server)
    remove_matching (λ key. contains (n ∷ ns) (trim_dots key.name)) keys

  -- The zones of PowerDNS that are not in the list are removed and counted.
  unfoldable pub remove_unserved : List Str → List ZoneSummary → Op S ℕ
  remove_unserved active [] = pure 0
  remove_unserved active (summary ∷ rest) =
      if contains active summary.name then remove_unserved active rest else (do
        sends (Client.delete_zone zones.server summary.name)
        n ← remove_unserved active rest
        pure (n + 1))

  abbrev pub version_of : List ZoneSummary → Zone → Op S (Option I64)
  version_of served zone =
      if is_served served zone
      then (do
        values ← sends (Client.metadata zones.server zone.name version_metadata)
        pure (parse_version values))
      else pure none

  abbrev pub store_key : Zone → PdnsZone → Option CryptoKey → Op S (Unit {0})
  store_key zone served none = pure tt
  store_key zone served (some key) = do
    full ← sends (Client.cryptokey zones.server zone.name key.id)
    _ ← transacts (λ db. set_zone_dnssec db zone.id (
        some (record {
          nsec3 = not (is_empty served.nsec3param);
          algorithm = full.algorithm;
          private_key = full.privatekey;
        })))
    pure tt

  abbrev pub key_to_adopt : Zone → Option ZoneDnssec → Op S (Option CryptoKey)
  key_to_adopt zone (some s) = pure none
  key_to_adopt zone none = do
    keys ← sends (Client.cryptokeys zones.server zone.name)
    pure (find is_active_key keys)

  abbrev pub store_allow_from : Zone → List Str → Op S (Unit {0})
  store_allow_from zone [] = pure tt
  store_allow_from zone (a ∷ more) = do
    _ ← transacts (λ db. set_zone_axfr_allow_from db zone.id (a ∷ more))
    pure tt

  abbrev pub adopt_allow_from : Zone → Op S (Unit {0})
  adopt_allow_from zone =
      if is_empty zone.axfr_allow_from
      then (do
        allow ← sends (Client.metadata zones.server zone.name allow_axfr_from)
        store_allow_from zone allow)
      else pure tt

  unfoldable pub adopt : Zone → PdnsZone → Op S ℕ
  adopt zone served = do
    let rrsets = adopted zones.policy zone served.rrsets
    _ ← transacts (λ db. replace_zone_rrsets db zone.id rrsets)
    stored ← reads (λ db. dnssec_of db zone.id)
    key ← key_to_adopt zone stored
    store_key zone served key
    adopt_allow_from zone
    pure (length rrsets)

  unfoldable pub status_of_zones : List ZoneSummary → List Zone → SyncStatus → Op S SyncStatus
  status_of_zones served [] status = pure status
  status_of_zones served (zone ∷ rest) status = do
    version ← version_of served zone
    let counted = record status {
      db_version = status.db_version + zone.version;
      pdns_version = plus status.pdns_version (or_zero version);
    }
    status_of_zones served rest (
        if is_version zone.version version then counted else record counted {
          zones =
              status.zones
              ++ (record { name = zone.name; db = some zone.version; pdns = version } ∷ []);
        })

  unfoldable pub status_of_others : List ZoneSummary → SyncStatus → Op S SyncStatus
  status_of_others [] status = pure status
  status_of_others (summary ∷ rest) status = do
    values ← sends (Client.metadata zones.server summary.name version_metadata)
    let version = parse_version values
    status_of_others rest (record status {
      pdns_version = plus status.pdns_version (or_zero version);
      zones =
          status.zones
          ++ (record { name = trim_dots summary.name; db = none; pdns = version } ∷ []);
    })

  unfoldable pub status : Op S SyncStatus
  status = do
    all_zones ← reads (λ db. list_zones db none)
    served ← sends (Client.zones zones.server)
    counted ← status_of_zones served (active_zones all_zones) no_status
    status_of_others (reject (λ s. contains (apexes (active_zones all_zones)) s.name) served)
        counted

module _ ⦃u : Unicode⦄ {S : Type 0} (zones : Zones S) where
  abbrev pub converged : SyncReport → Zone → Op S SyncReport
  converged report zone = do
    done ← converge zones zone
    pure (record report {
      created = report.created + count_created done;
      rrsets_changed = report.rrsets_changed + done.rrsets_changed;
      keys_imported = report.keys_imported + done.keys_imported;
    })

  abbrev pub adopt_served : SyncReport → Zone → Option PdnsZone → Op S (Zone × SyncReport)
  adopt_served report zone none = pure (zone, report)
  adopt_served report zone (some current) = do
    n ← adopt zones zone current
    now ← looks_up (λ db. zone_by_name db zone.name)
    pure (now, record report { records_adopted = report.records_adopted + n })

  -- The loop body of `sync`.
  unfoldable pub sync_zone : Bool → List ZoneSummary → SyncReport → Zone → Op S SyncReport
  sync_zone force served report zone = do
    stamped ← version_of zones served zone
    if is_served served zone && not (is_some stamped)
        then (do
          current ← sends (Client.zone zones.server zone.name)
          next ← adopt_served report zone current
          converged next.1 next.0)
        else if not force && is_version zone.version stamped
        then pure report
        else converged report zone

  unfoldable pub sync_zones :
      Bool → List ZoneSummary → List Zone → List Str → SyncReport → Op S (List Str × SyncReport)
  sync_zones force served [] wanted report = pure (wanted, report)
  sync_zones force served (zone ∷ rest) wanted report = do
    keys ← reads (λ db. tsig_keys_of db zone.id)
    next ← sync_zone force served report zone
    sync_zones force served rest (wanted ++ map (λ k. k.name) keys) next

  unfoldable pub sync : Bool → Op S SyncReport
  sync force = do
    all_zones ← reads (λ db. list_zones db none)
    served ← sends (Client.zones zones.server)
    removed ← remove_unserved zones (apexes (active_zones all_zones)) served
    out ←
        sync_zones force served (active_zones all_zones) [] (record no_report { removed = removed })
    present ← sends (Client.tsig_keys zones.server)
    remove_matching zones (λ key. not (contains out.0 (trim_dots key.name))) present
    now ← status zones
    pure (record out.1 { status = now })
