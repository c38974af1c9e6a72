-- ===== src/Service/Records.antt =====
-- crates/certo-pdns/src/zones.rs: the records and the DNSSEC key of an active zone.
pub mod Refusals
use certo.Prelude.{
  ℕ, Bool, true, false, not, ◌||◌, Option, none, some, List, [], ◌∷◌, map, if◌then◌else◌, is_empty,
  find,
}
use certo.Text.{Str, str, str_eq, contains}
use certo.Names.{RrSet, RrSetChange, validate_changes, invalid_nsec_mode}
use certo.Core.{Zone, ZoneDnssec}
use certo.Sync.{to_change, to_stored}
use certo.Db.{Db}
use certo.Db.Zones.{rrsets_of, apply_zone_rrsets, dnssec_of, set_zone_dnssec}
use certo.Pdns.{CryptoKey}
use certo.Pdns.Client
use certo.Service.{
  Zones, World, invalid, Op, pure, ◌>>=◌, ◌>>◌, require, checked, reads, transacts, sends,
}
use certo.Service.Stamps.{stamp, require_active}
use certo.Service.Convergence.{nsec3_param}

abbrev pub dnssec_algorithm : Str
dnssec_algorithm = str "ecdsa256"

abbrev pub nsec_modes : List Str
nsec_modes = str "nsec" ∷ str "nsec3" ∷ []

pub record DnssecInfo : Type 0 where
  pub enabled : Bool
  pub nsec_mode : Str
  pub dnskey : Option Str
  pub ds : List Str

abbrev disabled : DnssecInfo
disabled = record { enabled = false; nsec_mode = str "nsec"; dnskey = none; ds = [] }

abbrev is_active_key : CryptoKey → Bool
is_active_key k = k.active

-- The published key, if it is not empty.
abbrev dnskey_of : Option CryptoKey → Option Str
dnskey_of none = none
dnskey_of (some k) = if is_empty k.dnskey then none else some k.dnskey

abbrev ds_of : Option CryptoKey → List Str
ds_of none = []
ds_of (some k) = k.ds

abbrev info_of : ZoneDnssec → Option CryptoKey → DnssecInfo
info_of stored key = record {
  enabled = true;
  nsec_mode = if stored.nsec3 then str "nsec3" else str "nsec";
  dnskey = dnskey_of key;
  ds = ds_of key;
}

abbrev param_of : Str → Option Str
param_of mode = if str_eq mode (str "nsec3") then some nsec3_param else none

abbrev signing : Str → CryptoKey → ZoneDnssec
signing mode full = record {
  nsec3 = str_eq mode (str "nsec3");
  algorithm = full.algorithm;
  private_key = full.privatekey;
}

module _ {S : Type 0} (zones : Zones S) where
  unfoldable pub rrsets : Zone → Op S (List RrSet)
  rrsets zone = do
    require_active zone
    rows ← reads (λ db. rrsets_of db zone.id)
    pure (map (λ rr. record (to_change rr) { changetype = none }) rows)

  -- PowerDNS checks the changes before they are stored.
  unfoldable pub patch_rrsets : Zone → List RrSetChange → Op S (Unit {0})
  patch_rrsets zone changes = do
    require_active zone
    rrs ← checked (validate_changes zone.name changes)
    sends (Client.patch_rrsets zones.server zone.name rrs)
    version ← transacts (λ db. apply_zone_rrsets db zone.id (map to_stored rrs))
    stamp zones zone.name version

  abbrev pub dnssec_info : Zone → Option ZoneDnssec → Op S DnssecInfo
  dnssec_info zone none = pure disabled
  dnssec_info zone (some stored) = do
    keys ← sends (Client.cryptokeys zones.server zone.name)
    pure (info_of stored (find is_active_key keys))

  unfoldable pub dnssec : Zone → Op S DnssecInfo
  dnssec zone = do
    require_active zone
    stored ← reads (λ db. dnssec_of db zone.id)
    dnssec_info zone stored

  abbrev pub active_or_new : Zone → Option CryptoKey → Op S CryptoKey
  active_or_new zone (some k) = pure k
  active_or_new zone none = sends (Client.add_csk zones.server zone.name dnssec_algorithm)

  unfoldable pub delete_keys : Zone → List CryptoKey → Op S (Unit {0})
  delete_keys zone [] = pure tt
  delete_keys zone (key ∷ keys) = do
    sends (Client.delete_cryptokey zones.server zone.name key.id)
    delete_keys zone keys

  abbrev pub switch_dnssec : Zone → Bool → Str → List CryptoKey → Op S ℕ
  switch_dnssec zone true mode keys = do
    key ← active_or_new zone (find is_active_key keys)
    sends (Client.set_nsec3param zones.server zone.name (param_of mode))
    full ← sends (Client.cryptokey zones.server zone.name key.id)
    transacts (λ db. set_zone_dnssec db zone.id (some (signing mode full)))
  switch_dnssec zone false mode keys = do
    delete_keys zone keys
    sends (Client.set_nsec3param zones.server zone.name none)
    transacts (λ db. set_zone_dnssec db zone.id none)

  unfoldable pub set_dnssec : Zone → Bool → Str → Op S DnssecInfo
  set_dnssec zone enabled mode = do
    require_active zone
    require (contains nsec_modes mode) (invalid invalid_nsec_mode)
    keys ← sends (Client.cryptokeys zones.server zone.name)
    version ← switch_dnssec zone enabled mode keys
    stamp zones zone.name version
    dnssec zone
