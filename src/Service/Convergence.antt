-- ===== src/Service/Convergence.antt =====
-- crates/certo-pdns/src/zones.rs: making PowerDNS equal to the database, zone by zone and as a whole.
use certo.Prelude.{
  ℕ, ◌==◌, Bool, true, false, not, ◌&&◌, ◌||◌, Option, none, some, List, [], ◌∷◌, map,
  if◌then◌else◌, is_empty, any, length,
}
use certo.Text.{Str, Unicode, str, str_eq, trim_dots}
use certo.Names.{RrSet}
use certo.Core.{Zone, ZoneDnssec, ZoneTsigKey}
use certo.Sync.{Call, nothing, creates, patches, apex, desired_rrsets, converge_rrsets}
use certo.Db.Zones.{dnssec_of, tsig_keys_of}
use certo.Pdns.{PdnsZone, NewZone, CryptoKey, TsigKey}
use certo.Pdns.Client
use certo.Service.{Zones, Op, pure, ◌>>=◌, ◌>>◌, reads, sends}
use certo.Service.Stamps.{stamp}

abbrev pub nsec3_param : Str
nsec3_param = str "1 0 0 -"

abbrev pub allow_axfr_from : Str
allow_axfr_from = str "ALLOW-AXFR-FROM"

abbrev pub tsig_allow_axfr : Str
tsig_allow_axfr = str "TSIG-ALLOW-AXFR"

pub record Converged : Type 0 where
  pub created : Bool
  pub rrsets_changed : ℕ
  pub keys_imported : ℕ

abbrev unchanged : Converged
unchanged = record { created = false; rrsets_changed = 0; keys_imported = 0 }

abbrev rrsets_in : Option PdnsZone → Option (List RrSet)
rrsets_in none = none
rrsets_in (some z) = some z.rrsets

abbrev pub is_stored_key : Option ZoneDnssec → CryptoKey → Bool
is_stored_key none key = false
is_stored_key (some s) key = str_eq s.private_key key.privatekey

abbrev wants_nsec3 : Option ZoneDnssec → Bool
wants_nsec3 none = false
wants_nsec3 (some s) = s.nsec3

abbrev has_nsec3 : Option PdnsZone → Bool
has_nsec3 none = false
has_nsec3 (some z) = not (is_empty z.nsec3param)

abbrev nsec3_value : Bool → Option Str
nsec3_value true = some nsec3_param
nsec3_value false = none

abbrev same_flag : Bool → Bool → Bool
same_flag true b = b
same_flag false b = not b

abbrev has_tsig : List TsigKey → ZoneTsigKey → Bool
has_tsig present key = any (λ p. str_eq (trim_dots p.name) key.name) present

abbrev tsig_body : ZoneTsigKey → TsigKey
tsig_body key = record { id = []; name = key.name; algorithm = key.algorithm; key = key.secret }

abbrev zone_body : Str → List RrSet → NewZone
zone_body name desired = record { name = apex name; nameservers = []; rrsets = desired }

module _ ⦃u : Unicode⦄ {S : Type 0} (zones : Zones S) where
  -- The request that `Sync.converge_rrsets` finds.
  abbrev pub perform : Zone → Call → Op S Converged
  perform zone nothing = pure unchanged
  perform zone (creates desired) = do
    _ ← sends (Client.create_zone zones.server (zone_body zone.name desired))
    pure (record { created = true; rrsets_changed = length desired; keys_imported = 0 })
  perform zone (patches changes) = do
    sends (Client.patch_rrsets zones.server zone.name changes)
    pure (record { created = false; rrsets_changed = length changes; keys_imported = 0 })

  -- The loop over the keys of the server; the result tells whether the stored key is among them.
  unfoldable pub keep_stored_key : Zone → Option ZoneDnssec → Bool → List CryptoKey → Op S Bool
  keep_stored_key zone stored kept [] = pure kept
  keep_stored_key zone stored kept (key ∷ keys) = do
    full ← sends (Client.cryptokey zones.server zone.name key.id)
    now_kept ←
        if is_stored_key stored full && not kept
        then pure true
        else (sends (Client.delete_cryptokey zones.server zone.name key.id) >> pure kept)
    keep_stored_key zone stored now_kept keys

  abbrev pub import_missing : Zone → Bool → Option ZoneDnssec → Op S ℕ
  import_missing zone kept none = pure 0
  import_missing zone kept (some s) =
      if kept
      then pure 0
      else do _ ← sends (Client.import_csk zones.server zone.name s.private_key); pure 1

  unfoldable pub converge_dnssec : Zone → Option PdnsZone → Op S ℕ
  converge_dnssec zone served = do
    stored ← reads (λ db. dnssec_of db zone.id)
    keys ← sends (Client.cryptokeys zones.server zone.name)
    kept ← keep_stored_key zone stored false keys
    imported ← import_missing zone kept stored
    if same_flag (wants_nsec3 stored) (has_nsec3 served)
        then pure tt
        else sends (Client.set_nsec3param zones.server zone.name (nsec3_value (wants_nsec3 stored)))
    pure imported

  unfoldable pub create_missing_tsig : List TsigKey → List ZoneTsigKey → Op S (Unit {0})
  create_missing_tsig present [] = pure tt
  create_missing_tsig present (key ∷ keys) = do
    if has_tsig present key
        then pure tt
        else (do _ ← sends (Client.create_tsig_key zones.server (tsig_body key)); pure tt)
    create_missing_tsig present keys

  unfoldable pub converge_transfers : Zone → Op S (Unit {0})
  converge_transfers zone = do
    tsig ← reads (λ db. tsig_keys_of db zone.id)
    present ← sends (Client.tsig_keys zones.server)
    create_missing_tsig present tsig
    sends (Client.set_metadata zones.server zone.name tsig_allow_axfr (map (λ k. k.name) tsig))
    sends (Client.set_metadata zones.server zone.name allow_axfr_from zone.axfr_allow_from)

  unfoldable pub converge : Zone → Op S Converged
  converge zone = do
    desired ← reads (λ db. desired_rrsets db zones.policy zone)
    served ← sends (Client.zone zones.server zone.name)
    out ← perform zone (converge_rrsets zones.policy zone (rrsets_in served) desired)
    imported ← converge_dnssec zone served
    converge_transfers zone
    stamp zones zone.name zone.version
    if out.created || not (out.rrsets_changed == 0)
        then sends (Client.flush_cache zones.server zone.name)
        else pure tt
    pure (record out { keys_imported = imported })
