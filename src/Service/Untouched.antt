-- ===== src/Service/Untouched.antt =====
-- The operations that read the database and write to PowerDNS only keep every preorder on databases.
use certo.Prelude.{ℕ, Bool, Option, none, some, List, [], ◌∷◌}
use certo.Text.{Unicode, Str}
use certo.Core.{Zone, ZoneDnssec, ZoneTsigKey}
use certo.Sync.{Call, nothing, creates, patches}
use certo.Db.{Db}
use certo.Pdns.{CryptoKey, PdnsZone, ZoneSummary, TsigKey}
use certo.Service.{Zones}
use certo.Service.Keeping.{Keeps, Preorder, keeping}
use certo.Service.Stamps.{stamp}
use certo.Service.Seed.{sync_txt, set_own_challenge}
use certo.Service.Convergence.{
  perform, keep_stored_key, import_missing, converge_dnssec, create_missing_tsig,
  converge_transfers, converge,
}
use certo.Service.Syncing.{
  remove_matching, remove_pdns_tsig_keys, remove_unserved, SyncStatus, status_of_zones,
  status_of_others, status,
}
use certo.Service.Lifecycle.{remove_from_pdns, remove_each, remove_user_zones, served_now}
use certo.Service.Records.{delete_keys, dnssec_info, dnssec, rrsets}
use certo.Service.Transfers.{transfer}

module _ {S : Type 0} (zones : Zones S) {R : Db → Db → Type 0} ⦃order : Preorder R⦄ where
  pub stamp-Keeps : (name : Str) (version : ℕ) → Keeps R (stamp zones name version)
  unfolding stamp
  stamp-Keeps name version = search keeping

  pub remove_matching-Keeps :
      (p : TsigKey → Bool) (keys : List TsigKey) → Keeps R (remove_matching zones p keys)
  unfolding remove_matching
  remove_matching-Keeps p [] = search keeping
  remove_matching-Keeps p (key ∷ keys) =
      let rest = remove_matching-Keeps p keys in search keeping depth 12

  pub remove_pdns_tsig_keys-Keeps : (names : List Str) → Keeps R (remove_pdns_tsig_keys zones names)
  unfolding remove_pdns_tsig_keys
  remove_pdns_tsig_keys-Keeps [] = search keeping
  remove_pdns_tsig_keys-Keeps (n ∷ ns) = search (keeping, remove_matching-Keeps) depth 12

  pub remove_unserved-Keeps :
      (active : List Str) (served : List ZoneSummary)
      → Keeps R (remove_unserved zones active served)
  unfolding remove_unserved
  remove_unserved-Keeps active [] = search keeping
  remove_unserved-Keeps active (s ∷ rest) =
      let later = remove_unserved-Keeps active rest in search keeping depth 12

  pub status_of_zones-Keeps :
      (served : List ZoneSummary) (zs : List Zone) (counted : SyncStatus)
      → Keeps R (status_of_zones zones served zs counted)
  unfolding status_of_zones
  status_of_zones-Keeps served [] counted = search keeping
  status_of_zones-Keeps served (z ∷ zs) counted =
      let rest = λ (s : SyncStatus). status_of_zones-Keeps served zs s in search keeping depth 12

  pub status_of_others-Keeps :
      (served : List ZoneSummary) (counted : SyncStatus)
      → Keeps R (status_of_others zones served counted)
  unfolding status_of_others
  status_of_others-Keeps [] counted = search keeping
  status_of_others-Keeps (z ∷ zs) counted =
      let rest = λ (s : SyncStatus). status_of_others-Keeps zs s in search keeping depth 12

  pub status-Keeps : Keeps R (status zones)
  unfolding status
  status-Keeps = search (keeping, status_of_zones-Keeps, status_of_others-Keeps) depth 12

  pub remove_from_pdns-Keeps : (zone : Zone) → Keeps R (remove_from_pdns zones zone)
  unfolding remove_from_pdns
  remove_from_pdns-Keeps zone = search (keeping, remove_pdns_tsig_keys-Keeps) depth 12

  pub remove_each-Keeps : (zs : List Zone) → Keeps R (remove_each zones zs)
  unfolding remove_each
  remove_each-Keeps [] = search keeping
  remove_each-Keeps (z ∷ zs) =
      let rest = remove_each-Keeps zs in search (keeping, remove_from_pdns-Keeps) depth 12

  pub remove_user_zones-Keeps : (user_id : ℕ) → Keeps R (remove_user_zones zones user_id)
  unfolding remove_user_zones
  remove_user_zones-Keeps user_id = search (keeping, remove_each-Keeps) depth 12

  pub delete_keys-Keeps :
      (zone : Zone) (keys : List CryptoKey) → Keeps R (delete_keys zones zone keys)
  unfolding delete_keys
  delete_keys-Keeps zone [] = search keeping
  delete_keys-Keeps zone (k ∷ ks) = let rest = delete_keys-Keeps zone ks in search keeping depth 12

  dnssec_info-Keeps :
      (zone : Zone) (stored : Option ZoneDnssec) → Keeps R (dnssec_info zones zone stored)
  dnssec_info-Keeps zone none = search keeping
  dnssec_info-Keeps zone (some s) = search keeping depth 12

  pub dnssec-Keeps : (zone : Zone) → Keeps R (dnssec zones zone)
  unfolding dnssec
  dnssec-Keeps zone = search (keeping, dnssec_info-Keeps) depth 12

  pub rrsets-Keeps : (zone : Zone) → Keeps R (rrsets zones zone)
  unfolding rrsets
  rrsets-Keeps zone = search keeping depth 12

module _ ⦃u : Unicode⦄ {S : Type 0} (zones : Zones S) {R : Db → Db → Type 0}
    ⦃order : Preorder R⦄ where
  perform-Keeps : (zone : Zone) (call : Call) → Keeps R (perform zones zone call)
  perform-Keeps zone nothing = search keeping
  perform-Keeps zone (creates desired) = search keeping depth 12
  perform-Keeps zone (patches changes) = search keeping depth 12

  keep_stored_key-Keeps :
      (zone : Zone) (stored : Option ZoneDnssec) (kept : Bool) (keys : List CryptoKey)
      → Keeps R (keep_stored_key zones zone stored kept keys)
  unfolding keep_stored_key
  keep_stored_key-Keeps zone stored kept [] = search keeping
  keep_stored_key-Keeps zone stored kept (key ∷ keys) =
      let rest = λ (k : Bool). keep_stored_key-Keeps zone stored k keys in search keeping depth 12

  import_missing-Keeps :
      (zone : Zone) (kept : Bool) (stored : Option ZoneDnssec)
      → Keeps R (import_missing zones zone kept stored)
  import_missing-Keeps zone kept none = search keeping
  import_missing-Keeps zone kept (some s) = search keeping depth 12

  converge_dnssec-Keeps :
      (zone : Zone) (served : Option PdnsZone) → Keeps R (converge_dnssec zones zone served)
  unfolding converge_dnssec
  converge_dnssec-Keeps zone served =
      search (keeping, keep_stored_key-Keeps, import_missing-Keeps) depth 20

  create_missing_tsig-Keeps :
      (present : List TsigKey) (keys : List ZoneTsigKey)
      → Keeps R (create_missing_tsig zones present keys)
  unfolding create_missing_tsig
  create_missing_tsig-Keeps present [] = search keeping
  create_missing_tsig-Keeps present (k ∷ ks) =
      let rest = create_missing_tsig-Keeps present ks in search keeping depth 12

  converge_transfers-Keeps : (zone : Zone) → Keeps R (converge_transfers zones zone)
  unfolding converge_transfers
  converge_transfers-Keeps zone = search (keeping, create_missing_tsig-Keeps) depth 12

  pub converge-Keeps : (zone : Zone) → Keeps R (converge zones zone)
  unfolding converge
  converge-Keeps zone =
      search (keeping, perform-Keeps, converge_dnssec-Keeps, converge_transfers-Keeps, stamp-Keeps)
        depth 20

  pub transfer-Keeps : (zone : Zone) → Keeps R (transfer zones zone)
  unfolding transfer
  transfer-Keeps zone = search keeping depth 12

  pub served_now-Keeps : (zone : Zone) → Keeps R (served_now zones zone)
  served_now-Keeps zone = search keeping depth 12

  pub sync_txt-Keeps : (name : Str) → Keeps R (sync_txt zones name)
  unfolding sync_txt
  sync_txt-Keeps name = search (keeping, stamp-Keeps) depth 12

  pub set_own_challenge-Keeps : (v : Option Str) → Keeps R (set_own_challenge zones v)
  unfolding set_own_challenge
  set_own_challenge-Keeps v = search keeping
