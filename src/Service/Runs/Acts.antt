-- ===== src/Service/Runs/Acts.antt =====
-- The zone service as a transition system: one operation, by any requester and with any answers of
-- the server and of the delegation checks, one call of the store, or a change of the server's own.
use certo.Prelude.{ℕ, ◌≡◌, Bool, Option, List}
use certo.Text.{Unicode, Str}
use certo.Names.{RrSetChange}
use certo.Core.{Zone}
use certo.Db.{Db}
use certo.Db.Step.{Step}
use certo.Service.{Zones, World}
use certo.Service.Seed.{ensure_base_zone, sync_txt, set_own_challenge}
use certo.Service.Syncing.{sync}
use certo.Service.Lifecycle.{create, verify, set_exempt, delete, remove_user_zones}
use certo.Service.Records.{patch_rrsets, set_dnssec}
use certo.Service.Transfers.{set_transfer_allow_from, add_tsig_key, delete_tsig_key}
use certo.Service.Checking.{run_checks}
use certo.Service.Runs.{Run-Preorder}

module _ ⦃u : Unicode⦄ (sha256 : Str → List ℕ) {S : Type 0} where
  pub data Act (w : World S) : World S → Type 0 where
    calls_store : {db' : Db} → Step sha256 w.db db' → Act w (record w { db = db' })
    server_moves : (s : S) → Act w (record w { pdns = s })
    ensures_base_zone :
        {w' : World S} (zones : Zones S) (time : ℕ) (seed : List Str)
        → (ensure_base_zone zones time seed w).1 ≡ w'
        → Act w w'
    syncs_txt :
        {w' : World S} (zones : Zones S) (name : Str) → (sync_txt zones name w).1 ≡ w' → Act w w'
    sets_own_challenge :
        {w' : World S} (zones : Zones S) (value : Option Str)
        → (set_own_challenge zones value w).1 ≡ w'
        → Act w w'
    syncs : {w' : World S} (zones : Zones S) (force : Bool) → (sync zones force w).1 ≡ w' → Act w w'
    creates :
        {w' : World S} (zones : Zones S) (time : ℕ) (user_id : Option ℕ) (name : Str)
        → (create zones time user_id name w).1 ≡ w'
        → Act w w'
    verifies :
        {w' : World S} (zones : Zones S) (time : ℕ) (zone : Zone)
        → (verify zones time zone w).1 ≡ w'
        → Act w w'
    exempts :
        {w' : World S} (zones : Zones S) (time : ℕ) (zone : Zone) (exempt : Bool)
        → (set_exempt zones time zone exempt w).1 ≡ w'
        → Act w w'
    deletes :
        {w' : World S} (zones : Zones S) (zone : Zone) → (delete zones zone w).1 ≡ w' → Act w w'
    removes_user_zones :
        {w' : World S} (zones : Zones S) (user_id : ℕ)
        → (remove_user_zones zones user_id w).1 ≡ w'
        → Act w w'
    patches_rrsets :
        {w' : World S} (zones : Zones S) (zone : Zone) (changes : List RrSetChange)
        → (patch_rrsets zones zone changes w).1 ≡ w'
        → Act w w'
    sets_signing :
        {w' : World S} (zones : Zones S) (zone : Zone) (enabled : Bool) (mode : Str)
        → (set_dnssec zones zone enabled mode w).1 ≡ w'
        → Act w w'
    sets_transfer :
        {w' : World S} (zones : Zones S) (zone : Zone) (allow_from : List Str)
        → (set_transfer_allow_from zones zone allow_from w).1 ≡ w'
        → Act w w'
    adds_key :
        {w' : World S} (zones : Zones S) (zone : Zone) (name algorithm : Str)
        → (add_tsig_key zones zone name algorithm w).1 ≡ w'
        → Act w w'
    deletes_key :
        {w' : World S} (zones : Zones S) (zone : Zone) (name : Str)
        → (delete_tsig_key zones zone name w).1 ≡ w'
        → Act w w'
    checks_zones :
        {w' : World S} (zones : Zones S) (time : ℕ) → (run_checks zones time w).1 ≡ w' → Act w w'

  -- A history of the service, the latest act last.
  pub data Acts (w : World S) : World S → Type 0 where
    start : Acts w w
    then_act : {mid w' : World S} → Acts w mid → Act mid w' → Acts w w'
