-- ===== src/Service/Transfers.antt =====
-- crates/certo-pdns/src/zones.rs: who may transfer an active zone.
use certo.Prelude.{
  not, ◌==◌, Option, none, some, List, [], ◌∷◌, ◌++◌, map, if◌then◌else◌, Result, ok, err, any,
}
use certo.Text.{Str, Unicode, str, str_eq, contains, trim, trim_dots, to_ascii_lowercase}
use certo.Names.{Code, invalid_cidr, invalid_algorithm, tsig_key_exists, parse_key_name}
use certo.Core.{Zone, ZoneTsigKey}
use certo.Db.Zones.{
  zone_by_name, tsig_keys_of, set_zone_axfr_allow_from, add_zone_tsig_key, delete_zone_tsig_key,
}
use certo.Pdns.{PdnsError, http, api, TsigKey}
use certo.Pdns.Client
use certo.Service.{
  Zones, ZoneOpError, invalid, from_pdns, Op, pure, ◌>>=◌, ◌>>◌, require, checked, reads, looks_up,
  transacts, sends, sends_or,
}
use certo.Service.Stamps.{stamp, require_active}
use certo.Service.Convergence.{allow_axfr_from, tsig_allow_axfr}
use certo.Service.Syncing.{remove_pdns_tsig_keys}

abbrev pub tsig_algorithms : List Str
tsig_algorithms = str "hmac-sha256" ∷ str "hmac-sha384" ∷ str "hmac-sha512" ∷ []

pub record TsigKeyInfo : Type 0 where
  pub name : Str
  pub algorithm : Str

pub record TransferInfo : Type 0 where
  pub allow_from : List Str
  pub tsig_keys : List TsigKeyInfo

abbrev key_info : ZoneTsigKey → TsigKeyInfo
key_info k = record { name = k.name; algorithm = k.algorithm }

-- The networks of the entries, or the error of the first that is none.
unfoldable pub parse_nets : (Str → Option Str) → List Str → Result Code (List Str)
parse_nets parse_net [] = ok []
parse_nets parse_net (entry ∷ entries) =
    with_rest (parse_net (trim entry)) (parse_nets parse_net entries)
  where
    with_rest : Option Str → Result Code (List Str) → Result Code (List Str)
    with_rest none rest = err invalid_cidr
    with_rest (some net) (err code) = err code
    with_rest (some net) (ok nets) = ok (net ∷ nets)

-- The server has a key of that name.
abbrev creation_error : PdnsError → ZoneOpError
creation_error http = from_pdns http
creation_error (api status message) =
    if status == 409 then invalid tsig_key_exists else from_pdns (api status message)

abbrev new_tsig : Str → Str → TsigKey
new_tsig name algorithm = record { id = []; name = name; algorithm = algorithm; key = [] }

module _ ⦃u : Unicode⦄ {S : Type 0} (zones : Zones S) where
  unfoldable pub transfer : Zone → Op S TransferInfo
  transfer zone = do
    require_active zone
    current ← looks_up (λ db. zone_by_name db zone.name)
    keys ← reads (λ db. tsig_keys_of db zone.id)
    pure (record { allow_from = current.axfr_allow_from; tsig_keys = map key_info keys })

  unfoldable pub set_transfer_allow_from : Zone → List Str → Op S TransferInfo
  set_transfer_allow_from zone allow_from = do
    require_active zone
    nets ← checked (parse_nets zones.parse_net allow_from)
    sends (Client.set_metadata zones.server zone.name allow_axfr_from nets)
    version ← transacts (λ db. set_zone_axfr_allow_from db zone.id nets)
    stamp zones zone.name version
    transfer zone

module _ {S : Type 0} (zones : Zones S) where
  unfoldable pub add_tsig_key : Zone → Str → Str → Op S (TsigKeyInfo × Str)
  add_tsig_key zone given algorithm = do
    require_active zone
    name ← checked (parse_key_name given)
    require (contains tsig_algorithms algorithm) (invalid invalid_algorithm)
    existing ← reads (λ db. tsig_keys_of db zone.id)
    require (not (any (λ k. str_eq k.name name) existing)) (invalid tsig_key_exists)
    created ←
        sends_or creation_error (Client.create_tsig_key zones.server (new_tsig name algorithm))
    version ← transacts (λ db.
        add_zone_tsig_key db zone.id
          (record { name = name; algorithm = created.algorithm; secret = created.key }))
    sends (
        Client.set_metadata zones.server zone.name tsig_allow_axfr
          (map (λ k. k.name) existing ++ (name ∷ [])))
    stamp zones zone.name version
    pure (record { name = name; algorithm = created.algorithm }, created.key)

  unfoldable pub delete_tsig_key : Zone → Str → Op S (Unit {0})
  delete_tsig_key zone given = do
    require_active zone
    let name = to_ascii_lowercase (trim_dots (trim given))
    version ← transacts (λ db. delete_zone_tsig_key db zone.id name)
    remaining ← reads (λ db. tsig_keys_of db zone.id)
    sends (Client.set_metadata zones.server zone.name tsig_allow_axfr (map (λ k. k.name) remaining))
    remove_pdns_tsig_keys zones (name ∷ [])
    stamp zones zone.name version
