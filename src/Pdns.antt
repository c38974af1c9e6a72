-- ===== src/Pdns.antt =====
-- crates/certo-pdns/src/client.rs and lib.rs: the PowerDNS API as certo sees it. The server itself is
-- not code of the repository: `Server` names its endpoints, each a function of the server's state.
pub mod Client
pub mod Mock
pub mod Answers
use certo.Prelude.{ℕ, Bool, true, false, Option, List, Result, ok, err, ◌==◌}
use certo.Text.{Str}
use certo.Names.{RrSet}

-- The errors that the client can meet: no answer, and an answer that refuses the request. The others
-- belong to the start of the server.
pub data PdnsError : Type 0 where
  http : PdnsError
  api : (status : ℕ) → (message : Str) → PdnsError

unfoldable pub is_not_found : PdnsError → Bool
is_not_found http = false
is_not_found (api status message) = status == 404

-- The kind is always `Native`.
pub record ZoneSummary : Type 0 where
  pub name : Str
  pub dnssec : Bool
  pub serial : ℕ

-- `Zone` of client.rs.
pub record PdnsZone : Type 0 where
  pub name : Str
  pub dnssec : Bool
  pub serial : ℕ
  pub nsec3param : Str
  pub rrsets : List RrSet

-- The kind and `soa_edit_api` are constants.
pub record NewZone : Type 0 where
  pub name : Str
  pub nameservers : List Str
  pub rrsets : List RrSet

pub record CryptoKey : Type 0 where
  pub id : ℕ
  pub keytype : Str
  pub active : Bool
  pub published : Bool
  pub algorithm : Str
  pub dnskey : Str
  pub ds : List Str
  pub privatekey : Str

-- The body of a key's creation: an algorithm, or the content of a private key.
pub data NewKey : Type 0 where
  generated : (algorithm : Str) → NewKey
  imported : (content : Str) → NewKey

-- An empty `key` in a creation asks the server for a secret.
pub record TsigKey : Type 0 where
  pub id : Str
  pub name : Str
  pub algorithm : Str
  pub key : Str

-- A request to a server with states `S`.
abbrev pub Api : Type 0 → Type 0 → Type 0
Api S A = S → Result PdnsError A × S

pub record Server (S : Type 0) : Type 0 where
  pub get_zones : Api S (List ZoneSummary)
  pub post_zone : NewZone → Api S PdnsZone
  pub get_zone : Str → Api S PdnsZone
  pub put_zone : Str → Str → Api S (Unit {0})
  pub remove_zone : Str → Api S (Unit {0})
  pub patch_zone : Str → List RrSet → Api S (Unit {0})
  pub get_keys : Str → Api S (List CryptoKey)
  pub post_key : Str → NewKey → Api S CryptoKey
  pub get_key : Str → ℕ → Api S CryptoKey
  pub remove_key : Str → ℕ → Api S (Unit {0})
  pub get_metadata : Str → Str → Api S (List Str)
  pub put_metadata : Str → Str → List Str → Api S (Unit {0})
  pub remove_metadata : Str → Str → Api S (Unit {0})
  pub put_flush : Str → Api S (Unit {0})
  pub get_tsig : Api S (List TsigKey)
  pub post_tsig : TsigKey → Api S TsigKey
  pub remove_tsig : Str → Api S (Unit {0})
