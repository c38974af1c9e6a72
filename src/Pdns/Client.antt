-- ===== src/Pdns/Client.antt =====
-- crates/certo-pdns/src/client.rs, `impl Client`: each method is one request to the server, with the
-- answer 404 read as the code reads it.
use certo.Prelude.{ℕ, Option, none, some, List, [], ◌∷◌, ◌++◌, Result, ok, err, if◌then◌else◌}
use certo.Text.{Str, str, trim_dots, to_ascii_lowercase}
use certo.Names.{RrSet}
use certo.Pdns.{
  PdnsError, is_not_found, ZoneSummary, PdnsZone, NewZone, CryptoKey, generated, imported, TsigKey,
  Api, Server,
}

-- The server's name of a zone.
unfoldable pub zone_id : Str → Str
zone_id name = to_ascii_lowercase (trim_dots name) ++ str "."

-- An answer, with a value in the place of 404.
abbrev pub or_missing : {A S : Type 0} → A → Result PdnsError A × S → Result PdnsError A × S
or_missing a (ok r, s) = (ok r, s)
or_missing a (err e, s) = (if is_not_found e then ok a else err e, s)

abbrev pub found : {A S : Type 0} → Result PdnsError A × S → Result PdnsError (Option A) × S
found (ok r, s) = (ok (some r), s)
found (err e, s) = (if is_not_found e then ok none else err e, s)

module _ {S : Type 0} (server : Server S) where
  unfoldable pub zones : Api S (List ZoneSummary)
  zones = server.get_zones

  unfoldable pub zone : Str → Api S (Option PdnsZone)
  zone name s = found (server.get_zone (zone_id name) s)

  unfoldable pub create_zone : NewZone → Api S PdnsZone
  create_zone = server.post_zone

  unfoldable pub delete_zone : Str → Api S (Unit {0})
  delete_zone name s = or_missing tt (server.remove_zone (zone_id name) s)

  unfoldable pub flush_cache : Str → Api S (Unit {0})
  flush_cache name = server.put_flush (zone_id name)

  unfoldable pub patch_rrsets : Str → List RrSet → Api S (Unit {0})
  patch_rrsets name = server.patch_zone (zone_id name)

  unfoldable pub set_nsec3param : Str → Option Str → Api S (Unit {0})
  set_nsec3param name none = server.put_zone (zone_id name) []
  set_nsec3param name (some param) = server.put_zone (zone_id name) param

  unfoldable pub cryptokeys : Str → Api S (List CryptoKey)
  cryptokeys name = server.get_keys (zone_id name)

  unfoldable pub cryptokey : Str → ℕ → Api S CryptoKey
  cryptokey name = server.get_key (zone_id name)

  unfoldable pub add_csk : Str → Str → Api S CryptoKey
  add_csk name algorithm = server.post_key (zone_id name) (generated algorithm)

  unfoldable pub import_csk : Str → Str → Api S CryptoKey
  import_csk name content = server.post_key (zone_id name) (imported content)

  unfoldable pub delete_cryptokey : Str → ℕ → Api S (Unit {0})
  delete_cryptokey name = server.remove_key (zone_id name)

  unfoldable pub metadata : Str → Str → Api S (List Str)
  metadata name kind s = or_missing [] (server.get_metadata (zone_id name) kind s)

  unfoldable pub set_metadata : Str → Str → List Str → Api S (Unit {0})
  set_metadata name kind [] s = or_missing tt (server.remove_metadata (zone_id name) kind s)
  set_metadata name kind (v ∷ vs) s = server.put_metadata (zone_id name) kind (v ∷ vs) s

  unfoldable pub tsig_keys : Api S (List TsigKey)
  tsig_keys = server.get_tsig

  unfoldable pub create_tsig_key : TsigKey → Api S TsigKey
  create_tsig_key = server.post_tsig

  unfoldable pub delete_tsig_key : Str → Api S (Unit {0})
  delete_tsig_key = server.remove_tsig
