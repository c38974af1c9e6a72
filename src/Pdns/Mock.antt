-- ===== src/Pdns/Mock.antt =====
-- crates/certo-pdns/src/mock.rs: the PowerDNS API in memory. A map is an association list; the texts of
-- the errors that quote a request are left out, and serials do not wrap. Base64 is an argument.
use mathlib.Core.Option
use certo.Prelude.{
  ℕ, zero, suc, ◌+◌, ◌-◌, ◌==◌, Bool, true, not, ◌&&◌, ◌||◌, Option, none, some, List, [], ◌∷◌,
  ◌++◌, map, Result, ok, err, if◌then◌else◌, any, find, reject, is_empty, length, ltb,
}
use certo.Text.{Str, str, str_eq, split, starts_with, ends_with, strip_prefix, trim, utf8_len}
use certo.Text.Decimal.{to_string, parse_u32}
use certo.Names.{RrSet, RecordData, new_record}
use certo.Sync.{replacing, is_replace, patch_rrsets}
use certo.Pdns.{
  PdnsError, api, ZoneSummary, PdnsZone, NewZone, CryptoKey, NewKey, generated, imported, TsigKey,
  Api, Server,
}

pub record MockZone : Type 0 where
  pub name : Str
  pub serial : ℕ
  pub rrsets : List RrSet
  pub nsec3param : Str
  pub keys : List CryptoKey
  pub metadata : List (Str × List Str)

pub record Inner : Type 0 where
  pub zones : List MockZone
  pub tsig : List TsigKey
  pub next_key : ℕ

abbrev pub not_found : PdnsError
not_found = api 404 (str "Not Found")

abbrev pub unprocessable : Str → PdnsError
unprocessable message = api 422 message

abbrev has_active : List CryptoKey → Bool
has_active keys = any (λ k. k.active) keys

abbrev pub clear : RrSet → RrSet
clear rr = record rr { changetype = none }

abbrev pub cleared : List RrSet → List RrSet
cleared rrs = map clear rrs

abbrev pub zone_json : MockZone → PdnsZone
zone_json z = record {
  name = z.name;
  dnssec = has_active z.keys;
  serial = z.serial;
  nsec3param = z.nsec3param;
  rrsets = cleared z.rrsets;
}

abbrev pub key_json : CryptoKey → CryptoKey
key_json k = record k { privatekey = [] }

abbrev newline : Str
newline = 10 ∷ []

unfoldable pub private_key : ℕ → Str
private_key tag =
    str "Private-key-format: v1.2"
    ++ (newline
        ++ (str "Algorithm: 13 (ECDSAP256SHA256)"
            ++ (newline ++ (str "PrivateKey: mock" ++ (to_string tag ++ newline)))))

-- `find_map` over the lines.
unfoldable pub tag_line : List Str → Option Str
tag_line [] = none
tag_line (l ∷ ls) = elim (strip_prefix l (str "PrivateKey: mock")) [
  | some t ↦ some t
  | none ↦ tag_line ls
]

unfoldable pub key_tag : Str → Option ℕ
key_tag content = elim (tag_line (split 10 content)) [ none ↦ none | some t ↦ parse_u32 (trim t) ]

unfoldable pub list_zones : Api Inner (List ZoneSummary)
list_zones s = (
  ok (map (λ z. record { name = z.name; dnssec = has_active z.keys; serial = z.serial }) s.zones),
  s,
)

abbrev nameserver_set : Str → List Str → List RrSet
nameserver_set name [] = []
nameserver_set name (n ∷ ns) = replacing name (str "NS") 3600 (map new_record (n ∷ ns)) ∷ []

abbrev with_soa : Str → List RrSet → List RrSet
with_soa name rrs =
    if any (λ rr. str_eq rr.rtype (str "SOA")) rrs
    then rrs
    else rrs
      ++ (replacing name (str "SOA") 3600
            (new_record (str "ns. hostmaster. 1 10800 3600 604800 3600") ∷ [])
          ∷ [])

unfoldable pub built : NewZone → MockZone
built body = record {
  name = body.name;
  serial = 1;
  rrsets = cleared (with_soa body.name (body.rrsets ++ nameserver_set body.name body.nameservers));
  nsec3param = [];
  keys = [];
  metadata = [];
}

unfoldable pub create_zone : NewZone → Api Inner PdnsZone
unfolding built
create_zone body s =
    if not (ends_with body.name (str "."))
    then (err (unprocessable (str "Zone name must end with a dot")), s)
    else if any (λ z. str_eq z.name body.name) s.zones
    then (err (api 409 (str "Domain already exists")), s)
    else (ok (zone_json (built body)), record s { zones = s.zones ++ (built body ∷ []) })

abbrev pub in_zones :
    {A : Type 0} → Str → (MockZone → A × MockZone) → List MockZone → Option (A × List MockZone)
in_zones id f [] = none
in_zones id f (z ∷ zs) =
    let rest = Option.map (λ r. (r.0, z ∷ r.1)) (in_zones id f zs) in
    if str_eq z.name id then some ((f z).0, (f z).1 ∷ zs) else rest

-- A request to one zone, which is 404 if there is none of that name.
unfoldable pub with_zone :
    {A : Type 0} → Str → (MockZone → Result PdnsError A × MockZone) → Api Inner A
with_zone id f s = elim (in_zones id f s.zones) [
  | none ↦ (err not_found, s)
  | some r ↦ (r.0, record s { zones = r.1 })
]

unfoldable pub get_zone : Str → Api Inner PdnsZone
get_zone id = with_zone id (λ z. (ok (zone_json z), z))

unfoldable pub put_zone : Str → Str → Api Inner (Unit {0})
put_zone id param = with_zone id (λ z. (ok tt, record z { nsec3param = param }))

unfoldable pub delete_zone : Str → Api Inner (Unit {0})
delete_zone id s =
    let kept = reject (λ z. str_eq z.name id) s.zones in
    if length kept == length s.zones then (err not_found, s) else (ok tt, record s { zones = kept })

-- The guards of the loop of `patch_zone`.
unfoldable pub in_zone : Str → RrSet → Bool
in_zone id rr = ends_with rr.name (str ".") && (ends_with rr.name id || str_eq rr.name id)

abbrev quoted : RecordData → Bool
quoted r = not (
    ltb (utf8_len r.content) 2
    || not (starts_with r.content (str "\""))
    || not (ends_with r.content (str "\"")))

unfoldable pub bad_txt : RrSet → Bool
bad_txt rr =
    str_eq rr.rtype (str "TXT")
    && (is_replace rr.changetype && any (λ r. not (quoted r)) rr.records)

unfoldable pub check_changes : Str → List RrSet → Option PdnsError
unfolding in_zone bad_txt
check_changes id [] = none
check_changes id (rr ∷ rrs) =
    let rest = check_changes id rrs in
    if not (in_zone id rr)
    then some (unprocessable (str "Name is out of zone"))
    else if bad_txt rr
    then some (unprocessable (str "Parsing record content failed"))
    else rest

unfoldable pub patch_zone : Str → List RrSet → Api Inner (Unit {0})
unfolding check_changes
patch_zone id changes s = elim (check_changes id changes) [
  | some e ↦ (err e, s)
  | none ↦
      with_zone id
        (λ z. (ok tt, record z { rrsets = patch_rrsets z.rrsets changes; serial = z.serial + 1 })) s
]

unfoldable pub list_keys : Str → Api Inner (List CryptoKey)
list_keys id = with_zone id (λ z. (ok (map key_json z.keys), z))

abbrev pub new_key : ℕ → ℕ → CryptoKey
new_key id tag = record {
  id = id;
  keytype = str "csk";
  active = true;
  published = true;
  algorithm = str "ECDSAP256SHA256";
  dnskey = str "257 3 13 mockkey" ++ to_string tag;
  ds = (to_string tag ++ (str " 13 2 mockds" ++ to_string tag)) ∷ [];
  privatekey = private_key tag;
}

abbrev tag_of : ℕ → NewKey → Option ℕ
tag_of next (generated algorithm) = some next
tag_of next (imported content) = key_tag content

unfoldable pub add_key : Str → NewKey → Api Inner CryptoKey
add_key id body s =
    let next = s.next_key + 1 in
    let counted = record s { next_key = next } in
    elim (tag_of next body) [
      | none ↦ (err (unprocessable (str "Key could not be parsed")), counted)
      | some tag ↦
          with_zone id
            (λ z. (
              ok (key_json (new_key next tag)),
              record z { keys = z.keys ++ (new_key next tag ∷ []) },
            ))
            counted
    ]

abbrev pub or_not_found : {A : Type 0} → Option A → Result PdnsError A
or_not_found none = err not_found
or_not_found (some a) = ok a

unfoldable pub get_key : Str → ℕ → Api Inner CryptoKey
get_key id key = with_zone id (λ z. (or_not_found (find (λ k. k.id == key) z.keys), z))

unfoldable pub delete_key : Str → ℕ → Api Inner (Unit {0})
delete_key id key = with_zone id (λ z.
    let kept = reject (λ k. k.id == key) z.keys in
    if length kept == length z.keys then (err not_found, z) else (ok tt, record z { keys = kept }))

abbrev pub value_of : Str → List (Str × List Str) → Option (List Str)
value_of kind entries = Option.map (λ e. e.1) (find (λ e. str_eq e.0 kind) entries)

unfoldable pub get_metadata : Str → Str → Api Inner (List Str)
get_metadata id kind = with_zone id (λ z. (or_not_found (value_of kind z.metadata), z))

abbrev pub without : Str → List (Str × List Str) → List (Str × List Str)
without kind entries = reject (λ e. str_eq e.0 kind) entries

unfoldable pub put_metadata : Str → Str → List Str → Api Inner (Unit {0})
put_metadata id kind values =
    with_zone id (λ z. (ok tt, record z { metadata = (kind, values) ∷ without kind z.metadata }))

unfoldable pub delete_metadata : Str → Str → Api Inner (Unit {0})
delete_metadata id kind =
    with_zone id (λ z. (ok tt, record z { metadata = without kind z.metadata }))

unfoldable pub list_tsig : Api Inner (List TsigKey)
list_tsig s = (ok s.tsig, s)

unfoldable pub zeros : ℕ → Str
zeros zero = []
zeros (suc n) = b'0' ∷ zeros n

-- `format!("mock-secret-{n:0>20}")`
unfoldable pub secret_text : ℕ → Str
secret_text n = str "mock-secret-" ++ (zeros (20 - utf8_len (to_string n)) ++ to_string n)

module _ (base64 : Str → Str) where
  abbrev pub created_tsig : Inner → TsigKey → TsigKey
  created_tsig s body = record body {
    id = body.name ++ str ".";
    key = if is_empty body.key then base64 (secret_text (length s.tsig)) else body.key;
  }

  unfoldable pub add_tsig : TsigKey → Api Inner TsigKey
  add_tsig body s =
      if any (λ k. str_eq k.name body.name) s.tsig
      then (err (api 409 (str "A TSIG key with the name already exists")), s)
      else (ok (created_tsig s body), record s { tsig = s.tsig ++ (created_tsig s body ∷ []) })

  unfoldable pub delete_tsig : Str → Api Inner (Unit {0})
  delete_tsig id s =
      let kept = reject (λ k. str_eq k.id id) s.tsig in
      if length kept == length s.tsig then (err not_found, s) else (ok tt, record s { tsig = kept })

  -- The routes of `MockPdns::start`.
  abbrev pub mock : Server Inner
  mock = record {
    get_zones = list_zones;
    post_zone = create_zone;
    get_zone = get_zone;
    put_zone = put_zone;
    remove_zone = delete_zone;
    patch_zone = patch_zone;
    get_keys = list_keys;
    post_key = add_key;
    get_key = get_key;
    remove_key = delete_key;
    get_metadata = get_metadata;
    put_metadata = put_metadata;
    remove_metadata = delete_metadata;
    put_flush = λ id s. (ok tt, s);
    get_tsig = list_tsig;
    post_tsig = add_tsig;
    remove_tsig = delete_tsig;
  }
