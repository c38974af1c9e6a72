-- ===== src/Names.antt =====
-- crates/certo-pdns/src/names.rs: validation of zone names and of rrset changes, before they reach
-- PowerDNS. Error messages are left out; the machine-readable codes are the constructors of `Code`.
pub mod Inside
pub mod Changes
pub mod Owner
pub mod Txt
pub mod Canonical
use certo.Prelude.{
  ℕ, Bool, true, false, not, ◌&&◌, ◌||◌, Option, none, some, List, [], ◌∷◌, ◌++◌, map, ltb, leb,
  ◌==◌, if◌then◌else◌, Result, ok, err, ◌>>=◌, ◌>>◌, guard, length, is_empty, all, reject,
}
use certo.Text.{
  Str, str, str_eq, contains, starts_with, ends_with, strip_dot, split, trim, utf8_len,
  replace_char, to_ascii_lowercase, to_ascii_uppercase,
}

-- The `code` of `ZoneOpError::Invalid`.
pub data Code : Type 0 where
  invalid_name name_outside_zone empty_change unsupported_type invalid_ttl invalid_data : Code
  cname_at_apex ptr_outside_reverse_zone : Code
  invalid_nsec_mode invalid_algorithm tsig_key_exists invalid_cidr pdns_rejected : Code

pub data ChangeType : Type 0 where
  replace delete : ChangeType

-- crates/certo-pdns/src/client.rs: an rrset or a change of one.
pub record RecordData : Type 0 where
  pub content : Str
  pub disabled : Bool

-- `RecordData::new`
abbrev pub new_record : Str → RecordData
new_record content = record { content = content; disabled = false }

pub record RrSet : Type 0 where
  pub name : Str
  pub rtype : Str
  pub ttl : ℕ
  pub changetype : Option ChangeType
  pub records : List RecordData

pub record RrSetChange : Type 0 where
  pub name : Str
  pub rtype : Str
  pub ttl : Option ℕ
  pub changetype : Option ChangeType
  pub records : List Str

abbrev pub supported_types : List Str
supported_types =
    str "A"
    ∷ str "AAAA"
    ∷ str "CAA"
    ∷ str "CNAME"
    ∷ str "MX"
    ∷ str "NS"
    ∷ str "PTR"
    ∷ str "SRV"
    ∷ str "TXT"
    ∷ []

abbrev pub default_ttl : ℕ
default_ttl = 3600

abbrev pub max_ttl : ℕ
max_ttl = 2147483647

unfoldable pub label_char : ℕ → Bool
label_char b = (leb b'a' b && leb b b'z') || (leb b'0' b && leb b b'9') || b == b'-' || b == b'_'

unfoldable pub valid_label : Str → Bool → Bool
valid_label label allow_wildcard =
    if is_empty label || ltb 63 (utf8_len label)
    then false
    else if str_eq label (str "*")
    then allow_wildcard
    else all label_char label
      && not (starts_with label (str "-"))
      && not (ends_with label (str "-"))

-- The loop over the labels: only the first may be the wildcard.
unfoldable pub valid_labels : Bool → List Str → Bool
valid_labels allow_wildcard [] = true
valid_labels allow_wildcard (l ∷ ls) = valid_label l allow_wildcard && valid_labels false ls

-- The checks of `normalize` on the prepared name.
unfoldable pub valid_name : Bool → Str → Bool
valid_name allow_wildcard name =
    not (is_empty name || ltb 253 (utf8_len name)) && valid_labels allow_wildcard (split b'.' name)

unfoldable pub normalize : Str → Bool → Result Code Str
normalize input allow_wildcard =
    let name = strip_dot (to_ascii_lowercase (trim input)) in
    if valid_name allow_wildcard name then ok name else err invalid_name

unfoldable pub parse_zone_name : Str → Result Code Str
parse_zone_name input = do
  name ← normalize input false
  if ltb (length (split b'.' name)) 2 then err invalid_name else ok name

-- The code of the error stays `invalid_name`.
unfoldable pub parse_key_name : Str → Result Code Str
parse_key_name input = elim (normalize input false) [ ok name ↦ ok name | err _ ↦ err invalid_name ]

unfoldable pub is_reverse_zone : Str → Bool
is_reverse_zone zone = ends_with zone (str ".in-addr.arpa") || ends_with zone (str ".ip6.arpa")

unfoldable pub inside : Str → Str → Bool
inside name zone = str_eq name zone || ends_with name (b'.' ∷ zone)

unfoldable pub owner_name : Str → Str → Result Code Str
owner_name zone input =
    let input' = trim input in
    if is_empty input' || str_eq input' (str "@") then ok zone else do
      name ← normalize input' true
      let absolute = ends_with input' (str ".") || inside name zone
      let full = if absolute then name else name ++ (b'.' ∷ zone)
      if not (inside full zone) then err name_outside_zone else ok full

unfoldable pub escape : Str → Str
unfolding replace_char
escape value = replace_char b'"' (92 ∷ b'"' ∷ []) (replace_char 92 (92 ∷ 92 ∷ []) value)

unfoldable pub txt_content : Str → Str
unfolding escape
txt_content value = b'"' ∷ (escape value ++ (b'"' ∷ []))

abbrev pub content_of : Str → Str → RecordData
content_of rtype c =
    if str_eq rtype (str "TXT") && not (starts_with c (str "\""))
    then new_record (txt_content c)
    else new_record c

-- The contents of the records of a change: trimmed, the empty ones dropped, TXT values quoted.
unfoldable pub record_data : Str → List Str → List RecordData
record_data rtype records = map (content_of rtype) (reject is_empty (map trim records))

-- The guards of a REPLACE, in their order.
unfoldable pub check_replace : Str → Str → Str → List RecordData → Result Code (Unit {0})
check_replace zone name rtype records = do
  guard (not (is_empty records)) invalid_data
  guard (not (str_eq rtype (str "CNAME") && str_eq name zone)) cname_at_apex
  guard (not (str_eq rtype (str "CNAME") && ltb 1 (length records))) invalid_data
  guard (not (str_eq rtype (str "PTR") && not (is_reverse_zone zone))) ptr_outside_reverse_zone

abbrev or_default {ℓ} : {A : Type ℓ} → A → Option A → A
or_default d none = d
or_default d (some a) = a

abbrev pub check_change : ChangeType → Str → Str → Str → List RecordData → Result Code (Unit {0})
check_change replace zone name rtype records = check_replace zone name rtype records
check_change delete zone name rtype records = ok tt

abbrev pub kept_records : ChangeType → List RecordData → List RecordData
kept_records replace records = records
kept_records delete records = []

-- The body of the loop of `validate_changes`.
unfoldable pub validate_change : Str → RrSetChange → Result Code RrSet
validate_change zone change = do
  name ← owner_name zone change.name
  let rtype = to_ascii_uppercase (trim change.rtype)
  guard (contains supported_types rtype) unsupported_type
  let ttl = or_default default_ttl change.ttl
  guard (leb ttl max_ttl) invalid_ttl
  let changetype = or_default replace change.changetype
  let records = record_data rtype change.records
  check_change changetype zone name rtype records
  ok (record {
    name = name ++ str ".";
    rtype = rtype;
    ttl = ttl;
    changetype = some changetype;
    records = kept_records changetype records;
  })

unfoldable pub validate_each : Str → List RrSetChange → Result Code (List RrSet)
validate_each zone [] = ok []
validate_each zone (c ∷ cs) = do r ← validate_change zone c; rs ← validate_each zone cs; ok (r ∷ rs)

unfoldable pub validate_changes : Str → List RrSetChange → Result Code (List RrSet)
validate_changes zone changes =
    if is_empty changes then err empty_change else validate_each zone changes
