-- ===== src/Sync.antt =====
-- crates/certo-pdns/src/zones.rs: the rrsets that PowerDNS should serve for a zone, the changes that
-- bring it there, and the PATCH of the rrsets as crates/certo-pdns/src/mock.rs answers it.
pub mod Patch
pub mod Converge
use certo.Prelude.{
  ℕ, Bool, true, false, not, ◌&&◌, ◌||◌, Option, none, some, List, [], ◌∷◌, ◌++◌, map, ◌==◌,
  if◌then◌else◌, is_empty, any, select, reject, order_by,
}
use certo.Text.{Str, str, str_eq, str_leb, trim_dots}
use certo.Names.{
  ChangeType, replace, delete, RecordData, new_record, RrSet, default_ttl, inside, txt_content,
}
use certo.Core.{Zone, ZoneRrSet, is_system}
use certo.Db.{Db}
use certo.Db.Zones.{rrsets_of}
use certo.Db.Txt.{txt_by_domain}

-- `RrSet::replace`
abbrev pub replacing : Str → Str → ℕ → List RecordData → RrSet
replacing name rtype ttl records = record {
  name = name;
  rtype = rtype;
  ttl = ttl;
  changetype = some replace;
  records = records;
}

-- `RrSet::delete`
abbrev pub deleting : Str → Str → RrSet
deleting name rtype = record {
  name = name;
  rtype = rtype;
  ttl = 0;
  changetype = some delete;
  records = [];
}

unfoldable pub apex : Str → Str
apex name = trim_dots name ++ str "."

abbrev pub challenge_ttl : ℕ
challenge_ttl = 1

unfoldable pub to_change : ZoneRrSet → RrSet
to_change rr =
    if is_empty rr.records
    then deleting rr.name rr.rtype
    else replacing rr.name rr.rtype rr.ttl (map new_record rr.records)

-- `rr.changetype == Some(ChangeType::Delete)`
abbrev pub is_delete : Option ChangeType → Bool
is_delete none = false
is_delete (some replace) = false
is_delete (some delete) = true

abbrev pub is_replace : Option ChangeType → Bool
is_replace none = false
is_replace (some replace) = true
is_replace (some delete) = false

unfoldable pub to_stored : RrSet → ZoneRrSet
to_stored rr = record {
  name = rr.name;
  rtype = rr.rtype;
  ttl = rr.ttl;
  records = if is_delete rr.changetype then [] else map (λ r. r.content) rr.records;
}

-- The rrsets have one owner and type.
abbrev pub same_key : RrSet → RrSet → Bool
same_key a b = str_eq a.name b.name && str_eq a.rtype b.rtype

abbrev pub texts_eq : List Str → List Str → Bool
texts_eq [] [] = true
texts_eq [] (t ∷ ts) = false
texts_eq (s ∷ ss) [] = false
texts_eq (s ∷ ss) (t ∷ ts) = str_eq s t && texts_eq ss ts

abbrev pub sorted_contents : RrSet → List Str
sorted_contents rr = order_by str_leb (map (λ r. r.content) rr.records)

unfoldable pub same_records : RrSet → RrSet → Bool
same_records a b = a.ttl == b.ttl && texts_eq (sorted_contents a) (sorted_contents b)

unfoldable pub challenge_rrset : Str → List Str → RrSet
challenge_rrset name values =
    if is_empty values
    then deleting (apex name) (str "TXT")
    else replacing (apex name) (str "TXT") challenge_ttl
        (map (λ v. new_record (txt_content v)) values)

-- The zone rules: the zone that certo itself serves, and its name server.
pub record ZonePolicy : Type 0 where
  pub base_domain : Str
  pub base_zone : Str
  pub nsname : Str

unfoldable pub own_challenge_name : ZonePolicy → Str
own_challenge_name policy = str "_acme-challenge." ++ (policy.base_zone ++ str ".")

abbrev is_ns_at : Str → RrSet → Bool
is_ns_at apex_name rr = str_eq rr.rtype (str "NS") && str_eq rr.name apex_name

-- The apex NS, for a list of rrsets that has none.
abbrev with_ns : ZonePolicy → Str → List RrSet → List RrSet
with_ns policy apex_name rrs =
    if any (is_ns_at apex_name) rrs
    then rrs
    else rrs
      ++ (replacing apex_name (str "NS") default_ttl (new_record (apex policy.nsname) ∷ []) ∷ [])

abbrev with_challenges : List RrSet → List RrSet → List RrSet
with_challenges challenges rrs =
    reject (λ rr. str_eq rr.rtype (str "TXT") && any (λ c. str_eq c.name rr.name) challenges) rrs
    ++ challenges

unfoldable pub desired_rrsets : Db → ZonePolicy → Zone → List RrSet
desired_rrsets db policy zone =
    let desired = with_ns policy (apex zone.name) (map to_change (rrsets_of db zone.id)) in
    let challenges =
      map (λ g. challenge_rrset g.0 g.1) (select (λ g. inside g.0 zone.name) (txt_by_domain db)) in
    if is_system zone then with_challenges challenges desired else desired

unfoldable pub is_protected : ZonePolicy → Zone → RrSet → Bool
is_protected policy zone rr =
    str_eq rr.rtype (str "SOA")
    || (is_system zone
        && (str_eq rr.rtype (str "TXT") && str_eq rr.name (own_challenge_name policy)))

-- A served rrset is what a desired one asks for.
abbrev pub serves : RrSet → RrSet → Bool
serves d s = same_key s d && same_records s d

-- The changes of `converge_rrsets` for a zone that PowerDNS has, from its rrsets and the desired ones.
unfoldable pub converge_changes : ZonePolicy → Zone → List RrSet → List RrSet → List RrSet
converge_changes policy zone served desired =
    select (λ d. not (any (serves d) served)) desired
    ++ map (λ s. deleting s.name s.rtype)
        (select (λ s. not (any (λ d. same_key d s) desired) && not (is_protected policy zone s))
          served)

-- One change of the loop of `patch_zone`.
abbrev pub patch_one : List RrSet → RrSet → List RrSet
patch_one rrsets change =
    reject (λ rr. same_key rr change) rrsets
    ++ (if is_replace change.changetype then record change { changetype = none } ∷ [] else [])

unfoldable pub patch_rrsets : List RrSet → List RrSet → List RrSet
patch_rrsets rrsets [] = rrsets
patch_rrsets rrsets (c ∷ cs) = patch_rrsets (patch_one rrsets c) cs

-- What `converge_rrsets` asks of PowerDNS.
pub data Call : Type 0 where
  nothing : Call
  creates : List RrSet → Call
  patches : List RrSet → Call

-- The branch for a zone that PowerDNS has.
abbrev pub patch_call : List RrSet → Call
patch_call [] = nothing
patch_call (c ∷ cs) = patches (c ∷ cs)

-- The rrsets that PowerDNS has for the zone are an argument, none if it does not have the zone.
unfoldable pub converge_rrsets : ZonePolicy → Zone → Option (List RrSet) → List RrSet → Call
unfolding converge_changes
converge_rrsets policy zone none desired = creates desired
converge_rrsets policy zone (some served) desired =
    patch_call (converge_changes policy zone served desired)
