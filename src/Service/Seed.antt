-- ===== src/Service/Seed.antt =====
-- crates/certo-pdns/src/zones.rs: the records of the configuration, the base zone that they seed, and
-- the challenge values in the base zone.
pub mod Grouping
use certo.Prelude.{
  ℕ, Bool, true, false, not, ◌&&◌, Option, none, some, List, [], ◌∷◌, ◌++◌, if◌then◌else◌, is_empty,
  any, Result, ok, err,
}
use certo.Text.{
  Str, Unicode, str, str_eq, join, is_whitespace, trim_dots, to_ascii_lowercase, to_ascii_uppercase,
}
use certo.Text.Decimal.{parse_u32}
use certo.Names.{default_ttl, inside, name_outside_zone, RrSet}
use certo.Core.{Zone, ZoneRrSet}
use certo.Sync.{ZonePolicy, apex, challenge_rrset}
use certo.Db.{Db, DbError, not_found, conflict, exhausted, constraint}
use certo.Db.Zones.{create_zone, zone_by_name, rrsets_of, replace_zone_rrsets, activate_zone}
use certo.Db.Txt.{txt_for_domain}
use certo.Pdns.Client
use certo.Service.{
  Zones, World, ZoneOpError, invalid, Op, pure, ◌>>=◌, ◌>>◌, require, reads, looks_up, transacts,
  sends,
}
use certo.Service.Stamps.{stamp}

abbrev add_char : ℕ → List Str → List Str
add_char c [] = (c ∷ []) ∷ []
add_char c (w ∷ ws) = (c ∷ w) ∷ ws

-- The words between the single whitespace characters, empty ones among them.
unfoldable pub words : Str → List Str
words [] = [] ∷ []
words (c ∷ s) = if is_whitespace c then [] ∷ words s else add_char c (words s)

abbrev nonempty_words : List Str → List Str
nonempty_words [] = []
nonempty_words (w ∷ ws) = if is_empty w then nonempty_words ws else w ∷ nonempty_words ws

unfoldable pub split_whitespace : Str → List Str
split_whitespace s = nonempty_words (words s)

-- A line of `general.records`: name, TTL, type, data.
pub record StaticRecord : Type 0 where
  pub name : Str
  pub ttl : ℕ
  pub rtype : Str
  pub rdata : Str

abbrev pub take_ttl : List Str → ℕ × List Str
take_ttl [] = (default_ttl, [])
take_ttl (f ∷ fs) = elim (parse_u32 f) [ some t ↦ (t, fs) | none ↦ (default_ttl, f ∷ fs) ]

abbrev pub skip_in : List Str → List Str
skip_in [] = []
skip_in (f ∷ fs) = if str_eq (to_ascii_lowercase f) (str "in") then fs else f ∷ fs

abbrev pub static_rest : Str → ℕ → List Str → Option StaticRecord
static_rest name ttl [] = none
static_rest name ttl (f ∷ fs) =
    let rdata = join (str " ") fs in
    if is_empty rdata
    then none
    else some (record { name = name; ttl = ttl; rtype = to_ascii_uppercase f; rdata = rdata })

abbrev pub static_fields : List Str → Option StaticRecord
static_fields [] = none
static_fields (f ∷ fs) =
    let (ttl, rest) = take_ttl fs in
    static_rest (to_ascii_lowercase (trim_dots f)) ttl (skip_in rest)

unfoldable pub parse_static : Str → Option StaticRecord
unfolding split_whitespace
parse_static line = static_fields (split_whitespace line)

abbrev pub is_set_of : StaticRecord → ZoneRrSet → Bool
is_set_of r set = str_eq set.name (apex r.name) && str_eq set.rtype r.rtype

abbrev pub set_of : StaticRecord → ZoneRrSet
set_of r = record { name = apex r.name; rtype = r.rtype; ttl = r.ttl; records = r.rdata ∷ [] }

-- The loop body of `group_rrsets`; the sets stand in the order of their first records.
unfoldable pub add_record : List ZoneRrSet → StaticRecord → List ZoneRrSet
add_record [] r = set_of r ∷ []
add_record (set ∷ sets) r =
    let rest = add_record sets r in
    if is_set_of r set
    then record set { records = set.records ++ (r.rdata ∷ []) } ∷ sets
    else set ∷ rest

unfoldable pub group_from : List ZoneRrSet → List StaticRecord → List ZoneRrSet
group_from sets [] = sets
group_from sets (r ∷ rs) = group_from (add_record sets r) rs

unfoldable pub group_rrsets : List StaticRecord → List ZoneRrSet
unfolding group_from
group_rrsets records = group_from [] records

abbrev pub keep_inside : Str → Option StaticRecord → List StaticRecord → List StaticRecord
keep_inside base none rest = rest
keep_inside base (some r) rest = if inside r.name base then r ∷ rest else rest

-- The lines that name a record inside the base zone.
unfoldable pub seed_records : Str → List Str → List StaticRecord
seed_records base [] = []
seed_records base (line ∷ lines) = keep_inside base (parse_static line) (seed_records base lines)

abbrev pub is_base_ns : ZonePolicy → StaticRecord → Bool
is_base_ns policy r =
    str_eq r.name policy.base_zone
    && (str_eq r.rtype (str "NS") && str_eq (apex r.rdata) (apex policy.nsname))

unfoldable pub with_base_ns : ZonePolicy → List StaticRecord → List StaticRecord
with_base_ns policy records =
    if any (is_base_ns policy) records
    then records
    else records
      ++ (record {
        name = policy.base_zone;
        ttl = default_ttl;
        rtype = str "NS";
        rdata = apex policy.nsname;
      }
          ∷ [])

-- `NotFound` is no failure.
abbrev pub if_present : Result DbError Zone → Result DbError (Option Zone)
if_present (ok z) = ok (some z)
if_present (err (not_found what)) = ok none
if_present (err (conflict what)) = err (conflict what)
if_present (err (exhausted what)) = err (exhausted what)
if_present (err constraint) = err constraint

abbrev option_list : Option Str → List Str
option_list none = []
option_list (some v) = v ∷ []

module _ ⦃u : Unicode⦄ {S : Type 0} (zones : Zones S) where
  abbrev pub base_row : ℕ → Option Zone → Op S Zone
  base_row time (some zone) = pure zone
  base_row time none = transacts (λ db. create_zone db time none zones.policy.base_zone)

  abbrev pub seed_rrsets : ℕ → List ZoneRrSet → List ZoneRrSet → Op S (Unit {0})
  seed_rrsets id (r ∷ rs) rrsets = pure tt
  seed_rrsets id [] rrsets = do _ ← transacts (λ db. replace_zone_rrsets db id rrsets); pure tt

  unfoldable pub build_base : ℕ → List Str → Option Zone → Op S (Unit {0})
  build_base time seed existing = do
    zone ← base_row time existing
    rows ← reads (λ db. rrsets_of db zone.id)
    seed_rrsets zone.id rows
        (group_rrsets (with_base_ns zones.policy (seed_records zones.policy.base_zone seed)))
    _ ← transacts (λ db. activate_zone db time zone.id true)
    pure tt

  abbrev pub unless_active : ℕ → List Str → Option Zone → Op S (Unit {0})
  unless_active time seed none = build_base time seed none
  unless_active time seed (some zone) =
      if zone.active then pure tt else build_base time seed (some zone)

  unfoldable pub ensure_base_zone : ℕ → List Str → Op S (Unit {0})
  ensure_base_zone time seed = do
    existing ← looks_up (λ db. if_present (zone_by_name db zones.policy.base_zone))
    unless_active time seed existing

  unfoldable pub sync_txt : Str → Op S (Unit {0})
  sync_txt given = do
    let name = to_ascii_lowercase (trim_dots given)
    require (inside name zones.policy.base_domain) (invalid name_outside_zone)
    values ← reads (λ db. txt_for_domain db name)
    sends
        (Client.patch_rrsets zones.server zones.policy.base_zone (challenge_rrset name values ∷ []))
    base ← looks_up (λ db. zone_by_name db zones.policy.base_zone)
    stamp zones base.name base.version

  unfoldable pub set_own_challenge : Option Str → Op S (Unit {0})
  set_own_challenge value = sends (
      Client.patch_rrsets zones.server zones.policy.base_zone (
        challenge_rrset (str "_acme-challenge." ++ zones.policy.base_zone) (option_list value)
        ∷ []))
