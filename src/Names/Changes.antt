-- ===== src/Names/Changes.antt =====
-- `validate_changes`: what every accepted change looks like.
use certo.Prelude.{ℕ, ◌≤◌, ◌≡◌, ◌≢◌, ◌⊎◌, true, some, List, [], ◌++◌, All, length}
use certo.Text.{Str, str, contains, starts_with}
use certo.Names.{
  ChangeType, replace, delete, RecordData, RrSet, supported_types, max_ttl, is_reverse_zone, inside,
  kept_records,
}

-- A change that may be sent to PowerDNS for `zone`.
pub record IsServable (zone : Str) (r : RrSet) : Type 0 where
  pub in_zone : (n : Str) × (r.name ≡ n ++ str ".") × (inside n zone ≡ true)
  pub supported : contains supported_types r.rtype ≡ true
  pub ttl_bound : r.ttl ≤ max_ttl
  pub changes :
      ((r.changetype ≡ some delete) × (r.records ≡ []))
      ⊎ ((r.changetype ≡ some replace) × (r.records ≢ []))
  pub cname :
      r.changetype ≡ some replace
      → r.rtype ≡ str "CNAME"
      → (r.name ≢ zone ++ str ".") × (length r.records ≡ 1)
  pub ptr : r.changetype ≡ some replace → r.rtype ≡ str "PTR" → is_reverse_zone zone ≡ true
  pub quoted : r.rtype ≡ str "TXT" → All (λ d. starts_with d.content (str "\"") ≡ true) r.records

-- What the guards of a REPLACE establish.
pub record Replaces (zone name rtype : Str) (records : List RecordData) : Type 0 where
  pub some_record : records ≢ []
  pub single_cname : rtype ≡ str "CNAME" → (name ≢ zone) × (length records ≡ 1)
  pub reverse_ptr : rtype ≡ str "PTR" → is_reverse_zone zone ≡ true

abbrev accepted : ChangeType → Str → Str → ℕ → List RecordData → RrSet
accepted ct name rtype ttl records = record {
  name = name ++ str ".";
  rtype = rtype;
  ttl = ttl;
  changetype = some ct;
  records = kept_records ct records;
}
