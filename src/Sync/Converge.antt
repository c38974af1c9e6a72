-- ===== src/Sync/Converge.antt =====
-- `converge_rrsets`: its changes, once PowerDNS has made them, leave nothing to change.
use certo.Prelude.{
  ◌≡◌, refl, ap, Bool, true, not, ◌&&◌, List, [], ◌∷◌, ◌++◌, map, inl, inr, Bool-cases,
  if◌then◌else◌, any, select, is_empty, All, Apart,
}
use certo.Text.{Str}
use certo.Names.{RecordData, new_record, RrSet}
use certo.Core.{Zone, ZoneRrSet}
use certo.Sync.{
  ZonePolicy, same_key, serves, is_replace, is_protected, deleting, patch_rrsets, to_change,
  to_stored,
}
use certo.Sync.Patch.{Differ}

abbrev deletion : RrSet → RrSet
deletion s = deleting s.name s.rtype

module _ (policy : ZonePolicy) (zone : Zone) (served desired : List RrSet)
    (replaces : All (λ d. is_replace d.changetype ≡ true) desired)
    (apart : Apart Differ desired) where
  abbrev missing : RrSet → Bool
  missing d = not (any (serves d) served)

  abbrev wanted : RrSet → Bool
  wanted s = any (λ d. same_key d s) desired

  abbrev unwanted : RrSet → Bool
  unwanted s = not (wanted s) && not (is_protected policy zone s)

  abbrev deletions : List RrSet
  deletions = map deletion (select unwanted served)

  abbrev after : List RrSet
  after = patch_rrsets served (select missing desired ++ deletions)

contents-new_record : (cs : List Str) → map (λ (r : RecordData). r.content) (map new_record cs) ≡ cs
contents-new_record [] = refl
contents-new_record (c ∷ cs) = ap (λ t. c ∷ t) (contents-new_record cs)

-- A stored rrset with records, made a change and stored again, is the same; without records, its
-- change is the deletion of its name and type, and is stored without records.
pub to_stored-to_change :
    (rr : ZoneRrSet)
    → to_stored (to_change rr)
      ≡ (if is_empty rr.records then record rr { ttl = 0; records = [] } else rr)
unfolding to_stored to_change
to_stored-to_change rr = elim (Bool-cases (is_empty rr.records)) [
  | inl e ↦ rw e
  | inr e ↦ rw e (λ i. record rr { records = contents-new_record rr.records i })
]
