-- ===== src/Db/Zones/Versions.antt =====
-- The version of a zone against the data that PowerDNS serves for it: the notions, and one lemma for
-- each shape of change. The operations follow in Db/Zones/Tracking.
use mathlib.Core.Option
use certo.Prelude.{
  ℕ, ◌+◌, ◌≤◌, ◌≡◌, refl, ap, sym, subst, ◌∙◌, Bool, true, false, Option, some, List, arith, ◌==◌,
  inl, inr, Bool-cases, if◌then◌else◌, find, find_sound, select, update_where, find-update_where,
  ==_iff,
}
use certo.Db.{ZoneRow, RrsetRow, DnssecRow, TsigRow, Db, is_owned}
use certo.Db.Zones.{has_id}

abbrev pub rrset_rows : Db → ℕ → List RrsetRow
rrset_rows db id = select (λ r. r.zone_id == id) db.zone_rrsets

abbrev pub dnssec_rows : Db → ℕ → List DnssecRow
dnssec_rows db id = select (λ r. r.zone_id == id) db.zone_dnssec

abbrev pub tsig_rows : Db → ℕ → List TsigRow
tsig_rows db id = select (λ r. r.zone_id == id) db.zone_tsig_keys

-- The zone tables hold the same rows for one zone.
pub record SameData (db db' : Db) (id : ℕ) : Type 0 where
  pub rrsets : rrset_rows db id ≡ rrset_rows db' id
  pub dnssec : dnssec_rows db id ≡ dnssec_rows db' id
  pub tsig : tsig_rows db id ≡ tsig_rows db' id

-- All that PowerDNS is built from is the same: whether the zone is active, its transfer list, its
-- rrsets, signing key and TSIG keys, and for the base zone the challenge values.
pub record SameServed (db db' : Db) (z z' : ZoneRow) : Type 0 where
  pub active : z.active ≡ z'.active
  pub axfr : z.axfr_allow_from ≡ z'.axfr_allow_from
  pub held : SameData db db' z.id
  pub challenges : is_owned z ≡ false → db.txt ≡ db'.txt

-- A zone row before and after: name and owner stay, the version never falls, and where it stays, so
-- does all that is served.
pub record Follows (db db' : Db) (z z' : ZoneRow) : Type 0 where
  pub name : z.name ≡ z'.name
  pub owner : z.user_id ≡ z'.user_id
  pub grows : z.version ≤ z'.version
  pub same : z.version ≡ z'.version → SameServed db db' z z'

-- Every zone that is there before and after follows.
abbrev pub Tracks : Db → Db → Type 0
Tracks db db' =
    (id : ℕ) (z z' : ZoneRow)
    → find (has_id id) db.zones ≡ some z
    → find (has_id id) db'.zones ≡ some z'
    → Follows db db' z z'

pub SameData-refl : (db : Db) (id : ℕ) → SameData db db id
SameData-refl db id = record { rrsets = refl; dnssec = refl; tsig = refl }

pub some-inj : {a b : ZoneRow} → ◌≡◌ {A = Option ZoneRow} (some a) (some b) → a ≡ b
some-inj e = Option.some-injective _ _ e

-- An update that keeps the identity of a row.
pub record Keeps (f : ZoneRow → ZoneRow) : Type 0 where
  pub id : (z : ZoneRow) → (f z).id ≡ z.id
  pub user_id : (z : ZoneRow) → (f z).user_id ≡ z.user_id
  pub name : (z : ZoneRow) → (f z).name ≡ z.name

updated-row :
    (p : ZoneRow → Bool) (f : ZoneRow → ZoneRow) (zs : List ZoneRow) (id : ℕ) (z z' : ZoneRow)
    → Keeps f
    → find (has_id id) zs ≡ some z
    → find (has_id id) (update_where p f zs) ≡ some z'
    → (if p z then f z else z) ≡ z'
updated-row p f zs id z z' k e e' = some-inj (
    sym (
      find-update_where (has_id id) p f zs (λ x _. rw (k.id x))
      ∙ ap (Option.map (λ x. if p x then f x else x)) e)
    ∙ e')

-- Zones chosen by `p` are updated and get a greater version; of the others nothing changes.
module _ (p : ZoneRow → Bool) (f : ZoneRow → ZoneRow) (db db' : Db) (keeps : Keeps f)
    (greater : (z : ZoneRow) → (f z).version ≡ z.version + 1)
    (updated : db'.zones ≡ update_where p f db.zones)
    (rest : (z : ZoneRow) → p z ≡ false → SameData db db' z.id)
    (challenges : (z : ZoneRow) → p z ≡ false → is_owned z ≡ false → db.txt ≡ db'.txt) where
  pub Tracks-update : Tracks db db'
  Tracks-update id z z' e e' =
      let row =
        updated-row p f db.zones id z z' keeps e
          (subst (λ zs. find (has_id id) zs ≡ some z') updated e') in
      elim (Bool-cases (p z)) [
        | inl yes' ↦
            let same : f z ≡ z' = rw yes' at row in
            subst (Follows db db' z) same (record {
              name = sym (keeps.name z);
              owner = sym (keeps.user_id z);
              grows = omega (arith, greater z);
              same = λ q. absurd (omega (arith, greater z));
            })
        | inr no' ↦
            let same : z ≡ z' = rw no' at row in
            subst (Follows db db' z) same (record {
              name = refl;
              owner = refl;
              grows = omega arith;
              same = λ q. record {
                active = refl;
                axfr = refl;
                held = rest z no';
                challenges = challenges z no';
              };
            })
      ]

own_id :
    (id : ℕ) (z : ZoneRow) (zs : List ZoneRow)
    → find (has_id id) zs ≡ some z
    → find (has_id z.id) zs ≡ some z
own_id id z zs e =
    subst (λ j. find (has_id j) zs ≡ some z)
      (sym ((==_iff z.id id).0 (find_sound (has_id id) zs z e))) e

-- Zones are updated in fields that PowerDNS does not see.
module _ (p : ZoneRow → Bool) (f : ZoneRow → ZoneRow) (db db' : Db) (keeps : Keeps f)
    (version : (z : ZoneRow) → (f z).version ≡ z.version)
    (active : (z : ZoneRow)
      → p z ≡ true
      → find (has_id z.id) db.zones ≡ some z
      → (f z).active ≡ z.active)
    (axfr : (z : ZoneRow) → (f z).axfr_allow_from ≡ z.axfr_allow_from)
    (updated : db'.zones ≡ update_where p f db.zones) (rest : (id : ℕ) → SameData db db' id)
    (challenges : db.txt ≡ db'.txt) where
  pub Tracks-quiet : Tracks db db'
  Tracks-quiet id z z' e e' =
      let row =
        updated-row p f db.zones id z z' keeps e
          (subst (λ zs. find (has_id id) zs ≡ some z') updated e') in
      elim (Bool-cases (p z)) [
        | inl yes' ↦
            let same : f z ≡ z' = rw yes' at row in
            subst (Follows db db' z) same (record {
              name = sym (keeps.name z);
              owner = sym (keeps.user_id z);
              grows = omega (arith, version z);
              same = λ q. record {
                active = sym (active z yes' (own_id id z db.zones e));
                axfr = sym (axfr z);
                held = rest z.id;
                challenges = λ _. challenges;
              };
            })
        | inr no' ↦
            let same : z ≡ z' = rw no' at row in
            subst (Follows db db' z) same (record {
              name = refl;
              owner = refl;
              grows = omega arith;
              same = λ q. record {
                active = refl;
                axfr = refl;
                held = rest z.id;
                challenges = λ _. challenges;
              };
            })
      ]
