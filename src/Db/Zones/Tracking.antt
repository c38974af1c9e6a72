-- ===== src/Db/Zones/Tracking.antt =====
-- Each operation of the zone store keeps versions in step with what is served.
use mathlib.Core.Option
use mathlib.Core.List.{append-nil}
use certo.Prelude.{
  ℕ, ◌+◌, ◌≡◌, refl, ap, sym, subst, ◌∙◌, Bool, true, false, not, Option, none, some, List, [], ◌∷◌,
  ◌++◌, arith, ◌==◌, if◌then◌else◌, find, find_sound, find-of_any, select, reject, select-reject,
  select-snoc_other, update_where, update_where-update_where, find-update_where, any, ok, ◌>>=◌,
  passed, >>=-eq-ok, ok-injective, is_empty,
}
use certo.Text.{Str}
use certo.Core.{ZoneRrSet, ZoneDnssec, ZoneTsigKey}
use certo.Db.{not_found, conflict, zone, tsig_key, ZoneRow, RrsetRow, DnssecRow, Db, or_not_found}
use certo.Db.Zones.{
  has_id, bumped, bump, update_zone, insert_rrsets, is_rrset, rrset_row, apply_zone_rrsets,
  replace_zone_rrsets, set_zone_dnssec, key_rows, add_zone_tsig_key, is_tsig, delete_zone_tsig_key,
  allowing, set_zone_axfr_allow_from,
}
use certo.Db.Zones.Versions.{SameData, Tracks, Keeps, Tracks-update}

-- What `bump` returns: the database with the one version moved.
unfoldable pub bumped_db : Db → ℕ → Db
bumped_db db id = record db { zones = update_where (has_id id) bumped db.zones }

pub bump-eq :
    (db : Db) (id : ℕ) (r : ℕ × Db)
    → bump db id ≡ ok r
    → (r.1 ≡ bumped_db db id)
      × ((z : ZoneRow) × (find (has_id id) db.zones ≡ some z) × (r.0 ≡ z.version + 1))
unfolding bump bumped_db
bump-eq db id r h =
    let (there, h1) = passed (any (has_id id) db.zones) (not_found zone) _ h in
    let (z, found) = find-of_any (has_id id) db.zones there in
    let moved : find (has_id id) (update_where (has_id id) bumped db.zones) ≡ some (bumped z) =
      find-update_where (has_id id) (has_id id) bumped db.zones (λ x _. refl)
      ∙ ap (Option.map (λ x. if has_id id x then bumped x else x)) found
      ∙ ap (λ (b : Bool). some (if b then bumped z else z))
          (find_sound (has_id id) db.zones z found) in
    let done : ok ((bumped z).version, bumped_db db id) ≡ ok r =
      subst (λ o. (or_not_found zone o >>= λ x. ok (x.version, bumped_db db id)) ≡ ok r) moved h1 in
    let same = ok-injective done in (sym (ap (λ p. p.1) same), (z, found, sym (ap (λ p. p.0) same)))

Keeps-bumped : Keeps bumped
Keeps-bumped = record { id = λ z. refl; user_id = λ z. refl; name = λ z. refl }

-- The shape of all operations on one zone that bump it: its own rows may change, no others do.
module _ (db db' : Db) (id : ℕ) (f : ZoneRow → ZoneRow) (keeps : Keeps f)
    (greater : (z : ZoneRow) → (f z).version ≡ z.version + 1)
    (updated : db'.zones ≡ update_where (has_id id) f db.zones) (txt : db.txt ≡ db'.txt)
    (rest : (j : ℕ) → j == id ≡ false → SameData db db' j) where
  pub Tracks-one : Tracks db db'
  Tracks-one =
      Tracks-update (has_id id) f db db' keeps greater updated (λ z e. rest z.id e) (λ z _ _. txt)

-- Rows of other zones, where the rows of zone `id` are removed and put back.
pub others_differ : (j id k : ℕ) → j == id ≡ false → k == j ≡ true → k == id ≡ false
others_differ j id k h e = ground arith

flip_id : (id j : ℕ) → j == id ≡ false → id == j ≡ false
flip_id id j h = ground arith

insert_rrsets-others :
    (rrs : List ZoneRrSet) (rows : List RrsetRow) (id j : ℕ)
    → j == id ≡ false
    → select (λ r. r.zone_id == j) (insert_rrsets rows id rrs) ≡ select (λ r. r.zone_id == j) rows
unfolding insert_rrsets
insert_rrsets-others [] rows id j h = refl
insert_rrsets-others (rr ∷ rrs) rows id j h =
    insert_rrsets-others rrs _ id j h ∙ one (is_empty rr.records)
  where
    kept :
        select (λ r. r.zone_id == j) (reject (is_rrset id rr) rows)
        ≡ select (λ r. r.zone_id == j) rows
    kept =
        select-reject (λ r. r.zone_id == j) (is_rrset id rr) rows
          (λ r e. rw (others_differ j id r.zone_id h e))

    one :
        (b : Bool)
        → select
            (λ r. r.zone_id == j)
            (if b
              then reject (is_rrset id rr) rows
              else reject (is_rrset id rr) rows ++ (rrset_row id rr ∷ []))
          ≡ select (λ r. r.zone_id == j) rows
    one true = kept
    one false =
        select-snoc_other (λ r. r.zone_id == j) (reject (is_rrset id rr) rows) (rrset_row id rr)
          (flip_id id j h)
        ∙ kept

-- An operation that bumps and then makes one change has what the change of the bumped database has.
pub bump_then :
    (P : Db → Type 0) (db : Db) (id : ℕ) (change : Db → Db) (out : ℕ × Db)
    → (bump db id >>= λ r. ok (r.0, change r.1)) ≡ ok out
    → P (change (bumped_db db id))
    → P out.1
bump_then P db id change out h p =
    let (r, b, h1) = >>=-eq-ok (bump db id) _ h in
    subst (λ o. P o.1) (ok-injective h1) (subst (λ d. P (change d)) (sym (bump-eq db id r b).0) p)

pub apply_zone_rrsets-Tracks :
    (db : Db) (id : ℕ) (rrs : List ZoneRrSet) (out : ℕ × Db)
    → apply_zone_rrsets db id rrs ≡ ok out
    → Tracks db out.1
unfolding apply_zone_rrsets bumped_db
apply_zone_rrsets-Tracks db id rrs out h =
    bump_then (Tracks db) db id (λ d. record d { zone_rrsets = insert_rrsets d.zone_rrsets id rrs })
      out h
      (Tracks-one db _ id bumped Keeps-bumped (λ z. refl) refl refl
        (λ j n. record {
          rrsets = sym (insert_rrsets-others rrs db.zone_rrsets id j n);
          dnssec = refl;
          tsig = refl;
        }))

pub rows_others :
    {A : Type 0} (owner : A → ℕ) (rows : List A) (id j : ℕ)
    → j == id ≡ false
    → select (λ r. owner r == j) (reject (λ r. owner r == id) rows)
      ≡ select (λ r. owner r == j) rows
rows_others owner rows id j h =
    select-reject (λ r. owner r == j) (λ r. owner r == id) rows
      (λ r e. others_differ j id (owner r) h e)

pub replace_zone_rrsets-Tracks :
    (db : Db) (id : ℕ) (rrs : List ZoneRrSet) (out : ℕ × Db)
    → replace_zone_rrsets db id rrs ≡ ok out
    → Tracks db out.1
unfolding replace_zone_rrsets bumped_db
replace_zone_rrsets-Tracks db id rrs out h =
    bump_then (Tracks db) db id
      (λ d. record d {
        zone_rrsets = insert_rrsets (reject (λ x. x.zone_id == id) d.zone_rrsets) id rrs;
      })
      out h
      (Tracks-one db _ id bumped Keeps-bumped (λ z. refl) refl refl
        (λ j n. record {
          rrsets = sym (
              insert_rrsets-others rrs _ id j n
              ∙ rows_others (λ r. r.zone_id) db.zone_rrsets id j n);
          dnssec = refl;
          tsig = refl;
        }))

key_rows-others :
    (id j : ℕ) (key : Option ZoneDnssec) (rows : List DnssecRow)
    → j == id ≡ false
    → select (λ r. r.zone_id == j) (rows ++ key_rows id key) ≡ select (λ r. r.zone_id == j) rows
key_rows-others id j none rows h = ap (select (λ r. r.zone_id == j)) (append-nil rows)
key_rows-others id j (some k) rows h =
    select-snoc_other (λ r. r.zone_id == j) rows _ (flip_id id j h)

pub set_zone_dnssec-Tracks :
    (db : Db) (id : ℕ) (key : Option ZoneDnssec) (out : ℕ × Db)
    → set_zone_dnssec db id key ≡ ok out
    → Tracks db out.1
unfolding set_zone_dnssec bumped_db
set_zone_dnssec-Tracks db id key out h =
    bump_then (Tracks db) db id
      (λ d. record d {
        zone_dnssec = reject (λ x. x.zone_id == id) d.zone_dnssec ++ key_rows id key;
      })
      out h
      (Tracks-one db _ id bumped Keeps-bumped (λ z. refl) refl refl
        (λ j n. record {
          rrsets = refl;
          dnssec =
              sym
                (key_rows-others id j key _ n ∙ rows_others (λ r. r.zone_id) db.zone_dnssec id j n);
          tsig = refl;
        }))

Keeps-allowing : (a : List Str) → Keeps (λ z. allowing a (bumped z))
Keeps-allowing a = record { id = λ z. refl; user_id = λ z. refl; name = λ z. refl }

pub set_zone_axfr_allow_from-Tracks :
    (db : Db) (id : ℕ) (a : List Str) (out : ℕ × Db)
    → set_zone_axfr_allow_from db id a ≡ ok out
    → Tracks db out.1
unfolding set_zone_axfr_allow_from bumped_db
set_zone_axfr_allow_from-Tracks db id a out h =
    bump_then (Tracks db) db id (λ d. update_zone d id (allowing a)) out h
      (Tracks-one db _ id (λ z. allowing a (bumped z)) (Keeps-allowing a) (λ z. refl)
        (update_where-update_where (has_id id) bumped (allowing a) db.zones (λ z. refl)) refl
        (λ j n. record { rrsets = refl; dnssec = refl; tsig = refl }))

abbrev with_tsig : ℕ → ZoneTsigKey → Db → Db
with_tsig id key d = record d {
  zone_tsig_keys = d.zone_tsig_keys ++ (record { zone_id = id; key = key } ∷ []);
}

with_tsig-Tracks :
    (db : Db) (id : ℕ) (key : ZoneTsigKey) → Tracks db (with_tsig id key (bumped_db db id))
unfolding bumped_db
with_tsig-Tracks db id key =
    Tracks-one db _ id bumped Keeps-bumped (λ z. refl) refl refl
      (λ j n. record {
        rrsets = refl;
        dnssec = refl;
        tsig = sym (select-snoc_other (λ r. r.zone_id == j) db.zone_tsig_keys _ (flip_id id j n));
      })

pub add_zone_tsig_key-Tracks :
    (db : Db) (id : ℕ) (key : ZoneTsigKey) (out : ℕ × Db)
    → add_zone_tsig_key db id key ≡ ok out
    → Tracks db out.1
unfolding add_zone_tsig_key
add_zone_tsig_key-Tracks db id key out h =
    let (r, b, h1) = >>=-eq-ok (bump db id) _ h in
    let (_, h2) =
      passed (not (any (is_tsig id key.name) r.1.zone_tsig_keys)) (conflict tsig_key) _ h1 in
    subst (λ o. Tracks db o.1) (ok-injective h2)
      (subst (λ d. Tracks db (with_tsig id key d)) (sym (bump-eq db id r b).0)
        (with_tsig-Tracks db id key))

pub delete_zone_tsig_key-Tracks :
    (db : Db) (id : ℕ) (name : Str) (out : ℕ × Db)
    → delete_zone_tsig_key db id name ≡ ok out
    → Tracks db out.1
unfolding delete_zone_tsig_key bumped_db
delete_zone_tsig_key-Tracks db id name out h =
    let (_, b) = passed (any (is_tsig id name) db.zone_tsig_keys) (not_found tsig_key) _ h in
    subst (Tracks db) (sym (bump-eq _ id out b).0) (
      Tracks-one db _ id bumped Keeps-bumped (λ z. refl) refl refl
        (λ j n. record {
          rrsets = refl;
          dnssec = refl;
          tsig = sym (
              select-reject (λ r. r.zone_id == j) (is_tsig id name) db.zone_tsig_keys
                (λ r e. rw (others_differ j id r.zone_id n e)));
        }))
