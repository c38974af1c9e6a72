-- ===== src/Db/Deletion.antt =====
-- Deleting a user: the challenge values, zones, keys and domains go with the account.

use certo.Prelude.{
  ℕ, ◌≡◌, refl, ap, sym, subst, ◌∙◌, Bool, true, false, some, List, [], ◌∷◌, map, arith, ◌==◌, inl,
  inr, Bool-cases, find, find_sound, find-All, select, reject, All, All-select, All-map, Apart,
  ==_iff,
}
use certo.Text.{Str}
use certo.Core.{internal_domain}
use certo.Db.{DomainRow, TxtRow, ZoneRow, Db, same_user}
use certo.Db.Zones.{has_id, bump_base_zone, delete_zone_data, delete_each, delete_user_zones}
use certo.Db.Txt.{named}
use certo.Db.Accounts.{delete_subdomain_txt, delete_subdomains_txt, delete_user}
use certo.Db.Zones.Versions.{SameData, some-inj}
use certo.Db.Zones.Tracking.{rows_others}
use certo.Db.Zones.Lifecycle.{Tracks-kept, bump_base_zone-Tracks}
use certo.Db.Shape.{Compatible, Valid, removed}
use certo.Db.Shapes.{bump_base_zone-Shape}
use certo.Db.Evolves.{Evolves, Shape-Evolves, Evolves-trans}

-- An operation that leaves the zone tables and the challenge values alone.
pub Evolves-untouched :
    (db db' : Db)
    → Valid db
    → db'.zones ≡ db.zones
    → db'.last_zone ≡ db.last_zone
    → db'.zone_rrsets ≡ db.zone_rrsets
    → db'.zone_dnssec ≡ db.zone_dnssec
    → db'.zone_tsig_keys ≡ db.zone_tsig_keys
    → db.txt ≡ db'.txt
    → Evolves db db'
Evolves-untouched db db' v e n r d t x =
    Shape-Evolves db db' v (removed (λ _. false) (e ∙ sym (all_kept db.zones)) n) (
      Tracks-kept db db' (λ id z z' f f'. some-inj (sym f ∙ ap (find (has_id id)) (sym e) ∙ f'))
        (λ id z' f. record {
          rrsets = ap (select (λ y. y.zone_id == id)) (sym r);
          dnssec = ap (select (λ y. y.zone_id == id)) (sym d);
          tsig = ap (select (λ y. y.zone_id == id)) (sym t);
        })
        x)
  where
    all_kept : (zs : List ZoneRow) → reject (λ _. false) zs ≡ zs
    all_kept [] = refl
    all_kept (z ∷ zs) = ap (λ r. z ∷ r) (all_kept zs)

-- New challenge values, with the bump of the base zone.
pub Evolves-txt :
    (db : Db) (rows : List TxtRow)
    → Valid db
    → Evolves db (bump_base_zone (record db { txt = rows }))
Evolves-txt db rows v =
    Shape-Evolves db _ v (bump_base_zone-Shape db (record db { txt = rows }) refl refl)
      (bump_base_zone-Tracks db rows)

pub Evolves-refl : (db : Db) → Valid db → Evolves db db
Evolves-refl db v = Evolves-untouched db db v refl refl refl refl refl refl

delete_subdomains_txt-Evolves :
    (ss : List Str) (db : Db) (base : Str)
    → Valid db
    → Evolves db (delete_subdomains_txt db ss base)
unfolding delete_subdomains_txt delete_subdomain_txt
delete_subdomains_txt-Evolves [] db base v = Evolves-refl db v
delete_subdomains_txt-Evolves (s ∷ ss) db base v =
    let first = Evolves-txt db (reject (named (internal_domain s base)) db.txt) v in
    Evolves-trans db _ _ v first (delete_subdomains_txt-Evolves ss _ base first.valid)

-- Removing the data of zones other than `j` keeps the data of `j`.
delete_each-SameData :
    (zs : List ZoneRow) (db : Db) (j : ℕ)
    → All (λ z. j == z.id ≡ false) zs
    → SameData db (delete_each db zs) j
unfolding delete_each delete_zone_data
delete_each-SameData [] db j h = record { rrsets = refl; dnssec = refl; tsig = refl }
delete_each-SameData (z ∷ zs) db j (h, hs) =
    let later = delete_each-SameData zs (delete_zone_data db z.id) j hs in
    record {
      rrsets = sym (rows_others (λ r. r.zone_id) db.zone_rrsets z.id j h) ∙ later.rrsets;
      dnssec = sym (rows_others (λ r. r.zone_id) db.zone_dnssec z.id j h) ∙ later.dnssec;
      tsig = sym (rows_others (λ r. r.zone_id) db.zone_tsig_keys z.id j h) ∙ later.tsig;
    }

pub delete_each-rest :
    (zs : List ZoneRow) (db : Db)
    → ((delete_each db zs).zones ≡ db.zones)
      × ((delete_each db zs).last_zone ≡ db.last_zone)
      × ((delete_each db zs).txt ≡ db.txt)
unfolding delete_each delete_zone_data
delete_each-rest [] db = (refl, refl, refl)
delete_each-rest (z ∷ zs) db = delete_each-rest zs (delete_zone_data db z.id)

flip_id : (a b : ℕ) → b == a ≡ false → a == b ≡ false
flip_id a b h = ground arith

other_id : (j : ℕ) (z x : ZoneRow) → Compatible z x → has_id j x ≡ true → j == z.id ≡ false
other_id j z x c h = elim (Bool-cases (j == z.id)) [
  | inl e ↦ absurd (c.ids (sym ((==_iff j z.id).0 e) ∙ sym ((==_iff x.id j).0 h)))
  | inr e ↦ e
]

not_j : (j : ℕ) (z x : ZoneRow) → has_id j z ≡ true → Compatible z x → j == x.id ≡ false
not_j j z x h c = elim (Bool-cases (j == x.id)) [
  | inl e ↦ absurd (c.ids ((==_iff z.id j).0 h ∙ (==_iff j x.id).0 e))
  | inr e ↦ e
]

-- In a table with distinct ids, a row that stays after a removal is the row of its id.
kept-row :
    (q : ZoneRow → Bool) (zs : List ZoneRow) (j : ℕ) (z' : ZoneRow)
    → Apart Compatible zs
    → find (has_id j) (reject q zs) ≡ some z'
    → (find (has_id j) zs ≡ some z') × All (λ z. j == z.id ≡ false) (select q zs)
kept-row q [] j z' h e = cc
kept-row q (z ∷ zs) j z' (h, hs) e = elim (Bool-cases (q z)) [
  | inl gone ↦
      let (f, a) = kept-row q zs j z' hs (rw gone at e) in
      let c : Compatible z z' = find-All (Compatible z) (has_id j) zs z' h f in
      let other = other_id j z z' c (find_sound (has_id j) zs z' f) in
      rw gone (rw (flip_id z.id j other) f, (other, a))
  | inr stays ↦ elim (Bool-cases (has_id j z)) [
    | inl here ↦
        rw stays
          (rw here (ground arith), All-select _ q zs (All-map _ _ (λ x c. not_j j z x here c) zs h))
    | inr there ↦ let (f, a) = kept-row q zs j z' hs (ground arith) in rw stays (rw there f, a)
  ]
]

pub delete_user_zones-Evolves : (db : Db) (id : ℕ) → Valid db → Evolves db (delete_user_zones db id)
unfolding delete_user_zones
delete_user_zones-Evolves db id v =
    let owned = λ (z : ZoneRow). same_user z.user_id (some id) in
    let (zones, last, txt) = delete_each-rest (select owned db.zones) db in
    Shape-Evolves db _ v (removed owned (ap (reject owned) zones) last) (
      Tracks-kept db _
        (λ j z z' e e'.
          let (f, _) =
            kept-row owned db.zones j z' v.compatible
              (subst (λ zs. find (has_id j) (reject owned zs) ≡ some z') zones e') in
          some-inj (sym e ∙ f))
        (λ j z' e'.
          let (_, a) =
            kept-row owned db.zones j z' v.compatible
              (subst (λ zs. find (has_id j) (reject owned zs) ≡ some z') zones e') in
          let kept = delete_each-SameData (select owned db.zones) db j a in
          record { rrsets = kept.rrsets; dnssec = kept.dnssec; tsig = kept.tsig })
        (sym txt))

pub delete_user-Evolves :
    (db : Db) (id : ℕ) (base : Str) → Valid db → Evolves db (delete_user db id base).1
unfolding delete_user
delete_user-Evolves db id base v =
    let subs =
      map (λ (r : DomainRow). r.subdomain) (select (λ r. r.user_id == id) db.user_domains) in
    let db1 = delete_subdomains_txt db subs base in
    let first = delete_subdomains_txt-Evolves subs db base v in
    let second = delete_user_zones-Evolves db1 id first.valid in
    let third =
      Evolves-untouched (delete_user_zones db1 id) (delete_user db id base).1 second.valid refl refl
        refl refl refl refl in
    Evolves-trans db _ _ v first (Evolves-trans db1 _ _ first.valid second third)
