-- ===== src/Db/Zones/Rrsets.antt =====
-- `apply_zone_rrsets` and `replace_zone_rrsets` as updates of a map from names and types to rrsets.
use mathlib.Core.Bool.{false≢true}
use certo.Prelude.{
  ℕ, ◌≡◌, refl, ap, sym, subst, ◌∙◌, Bool, true, false, ◌&&◌, Option, none, some, List, [], ◌∷◌,
  ◌++◌, arith, ◌==◌, inl, inr, Bool-cases, &&-eq-true, if◌then◌else◌, is_empty, find, reject,
  find-reject, ==_iff, >>=-eq-ok, ok-injective, ok,
}
use certo.Text.{str_eq}
use certo.Text.Affix.{str_eq_iff}
use certo.Core.{ZoneRrSet}
use certo.Db.{RrsetRow, Db}
use certo.Db.Zones.{
  bump, is_rrset, rrset_row, insert_rrsets, apply_zone_rrsets, replace_zone_rrsets,
}
use certo.Db.Zones.Tracking.{bump-eq, bumped_db}

-- The last change of the name and type of `k`.
pub last_change : ZoneRrSet → List ZoneRrSet → Option ZoneRrSet
last_change k [] = none
last_change k (rr ∷ rrs) = elim (last_change k rrs) [
  | some x ↦ some x
  | none ↦ if str_eq rr.name k.name && str_eq rr.rtype k.rtype then some rr else none
]

-- What a change leaves at its name and type, and what stood there if there was none.
pub outcome : ℕ → Option RrsetRow → Option ZoneRrSet → Option RrsetRow
outcome id before none = before
outcome id before (some rr) = if is_empty rr.records then none else some (rrset_row id rr)

abbrev is_of : ZoneRrSet → ZoneRrSet → Bool
is_of k rr = str_eq rr.name k.name && str_eq rr.rtype k.rtype

find-none :
    (p q : RrsetRow → Bool) (rows : List RrsetRow)
    → ((r : RrsetRow) → p r ≡ true → q r ≡ true)
    → find p (reject q rows) ≡ none
find-none p q [] h = refl
find-none p q (r ∷ rows) h = ground (arith, h r, find-none p q rows h)

find-snoc_other :
    (p : RrsetRow → Bool) (rows : List RrsetRow) (r : RrsetRow)
    → p r ≡ false
    → find p (rows ++ (r ∷ [])) ≡ find p rows
find-snoc_other p [] r h = rw h
find-snoc_other p (x ∷ rows) r h = ground (arith, find-snoc_other p rows r h)

find-snoc_first :
    (p : RrsetRow → Bool) (rows : List RrsetRow) (r : RrsetRow)
    → p r ≡ true
    → find p rows ≡ none
    → find p (rows ++ (r ∷ [])) ≡ some r
find-snoc_first p [] r h k = rw h
find-snoc_first p (x ∷ rows) r h k = elim (Bool-cases (p x)) [
  | inl e ↦ cc (rw e at k)
  | inr e ↦ rw e (find-snoc_first p rows r h (rw e at k))
]

of-rrset :
    (id : ℕ) (k rr : ZoneRrSet) (r : RrsetRow)
    → is_of k rr ≡ true
    → is_rrset id k r ≡ true
    → is_rrset id rr r ≡ true
of-rrset id k rr r h e =
    let (n, t) = &&-eq-true (str_eq rr.name k.name) (str_eq rr.rtype k.rtype) h in
    rw ((str_eq_iff rr.name k.name).0 n, (str_eq_iff rr.rtype k.rtype).0 t) e

other-rrset :
    (id : ℕ) (k rr : ZoneRrSet) (r : RrsetRow)
    → is_of k rr ≡ false
    → is_rrset id k r ≡ true
    → is_rrset id rr r ≡ false
other-rrset id k rr r h e = elim (Bool-cases (is_rrset id rr r)) [
  | inl f ↦
      let (i, kt) = &&-eq-true (r.zone_id == id) _ e in
      let (kn, ktt) = &&-eq-true (str_eq r.name k.name) _ kt in
      let (j, rt) = &&-eq-true (r.zone_id == id) _ f in
      let (rn, rtt) = &&-eq-true (str_eq r.name rr.name) _ rt in
      let same : is_of k rr ≡ true = rw (
        (str_eq_iff rr.name k.name).1
            (sym ((str_eq_iff r.name rr.name).0 rn) ∙ (str_eq_iff r.name k.name).0 kn),
        (str_eq_iff rr.rtype k.rtype).1
            (sym ((str_eq_iff r.rtype rr.rtype).0 rtt) ∙ (str_eq_iff r.rtype k.rtype).0 ktt),
      ) in
      absurd (false≢true (sym h ∙ same))
  | inr f ↦ f
]

-- One round of the loop.
abbrev inserted : List RrsetRow → ℕ → ZoneRrSet → List RrsetRow
inserted rows id rr =
    let kept = reject (is_rrset id rr) rows in
    if is_empty rr.records then kept else kept ++ (rrset_row id rr ∷ [])

find-inserted :
    (rows : List RrsetRow) (id : ℕ) (k rr : ZoneRrSet)
    → find (is_rrset id k) (inserted rows id rr)
      ≡ outcome id (find (is_rrset id k) rows) (if is_of k rr then some rr else none)
unfolding outcome
find-inserted rows id k rr = elim (Bool-cases (is_of k rr)) [
  | inl e ↦
      let gone = find-none (is_rrset id k) (is_rrset id rr) rows (λ r h. of-rrset id k rr r e h) in
      rw e (elim (Bool-cases (is_empty rr.records)) [
        | inl f ↦ rw f gone
        | inr f ↦ rw f (
            find-snoc_first (is_rrset id k) _ (rrset_row id rr) (rw ((==_iff id id).1 refl) e) gone)
      ])
  | inr e ↦
      let stays =
        find-reject (is_rrset id k) (is_rrset id rr) rows (λ r h. other-rrset id k rr r e h) in
      rw e (elim (Bool-cases (is_empty rr.records)) [
        | inl f ↦ rw f stays
        | inr f ↦ rw f (
            find-snoc_other (is_rrset id k) _ (rrset_row id rr) (rw ((==_iff id id).1 refl) e)
            ∙ stays)
      ])
]

find-insert_rrsets :
    (rrs : List ZoneRrSet) (rows : List RrsetRow) (id : ℕ) (k : ZoneRrSet)
    → find (is_rrset id k) (insert_rrsets rows id rrs)
      ≡ outcome id (find (is_rrset id k) rows) (last_change k rrs)
unfolding insert_rrsets outcome last_change
find-insert_rrsets [] rows id k = refl
find-insert_rrsets (rr ∷ rrs) rows id k =
    find-insert_rrsets rrs (inserted rows id rr) id k ∙ go (last_change k rrs)
  where
    go :
        (o : Option ZoneRrSet)
        → outcome id (find (is_rrset id k) (inserted rows id rr)) o
          ≡ outcome id
              (find (is_rrset id k) rows)
              (elim o [ some x ↦ some x | none ↦ if is_of k rr then some rr else none ])
    go none = find-inserted rows id k rr
    go (some x) = refl

-- If `apply_zone_rrsets` succeeds, then for every name and type: the zone has what the last change of
-- them asks for, which is nothing if that change has no records, and what it had before if there is
-- no such change.
pub find-apply_zone_rrsets :
    (db db' : Db) (id v : ℕ) (rrs : List ZoneRrSet) (k : ZoneRrSet)
    → apply_zone_rrsets db id rrs ≡ ok (v, db')
    → find (is_rrset id k) db'.zone_rrsets
      ≡ outcome id (find (is_rrset id k) db.zone_rrsets) (last_change k rrs)
unfolding apply_zone_rrsets bumped_db
find-apply_zone_rrsets db db' id v rrs k h =
    let (r, b, h1) = >>=-eq-ok (bump db id) _ h in
    let same : insert_rrsets r.1.zone_rrsets id rrs ≡ db'.zone_rrsets =
      ap (λ (o : ℕ × Db). o.1.zone_rrsets) (ok-injective h1) in
    subst
      (λ rows.
        find (is_rrset id k) rows
        ≡ outcome id (find (is_rrset id k) db.zone_rrsets) (last_change k rrs))
      (ap (λ (d : Db). insert_rrsets d.zone_rrsets id rrs) (sym (bump-eq db id r b).0) ∙ same)
      (find-insert_rrsets rrs db.zone_rrsets id k)

-- If `replace_zone_rrsets` succeeds, then for every name and type the zone has what the last change of
-- them asks for, and nothing if there is no such change.
pub find-replace_zone_rrsets :
    (db db' : Db) (id v : ℕ) (rrs : List ZoneRrSet) (k : ZoneRrSet)
    → replace_zone_rrsets db id rrs ≡ ok (v, db')
    → find (is_rrset id k) db'.zone_rrsets ≡ outcome id none (last_change k rrs)
unfolding replace_zone_rrsets bumped_db
find-replace_zone_rrsets db db' id v rrs k h =
    let (r, b, h1) = >>=-eq-ok (bump db id) _ h in
    let kept : List RrsetRow = reject (λ x. x.zone_id == id) r.1.zone_rrsets in
    let same : insert_rrsets kept id rrs ≡ db'.zone_rrsets =
      ap (λ (o : ℕ × Db). o.1.zone_rrsets) (ok-injective h1) in
    subst (λ rows. find (is_rrset id k) rows ≡ outcome id none (last_change k rrs)) same
      (find-insert_rrsets rrs kept id k
        ∙ ap (λ o. outcome id o (last_change k rrs))
            (find-none (is_rrset id k) (λ x. x.zone_id == id) r.1.zone_rrsets
              (λ x e. (&&-eq-true (x.zone_id == id) _ e).0)))
