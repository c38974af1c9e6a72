-- ===== src/Service/Seed/Grouping.antt =====
-- `group_rrsets`: every name and type has one set, with the data of all its records in their order.
use certo.Prelude.{
  ◌≡◌, refl, sym, ap, ◌∙◌, Bool, true, false, ◌&&◌, List, [], ◌∷◌, ◌++◌, map, arith, inl, inr,
  Bool-cases, &&-eq-true, if◌then◌else◌, is_empty, select, All, Apart,
}
use mathlib.Core.List.{append-nil}
use certo.Text.{Str, str_eq}
use certo.Text.Affix.{str_eq_iff}
use certo.Core.{ZoneRrSet}
use certo.Sync.{apex}
use certo.Service.Seed.{StaticRecord, is_set_of, add_record, group_from, group_rrsets}

append_assoc : (xs ys zs : List Str) → (xs ++ ys) ++ zs ≡ xs ++ (ys ++ zs)
append_assoc [] ys zs = refl
append_assoc (x ∷ xs) ys zs = ap (λ l. x ∷ l) (append_assoc xs ys zs)

module _ (name rtype : Str) where
  -- The data of the set of the name and type.
  abbrev pub lookup : List ZoneRrSet → List Str
  lookup [] = []
  lookup (s ∷ ss) =
      let rest = lookup ss in if str_eq s.name name && str_eq s.rtype rtype then s.records else rest

  abbrev pub is_given : StaticRecord → Bool
  is_given r = str_eq (apex r.name) name && str_eq r.rtype rtype

  abbrev given : StaticRecord → List Str
  given r = if is_given r then r.rdata ∷ [] else []

  -- A set takes a record of its own name and type only.
  own_set :
      (s : ZoneRrSet) (r : StaticRecord)
      → is_set_of r s ≡ true
      → is_given r ≡ (str_eq s.name name && str_eq s.rtype rtype)
  own_set s r e =
      let (n, t) = &&-eq-true (str_eq s.name (apex r.name)) (str_eq s.rtype r.rtype) e in
      ap (λ x. str_eq x name && str_eq r.rtype rtype) (sym ((str_eq_iff s.name (apex r.name)).0 n))
      ∙ ap (λ x. str_eq s.name name && str_eq x rtype) (sym ((str_eq_iff s.rtype r.rtype).0 t))

  other_set :
      (s : ZoneRrSet) (r : StaticRecord)
      → is_set_of r s ≡ false
      → (str_eq s.name name && str_eq s.rtype rtype) ≡ true
      → is_given r ≡ false
  other_set s r e k = elim (Bool-cases (is_given r)) [
    | inr g ↦ g
    | inl g ↦
        let (n, t) = &&-eq-true (str_eq s.name name) (str_eq s.rtype rtype) k in
        let (m, v) = &&-eq-true (str_eq (apex r.name) name) (str_eq r.rtype rtype) g in
        let same_name : str_eq s.name (apex r.name) ≡ true =
          (str_eq_iff s.name (apex r.name)).1
            ((str_eq_iff s.name name).0 n ∙ sym ((str_eq_iff (apex r.name) name).0 m)) in
        let same_type : str_eq s.rtype r.rtype ≡ true =
          (str_eq_iff s.rtype r.rtype).1
            ((str_eq_iff s.rtype rtype).0 t ∙ sym ((str_eq_iff r.rtype rtype).0 v)) in
        ground arith
  ]

  lookup-add_record :
      (sets : List ZoneRrSet) (r : StaticRecord)
      → lookup (add_record sets r) ≡ lookup sets ++ given r
  unfolding add_record
  lookup-add_record [] r = refl
  lookup-add_record (s ∷ ss) r = elim (Bool-cases (is_set_of r s)) [
    | inl e ↦ elim (Bool-cases (str_eq s.name name && str_eq s.rtype rtype)) [
      | inl k ↦ rw (e, own_set s r e ∙ k, k) refl
      | inr k ↦ rw (e, own_set s r e ∙ k, k) (sym (append-nil (lookup ss)))
    ]
    | inr e ↦ elim (Bool-cases (str_eq s.name name && str_eq s.rtype rtype)) [
      | inl k ↦ rw (e, k, other_set s r e k) (sym (append-nil s.records))
      | inr k ↦ rw (e, k) (lookup-add_record ss r)
    ]
  ]

  -- The data of the records of the name and type.
  abbrev pub values_given : List StaticRecord → List Str
  values_given rs = map (λ r. r.rdata) (select is_given rs)

  given-cons :
      (r : StaticRecord) (rs : List StaticRecord)
      → given r ++ values_given rs ≡ values_given (r ∷ rs)
  given-cons r rs = elim (Bool-cases (is_given r)) [ inl g ↦ rw g refl | inr g ↦ rw g refl ]

  lookup-group_from :
      (sets : List ZoneRrSet) (rs : List StaticRecord)
      → lookup (group_from sets rs) ≡ lookup sets ++ values_given rs
  unfolding group_from
  lookup-group_from sets [] = sym (append-nil (lookup sets))
  lookup-group_from sets (r ∷ rs) =
      lookup-group_from (add_record sets r) rs
      ∙ ap (λ l. l ++ values_given rs) (lookup-add_record sets r)
      ∙ append_assoc (lookup sets) (given r) (values_given rs)
      ∙ ap (λ l. lookup sets ++ l) (given-cons r rs)

abbrev same_set : ZoneRrSet → Str → Str → Bool
same_set s name rtype = str_eq s.name name && str_eq s.rtype rtype

-- Sets of different names or types.
abbrev pub Differs : ZoneRrSet → ZoneRrSet → Type 0
Differs a b = same_set a b.name b.rtype ≡ false

add_record-All :
    (P : Str → Str → Type 0) (sets : List ZoneRrSet) (r : StaticRecord)
    → All (λ s. P s.name s.rtype) sets
    → P (apex r.name) r.rtype
    → All (λ s. P s.name s.rtype) (add_record sets r)
unfolding add_record
add_record-All P [] r h k = (k, tt)
add_record-All P (s ∷ ss) r (h, hs) k = elim (Bool-cases (is_set_of r s)) [
  | inl e ↦ rw e (h, hs)
  | inr e ↦ rw e (h, add_record-All P ss r hs k)
]

add_record-Apart :
    (sets : List ZoneRrSet) (r : StaticRecord)
    → Apart Differs sets
    → Apart Differs (add_record sets r)
unfolding add_record
add_record-Apart [] r h = (tt, tt)
add_record-Apart (s ∷ ss) r (h, hs) = elim (Bool-cases (is_set_of r s)) [
  | inl e ↦ rw e (h, hs)
  | inr e ↦ rw e (add_record-All (λ n t. same_set s n t ≡ false) ss r h e, add_record-Apart ss r hs)
]

abbrev HasRecords : ZoneRrSet → Type 0
HasRecords s = is_empty s.records ≡ false

one_more : (xs : List Str) (y : Str) → is_empty (xs ++ (y ∷ [])) ≡ false
one_more [] y = refl
one_more (x ∷ xs) y = refl

add_record-HasRecords :
    (sets : List ZoneRrSet) (r : StaticRecord)
    → All HasRecords sets
    → All HasRecords (add_record sets r)
unfolding add_record
add_record-HasRecords [] r h = (refl, tt)
add_record-HasRecords (s ∷ ss) r (h, hs) = elim (Bool-cases (is_set_of r s)) [
  | inl e ↦ rw e (one_more s.records r.rdata, hs)
  | inr e ↦ rw e (h, add_record-HasRecords ss r hs)
]

group_from-shape :
    (sets : List ZoneRrSet) (rs : List StaticRecord)
    → Apart Differs sets
    → All HasRecords sets
    → Apart Differs (group_from sets rs) × All HasRecords (group_from sets rs)
unfolding group_from
group_from-shape sets [] a h = (a, h)
group_from-shape sets (r ∷ rs) a h =
    group_from-shape (add_record sets r) rs (add_record-Apart sets r a)
      (add_record-HasRecords sets r h)

-- No two sets of `group_rrsets` have one name and type, none is empty, and the set of a name and type
-- holds the data of the records that have them, in their order; there is none if there are none.
pub group_rrsets_complete :
    (records : List StaticRecord) (name rtype : Str)
    → Apart Differs (group_rrsets records)
      × All (λ s. is_empty s.records ≡ false) (group_rrsets records)
      × (lookup name rtype (group_rrsets records) ≡ values_given name rtype records)
unfolding group_rrsets
group_rrsets_complete records name rtype =
    let (apart, full) = group_from-shape [] records tt tt in
    (apart, full, lookup-group_from name rtype [] records)
