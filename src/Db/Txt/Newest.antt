-- ===== src/Db/Txt/Newest.antt =====
-- `update_acmedns_txt` keeps the two newest rows of a name: which these are, and how many.

use certo.Prelude.{
  ℕ, suc, ◌+◌, ◌≤◌, ◌<◌, ◌≡◌, ◌≢◌, refl, ap, sym, subst, ◌∙◌, Bool, true, false, not, ◌&&◌, none,
  some, List, [], ◌∷◌, ◌++◌, map, arith, ◌==◌, inl, inr, Bool-cases, any, select, reject, length,
  take, leb, order_by, All, All-select, Apart, Apart-snoc, Apart-select, select-append, ==_iff,
}
use certo.Text.{Str, contains}
use certo.Text.Affix.{str_eq_refl}
use certo.Db.{TxtRow}
use certo.Db.Txt.{named, insert_txt, txt_row, max_rowid, newer, newest_two, keep_newest_two}

-- The rows of a table have different rowids.
abbrev pub Distinct : List TxtRow → Type 0
Distinct rows = Apart (λ a b. a.rowid ≢ b.rowid) rows

none_matches :
    (k x : TxtRow) (xs : List TxtRow)
    → k.rowid ≡ x.rowid
    → All (λ y. x.rowid ≢ y.rowid) xs
    → reject (λ r. k.rowid == r.rowid) xs ≡ xs
none_matches k x [] e h = refl
none_matches k x (y ∷ xs) e (h, hs) = elim (Bool-cases (k.rowid == y.rowid)) [
  | inl m ↦ absurd (h (sym e ∙ (==_iff k.rowid y.rowid).0 m))
  | inr m ↦ rw m (ap (λ t. y ∷ t) (none_matches k x xs e hs))
]

-- Of rows with different rowids, one at most has a given rowid.
length-reject :
    (k : TxtRow) (xs : List TxtRow)
    → Distinct xs
    → length xs ≤ suc (length (reject (λ r. k.rowid == r.rowid) xs))
length-reject k [] h = omega arith
length-reject k (x ∷ xs) (h, hs) = elim (Bool-cases (k.rowid == x.rowid)) [
  | inl e ↦ rw e (rw (none_matches k x xs ((==_iff k.rowid x.rowid).0 e) h) (omega arith))
  | inr e ↦ rw e (omega (arith, length-reject k xs hs))
]

without :
    (k : TxtRow) (ks xs : List TxtRow)
    → All (λ x. any (λ y. y.rowid == x.rowid) (k ∷ ks) ≡ true) xs
    → All (λ x. any (λ y. y.rowid == x.rowid) ks ≡ true) (reject (λ r. k.rowid == r.rowid) xs)
without k ks [] h = tt
without k ks (x ∷ xs) (h, hs) = elim (Bool-cases (k.rowid == x.rowid)) [
  | inl e ↦ rw e (without k ks xs hs)
  | inr e ↦ rw e (rw e at h, without k ks xs hs)
]

length-among :
    (ks xs : List TxtRow)
    → Distinct xs
    → All (λ x. any (λ y. y.rowid == x.rowid) ks ≡ true) xs
    → length xs ≤ length ks
length-among [] [] h a = omega arith
length-among [] (x ∷ xs) h (a, more) = cc a
length-among (k ∷ ks) xs h a = omega (
  arith,
  length-reject k xs h,
  length-among ks (reject (λ r. k.rowid == r.rowid) xs) (Apart-select _ _ xs h) (without k ks xs a),
)

kept-among :
    (d : Str) (kept rows : List TxtRow)
    → All
        (λ x. any (λ y. y.rowid == x.rowid) kept ≡ true)
        (select
          (named d)
          (reject (λ r. named d r && not (any (λ k. k.rowid == r.rowid) kept)) rows))
kept-among d kept [] = tt
kept-among d kept (r ∷ rows) = elim (Bool-cases (named d r)) [
  | inl e ↦ elim (Bool-cases (any (λ k. k.rowid == r.rowid) kept)) [
    | inl f ↦ rw (e, f) (rw e (f, kept-among d kept rows))
    | inr f ↦ rw (e, f) (kept-among d kept rows)
  ]
  | inr e ↦ rw e (rw e (kept-among d kept rows))
]

length-take_two : (rows : List TxtRow) → length (take 2 rows) ≤ 2
length-take_two [] = omega arith
length-take_two (a ∷ []) = omega arith
length-take_two (a ∷ b ∷ rows) = omega arith

pub length-keep_newest_two :
    (d : Str) (rows : List TxtRow)
    → Distinct rows
    → length (select (named d) (keep_newest_two d rows)) ≤ 2
unfolding keep_newest_two newest_two
length-keep_newest_two d rows h =
    let kept : List TxtRow = take 2 (order_by newer (select (named d) rows)) in
    let bounded =
      length-among kept
        (select (named d)
          (reject (λ r. named d r && not (any (λ k. k.rowid == r.rowid) kept)) rows))
        (Apart-select _ _ _ (Apart-select _ _ rows h)) (kept-among d kept rows) in
    omega (arith, bounded, length-take_two (order_by newer (select (named d) rows)))

fresh_rowid : (rows : List TxtRow) (n : ℕ) → max_rowid rows < n → All (λ r. r.rowid ≢ n) rows
fresh_rowid [] n h = tt
fresh_rowid (r ∷ rows) n h = ((λ e. omega (arith, e)), fresh_rowid rows n (omega arith))

pub insert_txt-Distinct :
    (rows : List TxtRow) (d v : Str) (time : ℕ)
    → Distinct rows
    → Distinct (insert_txt rows d v time)
unfolding insert_txt
insert_txt-Distinct rows d v time h =
    Apart-snoc _ rows (txt_row rows d v time) h
      (fresh_rowid rows (max_rowid rows + 1) (omega arith))

-- The row was last written at `time` or before.
abbrev pub written_by : ℕ → TxtRow → Bool
written_by time r = elim r.last_update [ none ↦ true | some s ↦ leb s time ]

order_by-newest :
    (r : TxtRow) (rows : List TxtRow)
    → All (λ x. newer x r ≡ false) rows
    → order_by newer (rows ++ (r ∷ [])) ≡ r ∷ order_by newer rows
order_by-newest r [] h = refl
order_by-newest r (x ∷ rows) (h, hs) = rw (order_by-newest r rows hs) (rw h)

new_row_newest :
    (time : ℕ) (d v : Str) (rows all_rows : List TxtRow)
    → max_rowid rows ≤ max_rowid all_rows
    → All (λ x. written_by time x ≡ true) rows
    → All (λ x. newer x (txt_row all_rows d v time) ≡ false) rows
new_row_newest time d v [] all_rows m h = tt
new_row_newest time d v (x ∷ rows) all_rows m (h, hs) =
    (one x (omega (arith, m)) h, new_row_newest time d v rows all_rows (omega (arith, m)) hs)
  where
    one :
        (x : TxtRow)
        → x.rowid ≤ max_rowid all_rows
        → written_by time x ≡ true
        → newer x (txt_row all_rows d v time) ≡ false
    one x low h = ground arith

select-snoc :
    (p : TxtRow → Bool) (rows : List TxtRow) (r : TxtRow)
    → p r ≡ true
    → select p (rows ++ (r ∷ [])) ≡ select p rows ++ (r ∷ [])
select-snoc p rows r h = select-append p rows (r ∷ []) ∙ rw h

contains-snoc :
    (rows : List TxtRow) (r : TxtRow)
    → contains (map (λ (x : TxtRow). x.value) (rows ++ (r ∷ []))) r.value ≡ true
contains-snoc [] r = rw (str_eq_refl r.value)
contains-snoc (x ∷ rows) r = ground (arith, contains-snoc rows r)

pub keep_newest_two-new :
    (rows : List TxtRow) (d v : Str) (time : ℕ)
    → All (λ x. written_by time x ≡ true) rows
    → contains
        (map
          (λ (x : TxtRow). x.value)
          (select (named d) (keep_newest_two d (insert_txt rows d v time))))
        v
      ≡ true
unfolding keep_newest_two newest_two insert_txt
keep_newest_two-new rows d v time h =
    let r : TxtRow = txt_row rows d v time in
    let own : named d r ≡ true = str_eq_refl d in
    let kept : List TxtRow = take 2 (order_by newer (select (named d) (rows ++ (r ∷ [])))) in
    let first : order_by newer (select (named d) (rows ++ (r ∷ [])))
        ≡ r ∷ order_by newer (select (named d) rows) =
      ap (order_by newer) (select-snoc (named d) rows r own)
      ∙ order_by-newest r (select (named d) rows)
          (All-select _ (named d) rows (new_row_newest time d v rows rows (omega arith) h)) in
    let among : any (λ k. k.rowid == r.rowid) kept ≡ true =
      ap (λ ks. any (λ (k : TxtRow). k.rowid == r.rowid) (take 2 ks)) first
      ∙ rw ((==_iff r.rowid r.rowid).1 refl) in
    let q : TxtRow → Bool = λ x. not (named d x && not (any (λ k. k.rowid == x.rowid) kept)) in
    let stays : q r ≡ true = rw among (ground arith) in
    subst (λ xs. contains (map (λ (x : TxtRow). x.value) xs) v ≡ true)
      (sym (
        ap (select (named d)) (select-snoc q rows r stays)
        ∙ select-snoc (named d) (select q rows) r own))
      (contains-snoc (select (named d) (select q rows)) r)
