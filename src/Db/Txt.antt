-- ===== src/Db/Txt.antt =====
-- crates/certo-db/src/store.rs, the challenge TXT values. The rows of `txt` stand in the order of
-- their rowids; a new row gets the greatest rowid plus one. `time` is the result of `now()`.
pub mod Newest
pub mod Values
use Prim.Native.Nat.{max}
use certo.Prelude.{
  ℕ, ◌+◌, Bool, true, false, not, ◌&&◌, ◌||◌, Option, none, some, List, [], ◌∷◌, ◌++◌, map, ltb,
  leb, ◌==◌, if◌then◌else◌, is_empty, any, select, reject, order_by, take,
}
use certo.Text.{Str, Unicode, str_eq, str_leb, contains}
use certo.Core.{TxtRecord, sanitize_fqdn}
use certo.Db.{TxtRow, Db}
use certo.Db.Zones.{bump_base_zone}

abbrev pub max_rowid : List TxtRow → ℕ
max_rowid [] = 0
max_rowid (r ∷ rs) = max r.rowid (max_rowid rs)

abbrev pub txt_row : List TxtRow → Str → Str → ℕ → TxtRow
txt_row rows domain value time = record {
  rowid = max_rowid rows + 1;
  domain = domain;
  value = value;
  last_update = some time;
}

-- INSERT INTO txt
unfoldable pub insert_txt : List TxtRow → Str → Str → ℕ → List TxtRow
insert_txt rows domain value time = rows ++ (txt_row rows domain value time ∷ [])

abbrev pub named : Str → TxtRow → Bool
named domain r = str_eq r.domain domain

-- The columns that `txt_by_domain` reads, grouped: a row joins the last group if the name is its.
abbrev pub add_value : Str → Str → List (Str × List Str) → List (Str × List Str)
add_value d v [] = (d, v ∷ []) ∷ []
add_value d v ((e, vs) ∷ gs) = if str_eq e d then (e, v ∷ vs) ∷ gs else (d, v ∷ []) ∷ (e, vs) ∷ gs

-- The loop from its last row on: a group is begun by its last row.
unfoldable pub group_rows : List TxtRow → List (Str × List Str)
group_rows [] = []
group_rows (r ∷ rs) = add_value r.domain r.value (group_rows rs)

abbrev by_domain : TxtRow → TxtRow → Bool
by_domain a b = str_leb a.domain b.domain

unfoldable pub txt_by_domain : Db → List (Str × List Str)
unfolding group_rows
txt_by_domain db = group_rows (order_by by_domain db.txt)

unfoldable pub present_txt : ⦃u : Unicode⦄ → Db → ℕ → Str → Str → Db
present_txt db time fqdn value =
    bump_base_zone (record db { txt = insert_txt db.txt (sanitize_fqdn fqdn) value time })

unfoldable pub cleanup_txt : ⦃u : Unicode⦄ → Db → Str → Str → Db
cleanup_txt db fqdn value =
    bump_base_zone (record db {
      txt = reject (λ r. named (sanitize_fqdn fqdn) r && str_eq r.value value) db.txt;
    })

-- `ORDER BY LastUpdate DESC, rowid DESC`; NULL is the least.
abbrev pub newer : TxtRow → TxtRow → Bool
newer a b = elim a.last_update [
  | none ↦ elim b.last_update [ none ↦ leb b.rowid a.rowid | some t ↦ false ]
  | some s ↦ elim b.last_update [
    | none ↦ true
    | some t ↦ ltb t s || (s == t && leb b.rowid a.rowid)
  ]
]

-- The rows of the subquery with LIMIT 2.
unfoldable pub newest_two : Str → List TxtRow → List TxtRow
newest_two domain rows = take 2 (order_by newer (select (named domain) rows))

-- The rows that the DELETE of `update_acmedns_txt` leaves.
unfoldable pub keep_newest_two : Str → List TxtRow → List TxtRow
keep_newest_two domain rows =
    let kept = newest_two domain rows in
    reject (λ r. named domain r && not (any (λ k. k.rowid == r.rowid) kept)) rows

unfoldable pub update_acmedns_txt : ⦃u : Unicode⦄ → Db → ℕ → Str → Str → Db
update_acmedns_txt db time fqdn value =
    let name = sanitize_fqdn fqdn in
    bump_base_zone (record db { txt = keep_newest_two name (insert_txt db.txt name value time) })

unfoldable pub txt_for_domain : Db → Str → List Str
txt_for_domain db domain = map (λ r. r.value) (select (named domain) db.txt)

abbrev or_zero : Option ℕ → ℕ
or_zero none = 0
or_zero (some n) = n

-- `txt_row` of the source
abbrev pub txt_record : TxtRow → TxtRecord
txt_record r = record { domain = r.domain; value = r.value; last_update = or_zero r.last_update }

unfoldable pub list_txt_records : Db → List TxtRecord
list_txt_records db = map txt_record (order_by newer db.txt)

unfoldable pub list_txt_records_by_domains : ⦃u : Unicode⦄ → Db → List Str → List TxtRecord
list_txt_records_by_domains db domains =
    if is_empty domains
    then []
    else map txt_record
        (order_by newer (select (λ r. contains (map sanitize_fqdn domains) r.domain) db.txt))

-- `LastUpdate IS NULL OR LastUpdate < before`
abbrev pub expired : ℕ → TxtRow → Bool
expired before r = elim r.last_update [ none ↦ true | some t ↦ ltb t before ]

-- SELECT DISTINCT
unfoldable pub distinct : List Str → List Str
distinct [] = []
distinct (s ∷ ss) = s ∷ reject (str_eq s) (distinct ss)

unfoldable pub expire_txt : Db → ℕ → List Str × Db
unfolding distinct
expire_txt db before =
    let names = distinct (map (λ r. r.domain) (select (expired before) db.txt)) in
    if is_empty names
    then (names, db)
    else (names, bump_base_zone (record db { txt = reject (expired before) db.txt }))
