-- ===== src/Db/Step/History.antt =====
-- What holds of every history of the database that begins with the empty one.
use mathlib.Core.Option
use mathlib.Core.Bool.{false≢true}
use certo.Prelude.{
  ℕ, ◌≤◌, ◌≡◌, ◌≢◌, refl, ap, sym, ◌∙◌, true, false, Option, none, some, List, ◌++◌, arith, inl,
  inr, Option-cases, find, find_sound, Apart-find, ==_iff, Apart,
}
use certo.Text.{Str, Unicode}
use certo.Names.Inside.{labels, inside_iff-labels}
use certo.Db.{ZoneRow, Db, empty, is_owned, same_user}
use certo.Db.Zones.{has_id}
use certo.Db.Zones.Versions.{Follows}
use certo.Db.Shape.{Valid, Compatible}
use certo.Db.Step.{Run}
use certo.Db.Step.Laws.{Run-Evolves}

Valid-empty : Valid empty
Valid-empty = record { compatible = tt; counted = tt }

Compatible-sym : (a b : ZoneRow) → Compatible a b → Compatible b a
Compatible-sym a b c = record {
  ids = λ e. c.ids (sym e);
  names = λ e. c.names (sym e);
  separate =
      λ p q d. let (x, y) = c.separate q p (same_user_comm a.user_id b.user_id ∙ d) in (y, x);
}
  where
    same_user_comm : (x y : Option ℕ) → same_user x y ≡ same_user y x
    same_user_comm none none = refl
    same_user_comm none (some y) = refl
    same_user_comm (some x) none = refl
    same_user_comm (some x) (some y) = ground arith

either_way :
    (zs : List ZoneRow) (i j : ℕ) (a b : ZoneRow)
    → Apart Compatible zs
    → find (has_id i) zs ≡ some a
    → find (has_id j) zs ≡ some b
    → a ≢ b
    → Compatible a b
either_way zs i j a b v e f n = elim (Apart-find Compatible (has_id i) (has_id j) zs a b v e f) [
  | inl same ↦ absurd (n same)
  | inr r ↦ elim r [ inl c ↦ c | inr c ↦ Compatible-sym b a c ]
]

some-eq : {x y : ℕ} → ◌≡◌ {A = Option ℕ} (some x) (some y) → x ≡ y
some-eq e = Option.some-injective _ _ e

owned : (z : ZoneRow) (x : ℕ) → z.user_id ≡ some x → is_owned z ≡ true
owned z x p = ground arith

other_user :
    (a b : ZoneRow) (x y : ℕ)
    → a.user_id ≡ some x
    → b.user_id ≡ some y
    → x ≢ y
    → same_user a.user_id b.user_id ≡ false
other_user a b x y p q n = rw (p, q) (ground arith)

none≢some : (z : ZoneRow) → ◌≡◌ {A = Option ZoneRow} none (some z) → ⊥
none≢some z e = cc

module _ ⦃u : Unicode⦄ (sha256 : Str → List ℕ) where
  -- Let `db` be any database that the store's functions lead to from the empty one, and `db'` any
  -- that they lead to from `db`. A zone that is in both keeps its name and owner, its version has not
  -- fallen, and if its version is the same, so is all that PowerDNS serves for it (`SameServed`).
  pub Run-Follows :
      (db db' : Db) (id : ℕ) (z z' : ZoneRow)
      → Run sha256 empty db
      → Run sha256 db db'
      → find (has_id id) db.zones ≡ some z
      → find (has_id id) db'.zones ≡ some z'
      → Follows db db' z z'
  Run-Follows db db' id z z' r s e e' =
      (Run-Evolves sha256 db db' (Run-Evolves sha256 empty db Valid-empty r).valid s).tracks id z z'
        e e'

  -- In every reachable database, two zones of different users are never one inside the other: the
  -- labels of neither name end in the labels of the other.
  pub Run-separate :
      (db : Db) (i j : ℕ) (a b : ZoneRow) (x y : ℕ)
      → Run sha256 empty db
      → find (has_id i) db.zones ≡ some a
      → find (has_id j) db.zones ≡ some b
      → a.user_id ≡ some x
      → b.user_id ≡ some y
      → x ≢ y
      → ¬ ((above : List Str) × (labels a.name ≡ above ++ labels b.name))
  Run-separate db i j a b x y r e f p q n (above, same) =
      let v = (Run-Evolves sha256 empty db Valid-empty r).valid in
      let c =
        either_way db.zones i j a b v.compatible e f
          (λ s. n (some-eq (sym p ∙ ap (λ (z : ZoneRow). z.user_id) s ∙ q))) in
      let apart = (c.separate (owned a x p) (owned b y q) (other_user a b x y p q n)).0 in
      absurd (false≢true (sym apart ∙ (inside_iff-labels a.name b.name).1 (above, same)))

  -- In every reachable database, zones with different ids have different names.
  pub Run-distinct :
      (db : Db) (i j : ℕ) (a b : ZoneRow)
      → Run sha256 empty db
      → find (has_id i) db.zones ≡ some a
      → find (has_id j) db.zones ≡ some b
      → i ≢ j
      → a.name ≢ b.name
  Run-distinct db i j a b r e f n =
      let v = (Run-Evolves sha256 empty db Valid-empty r).valid in
      (either_way db.zones i j a b v.compatible e f (λ s. n (
        sym ((==_iff a.id i).0 (find_sound (has_id i) db.zones a e))
        ∙ ap (λ (z : ZoneRow). z.id) s
        ∙ (==_iff b.id j).0 (find_sound (has_id j) db.zones b f)))).names

  -- The id of a deleted zone is never given again: an id that was given and is free stays free.
  pub Run-no_return :
      (db db' : Db) (id : ℕ)
      → Run sha256 empty db
      → Run sha256 db db'
      → id ≤ db.last_zone
      → find (has_id id) db.zones ≡ none
      → find (has_id id) db'.zones ≡ none
  Run-no_return db db' id r s low e = elim (Option-cases (find (has_id id) db'.zones)) [
    | inl gone ↦ gone
    | inr (z', there) ↦
        let v = (Run-Evolves sha256 empty db Valid-empty r).valid in
        let (z, was) = (Run-Evolves sha256 db db' v s).no_return id z' low there in
        absurd (none≢some z (sym e ∙ was))
  ]
