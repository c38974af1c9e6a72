-- ===== src/Db/Shape.antt =====
-- What the operations do to the table of zones: rows are updated and keep their identity, removed,
-- or one row is added under a fresh id. From the shape alone: validity, and that ids never return.
use certo.Prelude.{
  ℕ, ◌+◌, ◌≤◌, ◌≡◌, ◌≢◌, sym, subst, ◌∙◌, Bool, true, false, List, [], ◌∷◌, ◌++◌, arith,
  if◌then◌else◌, reject, update_where, All, All-select, All-append, All-map, Apart, Apart-select,
  Apart-snoc,
}
use certo.Names.{inside}
use certo.Db.{ZoneRow, Db, is_owned, same_user}
use certo.Db.Zones.Versions.{Keeps}

-- Two zones may stand side by side: ids and names differ, and if both are owned, by different users,
-- neither is inside the other.
pub record Compatible (a b : ZoneRow) : Type 0 where
  pub ids : a.id ≢ b.id
  pub names : a.name ≢ b.name
  pub separate :
      is_owned a ≡ true
      → is_owned b ≡ true
      → same_user a.user_id b.user_id ≡ false
      → (inside a.name b.name ≡ false) × (inside b.name a.name ≡ false)

pub record Valid (db : Db) : Type 0 where
  pub compatible : Apart Compatible db.zones
  pub counted : All (λ z. z.id ≤ db.last_zone) db.zones

pub data Shape (db db' : Db) : Type 0 where
  updated :
      (p : ZoneRow → Bool) (f : ZoneRow → ZoneRow)
      → Keeps f
      → db'.zones ≡ update_where p f db.zones
      → db'.last_zone ≡ db.last_zone
      → Shape db db'
  removed :
      (p : ZoneRow → Bool)
      → db'.zones ≡ reject p db.zones
      → db'.last_zone ≡ db.last_zone
      → Shape db db'
  added :
      (z : ZoneRow)
      → z.id ≡ db.last_zone + 1
      → All (λ x. x.id ≢ z.id → Compatible x z) db.zones
      → db'.zones ≡ db.zones ++ (z ∷ [])
      → db'.last_zone ≡ db.last_zone + 1
      → Shape db db'

-- `Compatible` reads what an update keeps.
Compatible-cong :
    (a b a' b' : ZoneRow)
    → a'.id ≡ a.id
    → b'.id ≡ b.id
    → a'.name ≡ a.name
    → b'.name ≡ b.name
    → a'.user_id ≡ a.user_id
    → b'.user_id ≡ b.user_id
    → Compatible a b
    → Compatible a' b'
Compatible-cong a b a' b' ia ib na nb ua ub c = record {
  ids = λ e. c.ids (sym ia ∙ e ∙ ib);
  names = λ e. c.names (sym na ∙ e ∙ nb);
  separate = rw (na, nb, ua, ub) c.separate;
}

module _ (p : ZoneRow → Bool) (f : ZoneRow → ZoneRow) (k : Keeps f) where
  abbrev moved : ZoneRow → ZoneRow
  moved z = if p z then f z else z

  moved-id : (z : ZoneRow) → (moved z).id ≡ z.id
  moved-id z = ground (arith, k.id z)

  moved-name : (z : ZoneRow) → (moved z).name ≡ z.name
  moved-name z = ground (arith, k.name z)

  moved-user : (z : ZoneRow) → (moved z).user_id ≡ z.user_id
  moved-user z = ground (arith, k.user_id z)

  moved-All :
      (a : ZoneRow) (zs : List ZoneRow)
      → All (Compatible a) zs
      → All (Compatible (moved a)) (update_where p f zs)
  moved-All a [] h = tt
  moved-All a (z ∷ zs) (h, hs) = (
    Compatible-cong a z (moved a) (moved z) (moved-id a) (moved-id z) (moved-name a) (moved-name z)
        (moved-user a) (moved-user z) h,
    moved-All a zs hs,
  )

  moved-Apart : (zs : List ZoneRow) → Apart Compatible zs → Apart Compatible (update_where p f zs)
  moved-Apart [] h = tt
  moved-Apart (z ∷ zs) (h, hs) = (moved-All z zs h, moved-Apart zs hs)

  moved-counted :
      (n : ℕ) (zs : List ZoneRow)
      → All (λ z. z.id ≤ n) zs
      → All (λ z. z.id ≤ n) (update_where p f zs)
  moved-counted n [] h = tt
  moved-counted n (z ∷ zs) (h, hs) = (omega (arith, moved-id z), moved-counted n zs hs)

fresh :
    (n : ℕ) (z : ZoneRow) (zs : List ZoneRow)
    → z.id ≡ n + 1
    → All (λ x. x.id ≤ n) zs
    → All (λ x. x.id ≢ z.id → Compatible x z) zs
    → All (λ x. Compatible x z) zs
fresh n z [] e h k = tt
fresh n z (x ∷ xs) e (h, hs) (k, ks) = (k (omega arith), fresh n z xs e hs ks)

-- Every shape keeps the table valid.
pub Shape-Valid : (db db' : Db) → Shape db db' → Valid db → Valid db'
Shape-Valid db db' (updated p f k e n) v = record {
  compatible = subst (Apart Compatible) (sym e) (moved-Apart p f k db.zones v.compatible);
  counted =
      subst (λ m. All (λ z. z.id ≤ m) db'.zones) (sym n)
        (subst (All (λ z. z.id ≤ db.last_zone)) (sym e)
          (moved-counted p f k db.last_zone db.zones v.counted));
}
Shape-Valid db db' (removed p e n) v = record {
  compatible = subst (Apart Compatible) (sym e) (Apart-select Compatible _ db.zones v.compatible);
  counted =
      subst (λ m. All (λ z. z.id ≤ m) db'.zones) (sym n)
        (subst (All (λ z. z.id ≤ db.last_zone)) (sym e) (All-select _ _ db.zones v.counted));
}
Shape-Valid db db' (added z i c e n) v = record {
  compatible =
      subst (Apart Compatible) (sym e) (
        Apart-snoc Compatible db.zones z v.compatible
          (fresh db.last_zone z db.zones i v.counted c));
  counted =
      subst (λ m. All (λ x. x.id ≤ m) db'.zones) (sym n)
        (subst (All (λ x. x.id ≤ db.last_zone + 1)) (sym e) (
          All-append _ db.zones (z ∷ []) (All-map _ _ (λ x h. omega arith) db.zones v.counted)
            (omega arith, tt)));
}
