-- ===== src/Db/Evolves.antt =====
-- How the database evolves from one point to a later one, step by step.
use mathlib.Core.Option
use certo.Prelude.{
  ℕ, ◌+◌, ◌≤◌, ◌≡◌, ap, sym, subst, ◌∙◌, true, false, Option, none, some, arith, if◌then◌else◌,
  find, find_sound, find-update_where, find-of_reject, find-of_snoc, find-All, ==_iff,
}
use certo.Db.{ZoneRow, Db, is_owned}
use certo.Db.Zones.{has_id}
use certo.Db.Zones.Versions.{Tracks, Follows, SameServed, SameData}
use certo.Db.Shape.{Valid, Shape, updated, removed, added, Shape-Valid}

-- The zone table stays valid, versions track what is served, and an id that was once given does not
-- come back after its zone is gone.
pub record Evolves (db db' : Db) : Type 0 where
  pub valid : Valid db'
  pub tracks : Tracks db db'
  pub no_return :
      (id : ℕ) (z' : ZoneRow)
      → id ≤ db.last_zone
      → find (has_id id) db'.zones ≡ some z'
      → (z : ZoneRow) × (find (has_id id) db.zones ≡ some z)
  pub counter : db.last_zone ≤ db'.last_zone

Shape-no_return :
    (db db' : Db) (id : ℕ) (z' : ZoneRow)
    → Shape db db'
    → id ≤ db.last_zone
    → find (has_id id) db'.zones ≡ some z'
    → (z : ZoneRow) × (find (has_id id) db.zones ≡ some z)
Shape-no_return db db' id z' (updated p f k e n) low h =
    let found : Option.map (λ x. if p x then f x else x) (find (has_id id) db.zones) ≡ some z' =
      sym (find-update_where (has_id id) p f db.zones (λ x _. rw (k.id x)))
      ∙ subst (λ zs. find (has_id id) zs ≡ some z') e h in
    let (z, there, _) = (Option.map-eq-some_iff _ _).0 found in (z, there)
Shape-no_return db db' id z' (removed p e n) low h =
    find-of_reject (has_id id) p db.zones z' (subst (λ zs. find (has_id id) zs ≡ some z') e h)
Shape-no_return db db' id z' (added z i c e n) low h = (
  z',
  find-of_snoc (has_id id) db.zones z z' (new_differs id z db.last_zone i low)
      (subst (λ zs. find (has_id id) zs ≡ some z') e h),
)
  where
    new_differs : (id : ℕ) (z : ZoneRow) (n : ℕ) → z.id ≡ n + 1 → id ≤ n → has_id id z ≡ false
    new_differs id z n e h = ground arith

Shape-counter : (db db' : Db) → Shape db db' → db.last_zone ≤ db'.last_zone
Shape-counter db db' (updated p f k e n) = omega arith
Shape-counter db db' (removed p e n) = omega arith
Shape-counter db db' (added z i c e n) = omega arith

pub Shape-Evolves : (db db' : Db) → Valid db → Shape db db' → Tracks db db' → Evolves db db'
Shape-Evolves db db' v s t = record {
  valid = Shape-Valid db db' s v;
  tracks = t;
  no_return = λ id z' low h. Shape-no_return db db' id z' s low h;
  counter = Shape-counter db db' s;
}

SameServed-trans :
    (a b c : Db) (x y z : ZoneRow)
    → x.id ≡ y.id
    → is_owned x ≡ is_owned y
    → SameServed a b x y
    → SameServed b c y z
    → SameServed a c x z
SameServed-trans a b c x y z i o h k = record {
  active = h.active ∙ k.active;
  axfr = h.axfr ∙ k.axfr;
  held = held_trans h.held (subst (SameData b c) (sym i) k.held);
  challenges = λ e. h.challenges e ∙ k.challenges (sym o ∙ e);
}
  where
    held_trans : SameData a b x.id → SameData b c x.id → SameData a c x.id
    held_trans p q = record {
      rrsets = p.rrsets ∙ q.rrsets;
      dnssec = p.dnssec ∙ q.dnssec;
      tsig = p.tsig ∙ q.tsig;
    }

Follows-trans :
    (a b c : Db) (x y z : ZoneRow)
    → x.id ≡ y.id
    → Follows a b x y
    → Follows b c y z
    → Follows a c x z
Follows-trans a b c x y z i h k = record {
  name = h.name ∙ k.name;
  owner = h.owner ∙ k.owner;
  grows = omega (arith, h.grows, k.grows);
  same = λ e.
      SameServed-trans a b c x y z i
        (ap (λ (o : Option ℕ). (elim o [ none ↦ false | some _ ↦ true ])) h.owner)
        (h.same (omega (arith, h.grows, k.grows))) (k.same (omega (arith, h.grows, k.grows)));
}

pub Evolves-trans : (a b c : Db) → Valid a → Evolves a b → Evolves b c → Evolves a c
Evolves-trans a b c v h k = record {
  valid = k.valid;
  tracks = λ id x z e e'.
      let low : id ≤ a.last_zone =
        subst (λ j. j ≤ a.last_zone) ((==_iff x.id id).0 (find_sound (has_id id) a.zones x e))
          (find-All (λ r. r.id ≤ a.last_zone) (has_id id) a.zones x v.counted e) in
      let (y, there) = k.no_return id z (omega (arith, h.counter)) e' in
      Follows-trans a b c x y z
        (same_id id x y (find_sound (has_id id) a.zones x e)
          (find_sound (has_id id) b.zones y there))
        (h.tracks id x y e there) (k.tracks id y z there e');
  no_return = λ id z low e.
      let (y, there) = k.no_return id z (omega (arith, h.counter)) e in h.no_return id y low there;
  counter = omega (arith, h.counter, k.counter);
}
  where
    same_id : (id : ℕ) (x y : ZoneRow) → has_id id x ≡ true → has_id id y ≡ true → x.id ≡ y.id
    same_id id x y p q = ground arith
