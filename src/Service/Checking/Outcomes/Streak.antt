-- ===== src/Service/Checking/Outcomes/Streak.antt =====
-- A zone that loses its delegation: consecutive checks that find it not delegated.
use certo.Prelude.{
  ℕ, suc, ◌+◌, ◌≡◌, sym, subst, Bool, true, some, arith, ok, Bool-cases, inl, inr, leb, ltb, find,
}
use certo.Text.{Unicode, Str}
use certo.Core.{Zone}
use certo.Db.{ZoneRow}
use certo.Db.Zones.{has_id}
use certo.Service.{Zones, World, not_delegated}
use certo.Service.Lifecycle.{run_check}
use certo.Service.Checking.Outcomes.{row_after, run_check-row_after}

-- After `n` failures a row that began active without any: active with `n` failures, or inactive.
abbrev Streak : ℕ → ZoneRow → Type 0
Streak n z = (z.active ≡ ltb n 7) × (z.active ≡ true → z.failed_checks ≡ n)

next_failure :
    (n time : ℕ) (exempt : Bool) (reason : Str) (z : ZoneRow)
    → Streak n z
    → Streak (suc n) (row_after time exempt (ok (not_delegated reason)) true z)
next_failure n time exempt reason z (a, f) = elim (Bool-cases z.active) [
  | inl e ↦
      let counted = f e in
      elim (Bool-cases (leb 7 (z.failed_checks + 1))) [
        | inl k ↦ rw (e, k) (ground arith, λ h. ground arith)
        | inr k ↦ rw (e, k) (ground arith, λ h. ground arith)
      ]
  | inr e ↦ rw e (ground arith, λ h. ground arith)
]

module _ ⦃u : Unicode⦄ {S : Type 0} (id : ℕ) where
  -- `n` checks of the zone in a row that find it not delegated, each of which succeeds. The times, the
  -- reasons, the servers' answers and what the callers know of the zone may differ.
  pub data Failing (w : World S) : ℕ → World S → Type 0 where
    unchecked : Failing w 0 w
    fails :
        {n : ℕ} {mid w' : World S} (zones : Zones S) (time : ℕ) (zone out : Zone) (reason : Str)
        → Failing w n mid
        → zone.id ≡ id
        → zones.checker zone.name zones.policy.nsname ≡ ok (not_delegated reason)
        → run_check zones time zone mid ≡ (ok out, w')
        → Failing w (suc n) w'

  streak :
      {w w' : World S} {n : ℕ} (z : ZoneRow)
      → Failing w n w'
      → find (has_id id) w.db.zones ≡ some z
      → Streak 0 z
      → (z' : ZoneRow) × (find (has_id id) w'.db.zones ≡ some z') × Streak n z'
  streak z unchecked there s = (z, there, s)
  streak {w' = w'} z (fails {n = n} {mid = mid} zones time zone out reason before own verdict done)
        there s =
      let (y, found, sy) = streak z before there s in
      let found' : find (has_id zone.id) mid.db.zones ≡ some y =
        subst (λ i. find (has_id i) mid.db.zones ≡ some y) (sym own) found in
      let row = run_check-row_after zones time zone mid y found' in
      let row' : find (has_id id) w'.db.zones
          ≡ some (row_after time zone.exempt (ok (not_delegated reason)) true y) =
        rw (done, verdict, own) at row in
      (_, row', next_failure n time zone.exempt reason y sy)

  -- Let a zone be active without failed checks. After `n` successful checks in a row that find it not
  -- delegated, it is active if and only if `n` is below 7: the seventh check switches it off, no
  -- earlier one does, and no later one switches it on.
  pub Failing-seventh :
      {w w' : World S} {n : ℕ} (z : ZoneRow)
      → Failing w n w'
      → find (has_id id) w.db.zones ≡ some z
      → z.active ≡ true
      → z.failed_checks ≡ 0
      → (z' : ZoneRow) × (find (has_id id) w'.db.zones ≡ some z') × (z'.active ≡ ltb n 7)
  Failing-seventh z failures there active none_failed =
      let (z', found, (a, _)) = streak z failures there (ground arith, λ _. none_failed) in
      (z', found, a)
