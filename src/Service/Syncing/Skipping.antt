-- ===== src/Service/Syncing/Skipping.antt =====
-- A zone that is stamped with the version of the database is left alone by `sync`.
use certo.Prelude.{
  ℕ, ◌≡◌, ◌<◌, refl, ap, true, false, not, some, List, [], ◌∷◌, arith, Result, ok, err, ==_iff,
}
use certo.Text.{Str, Unicode, trim, is_whitespace}
use certo.Text.Trim.{trim-none, all-weaken}
use certo.Text.Decimal.{pos, to_string, is_digit, all-digits, parse_i64-to_string}
use certo.Core.{Zone}
use certo.Pdns.{PdnsError, ZoneSummary}
use certo.Pdns.Client
use certo.Pdns.Client.{zone_id, or_missing}
use certo.Pdns.Answers.{ReadsBack}
use certo.Service.{Zones, World, ZoneOpError, pure, ◌>>=◌, received, sends, sends_or, from_pdns}
use certo.Service.Stamps.{version_metadata, parse_version, stamp}
use certo.Service.Syncing.{SyncReport, is_served, sync_zone}

to_string-trim : (n : ℕ) → trim (to_string n) ≡ to_string n
unfolding to_string is_whitespace is_digit
to_string-trim n = trim-none (to_string n) (
    all-weaken is_digit (λ c. not (is_whitespace c)) (λ c h. ground arith) (to_string n)
      (all-digits n n [] refl))

-- For a version below 2^63, `parse_version` reads back what `stamp` writes.
pub parse_version-to_string :
    (n : ℕ) → n < 9223372036854775808 → parse_version (to_string n ∷ []) ≡ some (pos n)
unfolding parse_version
parse_version-to_string n h = rw (to_string-trim n) (parse_i64-to_string n h)

or_missing-ok :
    {A S : Type 0} (d a : A) (out : Result PdnsError A × S)
    → out.0 ≡ ok a
    → (or_missing d out).0 ≡ ok a
or_missing-ok d a (ok b, s) h = h
or_missing-ok d a (err e, s) h = cc

received-eq-ok :
    {S : Type 0} (w w' : World S) (out : Result PdnsError (Unit {0}) × S)
    → received from_pdns w out ≡ (ok tt, w')
    → out ≡ (ok tt, w'.pdns)
received-eq-ok w w' (ok _, s) h = ap (λ p. (ok tt, p.1.pdns)) h
received-eq-ok w w' (err e, s) h = let failed = ap (λ p. p.0) h in cc

received-ok :
    {A S : Type 0} (w : World S) (a : A) (out : Result PdnsError A × S)
    → out.0 ≡ ok a
    → received from_pdns w out ≡ (ok a, record w { pdns = out.1 })
received-ok w a (ok b, s) h = ap (λ r. (read r, record w { pdns = s })) h
  where
    read : {A : Type 0} → Result PdnsError A → Result ZoneOpError A
    read (ok x) = ok x
    read (err e) = err (from_pdns e)
received-ok w a (err e, s) h = cc

module _ ⦃u : Unicode⦄ {S : Type 0} (zones : Zones S) (honest : ReadsBack zones.server) where
  stamped :
      (name : Str) (n : ℕ) (w w' : World S)
      → stamp zones name n w ≡ (ok tt, w')
      → (Client.metadata zones.server name version_metadata w'.pdns).0 ≡ ok (to_string n ∷ [])
  unfolding stamp sends sends_or Client.set_metadata Client.metadata
  stamped name n w w' h =
      let put =
        zones.server.put_metadata (zone_id name) version_metadata (to_string n ∷ []) w.pdns in
      or_missing-ok [] (to_string n ∷ [])
        (zones.server.get_metadata (zone_id name) version_metadata w'.pdns)
        (honest.metadata (zone_id name) version_metadata (to_string n ∷ []) w.pdns w'.pdns
          (received-eq-ok w w' put h))

  -- Let the server answer the metadata that it has taken, let it list the zone, and let the version be
  -- below 2^63. Once the zone is stamped with the version of its row, `sync` without force passes over
  -- it: nothing is counted, and the database stays.
  pub sync_zone-stamp :
      (served : List ZoneSummary) (report : SyncReport) (zone : Zone) (w w' : World S)
      → is_served served zone ≡ true
      → zone.version < 9223372036854775808
      → stamp zones zone.name zone.version w ≡ (ok tt, w')
      → ((sync_zone zones false served report zone w').0 ≡ ok report)
        × ((sync_zone zones false served report zone w').1.db ≡ w'.db)
  unfolding sync_zone ◌>>=◌ pure sends sends_or
  sync_zone-stamp served report zone w w' listed small done =
      let answer =
        received-ok w' (to_string zone.version ∷ [])
          (Client.metadata zones.server zone.name version_metadata w'.pdns)
          (stamped zone.name zone.version w w' done) in
      let read = parse_version-to_string zone.version small in
      let own = (==_iff zone.version zone.version).1 refl in
      rw (listed, answer, read, own) (refl, refl)
