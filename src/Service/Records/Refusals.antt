-- ===== src/Service/Records/Refusals.antt =====
-- `patch_rrsets`: the database takes no change that PowerDNS did not take first.
use certo.Prelude.{
  ℕ, ◌≡◌, refl, ap, ◌∙◌, Bool, true, false, List, map, ◌⊎◌, inl, inr, Result, ok, err,
}
use certo.Names.{Code, RrSet, RrSetChange, validate_changes}
use certo.Core.{Zone}
use certo.Sync.{to_stored}
use certo.Db.{Db, DbError}
use certo.Db.Zones.{apply_zone_rrsets}
use certo.Pdns.{PdnsError}
use certo.Pdns.Client
use certo.Service.{
  Zones, World, ZoneOpError, not_active, from_pdns, go_on, ◌>>=◌, ◌>>◌, pure, fail, require,
  checked, stored, transacts, received, sends, sends_or,
}
use certo.Service.Keeping.{Same, Same-Preorder}
use certo.Service.Untouched.{stamp-Keeps}
use certo.Service.Stamps.{stamp}
use certo.Service.Checking.Outcomes.{succeeded}
use certo.Service.Records.{patch_rrsets}

abbrev pub answers : {A S : Type 0} → Result PdnsError A × S → Bool
answers (ok a, s) = true
answers (err e, s) = false

module _ {S : Type 0} (zones : Zones S) (zone : Zone) (changes : List RrSetChange)
    (w : World S) where
  -- The operation failed and left the database.
  pub record Refused (end : Result ZoneOpError (Unit {0}) × World S) : Type 0 where
    pub failed : succeeded end.0 ≡ false
    pub same : end.1.db ≡ w.db

  -- The changes are valid, PowerDNS has taken them, and the database has stored the same rrsets.
  pub record Accepted (db : Db) : Type 0 where
    pub rrs : List RrSet
    pub version : ℕ
    pub active : zone.active ≡ true
    pub valid : validate_changes zone.name changes ≡ ok rrs
    pub taken : answers (Client.patch_rrsets zones.server zone.name rrs w.pdns) ≡ true
    pub applied : apply_zone_rrsets w.db zone.id (map to_stored rrs) ≡ ok (version, db)

  module _ (active : zone.active ≡ true) (rrs : List RrSet)
      (valid : validate_changes zone.name changes ≡ ok rrs) where
    stores :
        (s : S) (r : Result DbError (ℕ × Db))
        → answers (Client.patch_rrsets zones.server zone.name rrs w.pdns) ≡ true
        → apply_zone_rrsets w.db zone.id (map to_stored rrs) ≡ r
        → let end = go_on (λ v. stamp zones zone.name v) (stored (record w { pdns = s }) r) in
          Refused end ⊎ Accepted end.1.db
    stores s (err e) taken h = inl (record { failed = refl; same = refl })
    stores s (ok (v, db)) taken h = inr (record {
      rrs = rrs;
      version = v;
      active = active;
      valid = valid;
      taken = taken;
      applied =
          h
          ∙ ap (λ d. ok (v, d))
              ((stamp-Keeps zones {R = Same} zone.name v).keeps (record w { db = db; pdns = s }));
    })

    answered :
        (out : Result PdnsError (Unit {0}) × S)
        → Client.patch_rrsets zones.server zone.name rrs w.pdns ≡ out
        → let end =
            go_on
              (λ _. transacts (λ db. apply_zone_rrsets db zone.id (map to_stored rrs)) >>= λ v.
                stamp zones zone.name v)
              (received from_pdns w out) in
          Refused end ⊎ Accepted end.1.db
    unfolding ◌>>=◌ transacts
    answered (err e, s) h = inl (record { failed = refl; same = refl })
    answered (ok _, s) h =
        stores s (apply_zone_rrsets w.db zone.id (map to_stored rrs)) (ap answers h) refl

  validated :
      zone.active ≡ true
      → (r : Result Code (List RrSet)) → validate_changes zone.name changes ≡ r
      → let end =
          (checked r >>= λ rrs.
          sends (Client.patch_rrsets zones.server zone.name rrs)
          >> (transacts (λ db. apply_zone_rrsets db zone.id (map to_stored rrs)) >>= λ v.
              stamp zones zone.name v))
            w in
        Refused end ⊎ Accepted end.1.db
  unfolding ◌>>=◌ ◌>>◌ checked fail pure sends sends_or
  validated active (err code) h = inl (record { failed = refl; same = refl })
  validated active (ok rrs) h =
      answered active rrs h (Client.patch_rrsets zones.server zone.name rrs w.pdns) refl

  gated :
      (b : Bool)
      → zone.active ≡ b
      → let end =
          (require b not_active
              >> (checked (validate_changes zone.name changes) >>= λ rrs.
                  sends (Client.patch_rrsets zones.server zone.name rrs)
                  >> (transacts (λ db. apply_zone_rrsets db zone.id (map to_stored rrs)) >>= λ v.
                      stamp zones zone.name v)))
            w in
        Refused end ⊎ Accepted end.1.db
  unfolding require fail pure ◌>>◌ ◌>>=◌
  gated true active = validated active (validate_changes zone.name changes) refl
  gated false inactive = inl (record { failed = refl; same = refl })

  -- Either `patch_rrsets` fails and leaves the database, or the zone is active, the changes are valid,
  -- PowerDNS has taken them, and the database has stored them.
  pub patch_rrsets-accepted :
      Refused (patch_rrsets zones zone changes w)
      ⊎ Accepted (patch_rrsets zones zone changes w).1.db
  unfolding patch_rrsets
  patch_rrsets-accepted = gated zone.active refl
