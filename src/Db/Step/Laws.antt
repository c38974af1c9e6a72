-- ===== src/Db/Step/Laws.antt =====
-- Whole histories of the database.
use certo.Prelude.{
  ℕ, zero, suc, ◌≡◌, refl, subst, Option, none, some, List, [], inl, inr, Bool-cases, find, reject,
  select, ok, passed, ok-injective, is_empty, map,
}
use certo.Text.{Str, Unicode}
use certo.Core.{User, UserDomain, ApiKey, internal_domain}
use certo.Core.Ids.{subdomain}
use certo.Db.{not_found, conflict, constraint, What, DomainRow, Db, normalize}
use certo.Db.Txt.{
  named, present_txt, cleanup_txt, update_acmedns_txt, expire_txt, expired, distinct,
}
use certo.Db.Accounts.{
  Draw, collides, acmedns_account, try_accounts, create_user, create_acmedns_account,
  set_password_hash, is_domain, refused, insert_domain, try_subdomains, add_user_domain,
  remove_user_domain, delete_subdomain_txt, drop_domain, create_api_key, delete_api_key,
  update_api_key_scope, retries,
}
use certo.Db.Zones.Tracking.{
  apply_zone_rrsets-Tracks, replace_zone_rrsets-Tracks, set_zone_dnssec-Tracks,
  add_zone_tsig_key-Tracks, delete_zone_tsig_key-Tracks, set_zone_axfr_allow_from-Tracks,
}
use certo.Db.Zones.Lifecycle.{
  create_zone-Tracks, delete_zone-Tracks, activate_zone-Tracks, deactivate_zone-Tracks,
  record_zone_check_failure-Tracks, clear_zone_exemption-Tracks,
}
use certo.Db.Shape.{Valid}
use certo.Db.Shapes.{
  apply_zone_rrsets-Shape, replace_zone_rrsets-Shape, set_zone_dnssec-Shape,
  add_zone_tsig_key-Shape, delete_zone_tsig_key-Shape, set_zone_axfr_allow_from-Shape,
  create_zone-Shape, delete_zone-Shape, activate_zone-Shape, deactivate_zone-Shape,
  record_zone_check_failure-Shape, clear_zone_exemption-Shape,
}
use certo.Db.Evolves.{Evolves, Shape-Evolves, Evolves-trans}
use certo.Db.Deletion.{Evolves-untouched, Evolves-txt, Evolves-refl, delete_user-Evolves}
use certo.Db.Step.{
  Step, creates_zone, deletes_zone, activates_zone, records_failure, deactivates_zone,
  clears_exemption, applies_rrsets, replaces_rrsets, sets_dnssec, adds_tsig, deletes_tsig,
  sets_allow_from, presents_txt, cleans_txt, updates_acmedns, expires_txt, creates_user,
  creates_account, sets_password, deletes_user, adds_domain, removes_domain, creates_key,
  deletes_key, rescopes_key, Run, here, next,
}

expire_txt-Evolves : (db : Db) (before : ℕ) → Valid db → Evolves db (expire_txt db before).1
unfolding expire_txt
expire_txt-Evolves db before v =
    elim (Bool-cases (is_empty (distinct (map (λ r. r.domain) (select (expired before) db.txt))))) [
      | inl e ↦ rw e (Evolves-refl db v)
      | inr e ↦ rw e (Evolves-txt db (reject (expired before) db.txt) v)
    ]

-- Accounts and keys are no part of what PowerDNS serves.
try_accounts-Evolves :
    (left : ℕ) (db : Db) (time : ℕ) (draws : ℕ → Draw) (allow : List Str) (i : ℕ) (out : Draw × Db)
    → Valid db
    → try_accounts db time draws allow i left ≡ ok out
    → Evolves db out.1
unfolding try_accounts
try_accounts-Evolves zero db time draws allow i out v h = cc
try_accounts-Evolves (suc left) db time draws allow i out v h =
    elim (Bool-cases (collides db (draws i))) [
      | inl e ↦ try_accounts-Evolves left db time draws allow (suc i) out v (rw e at h)
      | inr e ↦
          subst (λ o. Evolves db o.1) (ok-injective (rw e at h))
            (Evolves-untouched db (acmedns_account db time (draws i) allow) v refl refl refl refl
              refl refl)
    ]

drop_domain-Evolves :
    (db : Db) (uid : ℕ) (name base : Str) (o : Option DomainRow)
    → Valid db
    → Evolves db (drop_domain db uid name base o).1
unfolding delete_subdomain_txt
drop_domain-Evolves db uid name base none v = Evolves-refl db v
drop_domain-Evolves db uid name base (some row) v =
    let first = Evolves-txt db (reject (named (internal_domain row.subdomain base)) db.txt) v in
    Evolves-trans db (delete_subdomain_txt db row.subdomain base) _ v first
      (Evolves-untouched _ _ first.valid refl refl refl refl refl refl)

module _ ⦃u : Unicode⦄ (sha256 : Str → List ℕ) where
  try_subdomains-Evolves :
      (left : ℕ) (db : Db) (uid : ℕ) (username name : Str) (salt : ℕ) (out : UserDomain × Db)
      → Valid db
      → try_subdomains sha256 db uid username name salt left ≡ ok out
      → Evolves db out.1
  unfolding try_subdomains
  try_subdomains-Evolves zero db uid username name salt out v h = cc
  try_subdomains-Evolves (suc left) db uid username name salt out v h =
      elim (Bool-cases (refused db uid (subdomain sha256 username name salt))) [
        | inl e ↦ try_subdomains-Evolves left db uid username name (suc salt) out v (rw e at h)
        | inr e ↦
            subst (λ o. Evolves db o.1) (ok-injective (rw e at h))
              (Evolves-untouched db
                (insert_domain db uid name (subdomain sha256 username name salt) []) v refl refl
                refl refl refl refl)
      ]

  remove_user_domain-Evolves :
      (db : Db) (uid : ℕ) (given base : Str)
      → Valid db
      → Evolves db (remove_user_domain db uid given base).1
  unfolding remove_user_domain
  remove_user_domain-Evolves db uid given base v =
      drop_domain-Evolves db uid (normalize given) base
        (find (is_domain uid (normalize given)) db.user_domains) v

  add_user_domain-Evolves :
      (db : Db) (uid : ℕ) (username given : Str) (out : UserDomain × Db)
      → Valid db
      → add_user_domain sha256 db uid username given ≡ ok out
      → Evolves db out.1
  unfolding add_user_domain
  add_user_domain-Evolves db uid username given out v h =
      let (_, h1) = passed _ (conflict What.domain) _ h in
      try_subdomains-Evolves retries db uid username (normalize given) 0 out v h1

  create_user-Evolves :
      (db : Db) (time : ℕ) (key username hash : Str) (out : User × Db)
      → Valid db
      → create_user db time key username hash ≡ ok out
      → Evolves db out.1
  unfolding create_user
  create_user-Evolves db time key username hash out v h =
      let (_, h1) = passed _ (conflict What.user) _ h in
      let (_, h2) = passed _ constraint _ h1 in
      subst (λ o. Evolves db o.1) (ok-injective h2)
        (Evolves-untouched db _ v refl refl refl refl refl refl)

  set_password_hash-Evolves :
      (db db' : Db) (id : ℕ) (hash : Str)
      → Valid db
      → set_password_hash db id hash ≡ ok db'
      → Evolves db db'
  unfolding set_password_hash
  set_password_hash-Evolves db db' id hash v h =
      let (_, h1) = passed _ (not_found What.user) _ h in
      subst (Evolves db) (ok-injective h1) (Evolves-untouched db _ v refl refl refl refl refl refl)

  create_api_key-Evolves :
      (db : Db) (time : ℕ) (key : Str) (uid : ℕ) (name : Str) (scope : List Str) (out : ApiKey × Db)
      → Valid db
      → create_api_key db time key uid name scope ≡ ok out
      → Evolves db out.1
  unfolding create_api_key
  create_api_key-Evolves db time key uid name scope out v h =
      let (_, h1) = passed _ constraint _ h in
      let (_, h2) = passed _ constraint _ h1 in
      subst (λ o. Evolves db o.1) (ok-injective h2)
        (Evolves-untouched db _ v refl refl refl refl refl refl)

  -- Every step of a valid database leads to a valid one, and keeps versions in step with what is
  -- served.
  pub Step-Evolves : (db db' : Db) → Valid db → Step sha256 db db' → Evolves db db'
  Step-Evolves db db' v (creates_zone time uid n z h) =
      Shape-Evolves db db' v (create_zone-Shape db time uid n (z, db') h)
        (create_zone-Tracks db time uid n (z, db') h)
  Step-Evolves db db' v (deletes_zone id h) =
      Shape-Evolves db db' v (delete_zone-Shape db db' id h) (delete_zone-Tracks db db' id h)
  Step-Evolves db db' v (activates_zone time id x z h) =
      Shape-Evolves db db' v (activate_zone-Shape db time id x (z, db') h)
        (activate_zone-Tracks db time id x (z, db') h)
  Step-Evolves db db' v (records_failure time id e z h) =
      Shape-Evolves db db' v (record_zone_check_failure-Shape db time id e (z, db') h)
        (record_zone_check_failure-Tracks db time id e (z, db') h)
  Step-Evolves db db' v (deactivates_zone id z h) =
      Shape-Evolves db db' v (deactivate_zone-Shape db id (z, db') h)
        (deactivate_zone-Tracks db id (z, db') h)
  Step-Evolves db db' v (clears_exemption id z h) =
      Shape-Evolves db db' v (clear_zone_exemption-Shape db id (z, db') h)
        (clear_zone_exemption-Tracks db id (z, db') h)
  Step-Evolves db db' v (applies_rrsets id rrs n h) =
      Shape-Evolves db db' v (apply_zone_rrsets-Shape db id rrs (n, db') h)
        (apply_zone_rrsets-Tracks db id rrs (n, db') h)
  Step-Evolves db db' v (replaces_rrsets id rrs n h) =
      Shape-Evolves db db' v (replace_zone_rrsets-Shape db id rrs (n, db') h)
        (replace_zone_rrsets-Tracks db id rrs (n, db') h)
  Step-Evolves db db' v (sets_dnssec id k n h) =
      Shape-Evolves db db' v (set_zone_dnssec-Shape db id k (n, db') h)
        (set_zone_dnssec-Tracks db id k (n, db') h)
  Step-Evolves db db' v (adds_tsig id k n h) =
      Shape-Evolves db db' v (add_zone_tsig_key-Shape db id k (n, db') h)
        (add_zone_tsig_key-Tracks db id k (n, db') h)
  Step-Evolves db db' v (deletes_tsig id k n h) =
      Shape-Evolves db db' v (delete_zone_tsig_key-Shape db id k (n, db') h)
        (delete_zone_tsig_key-Tracks db id k (n, db') h)
  Step-Evolves db db' v (sets_allow_from id a n h) =
      Shape-Evolves db db' v (set_zone_axfr_allow_from-Shape db id a (n, db') h)
        (set_zone_axfr_allow_from-Tracks db id a (n, db') h)
  Step-Evolves db db' v (presents_txt time fqdn value h) =
      subst (Evolves db) h (unfold present_txt in Evolves-txt db _ v)
  Step-Evolves db db' v (cleans_txt fqdn value h) =
      subst (Evolves db) h (unfold cleanup_txt in Evolves-txt db _ v)
  Step-Evolves db db' v (updates_acmedns time fqdn value h) =
      subst (Evolves db) h (unfold update_acmedns_txt in Evolves-txt db _ v)
  Step-Evolves db db' v (expires_txt before h) =
      subst (Evolves db) h (expire_txt-Evolves db before v)
  Step-Evolves db db' v (creates_user time key username hash user h) =
      create_user-Evolves db time key username hash (user, db') v h
  Step-Evolves db db' v (creates_account time draws allow d h) =
      try_accounts-Evolves retries db time draws allow 0 (d, db') v
        (unfold create_acmedns_account in h)
  Step-Evolves db db' v (sets_password id hash h) = set_password_hash-Evolves db db' id hash v h
  Step-Evolves db db' v (deletes_user id base h) =
      subst (Evolves db) h (delete_user-Evolves db id base v)
  Step-Evolves db db' v (adds_domain uid username name d h) =
      add_user_domain-Evolves db uid username name (d, db') v h
  Step-Evolves db db' v (removes_domain uid name base h) =
      subst (Evolves db) h (remove_user_domain-Evolves db uid name base v)
  Step-Evolves db db' v (creates_key time uid key name scope k h) =
      create_api_key-Evolves db time key uid name scope (k, db') v h
  Step-Evolves db db' v (deletes_key uid id h) =
      subst (Evolves db) h
        (unfold delete_api_key in Evolves-untouched db _ v refl refl refl refl refl refl)
  Step-Evolves db db' v (rescopes_key id scope h) =
      subst (Evolves db) h
        (unfold update_api_key_scope in Evolves-untouched db _ v refl refl refl refl refl refl)

  pub Run-Evolves : (db db' : Db) → Valid db → Run sha256 db db' → Evolves db db'
  Run-Evolves db db' v here = Evolves-refl db v
  Run-Evolves db db' v (next {mid} r s) =
      let before = Run-Evolves db mid v r in
      Evolves-trans db mid db' v before (Step-Evolves mid db' before.valid s)
