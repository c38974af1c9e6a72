-- ===== src/Api/Challenges/Presenting.antt =====
-- httpreq.rs `present`: whose value it stores, and where.
use certo.Prelude.{
  ℕ, ◌≡◌, refl, Bool, true, false, Option, none, some, ◌⊎◌, inl, inr, Result, ok, err, is_some,
  if◌then◌else◌,
}
use certo.Text.{Str, Unicode, str}
use certo.Core.{
  User, UserDomain, ApiKey, has_domain_access, internal_domain, extract_domain_from_fqdn,
  extract_subdomain_from_fqdn,
}
use certo.Db.{Db, DbError}
use certo.Db.Txt.{present_txt}
use certo.Db.Accounts.{add_user_domain, subdomain_by_user_domain}
use certo.Service.{World, pure, fail, go_on, ◌>>=◌, ◌>>◌, reads, attempt}
use certo.Service.Seed.{sync_txt}
use certo.Api.{
  wanted, ApiError, forbidden, db_error, AppState, Handler, stored, serves, stores, writes,
}
use certo.Api.Auth.{to_option}
use certo.Api.Challenges.{
  subdomain_of, resolve_subdomain, auto_create, resolved_or_created, present,
}
use certo.Api.Challenges.Updates.{
  Denied, guarded, written_then, Owned, by_domain, resolve_subdomain-Owned,
}

module _ ⦃u : Unicode⦄ {S : Type 0} (state : AppState S) where
  module _ (user : User) (fqdn : Str) (db : Db) where
    -- The subdomain was the user's before, or it is the new one of the domain.
    pub data Found : Db → Str → Type 0 where
      already : (sub : Str) → Owned state db user.id fqdn sub → Found db sub
      created :
          (d : UserDomain) (after : Db)
          → is_some (extract_subdomain_from_fqdn fqdn state.base_domain) ≡ false
          → add_user_domain state.sha256 db user.id user.username (extract_domain_from_fqdn fqdn)
            ≡ ok (d, after)
          → Found after d.subdomain

  module _ (time : ℕ) (user : User) (key : ApiKey) (fqdn value : Str) (w : World S) where
    -- The key covers the domain, the subdomain is the user's or new, and its name has the value.
    pub record Presented (end : Result ApiError Str × World S) : Type 0 where
      pub sub : Str
      pub before : Db
      pub in_scope : has_domain_access key (extract_domain_from_fqdn fqdn) ≡ true
      pub found : Found user fqdn w.db before sub
      pub stored : end.1.db ≡ present_txt before time (internal_domain sub state.base_domain) value

    abbrev domain : Str
    domain = extract_domain_from_fqdn fqdn

    abbrev finish : Option Str → Handler S Str
    finish found = wanted found (forbidden (str "domain_not_authorized")) >>= λ sub.
        writes (λ db. (tt, present_txt db time (internal_domain sub state.base_domain) value))
        >> (serves (sync_txt state.zones (internal_domain sub state.base_domain))
            >> pure (internal_domain sub state.base_domain))

    module _ (in_scope : has_domain_access key domain ≡ true) where
      stored_at :
          (before : Db) (sub : Str)
          → Found user fqdn w.db before sub
          → Presented (finish (some sub) (record w { db = before }))
      unfolding ◌>>=◌ ◌>>◌ pure
      stored_at before sub found = record {
        sub = sub;
        before = before;
        in_scope = in_scope;
        found = found;
        stored =
            written_then state
              (λ db. present_txt db time (internal_domain sub state.base_domain) value)
              (internal_domain sub state.base_domain) (internal_domain sub state.base_domain)
              (record w { db = before });
      }

      known_later :
          (later : Option Str)
          → to_option (subdomain_by_user_domain w.db user.id domain) ≡ later
          → Denied w (finish later w) ⊎ Presented (finish later w)
      unfolding ◌>>=◌ fail
      known_later none h = inl (record { refused = refl; same = refl })
      known_later (some sub) h = inr (stored_at w.db sub (already sub (by_domain h)))

      added :
          (r : Result DbError (UserDomain × Db))
          → is_some (extract_subdomain_from_fqdn fqdn state.base_domain) ≡ false
          → add_user_domain state.sha256 w.db user.id user.username domain ≡ r
          → let end =
              go_on
                (λ created.
                  reads (λ db. to_option (subdomain_by_user_domain db user.id domain)) >>= λ later.
                  pure (subdomain_of created later))
                (ok (stored (λ _. db_error) w r).0, (stored (λ _. db_error) w r).1) in
            Denied w (go_on finish end) ⊎ Presented (go_on finish end)
      unfolding ◌>>=◌ reads pure
      added (ok (d, after)) outside h =
          inr (stored_at after d.subdomain (created d after outside h))
      added (err e) outside h = known_later _ refl

      creating :
          (b : Bool)
          → is_some (extract_subdomain_from_fqdn fqdn state.base_domain) ≡ b
          → let m : Handler S (Option Str) =
              if b
              then pure none
              else (attempt (
                    stores
                      (λ _. db_error)
                      (λ db. add_user_domain state.sha256 db user.id user.username domain))
                  >>= λ created.
                      reads (λ db. to_option (subdomain_by_user_domain db user.id domain))
                      >>= λ later. pure (subdomain_of created later)) in
            Denied w ((m >>= finish) w) ⊎ Presented ((m >>= finish) w)
      unfolding ◌>>=◌ pure attempt stores fail
      creating true inside = inl (record { refused = refl; same = refl })
      creating false outside = added _ outside refl

      resolved :
          (known : Option Str)
          → resolve_subdomain state w.db user.id fqdn ≡ known
          → let end = (resolved_or_created state user fqdn domain known >>= finish) w in
            Denied w end ⊎ Presented end
      unfolding ◌>>=◌ pure auto_create
      resolved none h = creating _ refl
      resolved (some sub) h =
          inr (
            stored_at w.db sub
              (already sub (resolve_subdomain-Owned state w.db user.id fqdn sub h)))

    -- Either `present` is refused and changes nothing, or the key covers the domain, the subdomain was
    -- the user's or is new, and the database has the value at its name.
    pub present-authorised :
        Denied w (present state time user key fqdn value w)
        ⊎ Presented (present state time user key fqdn value w)
    unfolding present ◌>>=◌ reads
    present-authorised = guarded w Presented _ _ _ (λ _.
        guarded w Presented _ _ _
          (λ _. guarded w Presented _ _ _ (λ in_scope. resolved in_scope _ refl)))
