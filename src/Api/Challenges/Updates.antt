-- ===== src/Api/Challenges/Updates.antt =====
-- httpreq.rs `cleanup` and acmedns.rs `update`: what a caller may change.
use certo.Prelude.{
  ℕ, ◌≡◌, refl, ap, sym, ◌∙◌, Bool, true, false, ◌==◌, Option, none, some, List, ◌⊎◌, inl, inr,
  Result, ok, err, if◌then◌else◌,
}
use certo.Text.{Str, Unicode, str, trim, utf8_len}
use certo.Core.{
  extract_subdomain_from_fqdn, User, ApiKey, has_domain_access, internal_domain,
  extract_domain_from_fqdn, acmedns_txt_length,
}
use certo.Db.{Db, DbError}
use certo.Db.Txt.{cleanup_txt, update_acmedns_txt}
use certo.Db.Accounts.{subdomain_by_user_domain, subdomain_owner, user_domain_by_subdomain}
use certo.Service.{World, pure, fail, ◌>>=◌, ◌>>◌, require, reads}
use certo.Service.Keeping.{>>-Keeps, pure-Keeps, Same, Same-Preorder}
use certo.Service.Untouched.{sync_txt-Keeps}
use certo.Service.Seed.{sync_txt}
use certo.Api.{wanted, answered, ApiError, forbidden, AppState, Handler, serves, writes}
use certo.Api.Runs.{serves-Keeps}
use certo.Api.Auth.{to_option}
use certo.Api.Challenges.{owned_by, ip_allowed, allowed_owner, resolve_subdomain, cleanup, update}

abbrev pub answers : {A S : Type 0} → Result ApiError A × World S → Bool
answers (ok a, w) = true
answers (err e, w) = false

-- The request was refused, and neither the database nor PowerDNS has changed.
pub record Denied {S A : Type 0} (w : World S) (end : Result ApiError A × World S) : Type 0 where
  pub refused : answers end ≡ false
  pub same : end.1 ≡ w

module _ {S A : Type 0} (w : World S) (P : Result ApiError A × World S → Type 0) where
  pub guarded :
      (b : Bool) (e : ApiError) (m : Handler S A)
      → (b ≡ true → Denied w (m w) ⊎ P (m w))
      → Denied w ((require b e >> m) w) ⊎ P ((require b e >> m) w)
  unfolding require ◌>>◌ ◌>>=◌ pure fail
  guarded true e m h = h refl
  guarded false e m h = inl (record { refused = refl; same = refl })

module _ ⦃u : Unicode⦄ {S : Type 0} (state : AppState S) where
  -- The last steps of a handler: one write, and the challenge values of the name are served.
  pub written :
      (f : Db → Db) (name : Str) (w : World S)
      → ((writes (λ db. (tt, f db)) >> serves (sync_txt state.zones name)) w).1.db ≡ f w.db
  unfolding ◌>>◌ ◌>>=◌ writes
  written f name w =
      sym (
        (serves-Keeps {R = Same} (sync_txt-Keeps state.zones name)).keeps
          (record w { db = f w.db }))

  pub written_then :
      {A : Type 0} (f : Db → Db) (name : Str) (a : A) (w : World S)
      → ((writes (λ db. (tt, f db)) >> (serves (sync_txt state.zones name) >> pure a)) w).1.db
        ≡ f w.db
  unfolding ◌>>◌ ◌>>=◌ writes
  written_then f name a w = sym (
      (>>-Keeps {R = Same} (serves-Keeps (sync_txt-Keeps state.zones name)) (pure-Keeps a)).keeps
        (record w { db = f w.db }))

  module _ (time : ℕ) (user : User) (key : ApiKey) (ip given txt : Str) (w : World S) where
    abbrev pub named : Str
    named = u.lowercase (trim given)

    -- The subdomain is the user's, the key covers its domain, the address may update it, and the
    -- database has the value at the subdomain's name.
    pub record Updated (end : Result ApiError (Unit {0}) × World S) : Type 0 where
      pub domain : Str
      pub allow_from : List Str
      pub owner : ℕ
      pub row : user_domain_by_subdomain w.db named ≡ ok (owner, domain, allow_from)
      pub owned : (owner == user.id) ≡ true
      pub in_scope : has_domain_access key domain ≡ true
      pub from_allowed : ip_allowed state ip allow_from ≡ true
      pub sized : (utf8_len txt == acmedns_txt_length) ≡ true
      pub stored :
          end.1.db ≡ update_acmedns_txt w.db time (internal_domain named state.base_domain) txt

    abbrev last : Handler S (Unit {0})
    last =
        let name = internal_domain named state.base_domain in
        writes (λ db. (tt, update_acmedns_txt db time name txt))
        >> serves (sync_txt state.zones name)

    abbrev permitted : Str × List Str → Handler S (Unit {0})
    permitted found =
        require (has_domain_access key found.0) (forbidden (str "domain_not_in_scope"))
        >> (require (ip_allowed state ip found.1) (forbidden (str "ip_not_allowed")) >> last)

    module _ (sized : (utf8_len txt == acmedns_txt_length) ≡ true) where
      matched :
          (owner : ℕ) (domain : Str) (allow_from : List Str) (b : Bool)
          → user_domain_by_subdomain w.db named ≡ ok (owner, domain, allow_from)
          → (owner == user.id) ≡ b
          → let end =
              (answered (if b then ok (domain, allow_from) else err (forbidden (str "forbidden")))
                  >>= permitted)
                w in
            Denied w end ⊎ Updated end
      unfolding ◌>>=◌ pure fail
      matched owner domain allow_from false row e = inl (record { refused = refl; same = refl })
      matched owner domain allow_from true row e = guarded w Updated _ _ _ (λ in_scope.
          guarded w Updated _ _ _ (λ from_allowed. inr (record {
            domain = domain;
            allow_from = allow_from;
            owner = owner;
            row = row;
            owned = e;
            in_scope = in_scope;
            from_allowed = from_allowed;
            sized = sized;
            stored = written _ _ w;
          })))

      looked_up :
          (r : Result DbError (ℕ × Str × List Str))
          → user_domain_by_subdomain w.db named ≡ r
          → let end = (answered (allowed_owner user.id r) >>= permitted) w in
            Denied w end ⊎ Updated end
      unfolding ◌>>=◌ fail
      looked_up (err e) row = inl (record { refused = refl; same = refl })
      looked_up (ok (owner, domain, allow_from)) row =
          matched owner domain allow_from (owner == user.id) row refl

    -- Either `update` is refused and changes nothing, or the subdomain is the user's, the key's scope
    -- covers its domain, the address is allowed, and the database has the value.
    pub update-authorised :
        Denied w (update state time user key ip given txt w)
        ⊎ Updated (update state time user key ip given txt w)
    unfolding update ◌>>=◌ reads
    update-authorised = guarded w Updated _ _ _ (λ sized. looked_up sized _ refl)

  -- The subdomain is one of the user's, by its owner or by the domain that the name is a challenge of.
  pub data Owned (db : Db) (uid : ℕ) (fqdn sub : Str) : Type 0 where
    by_owner :
        (owner : ℕ)
        → extract_subdomain_from_fqdn fqdn state.base_domain ≡ some sub
        → to_option (subdomain_owner db sub) ≡ some owner
        → (owner == uid) ≡ true
        → Owned db uid fqdn sub
    by_domain :
        to_option (subdomain_by_user_domain db uid (extract_domain_from_fqdn fqdn)) ≡ some sub
        → Owned db uid fqdn sub

  module _ (db : Db) (uid : ℕ) (fqdn : Str) where
    abbrev by_name : Option Str
    by_name = to_option (subdomain_by_user_domain db uid (extract_domain_from_fqdn fqdn))

    compared :
        (sub : Str) (owner : ℕ) (b : Bool)
        → extract_subdomain_from_fqdn fqdn state.base_domain ≡ some sub
        → to_option (subdomain_owner db sub) ≡ some owner
        → (owner == uid) ≡ b
        → (found : Str)
        → elim (if b then some sub else none) [ some x ↦ some x | none ↦ by_name ] ≡ some found
        → Owned db uid fqdn found
    compared sub owner false e o c found h = by_domain h
    compared sub owner true e o c found h =
        by_owner owner (e ∙ h)
          (ap (λ x. elim x [ none ↦ none | some s ↦ to_option (subdomain_owner db s) ]) (sym h) ∙ o)
          c

    of_owner :
        (sub : Str) (owner : Option ℕ)
        → extract_subdomain_from_fqdn fqdn state.base_domain ≡ some sub
        → to_option (subdomain_owner db sub) ≡ owner
        → (found : Str)
        → elim (owned_by uid (some sub) owner) [ some x ↦ some x | none ↦ by_name ] ≡ some found
        → Owned db uid fqdn found
    of_owner sub none e o found h = by_domain h
    of_owner sub (some owner) e o found h = compared sub owner (owner == uid) e o refl found h

    of_extracted :
        (extracted : Option Str)
        → extract_subdomain_from_fqdn fqdn state.base_domain ≡ extracted
        → (found : Str)
        → let owner : Option ℕ = elim extracted [
          | none ↦ none
          | some sub ↦ to_option (subdomain_owner db sub)
        ] in
          elim (owned_by uid extracted owner) [ some x ↦ some x | none ↦ by_name ] ≡ some found
          → Owned db uid fqdn found
    of_extracted none e found h = by_domain h
    of_extracted (some sub) e found h = of_owner sub _ e refl found h

    -- A subdomain that `resolve_subdomain` finds is one of the user's.
    pub resolve_subdomain-Owned :
        (sub : Str) → resolve_subdomain state db uid fqdn ≡ some sub → Owned db uid fqdn sub
    unfolding resolve_subdomain
    resolve_subdomain-Owned sub h = of_extracted _ refl sub h

  module _ (user : User) (key : ApiKey) (fqdn value : Str) (w : World S) where
    -- The key covers the domain, the subdomain is the user's, and the value is gone from its name.
    pub record Cleaned (end : Result ApiError (Unit {0}) × World S) : Type 0 where
      pub sub : Str
      pub in_scope : has_domain_access key (extract_domain_from_fqdn fqdn) ≡ true
      pub owned : Owned w.db user.id fqdn sub
      pub stored : end.1.db ≡ cleanup_txt w.db (internal_domain sub state.base_domain) value

    resolved :
        has_domain_access key (extract_domain_from_fqdn fqdn) ≡ true
        → (known : Option Str) → resolve_subdomain state w.db user.id fqdn ≡ known
        → let end =
            (wanted known (forbidden (str "domain_not_authorized")) >>= λ sub.
            writes (λ db. (tt, cleanup_txt db (internal_domain sub state.base_domain) value))
            >> serves (sync_txt state.zones (internal_domain sub state.base_domain)))
              w in
          Denied w end ⊎ Cleaned end
    unfolding ◌>>=◌ pure fail
    resolved in_scope none h = inl (record { refused = refl; same = refl })
    resolved in_scope (some sub) h = inr (record {
      sub = sub;
      in_scope = in_scope;
      owned = resolve_subdomain-Owned w.db user.id fqdn sub h;
      stored = written _ _ w;
    })

    -- Either `cleanup` is refused and changes nothing, or the key covers the domain, the subdomain is
    -- one of the user's, and the database is the one without the value.
    pub cleanup-authorised :
        Denied w (cleanup state user key fqdn value w)
        ⊎ Cleaned (cleanup state user key fqdn value w)
    unfolding cleanup ◌>>=◌ reads
    cleanup-authorised =
        guarded w Cleaned _ _ _
          (λ _. guarded w Cleaned _ _ _ (λ in_scope. resolved in_scope _ refl))
