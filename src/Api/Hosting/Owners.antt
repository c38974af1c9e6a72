-- ===== src/Api/Hosting/Owners.antt =====
-- `ZoneCtx` on the routes of owners: whose zones a request reaches.
use certo.Prelude.{ℕ, ◌≡◌, refl, true, false, Option, ◌⊎◌, inl, inr, Result, ok, err}
use certo.Text.{Str, Unicode, str}
use certo.Names.{Code, parse_zone_name}
use certo.Core.{Zone}
use certo.Db.{What, DbError}
use certo.Db.Zones.{zone_by_name}
use certo.Service
use certo.Service.{
  World, ZoneOpError, missing, pure, fail, go_on, ◌>>=◌, ◌>>◌, require, reads, looks_up,
}
use certo.Service.Lifecycle.{as_zone_name, get}
use certo.Api.{ApiError, forbidden, from_zone, AppState, Handler, or_error, serves, answered}
use certo.Api.Auth.{Bearer, may_access, bearer}
use certo.Api.Hosting.{ZoneCtx, is_owner, owner_ctx}
use certo.Api.Challenges.Updates.{Denied, guarded}

module _ ⦃u : Unicode⦄ {S : Type 0} (state : AppState S) (now : ℕ) (header : Option Str)
    (name : Str) (w : World S) where
  -- The caller is known, the zone is the caller's, and the caller's key covers it.
  pub record Granted (end : Result ApiError ZoneCtx × World S) : Type 0 where
    pub auth : Bearer
    pub zone : Zone
    pub parsed : Str
    pub known : bearer state now w.db header ≡ ok auth
    pub named : parse_zone_name name ≡ ok parsed
    pub found : zone_by_name w.db parsed ≡ ok zone
    pub owned : is_owner zone.user_id auth.user.id ≡ true
    pub in_scope : may_access auth zone.name ≡ true
    pub context : end ≡ (ok (record { zone = zone; admin = false }), w)

  abbrev rest : Bearer → Zone → Handler S ZoneCtx
  rest auth zone =
      require (is_owner zone.user_id auth.user.id) (from_zone (missing What.zone))
      >> (require (may_access auth zone.name) (forbidden (str "domain_not_in_scope"))
          >> pure (record { zone = zone; admin = false }))

  module _ (auth : Bearer) (known : bearer state now w.db header ≡ ok auth) where
    looked_up :
        (parsed : Str)
        → parse_zone_name name ≡ ok parsed
        → (r : Result DbError Zone) → zone_by_name w.db parsed ≡ r
        → let out = Service.answered w r in
          let end = go_on (rest auth) (or_error from_zone out.0, out.1) in
          Denied w end ⊎ Granted end
    unfolding pure
    looked_up parsed named (err e) h = inl (record { refused = refl; same = refl })
    looked_up parsed named (ok zone) h = guarded w Granted _ _ _ (λ owned.
        guarded w Granted _ _ _ (λ in_scope. inr (record {
          auth = auth;
          zone = zone;
          parsed = parsed;
          known = known;
          named = named;
          found = h;
          owned = owned;
          in_scope = in_scope;
          context = refl;
        })))

    parsed_as :
        (r : Result Code Str)
        → parse_zone_name name ≡ r
        → let end =
            (serves (as_zone_name state.zones r >>= λ n. looks_up (λ db. zone_by_name db n))
                >>= rest auth)
              w in
          Denied w end ⊎ Granted end
    unfolding ◌>>=◌ serves pure fail looks_up
    parsed_as (err code) h = inl (record { refused = refl; same = refl })
    parsed_as (ok parsed) h = looked_up parsed h _ refl

  answered_as :
      (r : Result ApiError Bearer)
      → bearer state now w.db header ≡ r
      → let end = (answered r >>= λ auth. serves (get state.zones name) >>= rest auth) w in
        Denied w end ⊎ Granted end
  unfolding ◌>>=◌ pure fail get
  answered_as (err e) h = inl (record { refused = refl; same = refl })
  answered_as (ok auth) h = parsed_as auth h _ refl

  -- A request to an owner's route is refused and changes nothing, or its caller is known, the zone has
  -- that name and is the caller's, and the caller's key covers it.
  pub owner_ctx-Granted :
      Denied w (owner_ctx state now header name w) ⊎ Granted (owner_ctx state now header name w)
  unfolding owner_ctx ◌>>=◌ reads
  owner_ctx-Granted = answered_as _ refl
