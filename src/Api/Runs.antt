-- ===== src/Api/Runs.antt =====
-- What the handlers of challenge values do to the database is a history of it.
pub mod Accounts
pub mod Requests
use certo.Prelude.{ℕ, ◌≡◌, refl, Option, none, some, List, [], ◌∷◌, Result, ok, err}
use certo.Text.{Unicode, Str}
use certo.Core.{User, ApiKey}
use certo.Db.{Db, DbError}
use certo.Db.Accounts.{Draw, add_user_domain, create_acmedns_account}
use certo.Db.Txt.{present_txt, cleanup_txt, update_acmedns_txt}
use certo.Db.Step.{
  Run, here, next, presents_txt, cleans_txt, updates_acmedns, creates_account, adds_domain,
}
use certo.Service.{World, Op}
use certo.Service.Keeping.{Keeps, Preorder, keeping}
use certo.Service.Untouched.{sync_txt-Keeps}
use certo.Service.Runs.{Run-Preorder, Run-trans}
use certo.Api.{wanted, answered, ApiError, AppState, Handler, stored, serves, stores, writes}
use certo.Api.Challenges.{
  auto_create, resolved_or_created, checked, present, cleanup, update, register, provisioned,
  storage_subdomain, storage_fetch, storage_fetch_all,
}

module _ {S A : Type 0} {R : Db → Db → Type 0} where
  pub serves-Keeps : {m : Op S A} → Keeps R m → Keeps R (serves m)
  unfolding serves
  serves-Keeps h = record { keeps = λ w. h.keeps w }

  pub writes-Keeps : (f : Db → A × Db) → ((db : Db) → R db (f db).1) → Keeps {S = S} R (writes f)
  unfolding writes
  writes-Keeps f h = record { keeps = λ w. h w.db }

  pub stores-Keeps :
      ⦃order : Preorder R⦄ (of : DbError → ApiError) (f : Db → Result DbError (A × Db))
      → ((db db' : Db) (a : A) → f db ≡ ok (a, db') → R db db')
      → Keeps {S = S} R (stores of f)
  unfolding stores
  stores-Keeps ⦃order⦄ of f h = record { keeps = λ w. kept w (f w.db) (λ a db e. h w.db db a e) }
    where
      kept :
          (w : World S) (r : Result DbError (A × Db))
          → ((a : A) (db : Db) → r ≡ ok (a, db) → R w.db db)
          → R w.db (stored of w r).1.db
      kept w (ok (a, db)) k = k a db refl
      kept w (err e) k = order.same w.db

module _ ⦃u : Unicode⦄ {S : Type 0} (state : AppState S) where
  present_step :
      (time : ℕ) (name value : Str)
      → Keeps {S = S} (Run state.sha256) (writes (λ db. (tt, present_txt db time name value)))
  present_step time name value =
      writes-Keeps _ (λ db. next here (presents_txt time name value refl))

  cleanup_step :
      (name value : Str)
      → Keeps {S = S} (Run state.sha256) (writes (λ db. (tt, cleanup_txt db name value)))
  cleanup_step name value = writes-Keeps _ (λ db. next here (cleans_txt name value refl))

  update_step :
      (time : ℕ) (name value : Str)
      → Keeps {S = S}
          (Run state.sha256)
          (writes (λ db. (tt, update_acmedns_txt db time name value)))
  update_step time name value =
      writes-Keeps _ (λ db. next here (updates_acmedns time name value refl))

  domain_step :
      (of : DbError → ApiError) (uid : ℕ) (username domain : Str)
      → Keeps {S = S}
          (Run state.sha256)
          (stores of (λ db. add_user_domain state.sha256 db uid username domain))
  domain_step of uid username domain =
      stores-Keeps of _ (λ db db' d e. next here (adds_domain uid username domain d e))

  account_step :
      (of : DbError → ApiError) (time : ℕ) (draws : ℕ → Draw) (allow_from : List Str)
      → Keeps {S = S}
          (Run state.sha256)
          (stores of (λ db. create_acmedns_account db time draws allow_from))
  account_step of time draws allow_from =
      stores-Keeps of _ (λ db db' d e. next here (creates_account time draws allow_from d e))

  ruleset steps = (
    serves-Keeps, sync_txt-Keeps, present_step, cleanup_step, update_step, domain_step,
    account_step,
  )

  pub wanted-Keeps :
      {A : Type 0} {R : Db → Db → Type 0} ⦃order : Preorder R⦄ (a : Option A) (e : ApiError)
      → Keeps {S = S} R (wanted a e)
  wanted-Keeps none e = search keeping
  wanted-Keeps (some a) e = search keeping

  pub answered-Keeps :
      {A : Type 0} {R : Db → Db → Type 0} ⦃order : Preorder R⦄ (r : Result ApiError A)
      → Keeps {S = S} R (answered r)
  answered-Keeps (ok a) = search keeping
  answered-Keeps (err e) = search keeping

  auto_create-Keeps :
      (user : User) (fqdn domain : Str)
      → Keeps {S = S} (Run state.sha256) (auto_create state user fqdn domain)
  unfolding auto_create
  auto_create-Keeps user fqdn domain = search (keeping, steps) depth 12

  resolved-Keeps :
      (user : User) (fqdn domain : Str) (known : Option Str)
      → Keeps {S = S} (Run state.sha256) (resolved_or_created state user fqdn domain known)
  resolved-Keeps user fqdn domain none = auto_create-Keeps user fqdn domain
  resolved-Keeps user fqdn domain (some sub) = search keeping

  provisioned-Keeps :
      (user : User) (domain : Str) (known : Option Str)
      → Keeps {S = S} (Run state.sha256) (provisioned state user domain known)
  provisioned-Keeps user domain none = search (keeping, steps) depth 12
  provisioned-Keeps user domain (some sub) = search keeping

  ruleset parts =
      (wanted-Keeps, answered-Keeps, auto_create-Keeps, resolved-Keeps, provisioned-Keeps)

  pub present-Keeps :
      (time : ℕ) (user : User) (key : ApiKey) (fqdn value : Str)
      → Keeps {S = S} (Run state.sha256) (present state time user key fqdn value)
  unfolding present
  present-Keeps time user key fqdn value = search (keeping, steps, parts) depth 16

  pub cleanup-Keeps :
      (user : User) (key : ApiKey) (fqdn value : Str)
      → Keeps {S = S} (Run state.sha256) (cleanup state user key fqdn value)
  unfolding cleanup
  cleanup-Keeps user key fqdn value = search (keeping, steps, parts) depth 16

  pub update-Keeps :
      (time : ℕ) (user : User) (key : ApiKey) (ip given txt : Str)
      → Keeps {S = S} (Run state.sha256) (update state time user key ip given txt)
  unfolding update
  update-Keeps time user key ip given txt = search (keeping, steps, parts) depth 16

  pub register-Keeps :
      (time : ℕ) (draws : ℕ → Draw) (allow_from : List Str)
      → Keeps {S = S} (Run state.sha256) (register state time draws allow_from)
  unfolding register
  register-Keeps time draws allow_from = search (keeping, steps) depth 12

  pub storage_fetch-Keeps :
      (user : User) (key : ApiKey) (given : Str)
      → Keeps {S = S} (Run state.sha256) (storage_fetch state user key given)
  unfolding storage_fetch storage_subdomain
  storage_fetch-Keeps user key given = search (keeping, steps, parts) depth 16

  pub storage_fetch_all-Keeps :
      (user : User) (key : ApiKey)
      → Keeps {S = S} (Run state.sha256) (storage_fetch_all state user key)
  unfolding storage_fetch_all
  storage_fetch_all-Keeps user key = search keeping
