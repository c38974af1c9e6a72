-- ===== src/Api/Runs/Accounts.antt =====
-- What the handlers of accounts, domains and keys do to the database is a history of it.
use certo.Prelude.{ℕ, ◌≡◌, refl, ap, sym, ◌∙◌, Option, none, some, List, [], ◌∷◌, Result, ok, err}
use certo.Text.{Unicode, Str}
use certo.Text.Decimal.{I64, pos, negsuc}
use certo.Core.{User}
use certo.Db.{Db, DbError}
use certo.Db.Accounts.{
  create_user, set_password_hash, delete_user, add_user_domain, remove_user_domain, create_api_key,
}
use certo.Db.Step.{
  Run, here, next, creates_user, sets_password, deletes_user, adds_domain, removes_domain,
  creates_key, deletes_key,
}
use certo.Service.Keeping.{Keeps, keeping}
use certo.Service.Untouched.{sync_txt-Keeps, remove_user_zones-Keeps}
use certo.Service.Runs.{Run-Preorder}
use certo.Api.{ApiError, AppState, stores, writes}
use certo.Api.Auth.{Bearer}
use certo.Api.Accounts.{
  no_result, delete_key_of, session, register, known_user, login, set_password, change_password,
  pushes_txt, push_each, delete_user_for, add_domain_for, add_domain, removed_name, remove_domain,
  create_key, delete_key,
}
use certo.Api.Runs.{serves-Keeps, writes-Keeps, stores-Keeps, wanted-Keeps, answered-Keeps}

abbrev with_result : Result DbError (Unit {0} × Db) → Result DbError Db
with_result (ok (_, db)) = ok db
with_result (err e) = err e

with_result-no_result : (r : Result DbError Db) → with_result (no_result r) ≡ r
with_result-no_result (ok db) = refl
with_result-no_result (err e) = refl

module _ ⦃u : Unicode⦄ {S : Type 0} (state : AppState S) where
  user_step :
      (of : DbError → ApiError) (time : ℕ) (key name hash : Str)
      → Keeps {S = S} (Run state.sha256) (stores of (λ db. create_user db time key name hash))
  user_step of time key name hash =
      stores-Keeps of _ (λ db db' a e. next here (creates_user time key name hash a e))

  hash_step :
      (of : DbError → ApiError) (id : ℕ) (hash : Str)
      → Keeps {S = S}
          (Run state.sha256)
          (stores of (λ db. no_result (set_password_hash db id hash)))
  hash_step of id hash = stores-Keeps of _ (λ db db' a e.
      next here (sets_password id hash (sym (with_result-no_result _) ∙ ap with_result e)))

  deletion_step :
      (id : ℕ) (base : Str)
      → Keeps {S = S} (Run state.sha256) (writes (λ db. delete_user db id base))
  deletion_step id base = writes-Keeps _ (λ db. next here (deletes_user id base refl))

  domain_step :
      (of : DbError → ApiError) (uid : ℕ) (username domain : Str)
      → Keeps {S = S}
          (Run state.sha256)
          (stores of (λ db. add_user_domain state.sha256 db uid username domain))
  domain_step of uid username domain =
      stores-Keeps of _ (λ db db' d e. next here (adds_domain uid username domain d e))

  removal_step :
      (uid : ℕ) (domain base : Str)
      → Keeps {S = S} (Run state.sha256) (writes (λ db. remove_user_domain db uid domain base))
  removal_step uid domain base =
      writes-Keeps _ (λ db. next here (removes_domain uid domain base refl))

  key_step :
      (of : DbError → ApiError) (time : ℕ) (key : Str) (uid : ℕ) (name : Str) (scope : List Str)
      → Keeps {S = S}
          (Run state.sha256)
          (stores of (λ db. create_api_key db time key uid name scope))
  key_step of time key uid name scope =
      stores-Keeps of _ (λ db db' k e. next here (creates_key time uid key name scope k e))

  deleted_key : (uid : ℕ) (id : I64) (db : Db) → Run state.sha256 db (delete_key_of db uid id)
  deleted_key uid (pos id) db = next here (deletes_key uid id refl)
  deleted_key uid (negsuc n) db = here

  key_deletion_step :
      (uid : ℕ) (id : I64)
      → Keeps {S = S} (Run state.sha256) (writes (λ db. (tt, delete_key_of db uid id)))
  key_deletion_step uid id = writes-Keeps _ (deleted_key uid id)

  ruleset steps = (
    serves-Keeps, sync_txt-Keeps, remove_user_zones-Keeps, user_step, hash_step, deletion_step,
    domain_step, removal_step, key_step, key_deletion_step, wanted-Keeps, answered-Keeps,
  )

  session-Keeps :
      (now : ℕ) (user : User) → Keeps {S = S} (Run state.sha256) (session state now user)
  unfolding session
  session-Keeps now user = search (keeping, steps)

  known_user-Keeps :
      (now : ℕ) (password : Str) (found : Option User)
      → Keeps {S = S} (Run state.sha256) (known_user state now password found)
  known_user-Keeps now password none = search keeping
  known_user-Keeps now password (some user) = search (keeping, session-Keeps) depth 12

  pub register-Keeps :
      (now : ℕ) (key username password : Str)
      → Keeps {S = S} (Run state.sha256) (register state now key username password)
  unfolding register
  register-Keeps now key username password = search (keeping, steps, session-Keeps) depth 16

  pub login-Keeps :
      (now : ℕ) (username password : Str)
      → Keeps {S = S} (Run state.sha256) (login state now username password)
  unfolding login
  login-Keeps now username password = search (keeping, known_user-Keeps) depth 12

  set_password-Keeps :
      (id : ℕ) (password : Str) → Keeps {S = S} (Run state.sha256) (set_password state id password)
  unfolding set_password
  set_password-Keeps id password = search (keeping, steps) depth 12

  pub change_password-Keeps :
      (auth : Bearer) (current new : Str)
      → Keeps {S = S} (Run state.sha256) (change_password state auth current new)
  unfolding change_password
  change_password-Keeps auth current new = search (keeping, set_password-Keeps) depth 12

  pushes_txt-Keeps : (name : Str) → Keeps {S = S} (Run state.sha256) (pushes_txt state name)
  unfolding pushes_txt
  pushes_txt-Keeps name = search (keeping, steps) depth 12

  push_each-Keeps : (names : List Str) → Keeps {S = S} (Run state.sha256) (push_each state names)
  unfolding push_each
  push_each-Keeps [] = search keeping
  push_each-Keeps (name ∷ names) =
      let rest = push_each-Keeps names in search (keeping, pushes_txt-Keeps) depth 12

  pub delete_user_for-Keeps : (id : ℕ) → Keeps {S = S} (Run state.sha256) (delete_user_for state id)
  unfolding delete_user_for
  delete_user_for-Keeps id = search (keeping, steps, push_each-Keeps) depth 12

  pub add_domain-Keeps :
      (auth : Bearer) (given : Str) → Keeps {S = S} (Run state.sha256) (add_domain state auth given)
  unfolding add_domain add_domain_for
  add_domain-Keeps auth given = search (keeping, steps) depth 12

  removed_name-Keeps :
      (name : Option Str) → Keeps {S = S} (Run state.sha256) (removed_name state name)
  removed_name-Keeps none = search keeping
  removed_name-Keeps (some name) = pushes_txt-Keeps name

  pub remove_domain-Keeps :
      (auth : Bearer) (given : Str)
      → Keeps {S = S} (Run state.sha256) (remove_domain state auth given)
  unfolding remove_domain
  remove_domain-Keeps auth given = search (keeping, steps, removed_name-Keeps) depth 12

  pub create_key-Keeps :
      (now : ℕ) (key : Str) (auth : Bearer) (name : Str) (scope : List Str)
      → Keeps {S = S} (Run state.sha256) (create_key state now key auth name scope)
  unfolding create_key
  create_key-Keeps now key auth name scope = search (keeping, steps) depth 12

  pub delete_key-Keeps :
      (auth : Bearer) (given : Str) → Keeps {S = S} (Run state.sha256) (delete_key state auth given)
  unfolding delete_key
  delete_key-Keeps auth given = search (keeping, steps) depth 12
