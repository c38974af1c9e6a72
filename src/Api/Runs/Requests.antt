-- ===== src/Api/Runs/Requests.antt =====
-- Requests, served one after the other.
use certo.Prelude.{ℕ, List, [], ◌∷◌}
use certo.Text.{Unicode, Str}
use certo.Core.{User, ApiKey}
use certo.Db.Accounts.{Draw}
use certo.Service.{World}
use certo.Api.{AppState}
use certo.Api.Challenges.{present, cleanup, update, register, storage_fetch, storage_fetch_all}
use certo.Api.Auth.{Bearer}
use certo.Api.Accounts
use certo.Api.Accounts.{
  login, change_password, delete_user_for, add_domain, remove_domain, create_key, delete_key,
}
use certo.Api.Runs.Accounts as Kept

-- A request, after its extractors.
pub data Request : Type 0 where
  presents : ℕ → User → ApiKey → Str → Str → Request
  cleans : User → ApiKey → Str → Str → Request
  updates : ℕ → User → ApiKey → Str → Str → Str → Request
  registers : ℕ → (ℕ → Draw) → List Str → Request
  fetches : User → ApiKey → Str → Request
  fetches_all : User → ApiKey → Request
  signs_up : ℕ → Str → Str → Str → Request
  logs_in : ℕ → Str → Str → Request
  changes_password : Bearer → Str → Str → Request
  deletes_account : Bearer → Request
  adds_domain : Bearer → Str → Request
  removes_domain : Bearer → Str → Request
  creates_key : ℕ → Str → Bearer → Str → List Str → Request
  deletes_key : Bearer → Str → Request

module _ ⦃u : Unicode⦄ {S : Type 0} (state : AppState S) where
  abbrev pub served : Request → World S → World S
  served (presents time user key fqdn value) w = (present state time user key fqdn value w).1
  served (cleans user key fqdn value) w = (cleanup state user key fqdn value w).1
  served (updates time user key ip given txt) w = (update state time user key ip given txt w).1
  served (registers time draws allow_from) w = (register state time draws allow_from w).1
  served (fetches user key given) w = (storage_fetch state user key given w).1
  served (fetches_all user key) w = (storage_fetch_all state user key w).1
  served (signs_up now key name password) w = (Accounts.register state now key name password w).1
  served (logs_in now name password) w = (login state now name password w).1
  served (changes_password auth current new) w = (change_password state auth current new w).1
  served (deletes_account auth) w = (delete_user_for state auth.user.id w).1
  served (adds_domain auth given) w = (add_domain state auth given w).1
  served (removes_domain auth given) w = (remove_domain state auth given w).1
  served (creates_key now key auth name scope) w = (create_key state now key auth name scope w).1
  served (deletes_key auth given) w = (delete_key state auth given w).1

  -- Requests, one after the other.
  abbrev pub served_all : List Request → World S → World S
  served_all [] w = w
  served_all (r ∷ rs) w = served_all rs (served r w)
