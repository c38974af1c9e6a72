-- ===== src/Api/Auth/Sessions.antt =====
-- A dashboard session: the token that a login answers with is one that requests are accepted with.
use certo.Prelude.{ℕ, ◌+◌, ◌≤◌, ◌≡◌, refl, ap, ◌∙◌, Option, none, some, ◌++◌, ok, err}
use certo.Text.{Str, str}
use certo.Text.Affix.{strip_prefix-append}
use certo.Core.{User}
use certo.Db.{Db}
use certo.Db.Accounts.{user_by_id}
use certo.Api.{Claims, AppState, unauthorized}
use certo.Api.Auth.{Bearer, token_ttl, signed, issue_token, verify_token, bearer_of_token, bearer}

module _ {S : Type 0} (state : AppState S) (db : Db) (user : User) (iat now : ℕ) (token : Str) where
  abbrev pub claims : Claims
  claims = record { uid = user.id; usr = user.username; exp = iat + token_ttl; iat = iat }

  abbrev pub session : Bearer
  session = record { user = user; key = none }

  opened :
      user_by_id db user.id ≡ ok user
      → state.decode_token now token ≡ some claims
      → bearer_of_token state now db token ≡ ok session
  unfolding bearer_of_token verify_token
  opened known decoded = rw (bearer_of_token, verify_token, decoded, known) refl

  signed_sound : (t : Option Str) → signed t ≡ ok token → t ≡ some token
  signed_sound none h = cc
  signed_sound (some t) h = cc

  -- When the signer's tokens read back until they expire, a token issued to a user opens a session of
  -- that user, with no key, for 72 hours, as long as the database has the user.
  pub issue_token-bearer :
      ((c : Claims) (t : Str) (at : ℕ)
        → state.encode_token c ≡ some t
        → at ≤ c.exp
        → state.decode_token at t ≡ some c)
      → issue_token state iat user ≡ ok token
      → now ≤ iat + 259200
      → user_by_id db user.id ≡ ok user
      → bearer state now db (some (str "Bearer " ++ token)) ≡ ok session
  unfolding bearer issue_token
  issue_token-bearer reads_back issued in_time known =
      ap
        (λ (r : Option Str). elim r [
          | none ↦ err unauthorized
          | some t ↦ bearer_of_token state now db t
        ])
        (strip_prefix-append (str "Bearer ") token)
      ∙ opened known (reads_back claims token now (signed_sound _ issued) in_time)
