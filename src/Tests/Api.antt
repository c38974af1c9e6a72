-- ===== src/Tests/Api.antt =====
-- The handlers over the mock: a user with a domain, a scoped key, and a zone.
use certo.Prelude.{
  ℕ, ◌≡◌, ◌≤◌, ◌⊎◌, refl, ap, sym, ◌∙◌, arith, true, Option, none, some, List, [], ◌∷◌, ◌++◌, ok,
  leb, if◌then◌else◌,
}
use certo.Text.{Str, str}
use certo.Core.{User, ApiKey}
use certo.Db.{Db}
use certo.Pdns.Mock.{Inner}
use certo.Service.{World, delegated}
use certo.Api.{Claims, AppState}
use certo.Api.Auth.{Bearer, bearer}
use certo.Api.Auth.Sessions.{issue_token-bearer}
use certo.Api.Challenges.{present, cleanup, update}
use certo.Api.Challenges.Updates.{Denied, Updated, Cleaned, update-authorised, cleanup-authorised}
use certo.Api.Challenges.Presenting.{Presented, present-authorised}
use certo.Api.Hosting.{owner_ctx}
use certo.Api.Hosting.Owners.{Granted, owner_ctx-Granted}
use certo.Api.Runs.Requests.{Request, presents, cleans, adds_domain, deletes_account}
use certo.Tests.Core.{ascii_only, zero_digest}
use certo.Tests.Service.{one_zone, world, service}

abbrev encode : Claims → Option Str
encode c = some (c.uid ∷ (c.exp ∷ (c.iat ∷ c.usr)))

abbrev decode : ℕ → Str → Option Claims
decode now (uid ∷ (exp ∷ (iat ∷ usr))) =
    if leb now exp then some (record { uid = uid; usr = usr; exp = exp; iat = iat }) else none
decode now _ = none

abbrev state : AppState Inner
state = record {
  zones = service (ok delegated);
  base_domain = str "acme.ex.org";
  allow_registration = true;
  admin_key = none;
  encode_token = encode;
  decode_token = decode;
  verify_password = λ _ _. true;
  hash_password = λ s. some s;
  sha256 = zero_digest;
  decode = λ s. some s;
  is_ip = λ _. true;
  net_contains = λ _ _. true;
}

abbrev bob : User
bob = record { id = 1; username = str "bob"; password_hash = []; created_at = 0 }

abbrev key : ApiKey
key = record {
  id = 1;
  user_id = 1;
  name = str "k";
  key = str "secret";
  scope = str "b.net" ∷ [];
  created_at = 0;
}

abbrev db : Db
db = record one_zone {
  user_domains =
      record { user_id = 1; domain = str "b.net"; subdomain = str "sub"; allowfrom = [] } ∷ [];
  api_keys = key ∷ [];
  last_key = 1;
}

abbrev start : World Inner
start = record world { db = db }

abbrev txt : Str
txt = str "abcdefghijklmnopqrstuvwxyzabcdefghijklmnopq"

update-authorised_example :
    Denied start (update ⦃u = ascii_only⦄ state 5 bob key (str "1.2.3.4") (str " SUB") txt start)
    ⊎ Updated ⦃u = ascii_only⦄ state 5 bob key
        (str "1.2.3.4")
        (str " SUB")
        txt
        start
        (update ⦃u = ascii_only⦄ state 5 bob key (str "1.2.3.4") (str " SUB") txt start)
update-authorised_example =
    update-authorised ⦃u = ascii_only⦄ state 5 bob key (str "1.2.3.4") (str " SUB") txt start

cleanup-authorised_example :
    Denied start (cleanup ⦃u = ascii_only⦄ state bob key (str "_acme-challenge.b.net.") txt start)
    ⊎ Cleaned ⦃u = ascii_only⦄ state bob key
        (str "_acme-challenge.b.net.")
        txt
        start
        (cleanup ⦃u = ascii_only⦄ state bob key (str "_acme-challenge.b.net.") txt start)
cleanup-authorised_example =
    cleanup-authorised ⦃u = ascii_only⦄ state bob key (str "_acme-challenge.b.net.") txt start

present-authorised_example :
    Denied start (present ⦃u = ascii_only⦄ state 5 bob key (str "_acme-challenge.b.net.") txt start)
    ⊎ Presented ⦃u = ascii_only⦄ state 5 bob key
        (str "_acme-challenge.b.net.")
        txt
        start
        (present ⦃u = ascii_only⦄ state 5 bob key (str "_acme-challenge.b.net.") txt start)
present-authorised_example =
    present-authorised ⦃u = ascii_only⦄ state 5 bob key (str "_acme-challenge.b.net.") txt start

owner_ctx-Granted_example :
    Denied start
      (owner_ctx ⦃u = ascii_only⦄ state 5 (some (str "Bearer secret")) (str "B.net") start)
    ⊎ Granted ⦃u = ascii_only⦄ state 5
        (some (str "Bearer secret"))
        (str "B.net")
        start
        (owner_ctx ⦃u = ascii_only⦄ state 5 (some (str "Bearer secret")) (str "B.net") start)
owner_ctx-Granted_example =
    owner_ctx-Granted ⦃u = ascii_only⦄ state 5 (some (str "Bearer secret")) (str "B.net") start

abbrev requests : List Request
requests =
    presents 5 bob key (str "_acme-challenge.b.net.") txt
    ∷ (cleans bob key (str "_acme-challenge.b.net.") txt
        ∷ (adds_domain (record { user = bob; key = none }) (str "c.net")
            ∷ (deletes_account (record { user = bob; key = none }) ∷ [])))

abbrev token : Str
token = 1 ∷ (259205 ∷ (5 ∷ str "bob"))

before_expiry :
    (c : Claims) (at : ℕ) → at ≤ c.exp → (if leb at c.exp then some c else none) ≡ some c
before_expiry c at h = ground arith

reads_back : (c : Claims) (t : Str) (at : ℕ) → encode c ≡ some t → at ≤ c.exp → decode at t ≡ some c
reads_back c t at h in_time =
    ap (λ (o : Option Str). elim o [ none ↦ none | some s ↦ decode at s ]) (sym h)
    ∙ before_expiry c at in_time

issue_token-bearer_example :
    bearer state 100000 db (some (str "Bearer " ++ token)) ≡ ok (record { user = bob; key = none })
unfolding certo.Api.Auth.issue_token certo.Db.Accounts.user_by_id
issue_token-bearer_example =
    issue_token-bearer state db bob 5 100000 token reads_back refl (omega arith) refl
