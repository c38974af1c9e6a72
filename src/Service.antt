-- ===== src/Service.antt =====
-- crates/certo-pdns/src/zones.rs: the zone service, over the database and any PowerDNS server. An
-- operation takes both as one state and returns it also when it fails, since what was stored or sent
-- before the failure stays. An operation runs at one time, an argument where the code calls `now()`.
pub mod Stamps
pub mod Keeping
pub mod Untouched
pub mod Runs
pub mod Seed
pub mod Convergence
pub mod Syncing
pub mod Lifecycle
pub mod Checking
pub mod Records
pub mod Transfers
use certo.Prelude.{
  ℕ, Bool, true, false, Option, none, some, List, Result, ok, err, if◌then◌else◌, ◌==◌, ◌||◌,
}
use certo.Text.{Str, str}
use certo.Names.{Code, pdns_rejected, tsig_key_exists}
use certo.Core.{Zone}
use certo.Sync.{ZonePolicy}
use certo.Db.{
  What, zone, zone_overlap, tsig_key, DbError, not_found, conflict, exhausted, constraint, Db,
}
use certo.Pdns.{PdnsError, http, api, Api, Server}

pub data ZoneOpError : Type 0 where
  invalid : Code → ZoneOpError
  not_allowed : Str → ZoneOpError
  exists : ZoneOpError
  missing : What → ZoneOpError
  not_active : ZoneOpError
  rate_limited : ZoneOpError
  check : Str → ZoneOpError
  of_db : DbError → ZoneOpError
  of_pdns : PdnsError → ZoneOpError

-- `From<DbError>`
unfoldable pub from_db : DbError → ZoneOpError
from_db (not_found what) = missing what
from_db (conflict zone) = exists
from_db (conflict zone_overlap) = not_allowed (str "overlaps another user's zone")
from_db (conflict tsig_key) = invalid tsig_key_exists
from_db (conflict What.user) = of_db (conflict What.user)
from_db (conflict What.domain) = of_db (conflict What.domain)
from_db (conflict What.subdomain) = of_db (conflict What.subdomain)
from_db (conflict What.api_key) = of_db (conflict What.api_key)
from_db (conflict What.acmedns_account) = of_db (conflict What.acmedns_account)
from_db (exhausted what) = of_db (exhausted what)
from_db constraint = of_db constraint

-- `From<PdnsError>`
unfoldable pub from_pdns : PdnsError → ZoneOpError
from_pdns http = of_pdns http
from_pdns (api status message) =
    if status == 404
    then missing zone
    else if status == 409
    then exists
    else if status == 400 || status == 422
    then invalid pdns_rejected
    else of_pdns (api status message)

-- crates/certo-pdns/src/delegation.rs
pub data Delegation : Type 0 where
  delegated : Delegation
  not_delegated : (reason : Str) → Delegation

-- The parts of `Zones` besides the database: the client's server, the policy and the checker. The
-- public suffix list and the reading of addresses are those of other packages.
pub record Zones (S : Type 0) : Type 0 where
  pub server : Server S
  pub policy : ZonePolicy
  pub checker : Str → Str → Result Str Delegation
  pub is_public_suffix : Str → Bool
  pub parse_net : Str → Option Str

-- The database, and the state of the server.
pub record World (S : Type 0) : Type 0 where
  pub db : Db
  pub pdns : S

-- An operation with errors `E`.
abbrev pub Action : Type 0 → Type 0 → Type 0 → Type 0
Action E S A = World S → Result E A × World S

abbrev pub Op : Type 0 → Type 0 → Type 0
Op S A = Action ZoneOpError S A

unfoldable pub pure : {E S A : Type 0} → A → Action E S A
pure a w = (ok a, w)

unfoldable pub fail : {E S A : Type 0} → E → Action E S A
fail e w = (err e, w)

-- The rest of an operation after its first part.
abbrev pub go_on :
    {E S A B : Type 0} → (A → Action E S B) → Result E A × World S → Result E B × World S
go_on f (ok a, w) = f a w
go_on f (err e, w) = (err e, w)

infixl 5 ◌>>=◌ ◌>>◌
unfoldable pub ◌>>=◌ : {E S A B : Type 0} → Action E S A → (A → Action E S B) → Action E S B
◌>>=◌ m f w = go_on f (m w)

unfoldable pub ◌>>◌ : {E S B : Type 0} → Action E S (Unit {0}) → Action E S B → Action E S B
unfolding ◌>>=◌
first >> second = first >>= λ _. second

unfoldable pub require : {E S : Type 0} → Bool → E → Action E S (Unit {0})
unfolding pure fail
require true e = pure tt
require false e = fail e

-- A pure test of the request.
unfoldable pub checked : {S A : Type 0} → Result Code A → Op S A
unfolding pure fail
checked (ok a) = pure a
checked (err code) = fail (invalid code)

-- A read of the database.
unfoldable pub reads : {E S A : Type 0} → (Db → A) → Action E S A
reads f w = (ok (f w.db), w)

abbrev pub answered : {S A : Type 0} → World S → Result DbError A → Result ZoneOpError A × World S
answered w (ok a) = (ok a, w)
answered w (err e) = (err (from_db e), w)

unfoldable pub looks_up : {S A : Type 0} → (Db → Result DbError A) → Op S A
looks_up f w = answered w (f w.db)

-- A transaction with a result; it leaves the database as it is when it fails.
abbrev pub stored :
    {S A : Type 0} → World S → Result DbError (A × Db) → Result ZoneOpError A × World S
stored w (ok (a, db)) = (ok a, record w { db = db })
stored w (err e) = (err (from_db e), w)

unfoldable pub transacts : {S A : Type 0} → (Db → Result DbError (A × Db)) → Op S A
transacts f w = stored w (f w.db)

-- A transaction without a result.
abbrev pub changed :
    {S : Type 0} → World S → Result DbError Db → Result ZoneOpError (Unit {0}) × World S
changed w (ok db) = (ok tt, record w { db = db })
changed w (err e) = (err (from_db e), w)

unfoldable pub updates : {S : Type 0} → (Db → Result DbError Db) → Op S (Unit {0})
updates f w = changed w (f w.db)

abbrev pub received :
    {S A : Type 0}
    → (PdnsError → ZoneOpError)
    → World S
    → Result PdnsError A × S
    → Result ZoneOpError A × World S
received of w (ok a, s) = (ok a, record w { pdns = s })
received of w (err e, s) = (err (of e), record w { pdns = s })

-- A request to the server, with a reading of its errors.
unfoldable pub sends_or : {S A : Type 0} → (PdnsError → ZoneOpError) → Api S A → Op S A
sends_or of request w = received of w (request w.pdns)

unfoldable pub sends : {S A : Type 0} → Api S A → Op S A
unfolding sends_or
sends request = sends_or from_pdns request

-- The outcome of an operation whose failure does not end the caller.
unfoldable pub attempt : {E F S A : Type 0} → Action E S A → Action F S (Result E A)
attempt m w = (ok (m w).0, (m w).1)
