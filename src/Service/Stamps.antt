-- ===== src/Service/Stamps.antt =====
-- crates/certo-pdns/src/zones.rs: the version that a PowerDNS zone carries in its metadata.
use certo.Prelude.{ℕ, Option, none, List, [], ◌∷◌}
use certo.Text.{Str, str, trim}
use certo.Text.Decimal.{I64, to_string, parse_i64}
use certo.Core.{Zone}
use certo.Pdns.Client
use certo.Service.{Zones, not_active, Op, require, sends}

abbrev pub version_metadata : Str
version_metadata = str "X-CERTO-VERSION"

unfoldable pub parse_version : List Str → Option I64
parse_version [] = none
parse_version (v ∷ vs) = parse_i64 (trim v)

module _ {S : Type 0} (zones : Zones S) where
  unfoldable pub stamp : Str → ℕ → Op S (Unit {0})
  stamp name version =
      sends (Client.set_metadata zones.server name version_metadata (to_string version ∷ []))

abbrev pub require_active : {S : Type 0} → Zone → Op S (Unit {0})
require_active zone = require zone.active not_active
