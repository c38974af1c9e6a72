-- ===== src/Tests/Sync.antt =====
-- Converging a zone: a record to change, one to remove, one to add, and the SOA that stays.
use certo.Prelude.{ℕ, ◌≡◌, true, false, none, some, List, [], ◌∷◌, is_empty, if◌then◌else◌}
use certo.Text.{Str, str}
use certo.Names.{RrSet, new_record}
use certo.Core.{Zone, ZoneRrSet}
use certo.Sync.{ZonePolicy, replacing, to_stored, to_change}
use certo.Sync.Converge.{to_stored-to_change}

abbrev pub policy : ZonePolicy
policy = record {
  base_domain = str "acme.ex.org";
  base_zone = str "ex.org";
  nsname = str "ns.ex.org";
}

abbrev pub user_zone : Zone
user_zone = record {
  id = 1;
  user_id = some 1;
  owner = some (str "bob");
  name = str "b.net";
  active = true;
  exempt = false;
  verified_at = none;
  last_check = none;
  last_error = none;
  failed_checks = 0;
  version = 3;
  axfr_allow_from = [];
  created_at = 0;
}

abbrev served : Str → Str → ℕ → Str → RrSet
served name rtype ttl content = record {
  name = name;
  rtype = rtype;
  ttl = ttl;
  changetype = none;
  records = new_record content ∷ [];
}

abbrev present : List RrSet
present =
    served (str "b.net.") (str "SOA") 3600 (str "soa")
    ∷ served (str "b.net.") (str "A") 60 (str "192.0.2.1")
    ∷ served (str "x.b.net.") (str "A") 60 (str "192.0.2.2")
    ∷ []

abbrev wished : List RrSet
wished =
    replacing (str "b.net.") (str "A") 300 (new_record (str "192.0.2.1") ∷ [])
    ∷ replacing (str "b.net.") (str "NS") 3600 (new_record (str "ns.ex.org.") ∷ [])
    ∷ []

abbrev address : ZoneRrSet
address = record { name = str "b.net."; rtype = str "A"; ttl = 60; records = str "192.0.2.1" ∷ [] }

to_stored-to_change_example :
    to_stored (to_change address)
    ≡ (if is_empty address.records then record address { ttl = 0; records = [] } else address)
to_stored-to_change_example = to_stored-to_change address
