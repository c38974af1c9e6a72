-- ===== src/Tests/Service.antt =====
-- The zone service over the mock: a zone of one user, its checks, a change of its records, its stamp.
use certo.Prelude.{
  ℕ, zero, suc, ◌≡◌, ◌⊎◌, refl, arith, true, false, none, some, List, [], ◌∷◌, ok, Result, find,
  All, Apart, is_empty, ltb,
}
use certo.Text.{Str, str}
use certo.Text.Decimal.{to_string, pos}
use certo.Names.{RrSetChange}
use certo.Core.{Zone}
use certo.Db.{Db, ZoneRow, empty, zone_row}
use certo.Db.Zones.{has_id}
use certo.Pdns.{ZoneSummary}
use certo.Pdns.Mock.{MockZone, Inner, mock}
use certo.Pdns.Answers.{mock-ReadsBack}
use certo.Service.{Zones, World, Delegation, not_delegated}
use certo.Service.Stamps.{parse_version, stamp}
use certo.Service.Seed.{StaticRecord, group_rrsets}
use certo.Service.Seed.Grouping.{Differs, lookup, values_given, group_rrsets_complete}
use certo.Service.Syncing.{SyncReport, no_report, is_served, sync_zone}
use certo.Service.Syncing.Skipping.{parse_version-to_string, sync_zone-stamp}
use certo.Service.Lifecycle.{run_check}
use certo.Service.Checking.Outcomes.Streak.{Failing, unchecked, fails, Failing-seventh}
use certo.Service.Records.{patch_rrsets}
use certo.Service.Records.Refusals.{Refused, Accepted, patch_rrsets-accepted}
use certo.Tests.Core.{ascii_only}
use certo.Tests.Sync.{policy, user_zone}

abbrev row : ZoneRow
row = record {
  id = 1;
  user_id = some 1;
  name = str "b.net";
  active = true;
  exempt = false;
  verified_at = none;
  last_check = none;
  last_error = none;
  failed_checks = 0;
  version = 3;
  axfr_allow_from = [];
  created_at = 0;
}

abbrev pub one_zone : Db
one_zone = record empty {
  users = record { id = 1; username = str "bob"; password_hash = []; created_at = 0 } ∷ [];
  last_user = 1;
  zones = row ∷ [];
  last_zone = 1;
}

abbrev served_zone : MockZone
served_zone = record {
  name = str "b.net.";
  serial = 1;
  rrsets = [];
  nsec3param = [];
  keys = [];
  metadata = [];
}

abbrev pub world : World Inner
world = record {
  db = one_zone;
  pdns = record { zones = served_zone ∷ []; tsig = []; next_key = 0 };
}

abbrev pub service : Result Str Delegation → Zones Inner
service verdict = record {
  server = mock (λ s. s);
  policy = policy;
  checker = λ _ _. verdict;
  is_public_suffix = λ _. false;
  parse_net = λ s. some s;
}

abbrev lost : Result Str Delegation
lost = ok (not_delegated (str "gone"))

abbrev after : ℕ → World Inner
after zero = world
after (suc n) = (run_check ⦃u = ascii_only⦄ (service lost) 5 user_zone (after n)).1

one_failure :
    (n : ℕ) (out : Zone)
    → run_check ⦃u = ascii_only⦄ (service lost) 5 user_zone (after n) ≡ (ok out, after (suc n))
    → Failing ⦃u = ascii_only⦄ 1 world n (after n)
    → Failing ⦃u = ascii_only⦄ 1 world (suc n) (after (suc n))
one_failure n out done before =
    fails (service lost) 5 user_zone out (str "gone") before refl refl done

seven_failures : Failing ⦃u = ascii_only⦄ 1 world 7 (after 7)
unfolding run_check certo.Service.Lifecycle.check_outcome certo.Service.◌>>=◌
    certo.Service.transacts certo.Db.Zones.record_zone_check_failure certo.Db.Zones.zone_by_id
    zone_row certo.Service.pure certo.Service.Lifecycle.deactivate certo.Service.◌>>◌
    certo.Service.Lifecycle.remove_from_pdns certo.Service.sends certo.Service.sends_or
    certo.Service.from_pdns certo.Pdns.Client.delete_zone certo.Pdns.Mock.delete_zone
    certo.Text.str_eq certo.Pdns.Client.zone_id certo.Text.trim_dots certo.Text.trim_end_matches
    certo.Text.lower_ascii certo.Db.Zones.tsig_keys_of certo.Service.reads
    certo.Service.Syncing.remove_pdns_tsig_keys certo.Db.Zones.deactivate_zone certo.Db.Zones.bump
seven_failures = one_failure 6 _ refl (
    one_failure 5 _ refl (
      one_failure 4 _ refl (
        one_failure 3 _ refl
          (one_failure 2 _ refl (one_failure 1 _ refl (one_failure 0 _ refl unchecked))))))

Failing-seventh_example :
    (z : ZoneRow) × (find (has_id 1) (after 7).db.zones ≡ some z) × (z.active ≡ ltb 7 7)
Failing-seventh_example = Failing-seventh ⦃u = ascii_only⦄ 1 row seven_failures refl refl refl

parse_version-to_string_example : parse_version (to_string 407 ∷ []) ≡ some (pos 407)
parse_version-to_string_example = parse_version-to_string 407 (omega arith)

abbrev summary : ZoneSummary
summary = record { name = str "b.net."; dnssec = false; serial = 1 }

abbrev stamped_world : World Inner
stamped_world = (stamp (service lost) (str "b.net") 3 world).1

sync_zone-stamp_example :
    ((sync_zone ⦃u = ascii_only⦄
        (service lost)
        false
        (summary ∷ [])
        no_report
        user_zone
        stamped_world).0
      ≡ ok no_report)
    × ((sync_zone ⦃u = ascii_only⦄
          (service lost)
          false
          (summary ∷ [])
          no_report
          user_zone
          stamped_world).1.db
        ≡ stamped_world.db)
unfolding certo.Text.str_eq certo.Sync.apex certo.Text.trim_dots stamp certo.Service.sends
    certo.Pdns.Client.set_metadata certo.Pdns.Mock.put_metadata certo.Pdns.Mock.with_zone
    certo.Pdns.Client.zone_id certo.Text.lower_ascii
sync_zone-stamp_example =
    sync_zone-stamp ⦃u = ascii_only⦄ (service lost) (mock-ReadsBack (λ s. s)) (summary ∷ [])
      no_report user_zone world stamped_world refl (omega arith) refl

abbrev change : RrSetChange
change = record {
  name = str "www";
  rtype = str "A";
  ttl = none;
  changetype = none;
  records = str "192.0.2.1" ∷ [];
}

patch_rrsets-accepted_example :
    Refused
      (service lost)
      user_zone
      (change ∷ [])
      world
      (patch_rrsets (service lost) user_zone (change ∷ []) world)
    ⊎ Accepted
        (service lost)
        user_zone
        (change ∷ [])
        world
        (patch_rrsets (service lost) user_zone (change ∷ []) world).1.db
patch_rrsets-accepted_example = patch_rrsets-accepted (service lost) user_zone (change ∷ []) world

abbrev line : Str → Str → StaticRecord
line rtype rdata = record { name = str "a.test"; ttl = 60; rtype = rtype; rdata = rdata }

abbrev lines : List StaticRecord
lines =
    line (str "A") (str "192.0.2.1")
    ∷ line (str "NS") (str "ns1.test.")
    ∷ line (str "A") (str "192.0.2.2")
    ∷ []

group_rrsets_complete_example :
    Apart Differs (group_rrsets lines)
    × All (λ s. is_empty s.records ≡ false) (group_rrsets lines)
    × (lookup (str "a.test.") (str "A") (group_rrsets lines)
        ≡ values_given (str "a.test.") (str "A") lines)
group_rrsets_complete_example = group_rrsets_complete lines (str "a.test.") (str "A")
