-- ===== src/Tests/Names.antt =====
-- The theorems on crates/certo-pdns/src/names.rs at concrete names.
use certo.Prelude.{◌≡◌, ◌↔◌, refl, true, none, some, List, [], ◌∷◌, ◌++◌, if◌then◌else◌, ok, err}
use certo.Text.{Str, str}
use certo.Names.{
  RrSetChange, RrSet, replace, delete, new_record, inside, valid_name, parse_zone_name, owner_name,
  name_outside_zone, txt_content,
}
use certo.Names.Inside.{labels, inside_iff-labels}
use certo.Names.Canonical.{IsCanonical, parse_zone_name-IsCanonical, parse_zone_name_idempotent}
use certo.Names.Owner.{owner_name-labels, owner_name_absolute, owner_name_relative}
use certo.Names.Txt.{unquote, unquote-txt_content}

inside_iff-labels_example :
    (inside (str "a.b.org") (str "b.org") ≡ true)
    ↔ ((above : List Str) × (labels (str "a.b.org") ≡ above ++ labels (str "b.org")))
inside_iff-labels_example = inside_iff-labels (str "a.b.org") (str "b.org")

parsed : parse_zone_name (str " Ex-1.ORG.") ≡ ok (str "ex-1.org")
unfolding parse_zone_name certo.Names.normalize valid_name certo.Text.strip_dot certo.Text.trim
    certo.Text.lower_ascii certo.Text.utf8_len certo.Names.valid_labels certo.Text.split
    certo.Names.valid_label certo.Names.label_char certo.Text.starts_with certo.Text.ends_with
parsed = refl

parse_zone_name-IsCanonical_example : IsCanonical (str "ex-1.org")
parse_zone_name-IsCanonical_example =
    parse_zone_name-IsCanonical (str " Ex-1.ORG.") (str "ex-1.org") parsed

parse_zone_name_idempotent_example :
    (parse_zone_name (str "ex-1.org") ≡ ok (str "ex-1.org"))
    × (parse_zone_name (str "ex-1.org" ++ str ".") ≡ ok (str "ex-1.org"))
parse_zone_name_idempotent_example =
    parse_zone_name_idempotent (str " Ex-1.ORG.") (str "ex-1.org") parsed

owner_read : owner_name (str "ex.org") (str "WWW") ≡ ok (str "www.ex.org")
unfolding owner_name certo.Text.trim certo.Text.str_eq certo.Names.normalize valid_name
    certo.Text.strip_dot certo.Text.lower_ascii certo.Text.utf8_len certo.Names.valid_labels
    certo.Text.split certo.Names.valid_label certo.Names.label_char certo.Text.starts_with
    certo.Text.ends_with inside
owner_read = refl

owner_name-labels_example :
    (above : List Str) × (labels (str "www.ex.org") ≡ above ++ labels (str "ex.org"))
owner_name-labels_example =
    owner_name-labels (str "ex.org") (str "WWW") (str "www.ex.org") owner_read

other_valid : valid_name true (str "*.b.net") ≡ true
unfolding valid_name certo.Text.utf8_len certo.Names.valid_labels certo.Text.split
    certo.Names.valid_label certo.Text.str_eq certo.Names.label_char certo.Text.starts_with
    certo.Text.ends_with
other_valid = refl

owner_name_absolute_example :
    owner_name (str "ex.org") (str "*.b.net" ++ str ".")
    ≡ (if inside (str "*.b.net") (str "ex.org") then ok (str "*.b.net") else err name_outside_zone)
owner_name_absolute_example = owner_name_absolute (str "ex.org") (str "*.b.net") other_valid

owner_name_relative_example :
    owner_name (str "ex.org") (str "*.b.net")
    ≡ ok (
        if inside (str "*.b.net") (str "ex.org")
        then str "*.b.net"
        else str "*.b.net" ++ (b'.' ∷ str "ex.org"))
owner_name_relative_example = owner_name_relative (str "ex.org") (str "*.b.net") other_valid

unquote-txt_content_example :
    unquote (txt_content (str "a\"b\\") ++ str " rest") ≡ some (str "a\"b\\", str " rest")
unquote-txt_content_example = unquote-txt_content (str "a\"b\\") (str " rest")

-- A TXT value and the removal of a CNAME.
abbrev two_changes : List RrSetChange
two_changes =
    record {
      name = str "www";
      rtype = str "txt";
      ttl = some 60;
      changetype = none;
      records = str " v " ∷ str "" ∷ [];
    }
    ∷ record {
      name = str "@";
      rtype = str "CNAME";
      ttl = none;
      changetype = some delete;
      records = [];
    }
    ∷ []

abbrev two_rrsets : List RrSet
two_rrsets =
    record {
      name = str "www.ex.org.";
      rtype = str "TXT";
      ttl = 60;
      changetype = some replace;
      records = new_record (str "\"v\"") ∷ [];
    }
    ∷ record {
      name = str "ex.org.";
      rtype = str "CNAME";
      ttl = 3600;
      changetype = some delete;
      records = [];
    }
    ∷ []
