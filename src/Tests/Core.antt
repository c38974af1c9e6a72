-- ===== src/Tests/Core.antt =====
-- The theorems on crates/certo-core at concrete keys, names and configurations.
use certo.Prelude.{
  ℕ, ◌<◌, ◌≡◌, ◌≢◌, ◌↔◌, ◌⊎◌, refl, arith, true, false, Option, none, some, List, [], ◌∷◌, ◌++◌, ok,
  length, all, All, Some, is_empty,
}
use certo.Text.{Str, str, Unicode, trim, to_ascii_lowercase}
use certo.Names.{label_char, valid_name}
use certo.Names.Inside.{labels}
use certo.Core.{ApiKey, is_global, has_domain_access, internal_domain, extract_subdomain_from_fqdn}
use certo.Core.Scope.{Grants, has_domain_access_iff}
use certo.Core.Challenge.{extract_subdomain-internal_domain}
use certo.Core.Ids.{
  nanoid, subdomain, chosen_by, in_alphabet, nanoid_complete, nanoid_uniform, subdomain-label,
}
use certo.Core.Config.{Config, plain, validated, validated_sound}

-- Case mapping that leaves every character but the ASCII letters alone.
abbrev pub ascii_only : Unicode
ascii_only = record { lowercase = to_ascii_lowercase; lowercase_ascii = λ s h. refl }

abbrev pub zero_digest : Str → List ℕ
zero_digest s =
    0 ∷ 0 ∷ 0 ∷ 0 ∷ 0 ∷ 0 ∷ 0 ∷ 0 ∷ 0 ∷ 0 ∷ 0 ∷ 0 ∷ 0 ∷ 0 ∷ 0 ∷ 0 ∷ 0 ∷ 0 ∷ 0 ∷ 0 ∷ 0 ∷ 0 ∷ 0 ∷ 0
    ∷ 0 ∷ 0 ∷ 0 ∷ 0 ∷ 0 ∷ 0 ∷ 0 ∷ 0 ∷ []

abbrev wildcard_key : ApiKey
wildcard_key = record {
  id = 1;
  user_id = 1;
  name = str "k";
  key = str "v";
  scope = str " *.Ex.org" ∷ [];
  created_at = 0;
}

has_domain_access_iff_example :
    (has_domain_access ⦃u = ascii_only⦄ wildcard_key (str "a.b.EX.org ") ≡ true) ↔ (
      (is_global wildcard_key ≡ true)
      ⊎ Some
          (λ entry.
            Grants
              (ascii_only.lowercase (trim entry))
              (ascii_only.lowercase (trim (str "a.b.EX.org "))))
          wildcard_key.scope)
has_domain_access_iff_example =
    has_domain_access_iff ⦃u = ascii_only⦄ wildcard_key (str "a.b.EX.org ")

base_valid : valid_name false (str "auth.ex.org") ≡ true
unfolding valid_name certo.Text.utf8_len certo.Names.valid_labels certo.Text.split
    certo.Names.valid_label certo.Text.str_eq label_char certo.Text.starts_with certo.Text.ends_with
base_valid = refl

sub_chars : all label_char (str "d41d8cd9") ≡ true
unfolding label_char
sub_chars = refl

sub_ne_nil : str "d41d8cd9" ≢ []
sub_ne_nil e = cc e

extract_subdomain-internal_domain_example :
    (extract_subdomain_from_fqdn ⦃u = ascii_only⦄
        (internal_domain (str "d41d8cd9") (str "auth.ex.org"))
        (str "auth.ex.org")
      ≡ some (str "d41d8cd9"))
    × (extract_subdomain_from_fqdn ⦃u = ascii_only⦄
          (internal_domain (str "d41d8cd9") (str "auth.ex.org") ++ str ".")
          (str "auth.ex.org")
        ≡ some (str "d41d8cd9"))
extract_subdomain-internal_domain_example =
    extract_subdomain-internal_domain ⦃u = ascii_only⦄ (str "d41d8cd9") (str "auth.ex.org")
      sub_ne_nil sub_chars base_valid

-- A failure, then a buffer with a byte that is skipped.
abbrev two_answers : List (Option (List ℕ))
two_answers = none ∷ some (255 ∷ 36 ∷ 10 ∷ 71 ∷ []) ∷ []

nanoid_complete_example :
    (id : Str) × (nanoid two_answers 3 ≡ some id) × (length id ≡ 3) × (all in_alphabet id ≡ true)
nanoid_complete_example = nanoid_complete two_answers 3 (omega arith)

nanoid_uniform_example : chosen_by 256 35 ≡ 7
nanoid_uniform_example = nanoid_uniform 35 (omega arith)

zero_digest-bytes : (s : Str) → (length (zero_digest s) ≡ 32) × All (λ b. b < 256) (zero_digest s)
zero_digest-bytes s = (refl, ground arith)

subdomain-label_example :
    (length (subdomain ⦃u = ascii_only⦄ zero_digest (str "bob") (str "ex.org") 2) ≡ 8)
    × (all label_char (subdomain ⦃u = ascii_only⦄ zero_digest (str "bob") (str "ex.org") 2) ≡ true)
subdomain-label_example =
    subdomain-label ⦃u = ascii_only⦄ zero_digest zero_digest-bytes (str "bob") (str "ex.org") 2

abbrev given_config : Config
given_config = record {
  domain = str "Ex.org.";
  acme_domain = str "ACME.ex.org";
  engine = str "";
  connection = str "/data/certo.db";
  acme_cache_dir = str "";
  allow_registration = none;
}

abbrev accepted_config : Config
accepted_config = record {
  domain = str "Ex.org.";
  acme_domain = str "acme.ex.org";
  engine = str "sqlite";
  connection = str "/data/certo.db";
  acme_cache_dir = str "data/certs";
  allow_registration = none;
}

config_accepted : validated given_config ≡ ok accepted_config
unfolding validated certo.Text.str_eq plain certo.Text.trim_dots certo.Text.lower_ascii
    certo.Text.ends_with
config_accepted = refl

validated_sound_example :
    (accepted_config.engine ≡ str "sqlite")
    × (is_empty accepted_config.connection ≡ false)
    × (is_empty accepted_config.acme_cache_dir ≡ false)
    × (accepted_config.domain ≡ given_config.domain)
    × ((above : List Str) × (labels accepted_config.acme_domain
          ≡ above ++ labels (plain given_config.domain)))
validated_sound_example = validated_sound given_config accepted_config config_accepted
