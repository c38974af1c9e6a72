-- ===== src/Tests/Txt.antt =====
-- Challenge values of two names, in a table with three rows.
use certo.Prelude.{ℕ, ◌≡◌, some, [], ◌∷◌, ◌++◌, reject, if◌then◌else◌}
use certo.Text.{Str, str, str_eq}
use certo.Core.{sanitize_fqdn}
use certo.Db.{TxtRow, Db, empty}
use certo.Db.Txt.{present_txt, cleanup_txt, txt_for_domain}
use certo.Db.Txt.Values.{txt_for_domain-present_txt, txt_for_domain-cleanup_txt}
use certo.Tests.Core.{ascii_only}

abbrev row : ℕ → Str → Str → ℕ → TxtRow
row rowid domain value time = record {
  rowid = rowid;
  domain = domain;
  value = value;
  last_update = some time;
}

abbrev three_rows : Db
three_rows = record empty {
  txt =
      row 1 (str "a.ex.org") (str "v1") 10
      ∷ row 2 (str "a.ex.org") (str "v2") 11
      ∷ row 4 (str "b.ex.org") (str "v3") 11
      ∷ [];
}

txt_for_domain-present_txt_example :
    txt_for_domain
      (present_txt ⦃u = ascii_only⦄ three_rows 12 (str "A.ex.org.") (str "v4"))
      (str "a.ex.org")
    ≡ (if str_eq (sanitize_fqdn ⦃u = ascii_only⦄ (str "A.ex.org.")) (str "a.ex.org")
        then txt_for_domain three_rows (str "a.ex.org") ++ (str "v4" ∷ [])
        else txt_for_domain three_rows (str "a.ex.org"))
txt_for_domain-present_txt_example =
    txt_for_domain-present_txt ⦃u = ascii_only⦄ three_rows 12 (str "A.ex.org.") (str "v4")
      (str "a.ex.org")

txt_for_domain-cleanup_txt_example :
    txt_for_domain
      (cleanup_txt ⦃u = ascii_only⦄ three_rows (str "A.ex.org.") (str "v1"))
      (str "a.ex.org")
    ≡ (if str_eq (sanitize_fqdn ⦃u = ascii_only⦄ (str "A.ex.org.")) (str "a.ex.org")
        then reject (λ v. str_eq v (str "v1")) (txt_for_domain three_rows (str "a.ex.org"))
        else txt_for_domain three_rows (str "a.ex.org"))
txt_for_domain-cleanup_txt_example =
    txt_for_domain-cleanup_txt ⦃u = ascii_only⦄ three_rows (str "A.ex.org.") (str "v1")
      (str "a.ex.org")
