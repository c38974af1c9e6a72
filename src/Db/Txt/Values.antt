-- ===== src/Db/Txt/Values.antt =====
-- The challenge values of each name: what the operations on `txt` do to them.
use mathlib.Core.List.{map-append, append-nil}
use certo.Prelude.{
  ℕ, ◌≡◌, ap, ◌∙◌, ◌&&◌, List, [], ◌∷◌, ◌++◌, map, arith, inl, inr, Bool-cases, if◌then◌else◌,
  select, reject, select-append,
}
use certo.Text.{Str, Unicode, str_eq}
use certo.Text.Affix.{str_eq_iff}
use certo.Core.{sanitize_fqdn}
use certo.Db.{TxtRow, Db}
use certo.Db.Zones.{bump_base_zone}
use certo.Db.Txt.{named, insert_txt, txt_row, txt_for_domain, present_txt, cleanup_txt}

inserted-values :
    (rows : List TxtRow) (name n value : Str) (time : ℕ)
    → map (λ (r : TxtRow). r.value) (select (named n) (insert_txt rows name value time)) ≡ (
        if str_eq name n
        then map (λ (r : TxtRow). r.value) (select (named n) rows) ++ (value ∷ [])
        else map (λ (r : TxtRow). r.value) (select (named n) rows))
unfolding insert_txt
inserted-values rows name n value time =
    ap (map (λ (r : TxtRow). r.value))
      (select-append (named n) rows (txt_row rows name value time ∷ []))
    ∙ elim (Bool-cases (str_eq name n)) [
      | inl e ↦ rw e (
          map-append (λ (r : TxtRow). r.value) (select (named n) rows)
            (txt_row rows name value time ∷ []))
      | inr e ↦ rw e (
          map-append (λ (r : TxtRow). r.value) (select (named n) rows) []
          ∙ append-nil (map (λ (r : TxtRow). r.value) (select (named n) rows)))
    ]

cleaned-values :
    (rows : List TxtRow) (name n value : Str)
    → map
        (λ (r : TxtRow). r.value)
        (select (named n) (reject (λ r. named name r && str_eq r.value value) rows))
      ≡ (if str_eq name n
          then reject (λ v. str_eq v value) (map (λ (r : TxtRow). r.value) (select (named n) rows))
          else map (λ (r : TxtRow). r.value) (select (named n) rows))
cleaned-values [] name n value = ground arith
cleaned-values (r ∷ rows) name n value =
    let again = cleaned-values rows name n value in
    ground (arith, again, str_eq_iff r.domain name, str_eq_iff r.domain n, str_eq_iff name n)

module _ ⦃u : Unicode⦄ where
  -- After `present_txt`, the value is the last one of the name, and all else is as before: the other
  -- values of the name, and those of every other name.
  pub txt_for_domain-present_txt :
      (db : Db) (time : ℕ) (fqdn value n : Str)
      → txt_for_domain (present_txt db time fqdn value) n ≡ (
          if str_eq (sanitize_fqdn fqdn) n
          then txt_for_domain db n ++ (value ∷ [])
          else txt_for_domain db n)
  unfolding txt_for_domain present_txt bump_base_zone
  txt_for_domain-present_txt db time fqdn value n =
      inserted-values db.txt (sanitize_fqdn fqdn) n value time

  -- After `cleanup_txt`, every copy of the value is gone from the name, and all else is as before.
  pub txt_for_domain-cleanup_txt :
      (db : Db) (fqdn value n : Str)
      → txt_for_domain (cleanup_txt db fqdn value) n ≡ (
          if str_eq (sanitize_fqdn fqdn) n
          then reject (λ v. str_eq v value) (txt_for_domain db n)
          else txt_for_domain db n)
  unfolding txt_for_domain cleanup_txt bump_base_zone
  txt_for_domain-cleanup_txt db fqdn value n = cleaned-values db.txt (sanitize_fqdn fqdn) n value
