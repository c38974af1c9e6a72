-- ===== src/Pdns/Answers.antt =====
-- What certo relies on of a PowerDNS server, and the proof that the mock has it.
use mathlib.Core.Option
use certo.Prelude.{
  ◌≡◌, refl, ap, ◌∙◌, subst, true, some, List, [], ◌∷◌, arith, inl, inr, Bool-cases, Option-cases,
  Result, ok,
}
use certo.Text.{Str, str_eq}
use certo.Text.Affix.{str_eq_refl}
use certo.Pdns.{PdnsError, Server}
use certo.Pdns.Mock.{MockZone, Inner, mock, in_zones, with_zone, put_metadata, get_metadata}

-- Metadata that the server has taken is what it answers next.
pub record ReadsBack {S : Type 0} (server : Server S) : Type 0 where
  pub metadata :
      (id kind : Str) (values : List Str) (s s' : S)
      → server.put_metadata id kind values s ≡ (ok tt, s')
      → (server.get_metadata id kind s').0 ≡ ok values

-- A second request to the zone that a first one has changed.
module _ {A B : Type 0} (id : Str) (f : MockZone → A × MockZone) (g : MockZone → B × MockZone)
    (b : B) (named : (z : MockZone) → (f z).1.name ≡ z.name)
    (answer : (z : MockZone) → (g (f z).1).0 ≡ b) where
  in_zones-in_zones :
      (zs : List MockZone) (out : A × List MockZone)
      → in_zones id f zs ≡ some out
      → (later : List MockZone) × (in_zones id g out.1 ≡ some (b, later))
  in_zones-in_zones [] out h = cc
  in_zones-in_zones (z ∷ zs) out h = elim (Bool-cases (str_eq z.name id)) [
    | inl e ↦
        let still : str_eq (f z).1.name id ≡ true = ap (λ n. str_eq n id) (named z) ∙ e in
        subst (λ o. (later : List MockZone) × (in_zones id g o.1 ≡ some (b, later)))
          (Option.some-injective _ _ (rw e at h)) ((g (f z).1).1 ∷ zs, rw (still, answer z) refl)
    | inr e ↦ elim (Option-cases (in_zones id f zs)) [
      | inl n ↦ ground (arith, h)
      | inr (mid, l) ↦
          let (later, k) = in_zones-in_zones zs mid l in
          subst (λ o. (later : List MockZone) × (in_zones id g o.1 ≡ some (b, later)))
            (Option.some-injective _ _ (rw (e, l) at h)) (z ∷ later, rw (e, k) refl)
    ]
  ]

with_zone-with_zone :
    {A B : Type 0} (id : Str) (f : MockZone → Result PdnsError A × MockZone)
    (g : MockZone → Result PdnsError B × MockZone) (b : Result PdnsError B) (a : A)
    → ((z : MockZone) → (f z).1.name ≡ z.name)
    → ((z : MockZone) → (g (f z).1).0 ≡ b)
    → (s s' : Inner) → with_zone id f s ≡ (ok a, s')
    → (with_zone id g s').0 ≡ b
unfolding with_zone
with_zone-with_zone id f g b a named answer s s' h = elim (Option-cases (in_zones id f s.zones)) [
  | inl n ↦ let failed = ap (λ p. p.0) (rw (with_zone, n) at h) in cc
  | inr (out, l) ↦
      let (later, k) = in_zones-in_zones id f g b named answer s.zones out l in
      subst (λ x. (with_zone id g x).0 ≡ b) (ap (λ p. p.1) (rw (with_zone, l) at h))
        (rw (with_zone, k) refl)
]

-- The mock answers the metadata that it was given.
pub mock-ReadsBack : (base64 : Str → Str) → ReadsBack (mock base64)
unfolding put_metadata get_metadata
mock-ReadsBack base64 = record {
  metadata = λ id kind values s s' h.
      with_zone-with_zone id _ _ (ok values) tt (λ z. refl) (λ z. rw (str_eq_refl kind) refl) s s'
        h;
}
