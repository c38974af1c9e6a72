-- ===== src/Sync/Patch.antt =====
-- `patch_rrsets`: what a list of changes leaves of the rrsets, and what it adds.
use mathlib.Core.Bool.{false≢true}
use certo.Prelude.{
  ◌≡◌, refl, ap, sym, ◌∙◌, Bool, true, false, ◌||◌, none, List, [], ◌∷◌, ◌++◌, arith, inl, inr,
  Bool-cases, &&-eq-true, ==_iff, if◌then◌else◌, any, reject, All, All-append, All-map, Apart,
}
use certo.Text.{Str, str_eq}
use certo.Text.Affix.{str_eq_iff, str_eq_refl, str_eq_comm}
use certo.Names.{RrSet}
use certo.Sync.{
  same_key, same_records, texts_eq, sorted_contents, serves, is_replace, patch_one, patch_rrsets,
}

-- Two rrsets of different owners or types.
abbrev pub Differ : RrSet → RrSet → Type 0
Differ a b = same_key a b ≡ false

pub same_key_refl : (a : RrSet) → same_key a a ≡ true
same_key_refl a = rw (str_eq_refl a.name, str_eq_refl a.rtype)

pub same_key_comm : (a b : RrSet) → same_key a b ≡ same_key b a
same_key_comm a b = rw (str_eq_comm a.name b.name, str_eq_comm a.rtype b.rtype)

pub same_key_trans :
    (x c d : RrSet) → same_key x c ≡ true → same_key x d ≡ true → same_key d c ≡ true
same_key_trans x c d h k =
    let (n, t) = &&-eq-true (str_eq x.name c.name) (str_eq x.rtype c.rtype) h in
    let (m, u) = &&-eq-true (str_eq x.name d.name) (str_eq x.rtype d.rtype) k in
    rw (
      (str_eq_iff d.name c.name).1
          (sym ((str_eq_iff x.name d.name).0 m) ∙ (str_eq_iff x.name c.name).0 n),
      (str_eq_iff d.rtype c.rtype).1
          (sym ((str_eq_iff x.rtype d.rtype).0 u) ∙ (str_eq_iff x.rtype c.rtype).0 t),
    )

-- What serves `d` has not the key of an rrset with another.
pub serves-Differ : (d c x : RrSet) → Differ d c → serves d x ≡ true → Differ x c
serves-Differ d c x n h = elim (Bool-cases (same_key x c)) [
  | inl e ↦ absurd (
      false≢true
        (sym n ∙ same_key_trans x c d e (&&-eq-true (same_key x d) (same_records x d) h).0))
  | inr e ↦ e
]

texts_eq_refl : (ts : List Str) → texts_eq ts ts ≡ true
texts_eq_refl [] = refl
texts_eq_refl (t ∷ ts) = rw (str_eq_refl t, texts_eq_refl ts)

same_records-cleared : (a : RrSet) → same_records (record a { changetype = none }) a ≡ true
unfolding same_records
same_records-cleared a = rw ((==_iff a.ttl a.ttl).1 refl, texts_eq_refl (sorted_contents a))

any-append : (q : RrSet → Bool) (xs ys : List RrSet) → any q (xs ++ ys) ≡ (any q xs || any q ys)
any-append q [] ys = refl
any-append q (x ∷ xs) ys = ground (arith, any-append q xs ys)

any-kept :
    (q p : RrSet → Bool) (xs : List RrSet)
    → ((x : RrSet) → q x ≡ true → p x ≡ false)
    → any q (reject p xs) ≡ any q xs
any-kept q p [] h = refl
any-kept q p (x ∷ xs) h = ground (arith, h x, any-kept q p xs h)

none_added :
    (q : RrSet → Bool) (c : RrSet)
    → ((x : RrSet) → q x ≡ true → Differ x c)
    → any q (if is_replace c.changetype then record c { changetype = none } ∷ [] else []) ≡ false
none_added q c h =
    let added = h (record c { changetype = none }) in let own = same_key_refl c in ground arith

-- A change with another key does not matter to a test.
any-patch_one :
    (q : RrSet → Bool) (zs : List RrSet) (c : RrSet)
    → ((x : RrSet) → q x ≡ true → Differ x c)
    → any q (patch_one zs c) ≡ any q zs
any-patch_one q zs c h =
    any-append q (reject (λ rr. same_key rr c) zs) _
    ∙ ap (λ b. any q (reject (λ rr. same_key rr c) zs) || b) (none_added q c h)
    ∙ ground (arith, any-kept q (λ rr. same_key rr c) zs h)

pub any-patch_rrsets :
    (q : RrSet → Bool) (cs zs : List RrSet)
    → All (λ c. (x : RrSet) → q x ≡ true → Differ x c) cs
    → any q (patch_rrsets zs cs) ≡ any q zs
unfolding patch_rrsets
any-patch_rrsets q [] zs h = refl
any-patch_rrsets q (c ∷ cs) zs (h, hs) =
    any-patch_rrsets q cs (patch_one zs c) hs ∙ any-patch_one q zs c h

replaced :
    (zs : List RrSet) (c : RrSet)
    → is_replace c.changetype ≡ true
    → any (serves c) (patch_one zs c) ≡ true
replaced zs c r =
    any-append (serves c) (reject (λ rr. same_key rr c) zs) _
    ∙ ground (arith, same_key_refl c, same_records-cleared c)

-- Replacements of different keys, followed by changes of other keys: each is served afterwards.
pub patch_rrsets-serves :
    (rs ds zs : List RrSet)
    → All (λ c. is_replace c.changetype ≡ true) rs
    → Apart Differ rs
    → All (λ c. All (Differ c) ds) rs
    → All (λ c. any (serves c) (patch_rrsets zs (rs ++ ds)) ≡ true) rs
unfolding patch_rrsets
patch_rrsets-serves [] ds zs h a k = tt
patch_rrsets-serves (c ∷ rs) ds zs (h, hs) (a, apart) (k, ks) = (
  any-patch_rrsets (serves c) (rs ++ ds) (patch_one zs c) (
        All-map _ _ (λ d n x s. serves-Differ c d x n s) (rs ++ ds)
          (All-append (Differ c) rs ds a k))
      ∙ replaced zs c h,
  patch_rrsets-serves rs ds (patch_one zs c) hs apart ks,
)

-- A test that is blind to the change type and true of every replacement: it is true of all that is
-- left, if every rrset without it has the key of a change.
module _ (p : RrSet → Bool) (blind : (r : RrSet) → p (record r { changetype = none }) ≡ p r) where
  kept_rest :
      (zs : List RrSet) (c : RrSet) (cs : List RrSet)
      → All (λ s. (p s || any (same_key s) (c ∷ cs)) ≡ true) zs
      → All (λ s. (p s || any (same_key s) cs) ≡ true) (reject (λ rr. same_key rr c) zs)
  kept_rest [] c cs h = tt
  kept_rest (z ∷ zs) c cs (h, hs) = elim (Bool-cases (same_key z c)) [
    | inl e ↦ rw e (kept_rest zs c cs hs)
    | inr e ↦ rw e (rw e at h, kept_rest zs c cs hs)
  ]

  added_rest :
      (c : RrSet) (cs : List RrSet)
      → (is_replace c.changetype ≡ true → p c ≡ true)
      → All
          (λ s. (p s || any (same_key s) cs) ≡ true)
          (if is_replace c.changetype then record c { changetype = none } ∷ [] else [])
  added_rest c cs h = elim (Bool-cases (is_replace c.changetype)) [
    | inl e ↦ rw e (rw (blind c, h e), tt)
    | inr e ↦ rw e tt
  ]

  pub patch_rrsets-All :
      (cs zs : List RrSet)
      → All (λ c. is_replace c.changetype ≡ true → p c ≡ true) cs
      → All (λ s. (p s || any (same_key s) cs) ≡ true) zs
      → All (λ s. p s ≡ true) (patch_rrsets zs cs)
  unfolding patch_rrsets
  patch_rrsets-All [] zs h k = All-map _ _ (λ s e. ground arith) zs k
  patch_rrsets-All (c ∷ cs) zs (h, hs) k =
      patch_rrsets-All cs (patch_one zs c) hs
        (All-append _ (reject (λ rr. same_key rr c) zs) _ (kept_rest zs c cs k) (added_rest c cs h))
