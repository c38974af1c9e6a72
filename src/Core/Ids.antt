-- ===== src/Core/Ids.antt =====
-- crates/certo-core/src/ids.rs: random and derived identifiers. The system random generator is a
-- list of the answers of `fill`: `none` for a failure, or the 64 bytes. SHA-256 is a parameter.
use Prim.Native.Nat.{min}
use certo.Names.{label_char}
use certo.Prelude.{
  ℕ, zero, suc, ◌+◌, ◌-◌, ◌%◌, ◌/◌, ◌<◌, ◌≤◌, ◌≡◌, refl, Bool, true, false, not, ◌||◌, ◌&&◌, Option,
  none, some, List, [], ◌∷◌, ◌++◌, arith, inl, inr, Bool-cases, all, All, ltb, leb, ◌==◌,
  if◌then◌else◌, length, take, select, length-append, ==_iff,
}
use certo.Text.{Str, Unicode, str_eq}

-- The largest multiple of 36 in a byte.
abbrev pub limit : ℕ
limit = 252

-- The characters of `ALPHABET`: digits, then lower-case letters.
unfoldable pub alphabet : ℕ → ℕ
alphabet i = if ltb i 10 then b'0' + i else b'a' + (i - 10)

-- The inner loop over one buffer: bytes from the limit up are skipped, and the loop stops when the
-- text is complete.
unfoldable pub take_bytes : ℕ → List ℕ → Str → Str
take_bytes n [] out = out
take_bytes n (b ∷ bs) out =
    let skip = take_bytes n bs out in
    let more = take_bytes n bs (out ++ (alphabet (b % 36) ∷ [])) in
    if not (ltb b limit) then skip else if length out == n then out else more

-- The outer loop, over the answers of the generator; `none` if they do not suffice.
unfoldable pub fill_from : ℕ → List (Option (List ℕ)) → Str → Option Str
fill_from n [] out = if ltb (length out) n then none else some out
fill_from n (none ∷ answers) out =
    let again = fill_from n answers out in if ltb (length out) n then again else some out
fill_from n (some buf ∷ answers) out =
    let more = fill_from n answers (take_bytes n buf out) in
    if ltb (length out) n then more else some out

unfoldable pub nanoid : List (Option (List ℕ)) → ℕ → Option Str
unfolding fill_from
nanoid answers n = fill_from n answers []

unfoldable pub hex_digit : ℕ → ℕ
hex_digit d = if ltb d 10 then b'0' + d else b'a' + (d - 10)

-- `{b:02x}` for each byte.
unfoldable pub hex : List ℕ → Str
hex [] = []
hex (b ∷ bs) = hex_digit (b / 16) ∷ hex_digit (b % 16) ∷ hex bs

abbrev repeat_x : ℕ → Str
repeat_x zero = []
repeat_x (suc n) = b'x' ∷ repeat_x n

abbrev salted : ℕ → Str
salted zero = []
salted (suc n) = b':' ∷ repeat_x (suc n)

module _ ⦃u : Unicode⦄ (sha256 : Str → List ℕ) where
  -- The digest is taken of the UTF-8 bytes of the text.
  unfoldable pub subdomain : Str → Str → ℕ → Str
  unfolding hex
  subdomain username domain salt =
      hex (take 4 (sha256 (u.lowercase username ++ (b':' ∷ (u.lowercase domain ++ salted salt)))))

-- The bytes of a buffer that are used.
abbrev pub usable : List ℕ → ℕ
usable bs = length (select (λ b. ltb b limit) bs)

abbrev pub supply : List (Option (List ℕ)) → ℕ
supply [] = 0
supply (none ∷ answers) = supply answers
supply (some buf ∷ answers) = usable buf + supply answers

abbrev pub in_alphabet : ℕ → Bool
in_alphabet c = (leb b'0' c && leb c b'9') || (leb b'a' c && leb c b'z')

below_36 : (b : ℕ) → b % 36 < 36
below_36 b = omega arith

alphabet-in : (b : ℕ) → in_alphabet (alphabet (b % 36)) ≡ true
unfolding alphabet
alphabet-in b = ground (arith, below_36 b)

all-snoc :
    (p : ℕ → Bool) (s : Str) (c : ℕ) → all p s ≡ true → p c ≡ true → all p (s ++ (c ∷ [])) ≡ true
all-snoc p [] c h k = ground arith
all-snoc p (d ∷ s) c h k = ground (arith, all-snoc p s c)

-- A text of the alphabet, no longer than asked for.
abbrev IsPart : ℕ → Str → Type 0
IsPart n out = (length out ≤ n) × (all in_alphabet out ≡ true)

IsPart-push :
    (n b : ℕ) (out : Str)
    → IsPart n out
    → length out == n ≡ false
    → IsPart n (out ++ (alphabet (b % 36) ∷ []))
IsPart-push n b out h e = (
  ground (arith, length-append {0} out (alphabet (b % 36) ∷ [])),
  all-snoc in_alphabet out (alphabet (b % 36)) h.1 (alphabet-in b),
)

take_bytes-IsPart :
    (n : ℕ) (bs : List ℕ) (out : Str) → IsPart n out → IsPart n (take_bytes n bs out)
unfolding take_bytes
take_bytes-IsPart n [] out h = h
take_bytes-IsPart n (b ∷ bs) out h = ground (
  arith,
  take_bytes-IsPart n bs out h,
  IsPart-push n b out h,
  take_bytes-IsPart n bs (out ++ (alphabet (b % 36) ∷ [])),
)

-- One buffer brings the text to its length, or as far as its usable bytes go.
take_bytes-length :
    (n : ℕ) (bs : List ℕ) (out : Str)
    → length out ≤ n
    → length (take_bytes n bs out) ≡ min n (length out + usable bs)
unfolding take_bytes
take_bytes-length n [] out h = omega arith
take_bytes-length n (b ∷ bs) out h = ground (
  arith,
  take_bytes-length n bs out h,
  take_bytes-length n bs (out ++ (alphabet (b % 36) ∷ [])),
  length-append {0} out (alphabet (b % 36) ∷ []),
)

fill_from_complete :
    (n : ℕ) (answers : List (Option (List ℕ))) (out : Str)
    → IsPart n out
    → n ≤ length out + supply answers
    → (id : Str) × (fill_from n answers out ≡ some id)
      × (length id ≡ n)
      × (all in_alphabet id ≡ true)
unfolding fill_from
fill_from_complete n [] out h e = (out, ground arith, omega arith, h.1)
fill_from_complete n (none ∷ answers) out h e = elim (Bool-cases (ltb (length out) n)) [
  | inl short ↦ rw short (fill_from_complete n answers out h e)
  | inr full ↦ rw full (out, refl, ground arith, h.1)
]
fill_from_complete n (some buf ∷ answers) out h e = elim (Bool-cases (ltb (length out) n)) [
  | inl short ↦ rw short (
      fill_from_complete n answers (take_bytes n buf out) (take_bytes-IsPart n buf out h)
        (ground (arith, take_bytes-length n buf out h.0)))
  | inr full ↦ rw full (out, refl, ground arith, h.1)
]

-- If the generator's answers hold at least `n` usable bytes, `nanoid` ends with a text of exactly `n`
-- characters, all of them digits or lower-case letters, whatever failures come between.
pub nanoid_complete :
    (answers : List (Option (List ℕ))) (n : ℕ)
    → n ≤ supply answers
    → (id : Str) × (nanoid answers n ≡ some id) × (length id ≡ n) × (all in_alphabet id ≡ true)
unfolding nanoid
nanoid_complete answers n h = fill_from_complete n answers [] (omega arith, refl) (omega arith)

-- A test on every number under a bound.
holds_under : (ℕ → Bool) → ℕ → Bool
holds_under test zero = true
holds_under test (suc top) = holds_under test top && test top

holds_under-lt :
    (test : ℕ → Bool) (bound i : ℕ) → i < bound → holds_under test bound ≡ true → test i ≡ true
unfolding holds_under
holds_under-lt test zero i small h = absurd (omega arith)
holds_under-lt test (suc top) i small h = ground (arith, holds_under-lt test top i)

-- How many of the bytes below `k` make `take_bytes` write the character number `i`.
pub chosen_by : ℕ → ℕ → ℕ
unfolding take_bytes alphabet str_eq
chosen_by zero i = 0
chosen_by (suc b) i =
    (if str_eq (take_bytes 1 (b ∷ []) []) (alphabet i ∷ []) then 1 else 0) + chosen_by b i

uniform_table : holds_under (λ i. chosen_by 256 i == 7) 36 ≡ true
unfolding holds_under chosen_by
uniform_table = refl

-- Each of the 36 characters is written for exactly 7 of the 256 bytes, so a uniform byte gives a
-- uniform character.
pub nanoid_uniform : (i : ℕ) → i < 36 → chosen_by 256 i ≡ 7
nanoid_uniform i h =
    (==_iff (chosen_by 256 i) 7).0 (holds_under-lt (λ i. chosen_by 256 i == 7) 36 i h uniform_table)

hex_digit-label : (d : ℕ) → d < 16 → label_char (hex_digit d) ≡ true
unfolding hex_digit label_char
hex_digit-label d h = ground arith

hex-label : (bs : List ℕ) → All (λ b. b < 256) bs → all label_char (hex bs) ≡ true
unfolding hex
hex-label [] h = refl
hex-label (b ∷ bs) (small, h) =
    ground (arith, hex_digit-label (b / 16), hex_digit-label (b % 16), hex-label bs h)

first_four :
    (ds : List ℕ)
    → length ds ≡ 32
    → All (λ b. b < 256) ds
    → (length (hex (take 4 ds)) ≡ 8) × (all label_char (hex (take 4 ds)) ≡ true)
unfolding hex
first_four (a ∷ b ∷ c ∷ d ∷ ds) e (ha, (hb, (hc, (hd, h)))) =
    (refl, hex-label (a ∷ b ∷ c ∷ d ∷ []) (ha, (hb, (hc, (hd, tt)))))
first_four _ e h = absurd (omega arith)

-- For a digest of 32 bytes, a derived subdomain has 8 characters, all allowed in a label.
pub subdomain-label :
    ⦃u : Unicode⦄ (sha256 : Str → List ℕ)
    → ((s : Str) → (length (sha256 s) ≡ 32) × All (λ b. b < 256) (sha256 s))
    → (username domain : Str) (salt : ℕ)
    → (length (subdomain sha256 username domain salt) ≡ 8)
      × (all label_char (subdomain sha256 username domain salt) ≡ true)
unfolding subdomain
subdomain-label ⦃u⦄ sha256 digest username domain salt =
    let text : Str = u.lowercase username ++ (b':' ∷ (u.lowercase domain ++ salted salt)) in
    first_four (sha256 text) (digest text).0 (digest text).1
