-- ===== src/Bytes/Base64.antt =====
-- `base64.RawURLEncoding` of the standard library (RFC 4648, the URL alphabet with no padding), as
-- the program uses it: `EncodeToString`, and the lenient `DecodeString`, which skips CR and LF and
-- ignores the unused bits of the last digit.
use gose.Prelude.{
  ℕ, ◌+◌, ◌-◌, ◌*◌, ◌/◌, ◌%◌, ◌<◌, ◌≡◌, ◌≢◌, refl, ◌&&◌, ◌||◌, Option, none, some, List, [], ◌∷◌,
  arith, ltb, leb, ◌==◌, if◌then◌else◌, All,
}

abbrev Text : Type 0
Text = List ℕ

-- the digit of a value below 64
digit : ℕ → ℕ
digit n =
    if ltb n 26
    then b'A' + n
    else if ltb n 52
    then b'a' + (n - 26)
    else if ltb n 62
    then b'0' + (n - 52)
    else if n == 62
    then b'-'
    else b'_'

value : ℕ → Option ℕ
value c =
    if leb b'A' c && leb c b'Z'
    then some (c - b'A')
    else if leb b'a' c && leb c b'z'
    then some (c - b'a' + 26)
    else if leb b'0' c && leb c b'9'
    then some (c - b'0' + 52)
    else if c == b'-'
    then some 62
    else if c == b'_'
    then some 63
    else none

-- the 6-bit values of a text, the last one filled up with zero bits
sextets : Text → List ℕ
sextets [] = []
sextets (a ∷ []) = (a / 4) ∷ (a % 4 * 16) ∷ []
sextets (a ∷ b ∷ []) = (a / 4) ∷ (a % 4 * 16 + b / 16) ∷ (b % 16 * 4) ∷ []
sextets (a ∷ b ∷ c ∷ rest) =
    (a / 4) ∷ (a % 4 * 16 + b / 16) ∷ (b % 16 * 4 + c / 64) ∷ (c % 64) ∷ sextets rest

spell : List ℕ → Text
unfolding digit
spell [] = []
spell (v ∷ vs) = digit v ∷ spell vs

-- `EncodeToString`
unfoldable pub encode : Text → Text
unfolding sextets spell
encode bs = spell (sextets bs)

-- the decoder steps over line ends wherever they stand
skip_line_ends : Text → Text
skip_line_ends [] = []
skip_line_ends (c ∷ s) =
    let rest = skip_line_ends s in if c == b'\n' || c == b'\r' then rest else c ∷ rest

values : Text → Option (List ℕ)
unfolding value
values [] = some []
values (c ∷ s) = elim (value c) [
  | none ↦ none
  | some v ↦ elim (values s) [ none ↦ none | some vs ↦ some (v ∷ vs) ]
]

groups : List ℕ → Option Text
groups [] = some []
groups (x ∷ []) = none
groups (x ∷ y ∷ []) = some ((x * 4 + y / 16) ∷ [])
groups (x ∷ y ∷ z ∷ []) = some ((x * 4 + y / 16) ∷ (y % 16 * 16 + z / 4) ∷ [])
groups (x ∷ y ∷ z ∷ w ∷ rest) = elim (groups rest) [
  | none ↦ none
  | some bs ↦ some ((x * 4 + y / 16) ∷ (y % 16 * 16 + z / 4) ∷ (z % 4 * 64 + w) ∷ bs)
]

-- `DecodeString`
unfoldable pub decode : Text → Option Text
unfolding skip_line_ends values groups
decode s = elim (values (skip_line_ends s)) [ none ↦ none | some vs ↦ groups vs ]

value-digit : (n : ℕ) → n < 64 → value (digit n) ≡ some n
unfolding value digit
value-digit n h = ground arith

digit-ne_special : (n : ℕ) → (digit n ≢ b'.') × (digit n ≢ b'\n') × (digit n ≢ b'\r')
unfolding digit
digit-ne_special n = ground arith

-- no digit is a separator of the compact serialisation
spell-Lacks : (vs : List ℕ) → All (λ c. c ≢ b'.') (spell vs)
unfolding spell
spell-Lacks [] = tt
spell-Lacks (v ∷ vs) = ((digit-ne_special v).0, spell-Lacks vs)

pub encode-Lacks : (bs : Text) → All (λ c. c ≢ b'.') (encode bs)
encode-Lacks bs = unfold encode in spell-Lacks (sextets bs)

skip_line_ends-spell : (vs : List ℕ) → skip_line_ends (spell vs) ≡ spell vs
unfolding skip_line_ends spell
skip_line_ends-spell [] = refl
skip_line_ends-spell (v ∷ vs) = ground (arith, digit-ne_special v, skip_line_ends-spell vs)

values-spell : (vs : List ℕ) → All (λ v. v < 64) vs → values (spell vs) ≡ some vs
unfolding values spell
values-spell [] h = refl
values-spell (v ∷ vs) h = ground (arith, value-digit v h.0, values-spell vs h.1)

sextets_bound : (bs : Text) → All (λ b. b < 256) bs → All (λ v. v < 64) (sextets bs)
unfolding sextets
sextets_bound [] h = tt
sextets_bound (a ∷ []) h = omega arith
sextets_bound (a ∷ b ∷ []) h = omega arith
sextets_bound (a ∷ b ∷ c ∷ rest) h =
    let (ha, hb, hc) : (a < 256) × (b < 256) × (c < 256) = (h.0, h.1.0, h.1.1.0) in
    (omega arith, (omega arith, (omega arith, (omega arith, sextets_bound rest h.1.1.1))))

groups-sextets : (bs : Text) → All (λ b. b < 256) bs → groups (sextets bs) ≡ some bs
unfolding groups sextets
groups-sextets [] h = refl
groups-sextets (a ∷ []) h = ground arith
groups-sextets (a ∷ b ∷ []) h = ground arith
groups-sextets (a ∷ b ∷ c ∷ rest) h = ground (arith, groups-sextets rest h.1.1.1)

-- What was encoded is decoded to itself.
pub decode-encode : (bs : Text) → All (λ b. b < 256) bs → decode (encode bs) ≡ some bs
unfolding decode encode
decode-encode bs h = cc (
  skip_line_ends-spell (sextets bs),
  values-spell (sextets bs) (sextets_bound bs h),
  groups-sextets bs h,
)

pub encode-eq-nil : (bs : Text) → encode bs ≡ [] → bs ≡ []
unfolding encode sextets spell
encode-eq-nil [] h = refl
encode-eq-nil (a ∷ []) h = cc h
encode-eq-nil (a ∷ b ∷ []) h = cc h
encode-eq-nil (a ∷ b ∷ c ∷ rest) h = cc h

-- Two texts that differ are decoded alike: the unused bits of the last digit are ignored, and so
-- are line ends.
decode_lenient :
    (decode (b'A' ∷ b'B' ∷ []) ≡ some (0 ∷ []))
    × (decode (b'A' ∷ b'\n' ∷ b'A' ∷ []) ≡ some (0 ∷ []))
unfolding decode
decode_lenient = (refl, refl)
