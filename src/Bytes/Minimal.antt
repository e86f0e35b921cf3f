-- ===== src/Bytes/Minimal.antt =====
-- The shortest big-endian bytes of a number (`big.Int.Bytes`), the bytes of a fixed length made from
-- them (`FillBytes`), and the lower-case hexadecimal digits of `fmt.Sprintf("%x", …)`.
use Prim.Native.Char.{Char, code}
use native.Mathlib.Nat.{pow-suc}
use gose.Prelude.{
  ℕ, zero, suc, ◌+◌, ◌-◌, ◌/◌, ◌%◌, ◌^◌, ◌≤◌, ◌<◌, ◌≡◌, refl, ap, ◌∙◌, true, false, List, [], ◌∷◌,
  ◌++◌, String, arith, leb, if◌then◌else◌, ◌==◌, Bool-cases, inl, inr, length, length-append,
  replicate, length-replicate, All, All-append,
}
use gose.Bytes.BigEndian.{from_bytes, from_bytes-concat}
use gose.Error.{Result, ok, err, panics}

abbrev Text : Type 0
Text = List ℕ

-- the digits that are left, on fuel; the number itself is fuel enough
big_bytes_within : ℕ → ℕ → Text
big_bytes_within zero n = []
big_bytes_within (suc fuel) n = elim (n == 0) [
  | true ↦ []
  | false ↦ big_bytes_within fuel (n / 256) ++ n % 256 ∷ []
]

-- `n.Bytes()`
unfoldable pub big_bytes : ℕ → Text
unfolding big_bytes_within
big_bytes n = big_bytes_within n n

-- `copy(make([]byte, size)[size-len(b):], b)`, where an index below 0 panics
unfoldable pub left_padded : ℕ → Text → Result Text
left_padded size b = elim (leb (length b) size) [
  | true ↦ ok (replicate (size - length b) 0 ++ b)
  | false ↦ err (panics "slice bounds out of range")
]

within-zero : (fuel : ℕ) → big_bytes_within fuel 0 ≡ []
unfolding big_bytes_within
within-zero zero = refl
within-zero (suc fuel) = refl

within-suc :
    (fuel n : ℕ)
    → 0 < n
    → big_bytes_within (suc fuel) n ≡ big_bytes_within fuel (n / 256) ++ n % 256 ∷ []
unfolding big_bytes_within
within-suc fuel n h = let e : (n == 0) ≡ false = ground arith in rw (big_bytes_within, e) refl

from_bytes-within : (fuel n : ℕ) → n ≤ fuel → from_bytes (big_bytes_within fuel n) ≡ n
from_bytes-within zero n h = unfold from_bytes big_bytes_within in omega (arith, h)
from_bytes-within (suc fuel) zero h = rw (within-zero (suc fuel)) (unfold from_bytes in refl)
from_bytes-within (suc fuel) (suc n) h =
    rw
      (
        within-suc fuel (suc n) (omega arith),
        from_bytes-concat (big_bytes_within fuel (suc n / 256)) (suc n % 256),
        from_bytes-within fuel (suc n / 256) (omega (arith, h)),
      )
      (omega arith)

-- A number is read back from its bytes.
pub from_bytes-big_bytes : (n : ℕ) → from_bytes (big_bytes n) ≡ n
from_bytes-big_bytes n = unfold big_bytes in from_bytes-within n n (omega arith)

within-IsBytes : (fuel n : ℕ) → All (λ b. b < 256) (big_bytes_within fuel n)
within-IsBytes zero n = unfold big_bytes_within in tt
within-IsBytes (suc fuel) zero = rw (within-zero (suc fuel)) tt
within-IsBytes (suc fuel) (suc n) = rw (within-suc fuel (suc n) (omega arith)) (
    All-append _ (big_bytes_within fuel (suc n / 256)) (suc n % 256 ∷ [])
      (within-IsBytes fuel (suc n / 256)) (omega arith))

pub big_bytes-IsBytes : (n : ℕ) → All (λ b. b < 256) (big_bytes n)
big_bytes-IsBytes n = unfold big_bytes in within-IsBytes n n

pub big_bytes_injective : (m n : ℕ) → big_bytes m ≡ big_bytes n → m ≡ n
big_bytes_injective m n h = cc (from_bytes-big_bytes m, from_bytes-big_bytes n, ap from_bytes h)

within_length : (fuel n k : ℕ) → n < 256 ^ k → length (big_bytes_within fuel n) ≤ k
within_length zero n k h = unfold big_bytes_within in omega arith
within_length (suc fuel) zero k h = rw (within-zero (suc fuel)) (omega arith)
within_length (suc fuel) (suc n) zero h = absurd (omega (arith, h))
within_length (suc fuel) (suc n) (suc k) h =
    let fits : suc n / 256 < 256 ^ k = omega (arith, pow-suc 256 k, h) in
    rw (within-suc fuel (suc n) (omega arith)) (
      omega (
        arith,
        length-append (big_bytes_within fuel (suc n / 256)) (suc n % 256 ∷ []),
        within_length fuel (suc n / 256) k fits,
      ))

-- A number below 256 ^ k has at most k bytes.
pub length-big_bytes_le : (n k : ℕ) → n < 256 ^ k → length (big_bytes n) ≤ k
length-big_bytes_le n k h = unfold big_bytes in within_length n n k h

from_bytes-zeros : (k : ℕ) (b : Text) → from_bytes (replicate k 0 ++ b) ≡ from_bytes b
unfolding from_bytes
from_bytes-zeros zero b = refl
from_bytes-zeros (suc k) b = from_bytes-zeros k b

-- Padding keeps the number, and gives the wanted length.
pub left_padded-big_bytes :
    (size n : ℕ)
    → n < 256 ^ size
    → (b : Text) × (left_padded size (big_bytes n) ≡ ok b) × (length b ≡ size) × (from_bytes b ≡ n)
unfolding left_padded
left_padded-big_bytes size n h =
    let fits = length-big_bytes_le n size h in
    let e : leb (length (big_bytes n)) size ≡ true = ground (arith, fits) in
    let zeros = size - length (big_bytes n) in
    (
      replicate zeros 0 ++ big_bytes n,
      rw (left_padded, e) refl,
      omega (
        arith,
        fits,
        length-append (replicate zeros 0) (big_bytes n),
        length-replicate {A = ℕ} zeros 0,
      ),
      from_bytes-zeros zeros (big_bytes n) ∙ from_bytes-big_bytes n,
    )

zeros-IsBytes : (k : ℕ) → All (λ b. b < 256) (replicate k 0)
zeros-IsBytes zero = tt
zeros-IsBytes (suc k) = (omega arith, zeros-IsBytes k)

pub left_padded-IsBytes :
    (size : ℕ) (b out : Text)
    → All (λ c. c < 256) b
    → left_padded size b ≡ ok out
    → All (λ c. c < 256) out
unfolding left_padded
left_padded-IsBytes size b out hb h = elim (Bool-cases (leb (length b) size)) [
  | inl e ↦
      let h' : ok (replicate (size - length b) 0 ++ b) ≡ ok out = rw (left_padded, e) at h in
      let whole : out ≡ replicate (size - length b) 0 ++ b = cc h' in
      rw whole (All-append _ (replicate (size - length b) 0) b (zeros-IsBytes (size - length b)) hb)
  | inr e ↦
      let h' : err (panics "slice bounds out of range") ≡ ok out = rw (left_padded, e) at h in cc h'
]

char_at : String → ℕ → Char
char_at String.[] n = "?"
char_at (String.◌∷◌ c s) zero = c
char_at (String.◌∷◌ c s) (suc n) = char_at s n

hex_digit : ℕ → Char
unfolding char_at
hex_digit n = char_at "0123456789abcdef" n

-- `fmt.Sprintf("%x", b)`
unfoldable pub hex : Text → String
unfolding hex_digit
hex [] = ""
hex (b ∷ bs) = String.◌∷◌ (hex_digit (b / 16)) (String.◌∷◌ (hex_digit (b % 16)) (hex bs))

rest_of : String → String
rest_of String.[] = ""
rest_of (String.◌∷◌ c s) = s

-- the number of a hexadecimal digit
hex_value : ℕ → ℕ
hex_value c = if leb c b'9' then c - b'0' else c - b'a' + 10

hex_value-hex_digit : (n : ℕ) → n < 16 → hex_value (code (hex_digit n)) ≡ n
unfolding hex_value hex_digit
hex_value-hex_digit zero h = refl
hex_value-hex_digit (suc zero) h = refl
hex_value-hex_digit (suc (suc zero)) h = refl
hex_value-hex_digit (suc (suc (suc zero))) h = refl
hex_value-hex_digit (suc (suc (suc (suc zero)))) h = refl
hex_value-hex_digit (suc (suc (suc (suc (suc zero))))) h = refl
hex_value-hex_digit (suc (suc (suc (suc (suc (suc zero)))))) h = refl
hex_value-hex_digit (suc (suc (suc (suc (suc (suc (suc zero))))))) h = refl
hex_value-hex_digit (suc (suc (suc (suc (suc (suc (suc (suc zero)))))))) h = refl
hex_value-hex_digit (suc (suc (suc (suc (suc (suc (suc (suc (suc zero))))))))) h = refl
hex_value-hex_digit (suc (suc (suc (suc (suc (suc (suc (suc (suc (suc zero)))))))))) h = refl
hex_value-hex_digit (suc (suc (suc (suc (suc (suc (suc (suc (suc (suc (suc zero))))))))))) h = refl
hex_value-hex_digit (suc (suc (suc (suc (suc (suc (suc (suc (suc (suc (suc (suc zero)))))))))))) h =
    refl
hex_value-hex_digit
      (suc (suc (suc (suc (suc (suc (suc (suc (suc (suc (suc (suc (suc zero))))))))))))) h =
    refl
hex_value-hex_digit
      (suc (suc (suc (suc (suc (suc (suc (suc (suc (suc (suc (suc (suc (suc zero)))))))))))))) h =
    refl
hex_value-hex_digit
      (suc (suc (suc (suc (suc (suc (suc (suc (suc (suc (suc (suc (suc (suc (suc zero)))))))))))))))
      h =
    refl
hex_value-hex_digit
      (suc
        (suc (suc (suc (suc (suc (suc (suc (suc (suc (suc (suc (suc (suc (suc (suc n))))))))))))))))
      h =
    absurd (omega (arith, h))

-- Byte strings with the same hexadecimal digits are equal.
pub hex_injective :
    (s t : Text) → All (λ b. b < 256) s → All (λ b. b < 256) t → hex s ≡ hex t → s ≡ t
unfolding hex rest_of
hex_injective [] [] hs ht h = refl
hex_injective [] (b ∷ t) hs ht h = cc h
hex_injective (a ∷ s) [] hs ht h = cc h
hex_injective (a ∷ s) (b ∷ t) hs ht h =
    let high : a / 16 ≡ b / 16 = cc (
      hex_value-hex_digit (a / 16) (omega (arith, hs.0)),
      hex_value-hex_digit (b / 16) (omega (arith, ht.0)),
    ) in
    let low : a % 16 ≡ b % 16 =
      cc (hex_value-hex_digit (a % 16) (omega arith), hex_value-hex_digit (b % 16) (omega arith)) in
    let tails : hex s ≡ hex t = ap (λ u. rest_of (rest_of u)) h in
    let same : a ≡ b = omega (arith, high, low) in cc (same, hex_injective s t hs.1 ht.1 tails)
