-- ===== src/Bytes/BigEndian.antt =====
-- `binary.BigEndian` on 64-bit values, and the big-endian bytes of unbounded numbers
-- (`big.Int.Bytes`, `SetBytes`, `FillBytes`).
use native.Mathlib.Nat.{pow-suc}
use gose.Prelude.{
  ℕ, zero, suc, ◌+◌, ◌*◌, ◌/◌, ◌%◌, ◌^◌, ◌<◌, ◌≡◌, refl, List, [], ◌∷◌, ◌++◌, arith, length,
  length-append, All, All-append,
}

abbrev Text : Type 0
Text = List ℕ

-- the low `k` bytes of `n`, most significant first
unfoldable pub to_bytes : ℕ → ℕ → Text
to_bytes zero n = []
to_bytes (suc k) n = to_bytes k (n / 256) ++ n % 256 ∷ []

from_bytes_onto : ℕ → Text → ℕ
from_bytes_onto acc [] = acc
from_bytes_onto acc (b ∷ bs) = from_bytes_onto (acc * 256 + b) bs

-- `new(big.Int).SetBytes(bs)`
unfoldable pub from_bytes : Text → ℕ
unfolding from_bytes_onto
from_bytes bs = from_bytes_onto 0 bs

pub length-to_bytes : (k n : ℕ) → length (to_bytes k n) ≡ k
unfolding to_bytes
length-to_bytes zero n = refl
length-to_bytes (suc k) n =
    omega (arith, length-append (to_bytes k (n / 256)) (n % 256 ∷ []), length-to_bytes k (n / 256))

pub to_bytes-IsBytes : (k n : ℕ) → All (λ b. b < 256) (to_bytes k n)
unfolding to_bytes
to_bytes-IsBytes zero n = tt
to_bytes-IsBytes (suc k) n =
    All-append _ (to_bytes k (n / 256)) (n % 256 ∷ []) (to_bytes-IsBytes k (n / 256)) (omega arith)

from_bytes_onto-append :
    (acc : ℕ) (s t : Text)
    → from_bytes_onto acc (s ++ t) ≡ from_bytes_onto (from_bytes_onto acc s) t
unfolding from_bytes_onto
from_bytes_onto-append acc [] t = refl
from_bytes_onto-append acc (b ∷ s) t = from_bytes_onto-append (acc * 256 + b) s t

pub from_bytes-concat : (s : Text) (b : ℕ) → from_bytes (s ++ b ∷ []) ≡ from_bytes s * 256 + b
unfolding from_bytes
from_bytes-concat s b = from_bytes_onto-append 0 s (b ∷ [])

-- A number that fits in `k` bytes is read back from them.
pub from_bytes-to_bytes : (k n : ℕ) → n < 256 ^ k → from_bytes (to_bytes k n) ≡ n
unfolding to_bytes
from_bytes-to_bytes zero n h = unfold from_bytes in omega arith
from_bytes-to_bytes (suc k) n h =
    let fits : n / 256 < 256 ^ k = omega (arith, pow-suc 256 k) in
    rw (from_bytes-concat (to_bytes k (n / 256)) (n % 256), from_bytes-to_bytes k (n / 256) fits)
      (omega arith)
