-- ===== src/Block/Sizes.antt =====
-- aes_cbc_cryptor.go: the sizes of the buffers of `Seal`.
use native.Mathlib.Nat.{mod-lt, mul-mod_left, div-add-mod'}
use gose.Prelude.{
  ℕ, zero, suc, ◌+◌, ◌-◌, ◌*◌, ◌/◌, ◌%◌, ◌≤◌, ◌<◌, ◌≡◌, ◌≢◌, inl, inr, refl, sym, ap, ◌∙◌, true,
  false, [], ◌∷◌, ◌++◌, append-nil, arith, ltb, ◌==◌, Bool-cases, length, take, replicate,
  length-append, length-replicate, if◌then◌else◌,
}
use gose.Bytes.{Bytes}
use gose.Error.{ok}
use gose.Aead.{max_plaintext_size}
use gose.Block.{
  BlockMode, AesCbcCryptor, copied, trim_size, get_destination_size, crypt_blocks, seal,
}

pub take_all : (n : ℕ) (b : Bytes) → length b ≤ n → take n b ≡ b
take_all zero [] h = refl
take_all zero (x ∷ b) h = absurd (omega arith)
take_all (suc n) [] h = refl
take_all (suc n) (x ∷ b) h = ap (λ r. x ∷ r) (take_all n b (omega arith))

copied_within : (n : ℕ) (b : Bytes) → length b ≤ n → copied n b ≡ b ++ replicate (n - length b) 0
unfolding copied
copied_within n b h = rw (take_all n b h) refl

one_more : (q b : ℕ) → (q + 1) * b ≡ q * b + b
one_more q b = grind arith

pub destination : (n b : ℕ) → get_destination_size n b ≡ n / b * b + b
unfolding get_destination_size
destination n b = of_quotient (n / b)
  where
    of_quotient : (m : ℕ) → (if ltb 0 m then m * b + b else b) ≡ m * b + b
    of_quotient zero = grind arith
    of_quotient (suc m) = let some_block : ltb 0 (suc m) ≡ true = ground arith in rw some_block refl

-- what `trimSize` gives is the text with less than a block of zeros
padded :
    (b : ℕ) (p : Bytes)
    → 0 < b
    → length p ≤ max_plaintext_size
    → (k : ℕ) × (q : ℕ) × (trim_size b p ≡ p ++ replicate k 0)
      × (k < b)
      × (length p + k ≡ q * b)
      × (length p + k ≤ length p / b * b + b)
      × (length p / b * b ≤ length p + k)
unfolding trim_size
padded b p pos short =
    let within : ltb max_plaintext_size (length p) ≡ false = ground (arith, short) in
    let parts : length p / b * b + length p % b ≡ length p = div-add-mod' (length p) b in
    let below = mod-lt (length p) pos in
    elim (Bool-cases (length p % b == 0)) [
      | inl e ↦
          let whole : length p % b ≡ 0 = ground (arith, e) in
          (
            0,
            length p / b,
            rw (within, e) (sym (append-nil p)),
            pos,
            omega (arith, parts, whole),
            omega (arith, parts, whole),
            omega (arith, parts),
          )
      | inr e ↦
          let not_whole : length p % b ≢ 0 = ground (arith, e) in
          let more = one_more (length p / b) b in
          let fits : length p ≤ (length p / b + 1) * b = omega (arith, parts, below, more) in
          (
            (length p / b + 1) * b - length p,
            length p / b + 1,
            rw (within, e) (copied_within ((length p / b + 1) * b) p fits),
            omega (arith, parts, below, more, not_whole),
            omega (arith, parts, below, more),
            omega (arith, parts, below, more),
            omega (arith, parts, below, more),
          )
    ]

-- a whole number of blocks, written to a buffer that is large enough
pub crypt_blocks_made :
    {S : Type 0} (mode : BlockMode S) (size : ℕ) (src : Bytes) (s : S)
    → length src % mode.block_size ≡ 0
    → length src ≤ size
    → length (mode.written src s) ≡ length src
    → crypt_blocks mode size src s
      ≡ (ok (mode.written src s ++ replicate (size - length src) 0), mode.after src s)
unfolding crypt_blocks
crypt_blocks_made mode size src s whole fits same =
    let whole' : (length src % mode.block_size == 0) ≡ true = ground (arith, whole) in
    let fits' : ltb size (length src) ≡ false = ground (arith, fits) in
    rw (whole', fits', copied_within size (mode.written src s) (omega (arith, same, fits)), same)
      refl

seal_within :
    {S : Type 0} (c : AesCbcCryptor S) (p : Bytes) (s : S)
    → length p ≤ max_plaintext_size
    → seal c p s
      ≡ crypt_blocks c.block_cipher
          (get_destination_size (length p) c.block_cipher.block_size)
          (trim_size c.block_cipher.block_size p)
          s
unfolding seal trim_size get_destination_size crypt_blocks
seal_within c p s short =
    let within : ltb max_plaintext_size (length p) ≡ false = ground (arith, short) in rw within refl

-- For a plaintext within the bound, `Seal` does not panic if the block size is positive and the mode
-- writes as many bytes as it reads. It encrypts the plaintext and, after it, less than a block of
-- zeros to whole blocks, and appends at most a block of zeros to what the mode has written. The
-- ciphertext has one block more than the plaintext has full blocks.
pub seal-Fits :
    {S : Type 0} (c : AesCbcCryptor S) (p : Bytes) (s : S)
    → 0 < c.block_cipher.block_size
    → ((src : Bytes) → length (c.block_cipher.written src s) ≡ length src)
    → length p ≤ max_plaintext_size
    → (k : ℕ) × (j : ℕ) × (seal c p s ≡ (
      ok (c.block_cipher.written (p ++ replicate k 0) s ++ replicate j 0),
      c.block_cipher.after (p ++ replicate k 0) s,
    ))
      × (k < c.block_cipher.block_size)
      × (j ≤ c.block_cipher.block_size)
      × (length (p ++ replicate k 0) % c.block_cipher.block_size ≡ 0)
      × (length (c.block_cipher.written (p ++ replicate k 0) s ++ replicate j 0)
          ≡ (length p / c.block_cipher.block_size + 1) * c.block_cipher.block_size)
seal-Fits c p s pos same short =
    let mode = c.block_cipher in
    let b = mode.block_size in
    let (k, q, trimmed, small, blocks, upper, lower) = padded b p pos short in
    let size = length p / b * b + b in
    let src = p ++ replicate k 0 in
    let long : length src ≡ length p + k =
      length-append p (replicate k 0) ∙ ap (λ x. length p + x) (length-replicate {A = ℕ} k 0) in
    let whole : length src % b ≡ 0 = rw (long, blocks) (mul-mod_left q b) in
    let fits : length src ≤ size = omega (arith, long, upper) in
    let made = crypt_blocks_made mode size src s whole fits (same src) in
    let j = size - length src in
    let total : length (mode.written src s ++ replicate j 0) ≡ (length p / b + 1) * b = omega (
      arith,
      length-append (mode.written src s) (replicate j 0),
      length-replicate {A = ℕ} j 0,
      same src,
      one_more (length p / b) b,
      fits,
    ) in
    (
      k,
      j,
      rw (seal_within c p s short, destination (length p) b, trimmed) made,
      small,
      omega (arith, long, lower),
      whole,
      total,
    )
