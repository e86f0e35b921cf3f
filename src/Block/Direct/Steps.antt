-- ===== src/Block/Direct/Steps.antt =====
-- jwe_direct_encryptor_block.go and jwe_direct_decryptor_block.go: the steps of a delivery.
use gose.Prelude.{
  ℕ, ◌+◌, ◌^◌, ◌*◌, ◌/◌, ◌%◌, ◌≤◌, ◌<◌, ◌≡◌, refl, sym, ap, ◌∙◌, true, false, not, some, [], ◌++◌,
  eq_iff, ltb, ◌==◌, arith, length, take, drop, take-append-drop, ◌-◌, replicate, take-append_eq,
  length-append, append_assoc,
}
use native.Mathlib.Nat.{div-add-mod'}
use gose.Bytes.{Bytes, bytes_eq_refl}
use gose.Bytes.BigEndian.{to_bytes, from_bytes, from_bytes-to_bytes, length-to_bytes}
use gose.Error.{Result, ok, err, >>=-eq-ok}
use gose.Jose.Types.{max_compact_size}
use gose.Jose.Jwe.{JweRfc7516Compact, HeaderJson, marshal_compact, unmarshal_compact, aad}
use gose.Aead.{max_plaintext_size}
use gose.Block.{BlockMode, AesCbcCryptor, seal, open_blocks, crypt_blocks, get_destination_size}
use gose.Block.Sizes.{take_all, destination, crypt_blocks_made}
use gose.Block.Mac.{compute_hash, verify_compact, uint_to_bytes_big_endian}
use gose.Block.Direct.{
  BlockEncryptor, BlockDecryptor, block_header, tagged, sealed_text, encrypt_with, authenticated,
  declared_plaintext, opened_text, decrypt_checked, decrypt, aes_block_size,
}

-- the length that is declared is the plaintext's, and the padding is cut off
pub declared_back :
    (p rest : Bytes)
    → length p ≤ max_plaintext_size
    → declared_plaintext (some (uint_to_bytes_big_endian (length p))) (p ++ rest) ≡ ok p
unfolding declared_plaintext uint_to_bytes_big_endian
declared_back p rest short =
    let eight = length-to_bytes 8 (length p) in
    let whole = take_all 8 (to_bytes 8 (length p)) (omega (arith, eight)) in
    let fits : length p < 256 ^ 8 = omega (arith, short) in
    let number : from_bytes (to_bytes 8 (length p)) ≡ length p =
      from_bytes-to_bytes 8 (length p) fits in
    let enough : not (ltb (length (to_bytes 8 (length p))) 8) ≡ true = ground (arith, eight) in
    let long : not (ltb (length (p ++ rest)) (length p)) ≡ true =
      ground (arith, length-append p rest) in
    rw (whole, number, enough, long, take-append_eq (length p) p rest refl) refl

open_blocks_aligned :
    {S : Type 0} (c : AesCbcCryptor S) (t : Bytes) (s : S)
    → length t ≤ max_plaintext_size
    → length t % c.block_cipher.block_size ≡ 0
    → open_blocks c t s
      ≡ crypt_blocks c.block_cipher (get_destination_size (length t) c.block_cipher.block_size) t s
unfolding open_blocks get_destination_size crypt_blocks
open_blocks_aligned c t s short whole =
    let within : ltb max_plaintext_size (length t) ≡ false = ground (arith, short) in
    let aligned : (length t % c.block_cipher.block_size == 0) ≡ true = ground (arith, whole) in
    rw (within, aligned) refl

-- an aligned ciphertext is opened to whatever the mode writes, and zeros
pub open_blocks_made :
    {S : Type 0} (c : AesCbcCryptor S) (t : Bytes) (s : S)
    → length t ≤ max_plaintext_size
    → length t % c.block_cipher.block_size ≡ 0
    → ((src : Bytes) → length (c.block_cipher.written src s) ≡ length src)
    → (j : ℕ) × (open_blocks c t s
        ≡ (ok (c.block_cipher.written t s ++ replicate j 0), c.block_cipher.after t s))
open_blocks_made c t s short whole same =
    let b = c.block_cipher.block_size in
    let size = length t / b * b + b in
    let parts = div-add-mod' (length t) b in
    let made =
      crypt_blocks_made c.block_cipher size t s whole (omega (arith, parts, whole)) (same t) in
    (size - length t, rw (open_blocks_aligned c t s short whole, destination (length t) b) made)

-- The mode of the decryptor takes back what the mode of the encryptor does, whatever blocks follow, and
-- both write as many bytes as they read.
pub record Inverse {S : Type 0} (m m' : BlockMode S) (s t : S) : Type 0 where
  pub same_length : (src : Bytes) → length (m.written src s) ≡ length src
  pub same_length_back : (src : Bytes) → length (m'.written src t) ≡ length src
  pub takes_back :
      (src rest : Bytes)
      → length src % m.block_size ≡ 0
      → length (m.written src s ++ rest) % m.block_size ≡ 0
      → take (length src) (m'.written (m.written src s ++ rest) t) ≡ src

-- the plaintext is the start of what the two modes make of it
pub opened_back :
    {S : Type 0} (m m' : BlockMode S) (s t : S) (p : Bytes) (k j i : ℕ)
    → Inverse m m' s t
    → length (p ++ replicate k 0) % m.block_size ≡ 0
    → length (m.written (p ++ replicate k 0) s ++ replicate j 0) % m.block_size ≡ 0
    → (rest : Bytes) × (m'.written (m.written (p ++ replicate k 0) s ++ replicate j 0) t
          ++ replicate i 0
        ≡ p ++ rest)
opened_back m m' s t p k j i inverse whole rest_whole =
    let src = p ++ replicate k 0 in
    let out = m'.written (m.written src s ++ replicate j 0) t in
    let back = inverse.takes_back src (replicate j 0) whole rest_whole in
    let split = take-append-drop (length src) out in
    let parts : out ≡ src ++ drop (length src) out =
      sym split ∙ ap (λ x. x ++ drop (length src) out) back in
    (
      (replicate k 0 ++ drop (length src) out) ++ replicate i 0,
      ap (λ x. x ++ replicate i 0) parts
          ∙ (ap (λ x. x ++ replicate i 0) (append_assoc p (replicate k 0) (drop (length src) out))
              ∙ append_assoc p (replicate k 0 ++ drop (length src) out) (replicate i 0)),
    )

-- what `Encrypt` has done
pub encrypt_steps :
    {S : Type 0} (json : HeaderJson) (e : BlockEncryptor S) (p : Bytes) (s s₁ : S) (text c : Bytes)
    (r : Result Bytes)
    → seal e.aes_key p s ≡ (ok c, s₁)
    → (encrypt_with json e (block_header json e p) p s r).0 ≡ ok text
    → (received : Bytes) × (tag : Bytes) × (r ≡ ok received)
      × (compute_hash e.hmac_key received e.iv c ≡ ok tag)
      × (marshal_compact json (record {
        protected_header = block_header json e p;
        raw_protected_header = [];
        encrypted_key = [];
        initialization_vector = e.iv;
        ciphertext = c;
        authentication_tag = tag;
      })
          ≡ ok text)
unfolding encrypt_with sealed_text tagged
encrypt_steps json e p s s₁ text c (err x) sealed h = cc h
encrypt_steps json e p s s₁ text c (ok received) sealed h =
    let sealed' = ap (λ r. r.0) sealed in
    let h' = rw sealed' at h in
    let (tag, hashed, written) = >>=-eq-ok (compute_hash e.hmac_key received e.iv c) _ h' in
    (received, tag, refl, hashed, written)

-- what passes the checks of `Decrypt`
pub authenticated_made :
    {S : Type 0} (json : HeaderJson) (d : BlockDecryptor S) (text : Bytes) (jwe : JweRfc7516Compact)
    (received : Bytes)
    → length text ≤ max_compact_size
    → unmarshal_compact json text ≡ ok jwe
    → jwe.protected_header.jws.alg ≡ d.aes_key.alg
    → jwe.protected_header.jws.kid ≡ d.aes_key.kid
    → aad json jwe ≡ ok received
    → compute_hash d.hmac_key received jwe.initialization_vector jwe.ciphertext
      ≡ ok jwe.authentication_tag
    → jwe.protected_header.zip ≡ ""
    → length jwe.ciphertext % aes_block_size ≡ 0
    → authenticated json d text ≡ ok jwe
unfolding authenticated verify_compact compute_hash
authenticated_made json d text jwe received short parsed alg kid additional hashed zip whole =
    let within : not (ltb max_compact_size (length text)) ≡ true = ground (arith, short) in
    let alg' = (eq_iff jwe.protected_header.jws.alg d.aes_key.alg).1 alg in
    let kid' = (eq_iff jwe.protected_header.jws.kid d.aes_key.kid).1 kid in
    let zip' = (eq_iff jwe.protected_header.zip "").1 zip in
    let aligned : (length jwe.ciphertext % aes_block_size == 0) ≡ true = ground (arith, whole) in
    rw
      (
        within,
        parsed,
        alg',
        kid',
        additional,
        hashed,
        bytes_eq_refl jwe.authentication_tag,
        zip',
        aligned,
      )
      refl

pub decrypt_made :
    {S : Type 0} (json : HeaderJson) (d : BlockDecryptor S) (text p block : Bytes) (t t' : S)
    (jwe : JweRfc7516Compact)
    → authenticated json d text ≡ ok jwe
    → open_blocks d.aes_key jwe.ciphertext t ≡ (ok block, t')
    → declared_plaintext jwe.protected_header.other_aad block ≡ ok p
    → decrypt json d text t ≡ (ok p, t')
unfolding decrypt decrypt_checked opened_text
decrypt_made json d text p block t t' jwe checked opens declares =
    ap (λ r. decrypt_checked json d t r) checked
    ∙ (ap (λ x. opened_text json jwe x) opens ∙ ap (λ r. (r, t')) declares)
