-- ===== src/Aead/Gates.antt =====
-- What must hold of a call of the cryptor that succeeds.
use gose.Prelude.{
  ◌≤◌, ◌≡◌, ◌↔◌, ◌⊎◌, inl, inr, refl, Bool-cases, true, not, Option, none, some, arith, ltb, ◌==◌,
  length, ◌++◌, take-append-drop, length-take,
}
use gose.Bytes.{Bytes}
use gose.Error.{Result, ok, guard->>-eq-ok}
use gose.Jose.Types.{KeyOps}
use gose.KeyOps.{permits, valid_decryption_ops}
use gose.Aead.{
  CipherAead, returned, AesGcmCryptor, gcm_open, gcm_seal, sealed_size, max_plaintext_size,
}
use gose.Aead.RoundTrip.{gcm_seal-WasSealed}

-- the conditions under which the cipher itself is asked, and its answer
pub record IsOpened (key : AesGcmCryptor) (op : KeyOps) (n c a t p : Bytes) : Type 0 where
  pub allowed : permits valid_decryption_ops key.opts op ≡ true
  pub short : length c ≤ max_plaintext_size
  pub nonce_fits : length n ≡ key.aead.nonce_size
  pub tag_fits : length t ≡ key.aead.overhead
  pub opened : key.aead.open_with n (c ++ t) a ≡ ok p

gcm_open-IsOpened :
    (key : AesGcmCryptor) (op : KeyOps) (n c a t p : Bytes)
    → gcm_open key op n c a t ≡ ok p
    → IsOpened key op n c a t p
unfolding gcm_open
gcm_open-IsOpened key op n c a t p h =
    let (allowed, h₁) = guard->>-eq-ok (permits valid_decryption_ops key.opts op) _ _ h in
    let (short, h₂) = guard->>-eq-ok (not (ltb max_plaintext_size (length c))) _ _ h₁ in
    let (fits, h₃) = guard->>-eq-ok (length n == key.aead.nonce_size) _ _ h₂ in
    let (tag, h₄) = guard->>-eq-ok (length t == key.aead.overhead) _ _ h₃ in
    record {
      allowed = allowed;
      short = ground (arith, short);
      nonce_fits = ground (arith, fits);
      tag_fits = ground (arith, tag);
      opened = h₄;
    }

-- the sizes with which the cipher may be asked
abbrev pub HasSizes : AesGcmCryptor → Bytes → Bytes → Bytes → Type 0
HasSizes key n c t =
    (length n ≡ key.aead.nonce_size)
    × (length t ≡ key.aead.overhead)
    × (length c ≤ max_plaintext_size)

-- the same key, with another way to open
abbrev pub opening_by : (Bytes → Bytes → Bytes → Result Bytes) → AesGcmCryptor → AesGcmCryptor
opening_by other key = record key { aead = record (key.aead) { open_with = other } }

sizes_or_unasked :
    (key : AesGcmCryptor) (op : KeyOps) (n c a t : Bytes)
    (other : Bytes → Bytes → Bytes → Result Bytes)
    → HasSizes key n c t ⊎ (gcm_open key op n c a t ≡ gcm_open (opening_by other key) op n c a t)
unfolding gcm_open
sizes_or_unasked key op n c a t other = elim (Bool-cases (ltb max_plaintext_size (length c))) [
  | inl long ↦ inr (rw long refl)
  | inr short ↦ elim (Bool-cases (length n == key.aead.nonce_size)) [
    | inr misfit ↦ inr (rw (short, misfit) refl)
    | inl fits ↦ elim (Bool-cases (length t == key.aead.overhead)) [
      | inr misfit ↦ inr (rw (short, fits, misfit) refl)
      | inl tag ↦ inl (ground (arith, fits), ground (arith, tag), ground (arith, short))
    ]
  ]
]

IsOpened-gcm_open :
    (key : AesGcmCryptor) (op : KeyOps) (n c a t p : Bytes)
    → IsOpened key op n c a t p
    → gcm_open key op n c a t ≡ ok p
unfolding gcm_open
IsOpened-gcm_open key op n c a t p o =
    ground (arith, o.allowed, o.short, o.nonce_fits, o.tag_fits, o.opened)

-- `Open` returns a plaintext exactly when the operation is permitted, the ciphertext is within the
-- bound, nonce and tag have the cipher's sizes, and the cipher authenticates ciphertext and tag
-- under them as that plaintext. If the nonce, the tag or the ciphertext is not of a permitted size,
-- the result is the same whatever the cipher would do when it opens: it is not asked.
pub gcm_open_iff :
    (key : AesGcmCryptor) (op : KeyOps) (n c a t p : Bytes)
    (other : Bytes → Bytes → Bytes → Result Bytes)
    → ((gcm_open key op n c a t ≡ ok p) ↔ IsOpened key op n c a t p)
      × (HasSizes key n c t
          ⊎ (gcm_open key op n c a t ≡ gcm_open (opening_by other key) op n c a t))
gcm_open_iff key op n c a t p other = (
  (gcm_open-IsOpened key op n c a t p, IsOpened-gcm_open key op n c a t p),
  sizes_or_unasked key op n c a t other,
)

size-covers :
    (aead : CipherAead) (used : Option Bytes) (p : Bytes) → length p ≤ sealed_size aead used p
unfolding sealed_size
size-covers aead none p = omega arith
size-covers aead (some n) p = omega arith

-- `Seal` splits the output of the cipher and loses nothing: ciphertext and tag together are what the
-- cipher returned for nonce, plaintext and additional data, the ciphertext is as long as the
-- plaintext, and the whole has the length that the cipher announced, the nonce's included where the
-- cipher makes it.
pub gcm_seal-split :
    (key : AesGcmCryptor) (op : KeyOps) (nonce : Option Bytes) (p a c t : Bytes)
    → gcm_seal key op nonce p a ≡ ok (c, t)
    → (key.aead.seal_with nonce p a ≡ returned (c ++ t))
      × (length c ≡ length p)
      × (length (c ++ t) ≡ sealed_size key.aead nonce p)
gcm_seal-split key op used p a c t h =
    let w = gcm_seal-WasSealed key op used p a c t h in
    let whole : c ++ t ≡ w.whole = rw (w.text, w.rest) (take-append-drop (length p) w.whole) in
    let enough : length p ≤ sealed_size key.aead used p = size-covers key.aead used p in
    (
      rw whole (w.made),
      rw (w.text) (omega (arith, length-take (length p) w.whole, w.sized, enough)),
      rw whole (w.sized),
    )
