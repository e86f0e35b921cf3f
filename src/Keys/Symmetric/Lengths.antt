-- ===== src/Keys/Symmetric/Lengths.antt =====
-- helpers.go: the length of a symmetric key is bound to its algorithm, and a key comes back from its
-- JWK.
use gose.Prelude.{
  ℕ, ◌≡◌, ◌⊎◌, inl, inr, refl, String, true, false, not, none, some, List, [], ◌∷◌, get, arith,
  length, eq_iff, str_eq, Bool-cases, Option-cases, ◌||◌,
}
use gose.Bytes.{Bytes}
use gose.Error.{
  Result, ok, err, require, gose_error, GoseError, guard->>-eq-ok, >>=-eq-ok, invalid_key_type,
  invalid_operations, invalid_key_length,
}
use gose.Crypto.{Crypto}
use gose.Jose.Types.{
  Alg, KeyOps, alg_a128gcm, alg_a192gcm, alg_a256gcm, key_ops_sign, key_ops_verify, key_ops_encrypt,
  key_ops_decrypt,
}
use gose.Jose.Jwk.{
  Jwk, JwkFields, oct_secret, public_rsa, private_rsa, public_ec, private_ec, ops, alg, kid,
}
use gose.KeyOps.{intersection}
use gose.Aead.{CipherAead}
use gose.Keys.Load.{lacks_required}
use gose.Keys.Identity.{calculate_key_id}
use gose.Keys.Convert.{no_fields}
use gose.Keys.Symmetric.{
  SymmetricAlgInfo, symmetric_alg, length_out_of_range, default_ops, oct_bytes,
  load_symmetric_bytes, jwk_from_symmetric, load_symmetric_aead, new_aes_gcm_cryptor_from_jwk,
}

-- the algorithms and the lengths of their keys
abbrev pub FitsAlg : Alg → ℕ → Type 0
FitsAlg a n =
    ((a ≡ alg_a128gcm) × (n ≡ 16)) ⊎ ((a ≡ alg_a192gcm) × (n ≡ 24)) ⊎ ((a ≡ alg_a256gcm) × (n ≡ 32))

-- an entry of the table
abbrev Entry : Alg → SymmetricAlgInfo → Type 0
Entry a info =
    (default_ops info ≡ key_ops_encrypt ∷ key_ops_decrypt ∷ key_ops_sign ∷ key_ops_verify ∷ [])
    × ((key : Bytes) → not (length_out_of_range info key) ≡ true → FitsAlg a (length key))

-- an entry with one length
exact_lengths :
    (a : Alg) (n : ℕ) (info : SymmetricAlgInfo)
    → info ≡ record { min_len = n; max_len = n; confidentiality = true; integrity = true }
    → FitsAlg a n
    → Entry a info
unfolding default_ops length_out_of_range
exact_lengths a n info e fits =
    let (low, high) : (info.min_len ≡ n) × (info.max_len ≡ n) = (cc e, cc e) in
    (rw e refl, (λ key h. let same : length key ≡ n = ground (arith, h, low, high) in rw same fits))

table_lengths : (a : Alg) (info : SymmetricAlgInfo) → symmetric_alg a ≡ some info → Entry a info
unfolding symmetric_alg get
table_lengths a info h = elim (Bool-cases (str_eq alg_a128gcm a)) [
  | inl e ↦
      let h' = rw e at h in
      exact_lengths a 16 info (cc h') (inl (cc ((eq_iff alg_a128gcm a).0 e), refl))
  | inr e ↦
      let h₁ = rw e at h in
      elim (Bool-cases (str_eq alg_a192gcm a)) [
        | inl f ↦
            let h₂ = rw f at h₁ in
            exact_lengths a 24 info (cc h₂) (inr (inl (cc ((eq_iff alg_a192gcm a).0 f), refl)))
        | inr f ↦
            let h₂ = rw f at h₁ in
            elim (Bool-cases (str_eq alg_a256gcm a)) [
              | inl g ↦
                  let h₃ = rw g at h₂ in
                  exact_lengths a 32 info (cc h₃)
                    (inr (inr (cc ((eq_iff alg_a256gcm a).0 g), refl)))
              | inr g ↦ let h₃ : none ≡ some info = rw g at h₂ in cc h₃
            ]
      ]
]

require-eq-ok :
    (a : Alg) (e : GoseError) (info : SymmetricAlgInfo)
    → require (symmetric_alg a) (gose_error e) ≡ ok info
    → symmetric_alg a ≡ some info
require-eq-ok a e info h = elim (Option-cases (symmetric_alg a)) [
  | inl f ↦ let h' : err (gose_error e) ≡ ok info = rw f at h in cc h'
  | inr (i, f) ↦ let h' : ok i ≡ ok info = rw f at h in cc (f, h')
]

oct_bytes_sound :
    (info : SymmetricAlgInfo) (jwk : Jwk) (key : Bytes)
    → oct_bytes info jwk ≡ ok key
    → (j : JwkFields) × (jwk ≡ oct_secret j key) × (not (length_out_of_range info key) ≡ true)
unfolding oct_bytes
oct_bytes_sound info (oct_secret j k) key h =
    let (e, r) =
      guard->>-eq-ok (not (length_out_of_range info k)) (gose_error invalid_key_length) (ok k) h in
    let same : k ≡ key = cc r in (j, cc same, rw same at e)
oct_bytes_sound info (public_rsa j k) key h = cc h
oct_bytes_sound info (private_rsa j k s) key h = cc h
oct_bytes_sound info (public_ec j k) key h = cc h
oct_bytes_sound info (private_ec j k d) key h = cc h

-- The bytes that `loadSymmetricBytes` gives are those of a symmetric JWK whose algorithm is one of
-- the three AES-GCM algorithms, and they have the length of that algorithm: 16, 24 or 32 bytes.
pub load_symmetric_bytes-FitsAlg :
    (jwk : Jwk) (required : List KeyOps) (key : Bytes)
    → load_symmetric_bytes jwk required ≡ ok key
    → (j : JwkFields) × (jwk ≡ oct_secret j key) × FitsAlg (alg jwk) (length key)
unfolding load_symmetric_bytes
load_symmetric_bytes-FitsAlg jwk required key h =
    let (info, e, r) =
      >>=-eq-ok (require (symmetric_alg (alg jwk)) (gose_error invalid_key_type)) _ h in
    let (held, r') =
      guard->>-eq-ok (not (lacks_required (ops jwk) required)) (gose_error invalid_operations) _
        r in
    let (j, shape, fits) = oct_bytes_sound info jwk key r' in
    let entry = table_lengths (alg jwk) info (require-eq-ok (alg jwk) invalid_key_type info e) in
    (j, shape, entry.1 key fits)

abbrev four_ops : List KeyOps
four_ops = key_ops_encrypt ∷ key_ops_decrypt ∷ key_ops_sign ∷ key_ops_verify ∷ []

known_alg :
    (a : Alg) (n : ℕ)
    → FitsAlg a n
    → (str_eq a alg_a128gcm || str_eq a alg_a192gcm || str_eq a alg_a256gcm) ≡ true
known_alg a n (inl (e, _)) = rw e refl
known_alg a n (inr (inl (e, _))) = rw e refl
known_alg a n (inr (inr (e, _))) = rw e refl

-- the loaders on a JWK with the default operations
loads :
    (gcm : Bytes → Result CipherAead) (info : SymmetricAlgInfo) (a : Alg) (id : String)
    (key : Bytes) (jwk : Jwk) (required : List KeyOps) (aead : CipherAead)
    → symmetric_alg a ≡ some info
    → not (length_out_of_range info key) ≡ true
    → FitsAlg a (length key)
    → jwk ≡ oct_secret (record no_fields { key_alg = a; key_ops = four_ops; key_kid = id }) key
    → lacks_required four_ops required ≡ false
    → gcm key ≡ ok aead
    → (load_symmetric_bytes jwk required ≡ ok key)
      × (new_aes_gcm_cryptor_from_jwk gcm jwk required
          ≡ ok (record { kid = kid jwk; alg = a; aead = aead; opts = four_ops }))
unfolding load_symmetric_bytes new_aes_gcm_cryptor_from_jwk load_symmetric_aead oct_bytes
    intersection
loads gcm info a id key jwk required aead found fits fitting shape held made =
    let known = known_alg a (length key) fitting in
    (rw (shape, found, held, fits) refl, rw (shape, found, held, fits, known, made) refl)

-- A key comes back from the JWK that `JwkFromSymmetric` makes of it, and AES-GCM under it gives a
-- cryptor with the algorithm and the key ID of the JWK that may encrypt, decrypt, sign and verify,
-- if no other operation is required.
pub load_symmetric_bytes-jwk_from_symmetric :
    (crypto : Crypto) (gcm : Bytes → Result CipherAead) (key : Bytes) (a : Alg) (jwk : Jwk)
    (required : List KeyOps) (aead : CipherAead)
    → jwk_from_symmetric crypto key a ≡ ok jwk
    → lacks_required four_ops required ≡ false
    → gcm key ≡ ok aead
    → (load_symmetric_bytes jwk required ≡ ok key)
      × (new_aes_gcm_cryptor_from_jwk gcm jwk required
          ≡ ok (record { kid = kid jwk; alg = a; aead = aead; opts = four_ops }))
unfolding jwk_from_symmetric
load_symmetric_bytes-jwk_from_symmetric crypto gcm key a jwk required aead h held made =
    let (info, e, r) =
      >>=-eq-ok (require (symmetric_alg a) (gose_error GoseError.unsupported_key_type)) _ h in
    let (fits, r') =
      guard->>-eq-ok (not (length_out_of_range info key)) (gose_error invalid_key_length) _ r in
    let (id, _, r'') =
      >>=-eq-ok
        (calculate_key_id crypto
          (oct_secret (record no_fields { key_alg = a; key_ops = default_ops info }) key))
        _ r' in
    let found = require-eq-ok a GoseError.unsupported_key_type info e in
    let (ops_eq, fitting) = table_lengths a info found in
    let shape : jwk
        ≡ oct_secret (record no_fields { key_alg = a; key_ops = four_ops; key_kid = id }) key =
      cc (r'', ops_eq) in
    loads gcm info a id key jwk required aead found fits (fitting key fits) shape held made
