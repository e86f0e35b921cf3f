-- ===== src/Keys/Generator.antt =====
-- key_generator.go. The generators of crypto/rsa, crypto/ecdsa and crypto/rand are a parameter.
pub mod Curves
use gose.Prelude.{
  ℕ, ◌≤◌, ◌≡◌, refl, ◌∙◌, ap, Bool, true, not, Dict, get, Option, none, some, List, [], ◌∷◌, ltb,
  arith,
}
use gose.Bytes.{Bytes}
use gose.Error.{
  Result, ok, guard, require, ◌>>=◌, ◌>>◌, >>=-eq-ok, guard->>-eq-ok, gose_error, GoseError,
  invalid_key_size,
}
use gose.Crypto.{curve_name, Crypto, Curve, p256, p384, p521, RsaPrivateKey, EcPrivateKey}
use gose.Jose.Types.{
  Alg, KeyOps, alg_rs256, alg_rs384, alg_rs512, alg_ps256, alg_ps384, alg_ps512, alg_es256,
  alg_es384, alg_es512, alg_a128gcm, alg_a192gcm, alg_a256gcm, alg_rsa_oaep, alg_rsa_oaep_sha2,
}
use gose.Jose.Jwk
use gose.Jose.Jwk.{
  PublicEcKeyFields, Jwk, public_rsa, private_rsa, public_ec, private_ec, oct_secret, set_alg,
  set_ops,
}
use gose.Aead.{CipherAead, AesGcmCryptor}
use gose.Keys.Load.{rsa_signer, ecdsa_signer, is_listed}
use gose.Keys.Convert.{with_certs, jwk_of_signer, jwk_from_private_key}
use gose.Keys.Symmetric.{jwk_from_symmetric, new_aes_gcm_cryptor_from_jwk}
use gose.Keys.Signing.{signing_key_of, SigningKey, algorithm, new_signing_key, RsaPrivateKeyImpl}
use gose.Keys.Signing.Shape.{new_signing_key_steps, made_algorithm}

abbrev pub minimum_rsa_key_size : ℕ
minimum_rsa_key_size = 2048

abbrev pub rsa_signing_algs : Dict Bool
rsa_signing_algs =
    (alg_rs256, true)
    ∷ (alg_rs384, true)
    ∷ (alg_rs512, true)
    ∷ (alg_ps256, true)
    ∷ (alg_ps384, true)
    ∷ (alg_ps512, true)
    ∷ []

abbrev pub ecds_algs : Dict Curve
ecds_algs = (alg_es256, p256) ∷ (alg_es384, p384) ∷ (alg_es512, p521) ∷ []

abbrev pub authenticated_encryption_algs : Dict ℕ
authenticated_encryption_algs = (alg_a128gcm, 16) ∷ (alg_a192gcm, 24) ∷ (alg_a256gcm, 32) ∷ []

abbrev pub rsa_encryption_algs : Dict Bool
rsa_encryption_algs = (alg_rsa_oaep, true) ∷ (alg_rsa_oaep_sha2, true) ∷ []

-- `rsa.GenerateKey`, `ecdsa.GenerateKey`, `rand.Read`, and AES-GCM under a key
pub record Generators : Type 0 where
  pub generate_rsa : ℕ → Result RsaPrivateKey
  pub generate_ecdsa : Curve → Result EcPrivateKey
  pub random : ℕ → Result Bytes
  pub gcm : Bytes → Result CipherAead

module _ (crypto : Crypto) (g : Generators) where
  -- `generateRsaKey`
  unfoldable pub generate_rsa_key : Alg → ℕ → List KeyOps → Result (Jwk × RsaPrivateKey)
  generate_rsa_key a bit_len operations = do
    guard (not (ltb bit_len minimum_rsa_key_size)) (gose_error invalid_key_size)
    private_key ← g.generate_rsa bit_len
    jwk ← jwk_from_private_key crypto (rsa_signer private_key) operations []
    ok (set_alg a jwk, private_key)

  -- `RsaSigningKeyGenerator.Generate`
  unfoldable pub generate_rsa_signing_key : Alg → ℕ → List KeyOps → Result SigningKey
  unfolding generate_rsa_key
  generate_rsa_signing_key a bit_len operations = do
    guard (is_listed rsa_signing_algs a) (gose_error GoseError.invalid_algorithm)
    (jwk, _) ← generate_rsa_key a bit_len operations
    new_signing_key crypto jwk operations

  -- `ECDSASigningKeyGenerator.Generate`
  unfoldable pub generate_ecdsa_signing_key : Alg → List KeyOps → Result SigningKey
  generate_ecdsa_signing_key a operations = do
    curve ← require (get a ecds_algs) (gose_error GoseError.invalid_algorithm)
    private_key ← g.generate_ecdsa curve
    jwk ← jwk_from_private_key crypto (ecdsa_signer private_key) operations []
    new_signing_key crypto (set_alg a jwk) operations

  -- `AuthenticatedEncryptionKeyGenerator.Generate`
  unfoldable pub generate_aead_key : Alg → List KeyOps → Result (AesGcmCryptor × Jwk)
  generate_aead_key a operations = do
    size ← require (get a authenticated_encryption_algs) (gose_error GoseError.invalid_algorithm)
    key ← g.random size
    made ← jwk_from_symmetric crypto key a
    let jwk : Jwk = set_ops operations made
    cryptor ← new_aes_gcm_cryptor_from_jwk g.gcm jwk operations
    ok (cryptor, jwk)

  -- `RsaKeyDecryptionKeyGenerator.Generate`
  unfoldable pub generate_rsa_decryption_key : Alg → ℕ → List KeyOps → Result RsaPrivateKeyImpl
  unfolding generate_rsa_key
  generate_rsa_decryption_key a bit_len operations = do
    guard (is_listed rsa_encryption_algs a) (gose_error GoseError.invalid_algorithm)
    (jwk, key) ← generate_rsa_key a bit_len operations
    ok (record { jwk = jwk; key = key; ops = operations; alg = a })

pub alg-set_alg : (a : Alg) (jwk : Jwk) → Jwk.alg (set_alg a jwk) ≡ a
alg-set_alg a (public_rsa j k) = refl
alg-set_alg a (private_rsa j k s) = refl
alg-set_alg a (public_ec j k) = refl
alg-set_alg a (private_ec j k d) = refl
alg-set_alg a (oct_secret j k) = refl

-- An RSA signing key that the generator has made has the algorithm that was asked for, which is an RSA
-- signature algorithm, and it was generated with at least 2048 bits.
pub generate_rsa_signing_key-algorithm :
    (crypto : Crypto) (g : Generators) (a : Alg) (bit_len : ℕ) (operations : List KeyOps)
    (k : SigningKey)
    → generate_rsa_signing_key crypto g a bit_len operations ≡ ok k
    → (algorithm k ≡ a) × (is_listed rsa_signing_algs a ≡ true) × (minimum_rsa_key_size ≤ bit_len)
unfolding generate_rsa_signing_key generate_rsa_key
generate_rsa_signing_key-algorithm crypto g a bit_len operations k h =
    let (listed, h₁) =
      guard->>-eq-ok (is_listed rsa_signing_algs a) (gose_error GoseError.invalid_algorithm) _ h in
    let ((jwk, _), e, h₂) = >>=-eq-ok (generate_rsa_key crypto g a bit_len operations) _ h₁ in
    let (size, e₁) =
      guard->>-eq-ok (not (ltb bit_len minimum_rsa_key_size)) (gose_error invalid_key_size) _ e in
    let (v, _, e₂) = >>=-eq-ok (g.generate_rsa bit_len) _ e₁ in
    let (made, _, e₃) = >>=-eq-ok (jwk_from_private_key crypto (rsa_signer v) operations []) _ e₂ in
    let labelled : jwk ≡ set_alg a made = cc e₃ in
    let (_, signer, _, _, of) = new_signing_key_steps crypto jwk operations k h₂ in
    (
      made_algorithm jwk signer k of ∙ (ap (λ x. Jwk.alg x) labelled ∙ alg-set_alg a made),
      listed,
      ground (arith, size),
    )
