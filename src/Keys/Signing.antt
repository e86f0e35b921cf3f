-- ===== src/Keys/Signing.antt =====
-- The keys that sign: signer.go, ecdsa_signer.go, and the signing and decrypting of rsa_private.go.
-- The signature schemes are a parameter. A hash that `HashFunc().New()` asks for is linked, since the
-- program imports crypto/x509; only the ECDSA key tests for it.
pub mod Shape
pub mod Sound
pub mod Matching
use gose.Prelude.{
  ℕ, ◌+◌, ◌/◌, Bool, true, false, not, Option, none, some, List, [], ◌∷◌, ◌++◌, String, ◌==◌,
}
use gose.Bytes.{Bytes}
use gose.Bytes.Minimal.{big_bytes, left_padded}
use gose.Error.{
  Result, Checked, ok, err, guard, ◌>>=◌, ◌>>◌, gose_error, panics, GoseError, invalid_operations,
  invalid_key, invalid_key_type, hash_unavailable,
}
use gose.Crypto.{
  Crypto, Certificate, Hash, no_hash, RsaPublicKey, RsaPrivateKey, EcPrivateKey, bit_size,
}
use gose.Jose.Types.{Alg, KeyOps, key_ops_decrypt}
use gose.Jose.Jwk
use gose.Jose.Jwk.{Jwk, private_rsa, private_ec}
use gose.KeyOps.{
  intersection, permits, valid_signer_ops, valid_decryption_ops, valid_encryption_ops,
}
use gose.Keys.Options.{SignerOpts, EcdsaOptions, ecdsa, hash_func, signer_opts_for_alg}
use gose.Keys.Load.{Signer, rsa_signer, ecdsa_signer, load_private_key}
use gose.Keys.Convert.{public_from_private, jwk_from_private_key}
use gose.Keys.Verification.{VerificationKey, RsaVerifier, new_verification_key}

-- What the standard library computes with a private key and with random bytes of its own:
-- `PrivateKey.Sign` of crypto/rsa, `ecdsa.Sign`, `rsa.DecryptOAEP` and `rsa.EncryptOAEP`.
pub record PrivateCrypto : Type 0 where
  pub rsa_sign : RsaPrivateKey → SignerOpts → Bytes → Result Bytes
  pub ecdsa_sign : EcPrivateKey → Bytes → Result (ℕ × ℕ)
  pub decrypt_oaep : RsaPrivateKey → Hash → Bytes → Result Bytes
  pub encrypt_oaep : RsaPublicKey → Hash → Bytes → Result Bytes

-- the fields of `SigningKeyImpl` and of `ECDSASigningKey`
pub record SigningFields : Type 0 where
  pub jwk : Jwk
  pub key : Signer
  pub certs : List (Option Certificate)
  pub ops : List KeyOps
  pub alg : Alg

-- the implementations of the interface `SigningKey` that `NewSigningKey` makes
pub data SigningKey : Type 0 where
  signing_key_impl : SigningFields → SigningKey
  ecdsa_signing_key : SigningFields → SigningKey

abbrev pub signing_fields : SigningKey → SigningFields
signing_fields (signing_key_impl k) = k
signing_fields (ecdsa_signing_key k) = k

abbrev pub kid : SigningKey → String
kid k = Jwk.kid (signing_fields k).jwk

abbrev pub algorithm : SigningKey → Alg
algorithm k = (signing_fields k).alg

-- `len(ops) == 0`
is_nil : List KeyOps → Bool
is_nil [] = true
is_nil (_ ∷ _) = false

-- the type switch of `NewSigningKey`
unfoldable pub signing_key_of : Jwk → Signer → Result SigningKey
signing_key_of jwk k =
    let made : SigningFields = record {
      jwk = jwk;
      key = k;
      certs = Jwk.x5c jwk;
      ops = Jwk.ops jwk;
      alg = Jwk.alg jwk;
    } in
    elim jwk [
      | private_rsa _ _ _ ↦ ok (signing_key_impl made)
      | private_ec _ _ _ ↦ ok (ecdsa_signing_key made)
      | _ ↦ err (gose_error invalid_key_type)
    ]

-- the serialisation r || s, each part padded to the bytes of the curve
unfoldable pub ecdsa_serialised : ℕ → ℕ × ℕ → Result Bytes
ecdsa_serialised key_bytes (r, s) = do
  r_padded ← left_padded key_bytes (big_bytes r)
  s_padded ← left_padded key_bytes (big_bytes s)
  ok (r_padded ++ s_padded)

-- `opts.(*ECDSAOptions)`, and the comparison of its curve with the key's
ecdsa_checked : SignerOpts → ℕ → ℕ × ℕ → Result Bytes
unfolding ecdsa_serialised
ecdsa_checked (ecdsa o) bits signed = do
  guard (o.curve_bits == bits) (gose_error invalid_key)
  ecdsa_serialised ((bits + 7) / 8) signed
ecdsa_checked _ bits signed = err (panics "interface conversion")

module _ (crypto : Crypto) where
  -- `NewSigningKey`
  unfoldable pub new_signing_key : Jwk → List KeyOps → Result SigningKey
  unfolding is_nil signing_key_of
  new_signing_key jwk required = do
    guard (not (is_nil (intersection valid_signer_ops (Jwk.ops jwk))))
        (gose_error invalid_operations)
    _ ← signer_opts_for_alg (Jwk.alg jwk)
    k ← load_private_key crypto jwk required
    signing_key_of jwk k

  -- `ECDSASigningKey.Jwk`
  unfoldable pub ecdsa_jwk : SigningFields → Result Jwk
  ecdsa_jwk k = jwk_from_private_key crypto k.key (Jwk.ops k.jwk) k.certs

  -- `SigningKeyImpl.Verifier` and `ECDSASigningKey.Verifier`
  unfoldable pub verifier : SigningKey → Result VerificationKey
  verifier k = do
    public ← public_from_private crypto (signing_fields k).jwk
    (new_verification_key public).0

  module _ (private : PrivateCrypto) where
    -- `signer.key.Sign(rand.Reader, digest, opts)`, where the key of a `SigningKeyImpl` is an RSA key
    key_sign : Signer → SignerOpts → Bytes → Result Bytes
    key_sign (rsa_signer v) opts digest = private.rsa_sign v opts digest
    key_sign (ecdsa_signer v) opts digest = err (panics "no RSA key")

    -- `signer.key.(*ecdsa.PrivateKey)` and what follows
    ecdsa_key_sign : Signer → SignerOpts → Bytes → Result Bytes
    unfolding ecdsa_checked
    ecdsa_key_sign (rsa_signer v) opts digest = err (panics "interface conversion")
    ecdsa_key_sign (ecdsa_signer v) opts digest = do
      signed ← private.ecdsa_sign v digest
      ecdsa_checked opts (bit_size v.public.curve) signed

    -- `SigningKeyImpl.Sign`
    unfoldable pub impl_sign : SigningFields → KeyOps → Bytes → Result Bytes
    unfolding key_sign
    impl_sign k requested text = do
      guard (permits valid_signer_ops k.ops requested) (gose_error invalid_operations)
      opts ← signer_opts_for_alg k.alg
      key_sign k.key opts (crypto.digest (hash_func opts) text)

    -- `ECDSASigningKey.Sign`
    unfoldable pub ecdsa_sign : SigningFields → KeyOps → Bytes → Result Bytes
    unfolding ecdsa_key_sign
    ecdsa_sign k requested text = do
      guard (permits valid_signer_ops k.ops requested) (gose_error invalid_operations)
      opts ← signer_opts_for_alg k.alg
      guard (crypto.is_available (hash_func opts)) (gose_error hash_unavailable)
      ecdsa_key_sign k.key opts (crypto.digest (hash_func opts) text)

    unfoldable pub sign : SigningKey → KeyOps → Bytes → Result Bytes
    unfolding impl_sign ecdsa_sign
    sign (signing_key_impl k) requested text = impl_sign k requested text
    sign (ecdsa_signing_key k) requested text = ecdsa_sign k requested text

-- `RsaPrivateKeyImpl`
pub record RsaPrivateKeyImpl : Type 0 where
  pub jwk : Jwk
  pub key : RsaPrivateKey
  pub ops : List KeyOps
  pub alg : Alg

-- the type assertion of `NewRsaDecryptionKey`
rsa_of_signer : Jwk → Signer → Result RsaPrivateKeyImpl
rsa_of_signer jwk (rsa_signer v) =
    ok (record { jwk = jwk; key = v; ops = Jwk.ops jwk; alg = Jwk.alg jwk })
rsa_of_signer jwk (ecdsa_signer v) = err (gose_error invalid_key_type)

module _ (crypto : Crypto) where
  -- `NewRsaDecryptionKey`
  unfoldable pub new_rsa_decryption_key : Jwk → Result RsaPrivateKeyImpl
  unfolding rsa_of_signer
  new_rsa_decryption_key jwk = do
    k ← load_private_key crypto jwk (key_ops_decrypt ∷ [])
    rsa_of_signer jwk k

  -- `publicKey`, and so `RsaPrivateKeyImpl.Verifier` and `Encryptor`
  unfoldable pub public_key : RsaPrivateKeyImpl → Result RsaVerifier
  public_key k = do
    public ← public_from_private crypto k.jwk
    ok (record { key = k.key.public; jwk = public; ops = Jwk.ops public; alg = Jwk.alg public })

  module _ (private : PrivateCrypto) where
    -- `RsaPrivateKeyImpl.Sign`
    unfoldable pub rsa_private_sign : RsaPrivateKeyImpl → KeyOps → Bytes → Result Bytes
    rsa_private_sign k requested text = do
      guard (permits valid_signer_ops k.ops requested) (gose_error invalid_operations)
      opts ← signer_opts_for_alg k.alg
      private.rsa_sign k.key opts (crypto.digest (hash_func opts) text)

-- `hash.New()`, which panics for `crypto.Hash(0)`
linked : Hash → Checked
linked no_hash = err (panics "requested hash function is unavailable")
linked _ = ok tt

-- `RsaPrivateKeyImpl.Decrypt`
unfoldable pub rsa_decrypt :
    PrivateCrypto → RsaPrivateKeyImpl → KeyOps → Hash → Bytes → Result Bytes
unfolding linked
rsa_decrypt private k requested h ciphertext = do
  guard (permits valid_decryption_ops k.ops requested) (gose_error invalid_operations)
  linked h
  private.decrypt_oaep k.key h ciphertext

-- `RsaPublicKeyImpl.Encrypt`
unfoldable pub rsa_encrypt : PrivateCrypto → RsaVerifier → KeyOps → Hash → Bytes → Result Bytes
unfolding linked
rsa_encrypt private k requested h plaintext = do
  guard (permits valid_encryption_ops k.ops requested) (gose_error invalid_operations)
  linked h
  private.encrypt_oaep k.key h plaintext
