-- ===== src/KeyEncryption.antt =====
-- jwe_key_encryption_decryptor.go and rsa_oaep_alg.go: a JWE whose content-encryption key (CEK) is
-- wrapped with RSA-OAEP. The private key, the block cipher and the source of random bytes are
-- parameters.
pub mod Uniform
pub mod Encryptor
pub mod Delivery
pub mod KeyStore
use gose.Prelude.{
  ℕ, String, Bool, true, false, not, ◌&&◌, Option, none, some, List, [], ◌∷◌, ◌++◌, ltb, str_eq,
  ◌==◌, length, Dict, get, if◌then◌else◌,
}
use gose.Bytes.{Bytes}
use gose.Error.{
  Result, Checked, ok, err, guard, require, in_context, ◌>>=◌, ◌>>◌, gose_error, GoseError,
  zip_compression_not_supported, invalid_nonce, invalid_authentication_tag,
}
use gose.Crypto.{Hash, sha1, sha256}
use gose.Jose.Types.{
  Alg, Enc, alg_rsa_oaep, alg_rsa_oaep_sha2, enc_a128gcm, enc_a192gcm, enc_a256gcm,
  max_compact_size,
}
use gose.Jose.Jwe.{JweRfc7516Compact, HeaderJson, unmarshal_compact, aad}
use gose.Aead.{CipherAead}

abbrev pub oaep_alg_to_hash : Dict Hash
oaep_alg_to_hash = (alg_rsa_oaep, sha1) ∷ (alg_rsa_oaep_sha2, sha256) ∷ []

-- `OaepHashFromAlg`
unfoldable pub oaep_hash_from_alg : Alg → Option Hash
oaep_hash_from_alg alg = get alg oaep_alg_to_hash

is_known : Option Hash → Bool
is_known none = false
is_known (some _) = true

-- `isRsaOaepAlg`
unfoldable pub is_rsa_oaep_alg : Alg → Bool
unfolding is_known oaep_hash_from_alg
is_rsa_oaep_alg alg = is_known (oaep_hash_from_alg alg)

abbrev pub enc_cek_length : Dict ℕ
enc_cek_length = (enc_a128gcm, 16) ∷ (enc_a192gcm, 24) ∷ (enc_a256gcm, 32) ∷ []

-- the part of `AsymmetricDecryptionKey` that is called: `Algorithm`, and `Decrypt` for the operation
-- "decrypt"
pub record DecryptionKey : Type 0 where
  pub algorithm : Alg
  pub unwrap : Hash → Bytes → Result Bytes

-- what surrounds the decryptor: JSON, the key store, AES-GCM under a CEK, and random bytes
pub record Backend : Type 0 where
  pub json : HeaderJson
  pub gcm : Bytes → Result CipherAead
  pub random : ℕ → Result Bytes

-- an override of the hash that the header names; `crypto.Hash(0)` is none
chosen_hash : Option Hash → Hash → Hash
chosen_hash none header_hash = header_hash
chosen_hash (some h) _ = h

module _ (b : Backend) where
  substitute : ℕ → Result Bytes
  substitute n = in_context "error generating substitute CEK" (b.random n)

  -- the CEK, or random bytes in its place
  cek_or_substitute : ℕ → Result Bytes → Result Bytes
  unfolding substitute
  cek_or_substitute n (err _) = substitute n
  cek_or_substitute n (ok cek) = if length cek == n then ok cek else substitute n

  -- the checks behind the unwrapping
  open_content : JweRfc7516Compact → Bytes → Result (Bytes × Bytes)
  open_content jwe cek = do
    aead ← b.gcm cek
    guard (length jwe.initialization_vector == aead.nonce_size) (gose_error invalid_nonce)
    guard (length jwe.authentication_tag == aead.overhead) (gose_error invalid_authentication_tag)
    authentic ← in_context "error getting AAD" (aad b.json jwe)
    plaintext ←
        aead.open_with jwe.initialization_vector (jwe.ciphertext ++ jwe.authentication_tag)
          authentic
    ok (plaintext, authentic)

  decrypt_hashed : JweRfc7516Compact → ℕ → DecryptionKey → Hash → Result (Bytes × Bytes)
  unfolding cek_or_substitute open_content
  decrypt_hashed jwe n key h = do
    guard (is_rsa_oaep_alg key.algorithm) (gose_error GoseError.invalid_algorithm)
    cek ← cek_or_substitute n (key.unwrap h jwe.encrypted_key)
    open_content jwe cek

  decrypt_with : Option Hash → JweRfc7516Compact → ℕ → DecryptionKey → Result (Bytes × Bytes)
  unfolding chosen_hash decrypt_hashed
  decrypt_with oaep_hash jwe n key = do
    header_hash ←
        require (oaep_hash_from_alg jwe.protected_header.jws.alg)
          (gose_error GoseError.invalid_algorithm)
    decrypt_hashed jwe n key (chosen_hash oaep_hash header_hash)

  length_known :
      Option Hash → JweRfc7516Compact → Result DecryptionKey → Option ℕ → Result (Bytes × Bytes)
  unfolding decrypt_with
  length_known oaep_hash jwe found none = err (gose_error GoseError.invalid_encryption)
  length_known oaep_hash jwe found (some n) = do
    key ← in_context "error getting key from keystore" found
    decrypt_with oaep_hash jwe n key

  -- `Decrypt` from the parsed JWE on
  unfoldable pub decrypt_parsed :
      (String → Result DecryptionKey) → Option Hash → JweRfc7516Compact → Result (Bytes × Bytes)
  unfolding length_known
  decrypt_parsed keystore oaep_hash jwe = do
    guard (str_eq jwe.protected_header.zip "") (gose_error zip_compression_not_supported)
    length_known oaep_hash jwe (keystore jwe.protected_header.jws.kid)
        (get jwe.protected_header.enc enc_cek_length)

  -- `JweRsaKeyEncryptionDecryptorImpl.Decrypt`
  unfoldable pub decrypt :
      (String → Result DecryptionKey) → Option Hash → Bytes → Result (Bytes × Bytes)
  decrypt keystore oaep_hash text = do
    guard (not (ltb max_compact_size (length text))) (gose_error GoseError.input_too_large)
    jwe ← in_context "error unmarshalling the jwe" (unmarshal_compact b.json text)
    decrypt_parsed keystore oaep_hash jwe
