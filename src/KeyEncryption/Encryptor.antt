-- ===== src/KeyEncryption/Encryptor.antt =====
-- jwe_key_encryption_encryptor.go, and `OaepAlgFromHash` of rsa_oaep_alg.go. The source of random
-- bytes is a stream that is read in order; RSA-OAEP and AES-GCM are parameters.
use gose.Prelude.{ℕ, String, Dict, get, Option, none, some, [], ◌∷◌}
use gose.Bytes.{Bytes}
use gose.Error.{
  Result, ok, err, guard, require, in_context, ◌>>=◌, ◌>>◌, gose_error, GoseError, joined, message,
  invalid_operations, invalid_key_type,
}
use gose.Crypto.{Hash, no_hash, sha1, sha256, sha384, sha512, RsaPublicKey}
use gose.Jose.Types.{
  Alg, Enc, empty_header, jwt_type, alg_a256gcm, alg_a256cbc, enc_a256gcm, enc_a256cbc,
  alg_rsa_oaep, alg_rsa_oaep_sha2, key_ops_encrypt,
}
use gose.Jose.Jwk.{Jwk, ops, alg, kid}
use gose.Jose.Jwe.{JweProtectedHeader, HeaderJson, marshal_protected_header, marshal_compact}
use gose.KeyOps.{is_subset, valid_encryption_ops}
use gose.Keys.Load.{PublicKey, rsa_public, ecdsa_public, load_public_key}
use gose.Keys.Symmetric.{new_aes_gcm_cryptor}
use gose.Aead.{CipherAead, gcm_seal}
use gose.KeyEncryption.{is_rsa_oaep_alg}

abbrev pub cek_size : ℕ
cek_size = 32

abbrev pub iv_size : ℕ
iv_size = 12

abbrev pub cek_algorithm : Alg
cek_algorithm = alg_a256gcm

-- `OaepAlgFromHash`, with the table `oaepHashToAlg`
unfoldable pub oaep_alg_from_hash : Hash → Option Alg
oaep_alg_from_hash sha1 = some alg_rsa_oaep
oaep_alg_from_hash sha256 = some alg_rsa_oaep_sha2
oaep_alg_from_hash sha384 = none
oaep_alg_from_hash sha512 = none
oaep_alg_from_hash no_hash = none

abbrev pub cbc_alg_to_enc_map : Dict Enc
cbc_alg_to_enc_map = (alg_a256cbc, enc_a256cbc) ∷ (alg_a256gcm, enc_a256gcm) ∷ []

-- `JweRsaKeyEncryptionEncryptorImpl`, less its source of random bytes
pub record RsaEncryptor : Type 0 where
  pub rsa_public_key : RsaPublicKey
  pub rsa_public_kid : String
  pub rsa_alg : Alg

-- what surrounds the encryptor: JSON, AES-GCM under a CEK, the stream of random bytes (`io.ReadFull`)
-- and `rsa.EncryptOAEP`, which reads from the stream, too
pub record Surroundings (R : Type 0) : Type 0 where
  pub json : HeaderJson
  pub gcm : Bytes → Result CipherAead
  pub read_full : ℕ → R → Result (Bytes × R)
  pub encrypt_oaep : RsaPublicKey → Hash → Bytes → R → Result (Bytes × R)

-- `cbcAlgToEncMap[cekAlgorithm]`, where a missing key gives the empty string
unfoldable pub enc_of : Alg → Enc
unfolding get
enc_of a = elim (get a cbc_alg_to_enc_map) [ none ↦ "" | some e ↦ e ]

-- `makeJweProtectedHeader`
unfoldable pub make_jwe_protected_header : RsaEncryptor → Alg → JweProtectedHeader
unfolding enc_of
make_jwe_protected_header e oaep_alg = record {
  jws = record empty_header {
    alg = oaep_alg;
    kid = e.rsa_public_kid;
    typ = jwt_type;
    cty = jwt_type;
  };
  other_aad = none;
  enc = enc_of cek_algorithm;
  zip = "";
}

module _ {R : Type 0} (b : Surroundings R) where
  -- `Encrypt`, with what is left of the random stream
  unfoldable pub encrypt : RsaEncryptor → Bytes → Hash → R → Result (Bytes × R)
  unfolding oaep_alg_from_hash make_jwe_protected_header new_aes_gcm_cryptor
  encrypt e plaintext oaep_hash r = do
    oaep_alg ← require (oaep_alg_from_hash oaep_hash) (
        joined (gose_error GoseError.invalid_algorithm)
          (message "no RFC 7518 RSAES-OAEP algorithm for digest"))
    let header : JweProtectedHeader = make_jwe_protected_header e oaep_alg
    (cek, r₁) ←
        in_context "unable to read random source to generate the CEK" (b.read_full cek_size r)
    (encrypted_cek, r₂) ←
        in_context "failed to encrypt CEK" (b.encrypt_oaep e.rsa_public_key oaep_hash cek r₁)
    (iv, r₃) ← in_context "unable to read random source to generate the IV" (b.read_full iv_size r₂)
    aad ← in_context "error marshalling the JWE Header" (marshal_protected_header b.json header)
    aes_gcm ← b.gcm cek
    (ciphertext, tag) ← in_context "error encrypting the plaintext" (
        gcm_seal (new_aes_gcm_cryptor aes_gcm "" cek_algorithm (key_ops_encrypt ∷ []))
          key_ops_encrypt (some iv) plaintext aad)
    text ← in_context "error marshalling the JWE" (
        marshal_compact b.json (record {
          protected_header = header;
          raw_protected_header = [];
          encrypted_key = encrypted_cek;
          initialization_vector = iv;
          ciphertext = ciphertext;
          authentication_tag = tag;
        }))
    ok (text, r₃)

-- the type assertion on the loaded key, and the test of its algorithm
encryptor_of : Jwk → PublicKey → Result RsaEncryptor
encryptor_of jwk (ecdsa_public k) = err (gose_error invalid_key_type)
encryptor_of jwk (rsa_public k) = do
  guard (is_rsa_oaep_alg (alg jwk)) (gose_error GoseError.invalid_algorithm)
  ok (record { rsa_public_key = k; rsa_public_kid = kid jwk; rsa_alg = alg jwk })

-- `NewJweRsaKeyEncryptionEncryptorImpl`
unfoldable pub new_encryptor : Jwk → Result RsaEncryptor
unfolding encryptor_of
new_encryptor jwk = do
  guard (is_subset (ops jwk) (key_ops_encrypt ∷ [])) (gose_error invalid_operations)
  kek ← load_public_key jwk valid_encryption_ops
  encryptor_of jwk kek
