-- ===== src/Keys/Symmetric.antt =====
-- helpers.go: symmetric keys as JWKs (`JwkFromSymmetric`, `loadSymmetricBytes`, `LoadSymmetricAEAD`),
-- and the cryptors of aes_gcm_cryptor.go that are made of them. AES-GCM under a key is a parameter.
pub mod Lengths
use gose.Prelude.{
  ℕ, ◌≤◌, ◌≡◌, ◌↔◌, ◌⊎◌, inl, inr, refl, sym, String, Bool, true, false, not, ◌||◌, Option, none,
  some, List, [], ◌∷◌, ◌++◌, Dict, get, ltb, str_eq, length, if◌then◌else◌, arith, Has, eq_iff,
  Option-cases, Bool-cases,
}
use gose.Bytes.{Bytes}
use gose.Error.{
  Result, ok, err, guard, require, ◌>>=◌, ◌>>◌, gose_error, GoseError, invalid_key_type,
  invalid_operations, invalid_key_length, guard->>-eq-ok, >>=-eq-ok,
}
use gose.Crypto.{Crypto}
use gose.Jose.Types.{
  Alg, KeyOps, alg_a128gcm, alg_a192gcm, alg_a256gcm, key_ops_sign, key_ops_verify, key_ops_encrypt,
  key_ops_decrypt,
}
use gose.Jose.Jwk.{
  Jwk, oct_secret, public_rsa, private_rsa, public_ec, private_ec, set_kid, ops, alg, kid,
}
use gose.KeyOps.{intersection, valid_cryptor_ops}
use gose.Aead.{CipherAead, AesGcmCryptor}
use gose.Keys.Load.{lacks_required}
use gose.Keys.Identity.{calculate_key_id}
use gose.Keys.Convert.{no_fields}

-- `symmetricAlgInfo`
pub record SymmetricAlgInfo : Type 0 where
  pub min_len : ℕ
  pub max_len : ℕ
  pub confidentiality : Bool
  pub integrity : Bool

abbrev pub symmetric_algs : Dict SymmetricAlgInfo
symmetric_algs =
    (alg_a128gcm, record { min_len = 16; max_len = 16; confidentiality = true; integrity = true })
    ∷ (alg_a192gcm, record { min_len = 24; max_len = 24; confidentiality = true; integrity = true })
    ∷ (alg_a256gcm, record { min_len = 32; max_len = 32; confidentiality = true; integrity = true })
    ∷ []

-- `symmetricAlgs[alg]`
unfoldable pub symmetric_alg : Alg → Option SymmetricAlgInfo
unfolding get
symmetric_alg a = get a symmetric_algs

-- `len(key) < sai.minLen || len(key) > sai.maxLen`
unfoldable pub length_out_of_range : SymmetricAlgInfo → Bytes → Bool
length_out_of_range info key = ltb (length key) info.min_len || ltb info.max_len (length key)

-- the operations of a new symmetric key
unfoldable pub default_ops : SymmetricAlgInfo → List KeyOps
default_ops info =
    (if info.confidentiality then key_ops_encrypt ∷ key_ops_decrypt ∷ [] else [])
    ++ (if info.integrity then key_ops_sign ∷ key_ops_verify ∷ [] else [])

-- the bytes of an `oct` key
oct_bytes : SymmetricAlgInfo → Jwk → Result Bytes
unfolding length_out_of_range
oct_bytes info (oct_secret j k) =
    guard (not (length_out_of_range info k)) (gose_error invalid_key_length) >> ok k
oct_bytes info _ = err (gose_error GoseError.unsupported_key_type)

-- `loadSymmetricBytes`
unfoldable pub load_symmetric_bytes : Jwk → List KeyOps → Result Bytes
unfolding symmetric_alg oct_bytes
load_symmetric_bytes jwk required = do
  info ← require (symmetric_alg (alg jwk)) (gose_error invalid_key_type)
  guard (not (lacks_required (ops jwk) required)) (gose_error invalid_operations)
  oct_bytes info jwk

-- `JwkFromSymmetric`
unfoldable pub jwk_from_symmetric : Crypto → Bytes → Alg → Result Jwk
unfolding symmetric_alg length_out_of_range default_ops
jwk_from_symmetric crypto key a = do
  info ← require (symmetric_alg a) (gose_error GoseError.unsupported_key_type)
  guard (not (length_out_of_range info key)) (gose_error invalid_key_length)
  let oct : Jwk = oct_secret (record no_fields { key_alg = a; key_ops = default_ops info }) key
  id ← calculate_key_id crypto oct
  ok (set_kid id oct)

-- `len(ops) == 0`
is_nil : List KeyOps → Bool
is_nil [] = true
is_nil (_ ∷ _) = false

-- `NewAesGcmCryptor`
unfoldable pub new_aes_gcm_cryptor : CipherAead → String → Alg → List KeyOps → AesGcmCryptor
new_aes_gcm_cryptor aead id a operations = record {
  kid = id;
  alg = a;
  aead = aead;
  opts = operations;
}

module _ (gcm : Bytes → Result CipherAead) where
  -- `LoadSymmetricAEAD`: the algorithms of the table are those of its switch, and AES-GCM is made of
  -- the key (`aes.NewCipher`, `cipher.NewGCM`)
  unfoldable pub load_symmetric_aead : Jwk → List KeyOps → Result CipherAead
  unfolding load_symmetric_bytes
  load_symmetric_aead jwk required = do
    key ← load_symmetric_bytes jwk required
    guard
        (str_eq (alg jwk) alg_a128gcm
          || str_eq (alg jwk) alg_a192gcm
          || str_eq (alg jwk) alg_a256gcm)
        (gose_error GoseError.unsupported_key_type)
    gcm key

  -- `NewAesGcmCryptorFromJwk`
  unfoldable pub new_aes_gcm_cryptor_from_jwk : Jwk → List KeyOps → Result AesGcmCryptor
  unfolding load_symmetric_aead new_aes_gcm_cryptor is_nil
  new_aes_gcm_cryptor_from_jwk jwk required = do
    guard (not (is_nil (intersection valid_cryptor_ops (ops jwk)))) (gose_error invalid_operations)
    aead ← load_symmetric_aead jwk required
    ok (new_aes_gcm_cryptor aead (kid jwk) (alg jwk) (ops jwk))
