-- ===== src/Aead.antt =====
-- aes_gcm_cryptor.go, jwe_direct_encryptor_aead.go and jwe_direct_decryptor_aead.go: authenticated
-- encryption, and the direct JWE that stands on it. The cipher (`cipher.AEAD`) is a parameter.
pub mod Direct
pub mod RoundTrip
pub mod Gates
use gose.Prelude.{
  ℕ, ◌^◌, ◌+◌, ◌*◌, String, Bool, true, false, not, Option, none, some, List, [], ◌∷◌, ◌++◌, ltb,
  ◌==◌, length, take, drop,
}
use gose.Bytes.{Bytes}
use gose.Error.{
  Error, Result, Checked, ok, err, guard, ◌>>=◌, ◌>>◌, gose_error, GoseError, joined,
  invalid_operations, input_too_large, invalid_nonce, invalid_authentication_tag, seal_failed,
}
use gose.Jose.Types.{KeyOps, Alg}
use gose.KeyOps.{permits, valid_decryption_ops, valid_encryption_ops}

-- What `Seal` does: it has no error result, so it returns or it panics with a value. With a nil nonce
-- the cipher makes one and appends it.
pub data Sealing : Type 0 where
  returned : Bytes → Sealing
  panicked : Error → Sealing

-- `cipher.AEAD`, with nonce, text and additional data for `Seal` and `Open`
pub record CipherAead : Type 0 where
  pub nonce_size : ℕ
  pub overhead : ℕ
  pub seal_with : Option Bytes → Bytes → Bytes → Sealing
  pub open_with : Bytes → Bytes → Bytes → Result Bytes

abbrev pub max_plaintext_size : ℕ
max_plaintext_size = 2 ^ 26

-- `AesGcmCryptor`, less its source of random bytes
pub record AesGcmCryptor : Type 0 where
  pub kid : String
  pub alg : Alg
  pub aead : CipherAead
  pub opts : List KeyOps

-- `GenerateNonce`, where `random n` is what `io.ReadFull` gives for `n` bytes
abbrev pub generate_nonce : (ℕ → Result Bytes) → AesGcmCryptor → Result Bytes
generate_nonce random cryptor = random cryptor.aead.nonce_size

-- `Open`
unfoldable pub gcm_open : AesGcmCryptor → KeyOps → Bytes → Bytes → Bytes → Bytes → Result Bytes
gcm_open cryptor operation nonce ciphertext aad tag = do
  guard (permits valid_decryption_ops cryptor.opts operation) (gose_error invalid_operations)
  guard (not (ltb max_plaintext_size (length ciphertext))) (gose_error GoseError.input_too_large)
  guard (length nonce == cryptor.aead.nonce_size) (gose_error invalid_nonce)
  guard (length tag == cryptor.aead.overhead) (gose_error invalid_authentication_tag)
  cryptor.aead.open_with nonce (ciphertext ++ tag) aad

-- `sealAEAD`
recovered : Sealing → Result Bytes
recovered (returned out) = ok out
recovered (panicked e) = err (joined (gose_error seal_failed) e)

unfoldable pub nonce_fits : ℕ → Option Bytes → Bool
nonce_fits size none = true
nonce_fits size (some nonce) = length nonce == size

unfoldable pub sealed_size : CipherAead → Option Bytes → Bytes → ℕ
sealed_size aead none plaintext = aead.overhead + length plaintext + aead.nonce_size
sealed_size aead (some _) plaintext = aead.overhead + length plaintext

-- `Seal`
unfoldable pub gcm_seal :
    AesGcmCryptor → KeyOps → Option Bytes → Bytes → Bytes → Result (Bytes × Bytes)
unfolding recovered nonce_fits sealed_size
gcm_seal cryptor operation nonce plaintext aad = do
  guard (permits valid_encryption_ops cryptor.opts operation) (gose_error invalid_operations)
  guard (not (ltb max_plaintext_size (length plaintext))) (gose_error GoseError.input_too_large)
  guard (nonce_fits cryptor.aead.nonce_size nonce) (gose_error invalid_nonce)
  dst ← recovered (cryptor.aead.seal_with nonce plaintext aad)
  guard (length dst == sealed_size cryptor.aead nonce plaintext) (gose_error seal_failed)
  ok (take (length plaintext) dst, drop (length plaintext) dst)
