-- ===== src/Block/Direct.antt =====
-- jwe_direct_encryptor_block.go and jwe_direct_decryptor_block.go: direct encryption with a block mode
-- and a keyed hash.
pub mod Authentic
pub mod Steps
pub mod Delivery
use gose.Prelude.{
  ℕ, String, Bool, true, not, Option, none, some, [], ltb, str_eq, ◌==◌, ◌%◌, length, take,
}
use gose.Bytes.{Bytes}
use gose.Bytes.BigEndian.{from_bytes}
use gose.Error.{
  Result, ok, err, guard, ◌>>=◌, ◌>>◌, in_context, gose_error, GoseError, message,
  zip_compression_not_supported,
}
use gose.Jose.Types.{empty_header, jwt_type, max_compact_size}
use gose.Jose.Jwe.{
  JweProtectedHeader, JweRfc7516Compact, HeaderJson, unmarshal_compact, marshal_compact,
  marshal_protected_header,
}
use gose.KeyEncryption.Encryptor.{enc_of}
use gose.Block.{AesCbcCryptor, seal, open_blocks}
use gose.Block.Mac.{HmacShaCryptor, compute_hash, verify_compact, uint_to_bytes_big_endian}

-- `JweDirectEncryptorBlock`
pub record BlockEncryptor (S : Type 0) : Type 0 where
  pub aes_key : AesCbcCryptor S
  pub iv : Bytes
  pub hmac_key : HmacShaCryptor

-- `JweDirectDecryptorBlock`
pub record BlockDecryptor (S : Type 0) : Type 0 where
  pub aes_key : AesCbcCryptor S
  pub hmac_key : HmacShaCryptor

abbrev pub aes_block_size : ℕ
aes_block_size = 16

-- the length of the plaintext, from the header, and the plaintext of that length
unfoldable pub declared_plaintext : Option Bytes → Bytes → Result Bytes
declared_plaintext none block =
    err (message "error decoding plaintext length: missing length header")
declared_plaintext (some data_bytes) block = do
  guard (not (ltb (length data_bytes) 8))
      (message "error decoding plaintext length: header field too short")
  let plaintext_length : ℕ = from_bytes (take 8 data_bytes)
  guard (not (ltb (length block) plaintext_length))
      (message "error decoding plaintext: declared length exceeds decrypted length")
  ok (take plaintext_length block)

module _ {S : Type 0} (json : HeaderJson) where
  -- `makeJweProtectedHeader`, and the length that `Encrypt` stores in it
  unfoldable pub block_header : BlockEncryptor S → Bytes → JweProtectedHeader
  unfolding enc_of uint_to_bytes_big_endian
  block_header e plaintext = record {
    jws = record empty_header {
      alg = e.aes_key.alg;
      kid = e.aes_key.kid;
      typ = jwt_type;
      cty = jwt_type;
    };
    other_aad = some (uint_to_bytes_big_endian (length plaintext));
    enc = enc_of e.aes_key.alg;
    zip = "";
  }

  -- the tag and the text
  unfoldable pub tagged : BlockEncryptor S → JweProtectedHeader → Bytes → Bytes → Result Bytes
  unfolding compute_hash
  tagged e header aad ciphertext = do
    tag ← compute_hash e.hmac_key aad e.iv ciphertext
    marshal_compact json (record {
      protected_header = header;
      raw_protected_header = [];
      encrypted_key = [];
      initialization_vector = e.iv;
      ciphertext = ciphertext;
      authentication_tag = tag;
    })

  sealed_text : BlockEncryptor S → JweProtectedHeader → Bytes → Result Bytes × S → Result Bytes × S
  unfolding tagged
  sealed_text e header aad (r, s) = (r >>= tagged e header aad, s)

  -- encryption, with the additional data that are there or not
  pub encrypt_with :
      BlockEncryptor S → JweProtectedHeader → Bytes → S → Result Bytes → Result Bytes × S
  unfolding sealed_text
  encrypt_with e header plaintext s (err x) = (err x, s)
  encrypt_with e header plaintext s (ok aad) = sealed_text e header aad (seal e.aes_key plaintext s)

  -- `JweDirectEncryptorBlock.Encrypt`
  unfoldable pub encrypt : BlockEncryptor S → Bytes → S → Result Bytes × S
  unfolding block_header encrypt_with
  encrypt e plaintext s =
      let header = block_header e plaintext in
      encrypt_with e header plaintext s
        (in_context "error marshalling the JWE Header" (marshal_protected_header json header))

  -- what `Decrypt` checks before it decrypts
  unfoldable pub authenticated : BlockDecryptor S → Bytes → Result JweRfc7516Compact
  unfolding verify_compact
  authenticated d text = do
    guard (not (ltb max_compact_size (length text))) (gose_error GoseError.input_too_large)
    jwe ← in_context "error unmarshalling the jwe" (unmarshal_compact json text)
    guard (str_eq jwe.protected_header.jws.alg d.aes_key.alg)
        (message "error checking the JWE protected header's algorithm")
    guard (str_eq jwe.protected_header.jws.kid d.aes_key.kid)
        (message "error checking the Key ID for decryption")
    integrity ← verify_compact d.hmac_key json jwe
    guard integrity (message "error corrupted jwe : integrity check failed")
    guard (str_eq jwe.protected_header.zip "") (gose_error zip_compression_not_supported)
    guard (length jwe.ciphertext % aes_block_size == 0)
        (message "error decrypting: ciphertext length is not a multiple of the AES block size")
    ok jwe

  opened_text : JweRfc7516Compact → Result Bytes × S → Result Bytes × S
  unfolding declared_plaintext
  opened_text jwe (r, s) = (r >>= declared_plaintext jwe.protected_header.other_aad, s)

  -- decryption, for what has passed the checks
  decrypt_checked : BlockDecryptor S → S → Result JweRfc7516Compact → Result Bytes × S
  unfolding opened_text
  decrypt_checked d s (err x) = (err x, s)
  decrypt_checked d s (ok jwe) = opened_text jwe (open_blocks d.aes_key jwe.ciphertext s)

  -- `JweDirectDecryptorBlock.Decrypt`
  unfoldable pub decrypt : BlockDecryptor S → Bytes → S → Result Bytes × S
  unfolding authenticated decrypt_checked
  decrypt d text s = decrypt_checked d s (authenticated d text)
