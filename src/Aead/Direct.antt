-- ===== src/Aead/Direct.antt =====
-- jwe_direct_encryptor_aead.go and jwe_direct_decryptor_aead.go: direct encryption under a shared key.
pub mod Delivery
use gose.Prelude.{
  ℕ, ◌-◌, String, Bool, true, false, not, ◌&&◌, Option, none, some, List, [], ◌∷◌, ltb, str_eq,
  length, take, drop, Dict, get, put,
}
use gose.Bytes.{Bytes}
use gose.Error.{
  Result, Checked, ok, err, guard, require, ◌>>=◌, ◌>>◌, gose_error, GoseError,
  zip_compression_not_supported, invalid_kid, unknown_key, invalid_authentication_tag,
}
use gose.Jose.Types.{
  Alg, Enc, key_ops_encrypt, key_ops_decrypt, alg_dir, alg_a128gcm, alg_a192gcm, alg_a256gcm,
  enc_a128gcm, enc_a192gcm, enc_a256gcm, empty_header, max_compact_size,
}
use gose.Jose.Jwe.{
  JweHeader, Jwe, HeaderJson, marshal_protected_header, unmarshal_legacy, marshal_legacy,
}
use gose.Aead.{AesGcmCryptor, generate_nonce, gcm_open, gcm_seal}

abbrev pub gcm_alg_to_enc_map : Dict Enc
gcm_alg_to_enc_map =
    (alg_a128gcm, enc_a128gcm) ∷ (alg_a192gcm, enc_a192gcm) ∷ (alg_a256gcm, enc_a256gcm) ∷ []

or_empty : Option Enc → Enc
or_empty none = ""
or_empty (some enc) = enc

-- an empty AAD is left out of the header
carried : Bytes → Option Bytes
carried [] = none
carried (b ∷ aad) = some (b ∷ aad)

-- the header that `Encrypt` writes
unfoldable pub header_for : AesGcmCryptor → Bytes → JweHeader
unfolding or_empty carried
header_for key aad = record {
  jws = record empty_header { alg = alg_dir; kid = key.kid };
  other_aad = carried aad;
  enc = or_empty (get key.alg gcm_alg_to_enc_map);
  zip = "";
}

-- the nonce that the encryptor gives, where the backend does not make its own
first_nonce : Bool → Result Bytes → Result (Option Bytes)
first_nonce true drawn = ok none
first_nonce false drawn = do nonce ← drawn; ok (some nonce)

iv_of : Option Bytes → Bytes
iv_of none = []
iv_of (some nonce) = nonce

-- the IV and the tag: a backend that makes the nonce returns it behind the tag
iv_and_tag : Bool → Result Bytes → Option Bytes → Bytes → Result (Bytes × Bytes)
unfolding iv_of
iv_and_tag false drawn used tag = ok (iv_of used, tag)
iv_and_tag true drawn used tag = do
  throwaway ← drawn
  guard (not (ltb (length tag) (length throwaway))) (gose_error invalid_authentication_tag)
  let n = length tag - length throwaway
  ok (drop n tag, take n tag)

-- `JweDirectEncryptorAead.Encrypt`; each call draws from `random` once
unfoldable pub encrypt :
    HeaderJson → (ℕ → Result Bytes) → AesGcmCryptor → Bool → Bytes → Bytes → Result Bytes
unfolding first_nonce iv_and_tag
encrypt json random key external_iv plaintext aad = do
  nonce ← first_nonce external_iv (generate_nonce random key)
  marshalled ← marshal_protected_header json (header_for key aad)
  (ciphertext, raw_tag) ← gcm_seal key key_ops_encrypt nonce plaintext marshalled
  (iv, tag) ← iv_and_tag external_iv (generate_nonce random key) nonce raw_tag
  ok (
      marshal_legacy (record {
        header = header_for key aad;
        marshalled_header = marshalled;
        encrypted_key = [];
        iv = iv;
        ciphertext = ciphertext;
        tag = tag;
      }))

-- `NewJweDirectDecryptorAeadImpl`: of two keys under one ID the later one stays
unfoldable pub keystore_of : Dict AesGcmCryptor → List AesGcmCryptor → Dict AesGcmCryptor
keystore_of store [] = store
keystore_of store (key ∷ keys) = keystore_of (put key.kid key store) keys

-- the checks on the header, and the key
key_for : Dict AesGcmCryptor → JweHeader → Result AesGcmCryptor
key_for keystore h = do
  guard (str_eq h.zip "") (gose_error zip_compression_not_supported)
  guard (not (str_eq h.jws.kid "")) (gose_error invalid_kid)
  key ← require (get h.jws.kid keystore) (gose_error unknown_key)
  enc ← require (get key.alg gcm_alg_to_enc_map) (gose_error GoseError.invalid_encryption)
  guard (str_eq h.jws.alg alg_dir && str_eq h.enc enc) (gose_error GoseError.invalid_algorithm)
  ok key

or_nil : Option Bytes → Bytes
or_nil none = []
or_nil (some b) = b

-- `JweDirectDecryptorAeadImpl.Decrypt` from the parsed JWE on
unfoldable pub decrypt_parsed : Dict AesGcmCryptor → Jwe → Result (Bytes × Bytes)
unfolding key_for or_nil
decrypt_parsed keystore jwe = do
  key ← key_for keystore jwe.header
  plaintext ← gcm_open key key_ops_decrypt jwe.iv jwe.ciphertext jwe.marshalled_header jwe.tag
  ok (plaintext, or_nil jwe.header.other_aad)

-- `JweDirectDecryptorAeadImpl.Decrypt`
unfoldable pub decrypt : HeaderJson → Dict AesGcmCryptor → Bytes → Result (Bytes × Bytes)
decrypt json keystore jwe = do
  guard (not (ltb max_compact_size (length jwe))) (gose_error GoseError.input_too_large)
  parsed ← unmarshal_legacy json jwe
  decrypt_parsed keystore parsed
