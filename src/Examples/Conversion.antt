-- ===== src/Examples/Conversion.antt =====
-- Examples for keys that become JWKs and JWKs that become keys.
use gose.Prelude.{
  ◌^◌, ◌+◌, ◌%◌, ◌≡◌, ◌↔◌, ◌⊎◌, inl, refl, false, [], ◌∷◌, String, arith, Has, length, get,
}
use gose.Bytes.{Bytes, IsBytes}
use gose.Error.{Result, ok, err}
use gose.Crypto.{Crypto, RsaPrivateKey}
use gose.Jose.Types.{
  alg_rs256, alg_a128gcm, key_ops_sign, key_ops_verify, key_ops_encrypt, JwsHeader,
}
use gose.Jose.Jwk.{Jwk, JwkFields, public_rsa, kid, alg, ops, oct_secret}
use gose.KeyOps.{is_subset}
use gose.Aead.{CipherAead, AesGcmCryptor}
use gose.Keys.Load.{rsa_public, rsa_signer, load_public_key, lacks_required}
use gose.Keys.Identity.{Collision, identity, calculate_key_id, calculate_key_id_injective}
use gose.Keys.Convert.{jwk_from_private_key, jwk_from_public_key, public_from_private, no_fields}
use gose.Keys.Convert.Halves.{kid-jwk_from_private_key}
use gose.Keys.Convert.Operations.{Has-public_from_private}
use gose.Keys.Convert.ReloadPublic.{load_public_key-jwk_from_public_key}
use gose.Keys.Symmetric.{jwk_from_symmetric, load_symmetric_bytes, new_aes_gcm_cryptor_from_jwk}
use gose.Keys.Symmetric.Lengths.{
  FitsAlg, load_symmetric_bytes-FitsAlg, load_symmetric_bytes-jwk_from_symmetric,
}
use gose.Examples.Inputs.{toy_crypto, key_fields}

-- what a call has given
abbrev text_of : Result String → String
text_of (ok s) = s
text_of (err e) = ""

abbrev jwk_of : Result Jwk → Jwk
jwk_of (ok jwk) = jwk
jwk_of (err e) = oct_secret no_fields []

-- a hash that keeps the low byte of each number
low_bytes : Bytes → Bytes
low_bytes [] = []
low_bytes (b ∷ bs) = (b % 256) ∷ low_bytes bs

low_bytes-IsBytes : (b : Bytes) → IsBytes (low_bytes b)
unfolding low_bytes
low_bytes-IsBytes [] = tt
low_bytes-IsBytes (b ∷ bs) = (omega arith, low_bytes-IsBytes bs)

abbrev byte_crypto : Crypto
byte_crypto = record toy_crypto { digest = λ _ b. low_bytes b }

abbrev small_jwk : Jwk
small_jwk = public_rsa key_fields (record { n = 15; e = 3 })

abbrev small_id : String
small_id = text_of (calculate_key_id byte_crypto small_jwk)

small_identified : calculate_key_id byte_crypto small_jwk ≡ ok small_id
unfolding calculate_key_id
small_identified = refl

calculate_key_id_injective_example :
    (small_id ≡ small_id → (identity small_jwk ≡ identity small_jwk) ⊎ Collision byte_crypto)
    × (identity small_jwk ≡ identity small_jwk → small_id ≡ small_id)
calculate_key_id_injective_example =
    calculate_key_id_injective byte_crypto small_jwk small_jwk small_id small_id
      (λ h t. low_bytes-IsBytes t) tt tt small_identified small_identified

-- an RSA key of 2048 bits, whose Dp, Dq and Qinv are 1
abbrev big_key : RsaPrivateKey
big_key = record { public = record { n = 2 ^ 2047 + 1; e = 65537 }; d = 5; p = 3; q = 7 }

abbrev big_private : Jwk
big_private = jwk_of (jwk_from_private_key toy_crypto (rsa_signer big_key) (key_ops_sign ∷ []) [])

abbrev big_public : Jwk
big_public =
    jwk_of (jwk_from_public_key toy_crypto (rsa_public big_key.public) (key_ops_verify ∷ []) [])

private_made :
    jwk_from_private_key toy_crypto (rsa_signer big_key) (key_ops_sign ∷ []) [] ≡ ok big_private
unfolding jwk_from_private_key public_from_private calculate_key_id
private_made = refl

public_made :
    jwk_from_public_key toy_crypto (rsa_public big_key.public) (key_ops_verify ∷ []) []
    ≡ ok big_public
unfolding jwk_from_public_key calculate_key_id
public_made = refl

kid-jwk_from_private_key_example : kid big_private ≡ kid big_public
kid-jwk_from_private_key_example =
    kid-jwk_from_private_key toy_crypto (rsa_signer big_key) (rsa_public big_key.public)
      (key_ops_sign ∷ []) (key_ops_verify ∷ []) [] [] big_private big_public refl private_made
      public_made

verify_required : lacks_required (key_ops_verify ∷ []) (key_ops_verify ∷ []) ≡ false
unfolding lacks_required is_subset
verify_required = refl

load_public_key-jwk_from_public_key_example :
    load_public_key big_public (key_ops_verify ∷ []) ≡ ok (rsa_public big_key.public)
load_public_key-jwk_from_public_key_example =
    load_public_key-jwk_from_public_key toy_crypto (rsa_public big_key.public) (key_ops_verify ∷ [])
      (key_ops_verify ∷ []) [] big_public (omega arith, omega arith) verify_required public_made

abbrev big_half : Jwk
big_half = jwk_of (public_from_private toy_crypto big_private)

half_made : public_from_private toy_crypto big_private ≡ ok big_half
unfolding jwk_from_private_key public_from_private calculate_key_id
half_made = refl

Has-public_from_private_example :
    Has key_ops_verify (ops big_half) ↔ Has key_ops_sign (ops big_private)
Has-public_from_private_example =
    Has-public_from_private toy_crypto big_private big_half key_ops_sign key_ops_verify half_made
      (inl refl)

abbrev short_key : Bytes
short_key = 1 ∷ 2 ∷ 3 ∷ 4 ∷ 5 ∷ 6 ∷ 7 ∷ 8 ∷ 9 ∷ 10 ∷ 11 ∷ 12 ∷ 13 ∷ 14 ∷ 15 ∷ 16 ∷ []

abbrev short_jwk : Jwk
short_jwk = jwk_of (jwk_from_symmetric toy_crypto short_key alg_a128gcm)

short_made : jwk_from_symmetric toy_crypto short_key alg_a128gcm ≡ ok short_jwk
unfolding jwk_from_symmetric calculate_key_id get
short_made = refl

abbrev plain_aead : CipherAead
plain_aead = record {
  nonce_size = 12;
  overhead = 0;
  seal_with = λ n p a. gose.Aead.returned p;
  open_with = λ n d a. ok d;
}

encrypt_required :
    lacks_required
      (key_ops_encrypt ∷ gose.Jose.Types.key_ops_decrypt ∷ key_ops_sign ∷ key_ops_verify ∷ [])
      (key_ops_encrypt ∷ [])
    ≡ false
unfolding lacks_required is_subset
encrypt_required = refl

short_loaded : load_symmetric_bytes short_jwk (key_ops_encrypt ∷ []) ≡ ok short_key
unfolding load_symmetric_bytes jwk_from_symmetric calculate_key_id lacks_required is_subset get
short_loaded = refl

load_symmetric_bytes-FitsAlg_example :
    (j : JwkFields) × (short_jwk ≡ oct_secret j short_key)
    × FitsAlg (alg short_jwk) (length short_key)
load_symmetric_bytes-FitsAlg_example =
    load_symmetric_bytes-FitsAlg short_jwk (key_ops_encrypt ∷ []) short_key short_loaded

load_symmetric_bytes-jwk_from_symmetric_example :
    (load_symmetric_bytes short_jwk (key_ops_encrypt ∷ []) ≡ ok short_key)
    × (new_aes_gcm_cryptor_from_jwk (λ _. ok plain_aead) short_jwk (key_ops_encrypt ∷ [])
        ≡ ok (record {
          kid = kid short_jwk;
          alg = alg_a128gcm;
          aead = plain_aead;
          opts =
              key_ops_encrypt ∷ gose.Jose.Types.key_ops_decrypt ∷ key_ops_sign ∷ key_ops_verify
              ∷ [];
        }))
load_symmetric_bytes-jwk_from_symmetric_example =
    load_symmetric_bytes-jwk_from_symmetric toy_crypto (λ _. ok plain_aead) short_key alg_a128gcm
      short_jwk (key_ops_encrypt ∷ []) plain_aead short_made encrypt_required refl
