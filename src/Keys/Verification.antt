-- ===== src/Keys/Verification.antt =====
-- `NewVerificationKey` of verifier.go, and the verification keys of rsa_public.go and
-- ecdsa_verifier.go.
pub mod Material
pub mod Usable
pub mod Made
pub mod Accepting
use gose.Prelude.{
  ◌*◌, String, Bool, false, ◌||◌, Option, none, some, List, [], ◌∷◌, str_eq, ◌==◌, if◌then◌else◌,
  length, take, drop,
}
use gose.Bytes.{Bytes}
use gose.Bytes.BigEndian.{from_bytes}
use gose.Error.{
  Checked, Result, ok, err, ◌>>=◌, gose_error, panics, GoseError, invalid_operations,
  invalid_key_type,
}
use gose.Crypto.{
  Crypto, Certificate, SignatureAlgorithm, sha256_with_rsa, sha384_with_rsa, sha512_with_rsa,
  sha256_with_rsa_pss, sha384_with_rsa_pss, sha512_with_rsa_pss, other_signature_algorithm,
  RsaPublicKey, EcPublicKey,
}
use gose.Jose.Types.{
  Alg, KeyOps, alg_ps256, alg_ps384, alg_ps512, alg_rs256, alg_rs384, alg_rs512, alg_es256,
  alg_es384, alg_es512,
}
use gose.Jose.Jwk
use gose.Jose.Jwk.{
  Jwk, JwkFields, PublicRsaKeyFields, PublicEcKeyFields, public_rsa, public_ec, set_alg, set_ops,
}
use gose.KeyOps.{intersection, permits, valid_verification_ops}
use gose.Keys.Options.{SignerOpts, pss, ecdsa, hash_func, opts_for_alg, pss_algs}
use gose.Keys.Load.{rsa_public, ecdsa_public, is_listed, check_rsa_bounds, load_public_key}

-- `RsaPublicKeyImpl`
pub record RsaVerifier : Type 0 where
  pub key : RsaPublicKey
  pub jwk : Jwk
  pub ops : List KeyOps
  pub alg : Alg

-- `ECVerificationKeyImpl`
pub record EcVerifier : Type 0 where
  pub key : EcPublicKey
  pub jwk : Jwk
  pub ops : List KeyOps
  pub alg : Alg

-- the implementations of the interface `VerificationKey`
pub data VerificationKey : Type 0 where
  rsa_key : RsaVerifier → VerificationKey
  ec_key : EcVerifier → VerificationKey

abbrev pub kid : VerificationKey → String
kid (rsa_key k) = Jwk.kid k.jwk
kid (ec_key k) = Jwk.kid k.jwk

abbrev pub algorithm : VerificationKey → Alg
algorithm (rsa_key k) = k.alg
algorithm (ec_key k) = k.alg

-- the algorithm that a certificate's own signature names
alg_of_signature : SignatureAlgorithm → Alg → Alg
alg_of_signature sha256_with_rsa _ = alg_rs256
alg_of_signature sha384_with_rsa _ = alg_rs384
alg_of_signature sha512_with_rsa _ = alg_rs512
alg_of_signature sha256_with_rsa_pss _ = alg_ps256
alg_of_signature sha384_with_rsa_pss _ = alg_ps384
alg_of_signature sha512_with_rsa_pss _ = alg_ps512
alg_of_signature other_signature_algorithm a = a

-- the algorithm of an RSA key, from its first certificate where the JWK names none; a nil
-- certificate is a nil dereference
fallback_alg : Alg → List (Option Certificate) → Result Alg
unfolding alg_of_signature
fallback_alg a [] = ok a
fallback_alg a (none ∷ chain) = if str_eq a "" then err (panics "nil certificate") else ok a
fallback_alg a (some c ∷ chain) =
    if str_eq a "" then ok (alg_of_signature c.signature_algorithm a) else ok a

pub is_rsa_signature_alg : Alg → Bool
is_rsa_signature_alg a =
    str_eq a alg_ps256
    || str_eq a alg_ps384
    || str_eq a alg_ps512
    || str_eq a alg_rs256
    || str_eq a alg_rs384
    || str_eq a alg_rs512

pub is_ec_signature_alg : Alg → Bool
is_ec_signature_alg a = str_eq a alg_es256 || str_eq a alg_es384 || str_eq a alg_es512

-- the operations that the new key is limited to
verification_ops : List KeyOps → Result (List KeyOps)
verification_ops [] = ok valid_verification_ops
verification_ops (o ∷ have) = elim (intersection valid_verification_ops (o ∷ have)) [
  | [] ↦ err (gose_error invalid_operations)
  | v ∷ valid ↦ ok (v ∷ valid)
]

-- the key, unless exponent or modulus is out of bounds
rsa_within : List KeyOps → Jwk → PublicRsaKeyFields → Alg → Checked → Result VerificationKey × Jwk
rsa_within valid jwk k a (err e) = (err e, jwk)
rsa_within valid jwk k a (ok _) =
    let limited = set_ops valid jwk in
    (
      ok (
          rsa_key
            (record { key = record { n = k.n; e = k.e }; jwk = limited; ops = valid; alg = a })),
      limited,
    )

-- the algorithm has been found, and is written to the JWK
rsa_labelled :
    List KeyOps → JwkFields → PublicRsaKeyFields → Result Alg → Result VerificationKey × Jwk
unfolding is_rsa_signature_alg check_rsa_bounds rsa_within
rsa_labelled valid j k (err e) = (err e, public_rsa j k)
rsa_labelled valid j k (ok a) =
    let jwk = public_rsa (record j { key_alg = a }) k in
    if is_rsa_signature_alg a
    then rsa_within valid jwk k a (check_rsa_bounds k)
    else (err (gose_error GoseError.unsupported_key_type), jwk)

-- the two cases of the type switch, each with the JWK as it leaves it
new_rsa_verifier : List KeyOps → JwkFields → PublicRsaKeyFields → Result VerificationKey × Jwk
unfolding fallback_alg rsa_labelled
new_rsa_verifier valid j k = rsa_labelled valid j k (fallback_alg j.key_alg j.key_x5c)

ec_curve_asserted :
    Option SignerOpts → JwkFields → PublicEcKeyFields → List KeyOps → Result VerificationKey
ec_curve_asserted (some (ecdsa o)) j k valid = ok (
    ec_key (record {
      key = record { curve = o.curve; x = k.x; y = k.y };
      jwk = public_ec j k;
      ops = valid;
      alg = j.key_alg;
    }))
ec_curve_asserted _ j k valid = err (panics "interface conversion")

new_ec_verifier : List KeyOps → JwkFields → PublicEcKeyFields → Result VerificationKey × Jwk
unfolding is_ec_signature_alg ec_curve_asserted opts_for_alg
new_ec_verifier valid j k =
    if is_ec_signature_alg j.key_alg
    then (ec_curve_asserted (opts_for_alg j.key_alg) j k valid, public_ec j k)
    else (err (gose_error GoseError.unsupported_key_type), public_ec j k)

new_key_of : List KeyOps → Jwk → Result VerificationKey × Jwk
unfolding new_rsa_verifier new_ec_verifier
new_key_of valid (public_rsa j k) = new_rsa_verifier valid j k
new_key_of valid (public_ec j k) = new_ec_verifier valid j k
new_key_of valid jwk = (err (gose_error GoseError.unsupported_key_type), jwk)

limited_to : Result (List KeyOps) → Jwk → Result VerificationKey × Jwk
unfolding new_key_of
limited_to (err e) jwk = (err e, jwk)
limited_to (ok valid) jwk = new_key_of valid jwk

-- `NewVerificationKey`: the key or the error, and the JWK, which the call may have changed
unfoldable pub new_verification_key : Jwk → Result VerificationKey × Jwk
unfolding verification_ops limited_to
new_verification_key jwk = limited_to (verification_ops (Jwk.ops jwk)) jwk

-- `NewRsaPublicKeyImpl`
unfoldable pub new_rsa_public_key_impl : Jwk → Result RsaVerifier
new_rsa_public_key_impl jwk = do
  key ← load_public_key jwk []
  elim key [
    | rsa_public k ↦ ok (record { key = k; jwk = jwk; ops = Jwk.ops jwk; alg = Jwk.alg jwk })
    | ecdsa_public k ↦ err (gose_error invalid_key_type)
  ]

module _ (crypto : Crypto) where
  rsa_verify_with : RsaVerifier → Option SignerOpts → Bytes → Bytes → Result Bool
  rsa_verify_with k none text signature = ok false
  rsa_verify_with k (some opts) text signature =
      let digest = crypto.digest (hash_func opts) text in
      if is_listed pss_algs k.alg
      then elim opts [
        | pss salt h ↦ ok (crypto.verify_pss k.key h salt digest signature)
        | _ ↦ err (panics "interface conversion")
      ]
      else ok (crypto.verify_pkcs1v15 k.key (hash_func opts) digest signature)

  -- `RsaPublicKeyImpl.Verify`
  unfoldable pub rsa_verify : RsaVerifier → KeyOps → Bytes → Bytes → Result Bool
  unfolding rsa_verify_with opts_for_alg
  rsa_verify k operation text signature =
      if permits valid_verification_ops k.ops operation
      then rsa_verify_with k (opts_for_alg k.alg) text signature
      else ok false

  ec_verify_with : EcVerifier → Option SignerOpts → Bytes → Bytes → Result Bool
  ec_verify_with k (some (ecdsa o)) text signature =
      if length signature == 2 * o.key_size_bytes
      then (if crypto.is_available o.hash
          then ok (
              crypto.ecdsa_verify k.key (crypto.digest o.hash text)
                (from_bytes (take o.key_size_bytes signature))
                (from_bytes (drop o.key_size_bytes signature)))
          else ok false)
      else ok false
  ec_verify_with k _ text signature = err (panics "interface conversion")

  -- `ECVerificationKeyImpl.Verify`
  unfoldable pub ec_verify : EcVerifier → KeyOps → Bytes → Bytes → Result Bool
  unfolding ec_verify_with opts_for_alg
  ec_verify k operation text signature =
      if permits valid_verification_ops k.ops operation
      then ec_verify_with k (opts_for_alg k.alg) text signature
      else ok false

  unfoldable pub verify : VerificationKey → KeyOps → Bytes → Bytes → Result Bool
  verify (rsa_key k) operation text signature = rsa_verify k operation text signature
  verify (ec_key k) operation text signature = ec_verify k operation text signature
