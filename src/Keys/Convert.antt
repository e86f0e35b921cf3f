-- ===== src/Keys/Convert.antt =====
-- helpers.go: `PublicFromPrivate`, `JwkFromPrivateKey` and `JwkFromPublicKey`, which make JWKs.
pub mod Halves
pub mod Reload
pub mod ReloadPublic
pub mod Operations
use gose.Prelude.{
  ℕ, ◌+◌, ◌-◌, ◌*◌, ◌/◌, ◌%◌, ◌^◌, String, Bool, true, false, not, ◌||◌, Option, none, some, List,
  [], ◌∷◌, map, Dict, get, ltb, leb, ◌==◌, str_eq, length, take, drop, if◌then◌else◌,
}
use gose.Bytes.{Bytes}
use gose.Bytes.BigEndian.{from_bytes}
use gose.Bytes.Minimal.{big_bytes, left_padded}
use gose.Error.{
  Result, ok, err, guard, ◌>>=◌, ◌>>◌, gose_error, GoseError, invalid_key_type, invalid_exponent,
}
use gose.Crypto.{
  Crypto, Certificate, Curve, bit_size, curve_name, RsaPublicKey, RsaPrivateKey, EcPublicKey,
  EcPrivateKey,
}
use gose.Jose.Types.{
  Alg, KeyOps, alg_ps256, alg_ps384, alg_ps512, alg_es256, alg_es384, alg_es512, alg_rsa_oaep,
  key_ops_sign, key_ops_verify, key_ops_encrypt, key_ops_decrypt,
}
use gose.Jose.Jwk.{
  Jwk, JwkFields, PublicRsaKeyFields, PrivateRsaKeyFields, PublicEcKeyFields, public_rsa,
  private_rsa, public_ec, private_ec, set_ops, set_alg, set_kid, set_x5c, ops, alg, kid, x5c,
}
use gose.Keys.Options.{ecdsa_curve_for_alg}
use gose.Keys.Load.{
  PublicKey, Signer, rsa_public, ecdsa_public, rsa_signer, ecdsa_signer, bit_len_above,
}
use gose.Keys.Identity.{calculate_key_id}

abbrev pub inverse_ops : Dict KeyOps
inverse_ops =
    (key_ops_encrypt, key_ops_decrypt)
    ∷ (key_ops_decrypt, key_ops_encrypt)
    ∷ (key_ops_sign, key_ops_verify)
    ∷ (key_ops_verify, key_ops_sign)
    ∷ []

-- `inverseOps[op]`, where an operation that is missing gives the empty string
unfoldable pub inverse_op : KeyOps → KeyOps
inverse_op op = elim (get op inverse_ops) [ none ↦ "" | some inverse ↦ inverse ]

-- `rsaBitsToAlg` for a modulus, of which `BitLen` is compared
rsa_bits_to_alg : ℕ → Alg
rsa_bits_to_alg n =
    if bit_len_above 15359 n
    then alg_ps512
    else if bit_len_above 7679 n
    then alg_ps384
    else alg_ps256

-- `rsaAlgFromOps`
unfoldable pub rsa_alg_from_ops : ℕ → List KeyOps → Alg
unfolding rsa_bits_to_alg
rsa_alg_from_ops n [] = rsa_bits_to_alg n
rsa_alg_from_ops n (op ∷ rest) =
    let later = rsa_alg_from_ops n rest in
    if str_eq op key_ops_encrypt || str_eq op key_ops_decrypt then alg_rsa_oaep else later

-- `ecBitsToAlg`
unfoldable pub ec_bits_to_alg : ℕ → Alg
ec_bits_to_alg bits =
    if bits == 256
    then alg_es256
    else if bits == 384
    then alg_es384
    else if bits == 521
    then alg_es512
    else "Unsupported"

-- `ecdhCurveFor`, which refuses a curve that crypto/ecdh does not have
ecdh_curve_for : Curve → Result Curve
ecdh_curve_for (Curve.other_curve name bits) = err (gose_error invalid_key_type)
ecdh_curve_for curve = ok curve

-- the coordinates of an uncompressed point of `size` bytes each
point_of : ℕ → Bytes → Result (ℕ × ℕ)
point_of size encoded = do
  guard (length encoded == 1 + 2 * size) (gose_error invalid_key_type)
  ok (from_bytes (take size (drop 1 encoded)), from_bytes (drop (1 + size) encoded))

-- the members that a new JWK has before any is set
abbrev pub no_fields : JwkFields
no_fields = record {
  key_use = "";
  key_ops = [];
  key_alg = "";
  key_kid = "";
  key_x5c = [];
  key_x5t = none;
}

-- what `PublicFromPrivate` sets on the public key
unfoldable pub publish : Jwk → Jwk → Jwk
unfolding inverse_op
publish private public =
    set_x5c (x5c private) (
      set_ops (map inverse_op (ops private)) (set_alg (alg private) (set_kid (kid private) public)))

-- `if len(certs) > 0 { jwk.SetX5C(certs) }`
unfoldable pub with_certs : List (Option Certificate) → Jwk → Jwk
with_certs [] jwk = jwk
with_certs (c ∷ certs) jwk = set_x5c (c ∷ certs) jwk

abbrev pub max_int_32 : ℕ
max_int_32 = 2 ^ 31 - 1

module _ (crypto : Crypto) where
  -- `ecPointFromScalar`; a scalar below the group order fits in the bytes that it is padded to
  pub ec_point_from_scalar : Curve → ℕ → Result (ℕ × ℕ)
  unfolding ecdh_curve_for point_of
  ec_point_from_scalar curve d = do
    ecdh ← ecdh_curve_for curve
    let scalar : ℕ = d % crypto.curve_order curve
    guard (not (scalar == 0)) (gose_error invalid_key_type)
    let size : ℕ = (bit_size curve + 7) / 8
    padded ← left_padded size (big_bytes scalar)
    encoded ← crypto.ecdh_public ecdh padded
    point_of size encoded

  -- the cases of the type switch
  unfoldable pub public_part : Jwk → Result Jwk
  unfolding ec_point_from_scalar ecdsa_curve_for_alg
  public_part (private_rsa j k s) = do
    guard
        (not (
          s.d == 0
          || s.q == 0
          || s.dq == 0
          || s.p == 0
          || s.dp == 0
          || s.qi == 0
          || k.n == 0
          || k.e == 0))
        (gose_error invalid_key_type)
    ok (public_rsa no_fields k)
  public_part (private_ec j k d) = do
    curve ← ecdsa_curve_for_alg j.key_alg
    guard (not (d == 0)) (gose_error invalid_key_type)
    (x, y) ← ec_point_from_scalar curve d
    ok (public_ec no_fields (record { crv = curve_name curve; x = x; y = y }))
  public_part _ = err (gose_error GoseError.unsupported_key_type)

  -- `PublicFromPrivate`
  unfoldable pub public_from_private : Jwk → Result Jwk
  unfolding public_part publish
  public_from_private jwk = do public ← public_part jwk; ok (publish jwk public)

  -- the JWK that `JwkFromPrivateKey` fills from a signer
  unfoldable pub jwk_of_signer : List KeyOps → Signer → Result Jwk
  unfolding rsa_alg_from_ops ec_bits_to_alg
  jwk_of_signer operations (rsa_signer v) = do
    guard (not (ltb max_int_32 v.public.e)) (gose_error invalid_exponent)
    let (dp, dq, qinv) = crypto.rsa_precompute v
    ok (
        private_rsa (record no_fields { key_alg = rsa_alg_from_ops v.public.n operations })
          (record { n = v.public.n; e = v.public.e })
          (record { d = v.d; p = v.p; q = v.q; dp = dp; dq = dq; qi = qinv }))
  jwk_of_signer operations (ecdsa_signer v) = ok (
      private_ec (record no_fields { key_alg = ec_bits_to_alg (bit_size v.public.curve) })
        (record { crv = curve_name v.public.curve; x = v.public.x; y = v.public.y }) v.d)

  -- `JwkFromPrivateKey`
  unfoldable pub jwk_from_private_key :
      Signer → List KeyOps → List (Option Certificate) → Result Jwk
  unfolding jwk_of_signer with_certs
  jwk_from_private_key signer operations certs = do
    made ← jwk_of_signer operations signer
    let jwk : Jwk = with_certs certs (set_ops operations made)
    public ← public_from_private jwk
    id ← calculate_key_id crypto public
    ok (set_kid id jwk)

  -- the JWK that `JwkFromPublicKey` fills from a public key
  pub jwk_of_public : List KeyOps → PublicKey → Result Jwk
  unfolding rsa_alg_from_ops ec_bits_to_alg
  jwk_of_public operations (rsa_public v) = do
    guard (not (ltb max_int_32 v.e)) (gose_error invalid_exponent)
    ok (
        public_rsa (record no_fields { key_alg = rsa_alg_from_ops v.n operations })
          (record { n = v.n; e = v.e }))
  jwk_of_public operations (ecdsa_public v) = ok (
      public_ec (record no_fields { key_alg = ec_bits_to_alg (bit_size v.curve) })
        (record { crv = curve_name v.curve; x = v.x; y = v.y }))

  -- `JwkFromPublicKey`
  unfoldable pub jwk_from_public_key :
      PublicKey → List KeyOps → List (Option Certificate) → Result Jwk
  unfolding jwk_of_public with_certs
  jwk_from_public_key key operations certs = do
    made ← jwk_of_public operations key
    let jwk : Jwk = set_ops operations made
    id ← calculate_key_id crypto jwk
    ok (with_certs certs (set_kid id jwk))
