-- ===== src/Jose/Jwk/Parse.antt =====
-- jose/jwk.go: `UnmarshalJwk` and the `UnmarshalJSON` methods. `encoding/json` is a parameter.
pub mod Sound
use gose.Prelude.{ℕ, suc, if◌then◌else◌, ltb, ◌==◌, str_eq, length, take, not}
use gose.Bytes.{Bytes}
use gose.Error.{Result, ok, err, guard, ◌>>=◌, ◌>>◌, jose_error, JoseError, unexpected_key_type}
use gose.Crypto.{Crypto}
use gose.Jose.Types.{max_jwks_size}
use gose.Jose.Jwk.{
  Kty, kty_rsa, kty_ec, kty_oct, JwkFields, PublicRsaKeyFields, PrivateRsaKeyFields,
  PublicEcKeyFields, Jwk, public_rsa, private_rsa, public_ec, private_ec, oct_secret,
  check_consistency, check_rsa, check_ec,
}

-- `json.Unmarshal` into the structures of jose/jwk.go; a member that is absent has its zero value
pub record JwkJson : Type 0 where
  pub key_type : Bytes → Result Kty
  pub rsa_members : Bytes → Result (Kty × JwkFields × PublicRsaKeyFields × PrivateRsaKeyFields)
  pub ec_members : Bytes → Result (Kty × JwkFields × PublicEcKeyFields × ℕ)
  pub oct_members : Bytes → Result (Kty × JwkFields × Bytes)

-- a key with no private part is a public one
rsa_of : JwkFields → PublicRsaKeyFields → PrivateRsaKeyFields → Jwk
rsa_of j k s = if s.d == 0 then public_rsa j k else private_rsa j k s

ec_of : JwkFields → PublicEcKeyFields → ℕ → Jwk
ec_of j k d = if d == 0 then public_ec j k else private_ec j k d

module _ (crypto : Crypto) (json : JwkJson) where
  -- `PrivateRsaKey.UnmarshalJSON`
  unmarshal_rsa : Bytes → Result (JwkFields × PublicRsaKeyFields × PrivateRsaKeyFields)
  unmarshal_rsa src = do
    (kind, j, k, s) ← json.rsa_members src
    guard (str_eq kind kty_rsa) (jose_error unexpected_key_type)
    check_consistency crypto j
    check_rsa k j
    ok (j, k, s)

  -- `PrivateEcKey.UnmarshalJSON`
  unmarshal_ec : Bytes → Result (JwkFields × PublicEcKeyFields × ℕ)
  unmarshal_ec src = do
    (kind, j, k, d) ← json.ec_members src
    guard (str_eq kind kty_ec) (jose_error unexpected_key_type)
    check_consistency crypto j
    check_ec k j
    ok (j, k, d)

  -- `OctSecretKey.UnmarshalJSON`
  unmarshal_oct : Bytes → Result (JwkFields × Bytes)
  unmarshal_oct src = do
    (kind, j, k) ← json.oct_members src
    guard (str_eq kind kty_oct) (jose_error unexpected_key_type)
    check_consistency crypto j
    ok (j, k)

  rsa_case : Bytes → Result Jwk
  unfolding rsa_of
  rsa_case src = do (j, k, s) ← unmarshal_rsa src; ok (rsa_of j k s)

  ec_case : Bytes → Result Jwk
  unfolding ec_of
  ec_case src = do (j, k, d) ← unmarshal_ec src; ok (ec_of j k d)

  oct_case : Bytes → Result Jwk
  oct_case src = do (j, k) ← unmarshal_oct src; ok (oct_secret j k)

  dispatch : Kty → Bytes → Result Jwk
  unfolding rsa_case ec_case oct_case
  dispatch kind src =
      if str_eq kind kty_rsa
      then rsa_case src
      else if str_eq kind kty_ec
      then ec_case src
      else if str_eq kind kty_oct
      then oct_case src
      else err (jose_error JoseError.unsupported_key_type)

  -- `UnmarshalJwk`, on what the reader supplies
  unfoldable pub unmarshal_jwk : Bytes → Result Jwk
  unfolding unmarshal_rsa unmarshal_ec unmarshal_oct dispatch
  unmarshal_jwk content =
      let src = take (suc max_jwks_size) content in
      do
        guard (not (ltb max_jwks_size (length src))) (jose_error JoseError.input_too_large)
        kind ← json.key_type src
        dispatch kind src
