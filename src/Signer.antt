-- ===== src/Signer.antt =====
-- jwt_signer.go: `JwtSignerImpl.Sign`. The clock, the UUID generator and `json.Marshal` on the values
-- of untyped claims are parameters.
pub mod Delivery
use gose.Prelude.{String, Option, none, some, List, [], ◌∷◌, Dict, put, ℤ}
use gose.Bytes.{Bytes}
use gose.Error.{Result, ok, err, ◌>>=◌}
use gose.Crypto.{Crypto}
use gose.Jose.Types.{JwsHeader, empty_header, jwt_type, key_ops_sign}
use gose.Jose.Jws.{marshal_jws}
use gose.Jose.Jwt
use gose.Jose.Jwt.{Jwt, JwtJson, SettableJwtClaims}
use gose.Keys.Signing
use gose.Keys.Signing.{PrivateCrypto, SigningKey, sign}

-- `JwtSignerImpl`
pub record JwtSigner : Type 0 where
  pub key : SigningKey
  pub issuer : String

-- the loop over the untyped claims
encode_entries {ℓ} : {V : Type ℓ} → (V → Result Bytes) → Dict V → Dict Bytes → Result (Dict Bytes)
encode_entries marshal [] encoded = ok encoded
encode_entries marshal ((k, v) ∷ rest) encoded = do
  value ← marshal v
  encode_entries marshal rest (put k value encoded)

-- a nil map is left nil
unfoldable pub encode_untyped {ℓ} :
    {V : Type ℓ} → (V → Result Bytes) → Option (Dict V) → Result (Dict Bytes)
unfolding encode_entries
encode_untyped marshal none = ok []
encode_untyped marshal (some untyped) = encode_entries marshal untyped []

-- the token, whose signature is not there yet
unfoldable pub token_for : JwtSigner → ℤ → String → SettableJwtClaims → Dict Bytes → Jwt
token_for signer now uuid claims untyped = record {
  header = record empty_header {
    alg = Signing.algorithm signer.key;
    kid = Signing.kid signer.key;
    typ = jwt_type;
  };
  claims = record {
    automatic = record { issuer = signer.issuer; issued_at = now; jwt_id = uuid };
    settable = claims;
    untyped = untyped;
  };
  signature = [];
}

module _ (crypto : Crypto) (private : PrivateCrypto) (json : JwtJson) where
  -- `Sign`, where `now` is the second that the clock shows
  unfoldable pub sign_claims {ℓ} :
      {V : Type ℓ}
      → (V → Result Bytes)
      → JwtSigner
      → ℤ
      → String
      → SettableJwtClaims
      → Option (Dict V)
      → Result Bytes
  unfolding encode_untyped token_for
  sign_claims marshal signer now uuid claims untyped = do
    encoded ← encode_untyped marshal untyped
    to_be_signed ← Jwt.marshal_body json (token_for signer now uuid claims encoded)
    signature ← sign crypto private signer.key key_ops_sign to_be_signed
    ok (marshal_jws to_be_signed signature)
