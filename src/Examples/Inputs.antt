-- ===== src/Examples/Inputs.antt =====
-- The inputs of the examples: an environment of concrete functions, a key, a store and a token.
use gose.Prelude.{◌^◌, ◌+◌, ◌==◌, true, none, [], ◌∷◌, ◌++◌, pos}
use gose.Bytes.{Bytes, bytes_eq, codes}
use gose.Bytes.BigEndian.{from_bytes}
use gose.Error.{ok}
use gose.Crypto.{Crypto}
use gose.Jose.Types.{JwsHeader, empty_header, alg_rs256, key_ops_verify, jwt_type}
use gose.Jose.Jwk.{Jwk, JwkFields, public_rsa}
use gose.Jose.Jwt.{JwtJson, JwtClaims}
use gose.Jose.Jws.{json_string}
use gose.TrustStore
use gose.TrustStore.{TrustKeyStore}

-- signatures are the single byte 3
abbrev pub toy_crypto : Crypto
toy_crypto = record {
  is_available = λ _. true;
  digest = λ _ b. b;
  verify_pss = λ _ _ _ _ s. bytes_eq s (3 ∷ []);
  verify_pkcs1v15 = λ _ _ _ s. bytes_eq s (3 ∷ []);
  ecdsa_verify = λ _ _ r s. r == s;
  rsa_validate = λ _. ok tt;
  rsa_precompute = λ _. (1, 1, 1);
  curve_order = λ _. 7;
  ecdh_public = λ _ d. ok (4 ∷ d ++ d);
}

abbrev pub token_header : JwsHeader
token_header = record empty_header { alg = alg_rs256; kid = "k1"; typ = jwt_type }

-- the payload is its `exp`, and all texts are "alice"
abbrev pub toy_json : JwtJson
toy_json = record {
  header = λ _. ok token_header;
  marshal_header = λ _. ok (1 ∷ []);
  members = λ raw. ok (("iss", raw) ∷ ("exp", raw) ∷ ("aud", raw) ∷ []);
  marshal_members = λ _. ok (2 ∷ []);
  text_member = λ _. ok "alice";
  number_member = λ b. ok (pos (from_bytes b));
  shape = λ _. ok (json_string "bob");
  marshal_typed = λ _ _. ok (2 ∷ []);
}

abbrev pub key_fields : JwkFields
key_fields = record {
  key_use = "";
  key_ops = key_ops_verify ∷ [];
  key_alg = alg_rs256;
  key_kid = "k1";
  key_x5c = [];
  key_x5t = none;
}

abbrev pub rsa_jwk : Jwk
rsa_jwk = public_rsa key_fields (record { n = 2 ^ 2047 + 1; e = 65537 })

abbrev pub one_key : TrustKeyStore
one_key = (TrustStore.add "alice" rsa_jwk TrustStore.empty).1

abbrev pub other_jwk : Jwk
other_jwk =
    public_rsa (record key_fields { key_kid = "k2" }) (record { n = 2 ^ 2047 + 1; e = 65537 })

abbrev pub two_keys : TrustKeyStore
two_keys = (TrustStore.add "alice" other_jwk one_key).1

-- "AQ.ZA.Aw": the header 1, the payload 100 and the signature 3
abbrev pub token_text : Bytes
token_text = codes "AQ.ZA.Aw"

abbrev pub token_claims : JwtClaims
token_claims = record {
  automatic = record { issuer = "alice"; issued_at = pos 0; jwt_id = "" };
  settable = record {
    subject = "";
    audiences = "bob" ∷ [];
    expiration = pos 100;
    not_before = pos 0;
  };
  untyped = [];
}
