-- ===== src/Examples/Tokens.antt =====
-- Examples for the tokens, the verifier and the trust store.
use gose.Prelude.{
  ◌++◌, ◌≡◌, ◌≢◌, ◌↔◌, ◌≤◌, refl, true, false, eq_iff, pos, ◌<ℤ◌, [], ◌∷◌, Dict, get, put, delete,
  none, arith, All, Has, length,
}
use gose.Bytes.{Bytes, bytes_eq, codes}
use gose.Bytes.BigEndian.{from_bytes}
use gose.Bytes.Base64.{encode, decode}
use gose.Bytes.Split.{Lacks, split_n, join}
use gose.Error.{ok, err, gose_error, unknown_key}
use gose.KeyOps.{is_subset, permits, intersection, valid_cryptor_ops, valid_decryption_ops}
use gose.Jose.Types.{key_ops_decrypt}
use gose.KeyOps.Policy.{is_subset_iff, permits_iff}
use gose.Jose.Jwk.{check_consistency, max_key_ops}
use gose.Jose.Jwk.Consistency.{Distinct, FingerprintAgrees, check_consistency_iff}
use gose.Jose.Jws
use gose.Jose.Jws.{
  Parsed, marshal_jws, unmarshal_url_base64, decode_segment, strict_compact_b64,
  unmarshal_audiences, check_type,
}
use gose.Jose.Jws.Canonical.{marshal_jws-unmarshal}
use gose.Jose.Jwt
use gose.Jose.Jwt.{Jwt, unmarshal_claims, reserved_jwt_claims}
use gose.Jose.Jwt.Claims.{Absent, unmarshal_claims_sound}
use gose.Keys.Load.{is_listed}
use gose.Keys.Verification
use gose.Keys.Verification.Material.{material}
use gose.TrustStore
use gose.TrustStore.{remove, get_key, run, add_op, remove_op, get_op}
use gose.TrustStore.View.{stored}
use gose.TrustStore.Revocation.{remove_is_final}
use gose.TrustStore.Retention.{Holds, run-Holds}
use gose.Verifier.{verify_jwt}
use gose.Verifier.Acceptance.{verify_jwt-IsAccepted}
use gose.Verifier.Completeness.{IsAccepted-verify_jwt}
use gose.Verifier.Expiry.{accepted_expires}
use gose.Verifier.Revoked.{key_store, removed_key_verifies_nothing}
use gose.Examples.Inputs.{
  toy_crypto, toy_json, key_fields, rsa_jwk, other_jwk, one_key, two_keys, token_text, token_claims,
}

token_accepted :
    (verify_jwt toy_crypto toy_json key_store (pos 50) ("bob" ∷ []) token_text one_key).0
    ≡ ok ("k1", token_claims)
unfolding verify_jwt TrustStore.add TrustStore.get_key Jwt.unmarshal Jws.unmarshal
    Jwt.unmarshal_claims Jwt.verify_form unmarshal_url_base64 decode_segment strict_compact_b64
    decode encode split_n join unmarshal_audiences check_type Verification.new_verification_key
    Verification.verify from_bytes bytes_eq delete intersection Verification.rsa_verify permits
    is_listed
token_accepted = refl

IsAccepted-verify_jwt_example :
    (verify_jwt toy_crypto toy_json key_store (pos 50) ("bob" ∷ []) token_text one_key).0
    ≡ ok ("k1", token_claims)
IsAccepted-verify_jwt_example =
    IsAccepted-verify_jwt toy_crypto toy_json key_store (pos 50) ("bob" ∷ []) token_text one_key
      "k1" token_claims
      (verify_jwt-IsAccepted toy_crypto toy_json key_store (pos 50) ("bob" ∷ []) token_text one_key
        "k1" token_claims token_accepted)

accepted_expires_example :
    (first : Bytes) × (segment : Bytes) × (third : Bytes) × (raw : Bytes) × (members : Dict Bytes)
    × (token_text ≡ first ++ Jws.dot ∷ (segment ++ Jws.dot ∷ third))
    × Lacks Jws.dot first
    × Lacks Jws.dot segment
    × (decode_segment segment ≡ ok raw)
    × (toy_json.members raw ≡ ok members)
    × (unmarshal_claims toy_json raw ≡ ok token_claims)
    × (get "exp" members ≢ none)
    × (pos 50 <ℤ pos 100)
accepted_expires_example =
    accepted_expires toy_crypto toy_json key_store (pos 50) ("bob" ∷ []) token_text one_key "k1"
      token_claims (omega arith) token_accepted

key_removed : (remove "alice" "k2" two_keys).0 ≡ true
unfolding TrustStore.add remove delete get put
key_removed = refl

other_key_accepted :
    (verify_jwt toy_crypto toy_json key_store
      (pos 50)
      ("bob" ∷ [])
      token_text
      (run (get_op "alice" "k1" ∷ []) (remove "alice" "k2" two_keys).1)).0
    ≡ ok ("k1", token_claims)
unfolding verify_jwt run TrustStore.step remove get put TrustStore.add TrustStore.get_key
    Jwt.unmarshal Jws.unmarshal Jwt.unmarshal_claims Jwt.verify_form unmarshal_url_base64
    decode_segment strict_compact_b64 decode encode split_n join unmarshal_audiences check_type
    Verification.new_verification_key Verification.verify from_bytes bytes_eq delete intersection
    Verification.rsa_verify permits is_listed
other_key_accepted = refl

removed_key_verifies_nothing_example :
    (token : Jwt) × (body : Bytes) × (Jwt.unmarshal toy_json token_text ≡ ok (token, body))
    × ¬ ((token.claims.automatic.issuer ≡ "alice") × (token.header.kid ≡ "k2"))
removed_key_verifies_nothing_example =
    removed_key_verifies_nothing toy_crypto toy_json (pos 50) ("bob" ∷ []) token_text "alice" "k2"
      two_keys (get_op "alice" "k1" ∷ []) "k1" token_claims key_removed other_key_accepted

remove_is_final_example :
    (get_key "alice" "k2" (run (add_op "alice" other_jwk ∷ []) (remove "alice" "k2" two_keys).1)).0
    ≡ err (gose_error unknown_key)
remove_is_final_example =
    remove_is_final "alice" "k2" two_keys (add_op "alice" other_jwk ∷ []) key_removed

stored_at_first : Holds (material rsa_jwk) (stored "alice" "k1" two_keys)
unfolding TrustStore.add stored
stored_at_first = refl

run-Holds_example :
    Holds
      (material rsa_jwk)
      (stored "alice" "k1" (run (remove_op "alice" "k2" ∷ get_op "alice" "k1" ∷ []) two_keys))
run-Holds_example =
    run-Holds (remove_op "alice" "k2" ∷ get_op "alice" "k1" ∷ []) "alice" "k1" (material rsa_jwk)
      two_keys ((λ same. let e : false ≡ true = (eq_iff "k2" "k1").1 (same.1) in cc e), (tt, tt))
      stored_at_first

is_subset_iff_example :
    (is_subset valid_cryptor_ops valid_decryption_ops ≡ true)
    ↔ ((valid_decryption_ops ≢ []) × All (λ req. Has req valid_cryptor_ops) valid_decryption_ops)
is_subset_iff_example = is_subset_iff valid_cryptor_ops valid_decryption_ops

permits_iff_example :
    (permits valid_decryption_ops valid_cryptor_ops key_ops_decrypt ≡ true)
    ↔ (Has key_ops_decrypt valid_decryption_ops × Has key_ops_decrypt valid_cryptor_ops)
permits_iff_example = permits_iff valid_decryption_ops valid_cryptor_ops key_ops_decrypt

check_consistency_iff_example : (check_consistency toy_crypto key_fields ≡ ok tt) ↔ (
    (length key_fields.key_ops ≤ max_key_ops)
    × Distinct key_fields.key_ops
    × FingerprintAgrees toy_crypto key_fields.key_x5c key_fields.key_x5t)
check_consistency_iff_example = check_consistency_iff toy_crypto key_fields

claims_read : unmarshal_claims toy_json (100 ∷ []) ≡ ok token_claims
unfolding unmarshal_claims get delete unmarshal_audiences from_bytes
claims_read = refl

unmarshal_claims_sound_example :
    All (λ r. Absent (r.0) token_claims.untyped) reserved_jwt_claims
    × (Absent "exp" (("iss", 100 ∷ []) ∷ ("exp", 100 ∷ []) ∷ ("aud", 100 ∷ []) ∷ [])
        → token_claims.settable.expiration ≡ pos 0)
unmarshal_claims_sound_example =
    unmarshal_claims_sound toy_json (100 ∷ []) _ token_claims refl claims_read

abbrev token_parts : Parsed Bytes Bytes
token_parts = record {
  header = 1 ∷ [];
  payload = 100 ∷ [];
  signature = 3 ∷ [];
  body = codes "AQ.ZA";
}

token_parsed : Jws.unmarshal (λ b. ok b) (λ b. ok b) token_text ≡ ok token_parts
unfolding Jws.unmarshal unmarshal_url_base64 decode_segment strict_compact_b64 decode encode split_n
    join bytes_eq
token_parsed = refl

marshal_jws-unmarshal_example : marshal_jws token_parts.body token_parts.signature ≡ token_text
marshal_jws-unmarshal_example =
    marshal_jws-unmarshal (λ b. ok b) (λ b. ok b) token_text token_parts token_parsed
