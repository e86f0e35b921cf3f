-- ===== src/Verifier/Completeness.antt =====
-- jwt_verifier.go: the requirements on a token, in the other direction.
use gose.Prelude.{◌≤◌, String, ◌≡◌, true, false, some, List, arith, eq_iff, length, ℤ}
use gose.Bytes.{Bytes}
use gose.Error.{ok}
use gose.Crypto.{Crypto}
use gose.Jose.Types.{max_compact_size, key_ops_verify}
use gose.Jose.Jwt
use gose.Jose.Jwt.{Jwt, JwtJson, JwtClaims}
use gose.Keys.Verification
use gose.Keys.Verification.{VerificationKey, verify}
use gose.Verifier.Audience.{shares_audience_complete, SharesAudience-nonempty}
use gose.Verifier.Acceptance.{IsTimely, IsAccepted}
use gose.Verifier.{TrustSource, check_token, pre_check, check_signature, ask_store, verify_jwt}

check_token_complete :
    (now : ℤ) (audience : List String) (token : Jwt) (body : Bytes)
    → IsTimely now audience token
    → check_token now audience (token, body) ≡ ok (token, body)
unfolding check_token
check_token_complete now audience token body t = ground (
  arith,
  eq_iff token.header.kid "",
  shares_audience_complete false audience token.claims.settable.audiences t.shared,
  SharesAudience-nonempty audience token.claims.settable.audiences t.shared,
)

pre_check_complete :
    (now : ℤ) (audience : List String) (json : JwtJson) (text : Bytes) (token : Jwt) (body : Bytes)
    → length text ≤ max_compact_size
    → Jwt.unmarshal json text ≡ ok (token, body)
    → IsTimely now audience token
    → pre_check now audience json text ≡ ok (token, body)
unfolding pre_check
pre_check_complete now audience json text token body short parsed timely =
    ground (arith, check_token_complete now audience token body timely)

check_signature_complete :
    (crypto : Crypto) (token : Jwt) (body : Bytes) (key : VerificationKey)
    → Verification.algorithm key ≡ token.header.alg
    → verify crypto key key_ops_verify body token.signature ≡ ok true
    → check_signature crypto (token, body) (ok (some key)) ≡ ok (Verification.kid key, token.claims)
unfolding check_signature
check_signature_complete crypto token body key same signed =
    rw ((eq_iff (Verification.algorithm key) token.header.alg).1 same, signed)

module _ {S : Type 0} (crypto : Crypto) (json : JwtJson) (store : TrustSource S) where
  -- A token that meets the requirements of `IsAccepted` (length, form, time, audience, key ID, a
  -- trusted key of the same algorithm, a valid signature) is accepted: `Verify` asks for nothing
  -- else, and it returns the key's ID and the token's claims.
  pub IsAccepted-verify_jwt :
      (now : ℤ) (audience : List String) (text : Bytes) (s : S) (kid : String) (claims : JwtClaims)
      → IsAccepted crypto json store now audience text s kid claims
      → (verify_jwt crypto json store now audience text s).0 ≡ ok (kid, claims)
  unfolding verify_jwt ask_store
  IsAccepted-verify_jwt now audience text s kid claims a =
      rw (pre_check_complete now audience json text a.token a.body a.short a.parsed a.timely) (
        rw (a.trusted, a.key_id, a.its_claims)
          (check_signature_complete crypto a.token a.body a.key a.same_algorithm a.signed))
