-- ===== src/Verifier.antt =====
-- jwt_verifier.go: `JwtVerifierImpl.Verify`, over any trust store.
pub mod Audience
pub mod Acceptance
pub mod Completeness
pub mod Expiry
pub mod Revoked
use gose.Prelude.{
  ℕ, String, Bool, true, false, not, ◌||◌, Option, none, some, List, [], ◌∷◌, str_eq, if◌then◌else◌,
  ltb, length, ℤ, int_leb, int_ltb,
}
use gose.Bytes.{Bytes}
use gose.Error.{
  Result, ok, err, guard, ◌>>=◌, ◌>>◌, gose_error, message, GoseError, invalid_jwt_timeframe,
  invalid_kid, unknown_key, invalid_signature,
}
use gose.Crypto.{Crypto}
use gose.Jose.Types.{max_compact_size, key_ops_verify}
use gose.Jose.Jwt
use gose.Jose.Jwt.{Jwt, JwtJson, JwtClaims}
use gose.Keys.Verification
use gose.Keys.Verification.{VerificationKey, verify}

-- the interface `TrustStore`, of which the verifier calls `Get`: an error, the nil key, or a key
pub record TrustSource (S : Type 0) : Type 0 where
  pub get_key : String → String → S → Result (Option VerificationKey) × S

-- the inner loop over the token's audiences, with the flag `found`
pub any_audience : Bool → String → List String → Bool
any_audience found candidate [] = found
any_audience found candidate (aud ∷ rest) =
    any_audience (found || str_eq candidate aud) candidate rest

pub shares_audience : Bool → List String → List String → Bool
unfolding any_audience
shares_audience found [] auds = found
shares_audience found (candidate ∷ rest) auds =
    shares_audience (any_audience found candidate auds) rest auds

pub is_empty {ℓ} : {A : Type ℓ} → List A → Bool
is_empty [] = true
is_empty (_ ∷ _) = false

module _ (now : ℤ) (audience : List String) where
  -- what is checked before the trust store is asked
  check_token : Jwt × Bytes → Result (Jwt × Bytes)
  unfolding is_empty shares_audience
  check_token (token, body) = do
    let claims = token.claims.settable
    guard (not (int_ltb now claims.not_before)) (gose_error invalid_jwt_timeframe)
    guard (not (int_leb claims.expiration now)) (gose_error invalid_jwt_timeframe)
    guard (not (is_empty claims.audiences || is_empty audience)) (message "no expected audience")
    guard (shares_audience false audience claims.audiences) (message "no expected audience")
    guard (not (str_eq token.header.kid "")) (gose_error invalid_kid)
    ok (token, body)

  pre_check : JwtJson → Bytes → Result (Jwt × Bytes)
  unfolding check_token
  pre_check json text = do
    guard (not (ltb max_compact_size (length text))) (gose_error GoseError.input_too_large)
    parsed ← Jwt.unmarshal json text
    check_token parsed

-- a nil key is an unknown key, whatever error came with it
found_key : Result (Option VerificationKey) → Result VerificationKey
found_key (ok (some key)) = ok key
found_key _ = err (gose_error unknown_key)

check_signature :
    Crypto → Jwt × Bytes → Result (Option VerificationKey) → Result (String × JwtClaims)
unfolding found_key
check_signature crypto (token, body) answer = do
  key ← found_key answer
  guard (str_eq (Verification.algorithm key) token.header.alg)
      (gose_error GoseError.invalid_algorithm)
  valid ← verify crypto key key_ops_verify body token.signature
  guard valid (gose_error invalid_signature)
  ok (Verification.kid key, token.claims)

module _ {S : Type 0} (crypto : Crypto) (json : JwtJson) (store : TrustSource S) where
  ask_store : Result (Jwt × Bytes) → S → Result (String × JwtClaims) × S
  unfolding check_signature
  ask_store (err e) s = (err e, s)
  ask_store (ok (token, body)) s =
      let (answer, s') = store.get_key token.claims.automatic.issuer token.header.kid s in
      (check_signature crypto (token, body) answer, s')

  -- `JwtVerifierImpl.Verify`
  unfoldable pub verify_jwt : ℤ → List String → Bytes → S → Result (String × JwtClaims) × S
  unfolding pre_check ask_store
  verify_jwt now audience text s = ask_store (pre_check now audience json text) s
