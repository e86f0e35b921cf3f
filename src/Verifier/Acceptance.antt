-- ===== src/Verifier/Acceptance.antt =====
-- jwt_verifier.go: the requirements on a token that is accepted.
use mathlib.Core.Bool.{false≢true}
use gose.Prelude.{
  ◌≤◌, String, ◌≡◌, ◌≢◌, refl, true, false, not, ◌||◌, Option, none, some, List, arith, str_eq,
  eq_iff, ltb, length, ℤ, ◌≤ℤ◌, ◌<ℤ◌, int_leb, int_ltb, inl, inr,
}
use gose.Bytes.{Bytes}
use gose.Error.{Result, ok, err, >>=-eq-ok, guard->>-eq-ok}
use gose.Crypto.{Crypto}
use gose.Jose.Types.{max_compact_size, key_ops_verify}
use gose.Jose.Jwt
use gose.Jose.Jwt.{Jwt, JwtJson, JwtClaims}
use gose.Keys.Verification
use gose.Keys.Verification.{VerificationKey, verify}
use gose.Verifier.Audience.{SharesAudience, shares_audience_sound}
use gose.Verifier.{
  TrustSource, shares_audience, is_empty, check_token, pre_check, found_key, check_signature,
  ask_store, verify_jwt,
}

-- the requirements on a token before the trust store is asked
pub record IsTimely (now : ℤ) (audience : List String) (token : Jwt) : Type 0 where
  pub started : token.claims.settable.not_before ≤ℤ now
  pub not_over : now <ℤ token.claims.settable.expiration
  pub shared : SharesAudience audience token.claims.settable.audiences
  pub has_kid : token.header.kid ≢ ""

check_token_sound :
    (now : ℤ) (audience : List String) (token : Jwt) (body : Bytes) {r : Jwt × Bytes}
    → check_token now audience (token, body) ≡ ok r
    → IsTimely now audience token × (r ≡ (token, body))
unfolding check_token
check_token_sound now audience token body h =
    let c = token.claims.settable in
    let (g₁, h₁) = guard->>-eq-ok (not (int_ltb now c.not_before)) _ _ h in
    let (g₂, h₂) = guard->>-eq-ok (not (int_leb c.expiration now)) _ _ h₁ in
    let (g₃, h₃) = guard->>-eq-ok (not (is_empty c.audiences || is_empty audience)) _ _ h₂ in
    let (g₄, h₄) = guard->>-eq-ok (shares_audience false audience c.audiences) _ _ h₃ in
    let (g₅, h₅) = guard->>-eq-ok (not (str_eq token.header.kid "")) _ _ h₄ in
    (
      record {
        started = ground (arith, g₁);
        not_over = ground (arith, g₂);
        shared = elim (shares_audience_sound false audience c.audiences g₄) [
          | inl e ↦ absurd (false≢true e)
          | inr m ↦ m
        ];
        has_kid = ground (arith, g₅, eq_iff token.header.kid "");
      },
      cc h₅,
    )

-- everything that an accepted token has been checked for, with the state that it leaves
pub record IsAccepted {S : Type 0} (crypto : Crypto) (json : JwtJson) (store : TrustSource S)
    (now : ℤ) (audience : List String) (text : Bytes) (s : S) (kid : String) (claims : JwtClaims)
    : Type 0 where
  pub token : Jwt
  pub body : Bytes
  pub key : VerificationKey
  pub short : length text ≤ max_compact_size
  pub parsed : Jwt.unmarshal json text ≡ ok (token, body)
  pub timely : IsTimely now audience token
  pub trusted : (store.get_key token.claims.automatic.issuer token.header.kid s).0 ≡ ok (some key)
  pub same_algorithm : Verification.algorithm key ≡ token.header.alg
  pub signed : verify crypto key key_ops_verify body token.signature ≡ ok true
  pub key_id : kid ≡ Verification.kid key
  pub its_claims : claims ≡ token.claims

found_key_sound :
    (answer : Result (Option VerificationKey)) (k : VerificationKey)
    → found_key answer ≡ ok k
    → answer ≡ ok (some k)
unfolding found_key
found_key_sound (ok (some key)) k h = cc h
found_key_sound (ok none) k h = cc h
found_key_sound (err e) k h = cc h

pre_check_sound :
    (now : ℤ) (audience : List String) (json : JwtJson) (text : Bytes) (token : Jwt) (body : Bytes)
    → pre_check now audience json text ≡ ok (token, body)
    → (length text ≤ max_compact_size)
      × (Jwt.unmarshal json text ≡ ok (token, body))
      × IsTimely now audience token
unfolding pre_check
pre_check_sound now audience json text token body h =
    let (g, h₁) = guard->>-eq-ok (not (ltb max_compact_size (length text))) _ _ h in
    let ((t, b), e, h₂) = >>=-eq-ok (Jwt.unmarshal json text) (check_token now audience) h₁ in
    let (timely, same) = check_token_sound now audience t b h₂ in
    let (p, q) : (token ≡ t) × (body ≡ b) = (cc same, cc same) in
    (ground (arith, g), cc (e, same), rw p timely)

check_signature_sound :
    (crypto : Crypto) (token : Jwt) (body : Bytes) (answer : Result (Option VerificationKey))
    (kid : String) (claims : JwtClaims)
    → check_signature crypto (token, body) answer ≡ ok (kid, claims)
    → (key : VerificationKey) × (answer ≡ ok (some key))
      × (Verification.algorithm key ≡ token.header.alg)
      × (verify crypto key key_ops_verify body token.signature ≡ ok true)
      × (kid ≡ Verification.kid key)
      × (claims ≡ token.claims)
unfolding check_signature
check_signature_sound crypto token body answer kid claims h =
    let (key, e, h₁) = >>=-eq-ok (found_key answer) _ h in
    let a = Verification.algorithm key in
    let (g, h₂) = guard->>-eq-ok (str_eq a token.header.alg) _ _ h₁ in
    let (valid, v, h₃) = >>=-eq-ok (verify crypto key key_ops_verify body token.signature) _ h₂ in
    let (good, h₄) = guard->>-eq-ok valid _ _ h₃ in
    (key, found_key_sound answer key e, (eq_iff a token.header.alg).0 g, cc (v, good), cc h₄, cc h₄)

module _ {S : Type 0} (crypto : Crypto) (json : JwtJson) (store : TrustSource S) where
  asked_store :
      (now : ℤ) (audience : List String) (text : Bytes) (s : S) (kid : String) (claims : JwtClaims)
      (r : Result (Jwt × Bytes))
      → pre_check now audience json text ≡ r
      → (ask_store crypto json store r s).0 ≡ ok (kid, claims)
      → IsAccepted crypto json store now audience text s kid claims
  unfolding ask_store
  asked_store now audience text s kid claims (err e) p h = cc h
  asked_store now audience text s kid claims (ok (token, body)) p h =
      let (short, parsed, timely) = pre_check_sound now audience json text token body p in
      let answer = (store.get_key token.claims.automatic.issuer token.header.kid s).0 in
      let (key, trusted, same_algorithm, signed, key_id, its_claims) =
        check_signature_sound crypto token body answer kid claims h in
      record {
        token = token;
        body = body;
        key = key;
        short = short;
        parsed = parsed;
        timely = timely;
        trusted = trusted;
        same_algorithm = same_algorithm;
        signed = signed;
        key_id = key_id;
        its_claims = its_claims;
      }

  pub verify_jwt-IsAccepted :
      (now : ℤ) (audience : List String) (text : Bytes) (s : S) (kid : String) (claims : JwtClaims)
      → (verify_jwt crypto json store now audience text s).0 ≡ ok (kid, claims)
      → IsAccepted crypto json store now audience text s kid claims
  unfolding verify_jwt
  verify_jwt-IsAccepted now audience text s kid claims h =
      asked_store now audience text s kid claims (pre_check now audience json text) refl h
