-- ===== src/Jose/Jwt/Written.antt =====
-- jose/jwt.go: a token that `MarshalBody` wrote is read back by `Unmarshal`.
use gose.Prelude.{Dict, ◌≤◌, ◌≡◌, ◌≢◌, refl, [], ◌∷◌, ◌++◌, length}
use gose.Bytes.{Bytes, IsBytes}
use gose.Bytes.Base64.{encode}
use gose.Error.{ok, >>=-eq-ok}
use gose.Jose.Types.{max_compact_size}
use gose.Jose.Jws.{dot, marshal_jws, check_type}
use gose.Jose.Jws
use gose.Jose.Jws.Written.{unmarshal-marshal_jws}
use gose.Jose.Jwt
use gose.Jose.Jwt.{
  Jwt, JwtJson, JwtClaims, SettableJwtClaims, unmarshal_claims, marshal_claims, verify_form,
  checked_token,
}
use gose.Jose.Jwt.Members.{DistinctNames}
use gose.Jose.Jwt.RoundTrip.{IsFaithful, unmarshal_claims-marshal_claims}

-- `encoding/json` writes bytes for the header of a token, which are read back, and is faithful for
-- the members of its claims
pub record ReadsBack (json : JwtJson) (token : Jwt) : Type 0 where
  pub header_back :
      (w : Bytes)
      → json.marshal_header token.header ≡ ok w
      → IsBytes w × (json.header w ≡ ok token.header)
  pub faithful :
      (typed : Bytes) (m : Dict Bytes)
      → json.marshal_typed token.claims.automatic token.claims.settable ≡ ok typed
      → json.members typed ≡ ok m
      → IsFaithful json token.claims typed m

-- what `MarshalBody` has checked and written
body_steps :
    (json : JwtJson) (token : Jwt) (body : Bytes)
    → Jwt.marshal_body json token ≡ ok body
    → (verify_form token ≡ ok tt)
      × (head : Bytes) × (claims : Bytes) × (json.marshal_header token.header ≡ ok head)
      × (marshal_claims json token.claims ≡ ok claims)
      × (body ≡ encode head ++ dot ∷ encode claims)
unfolding Jwt.marshal_body Jws.marshal_body
body_steps json token body h =
    let (_, formed, h₁) = >>=-eq-ok (verify_form token) _ h in
    let (_, _, h₂) = >>=-eq-ok (check_type token.header) _ h₁ in
    let (head, e, h₃) = >>=-eq-ok (json.marshal_header token.header) _ h₂ in
    let (claims, e', h₄) = >>=-eq-ok (marshal_claims json token.claims) _ h₃ in
    (formed, head, claims, e, e', cc h₄)

-- the form of a token does not depend on its signature
unsigned :
    (token : Jwt) (signature : Bytes)
    → verify_form token ≡ ok tt
    → verify_form (record token { signature = signature }) ≡ ok tt
unfolding verify_form
unsigned token signature h = h

-- the token that is read has the signature, too
pub read_back :
    (json : JwtJson) (token : Jwt) (body signature : Bytes)
    → ReadsBack json token
    → DistinctNames token.claims.untyped
    → token.claims.settable.audiences ≢ []
    → Jwt.marshal_body json token ≡ ok body
    → IsBytes signature
    → length (marshal_jws body signature) ≤ max_compact_size
    → Jwt.unmarshal json (marshal_jws body signature)
      ≡ ok (record token { signature = signature }, body)
unfolding Jwt.unmarshal checked_token
read_back json token body signature reads distinct some_audience h bs short =
    let (formed, head, claims, e, e', whole) = body_steps json token body h in
    let (bh, hb) = reads.header_back head e in
    let (bc, cb) =
      unmarshal_claims-marshal_claims json token.claims claims reads.faithful distinct some_audience
        e' in
    let parsed =
      unmarshal-marshal_jws json.header (unmarshal_claims json) head claims signature token.header
        token.claims bh bc bs hb cb (rw whole at short) in
    rw (whole, parsed, unsigned token signature formed) refl
