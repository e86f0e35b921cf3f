-- ===== src/Verifier/Expiry.antt =====
-- jwt_verifier.go: the `exp` claim of a token that is accepted.
use gose.Prelude.{◌≡◌, ◌≢◌, String, ℤ, pos, ◌≤ℤ◌, ◌<ℤ◌, List, ◌∷◌, ◌++◌, Dict, get, none, arith}
use gose.Bytes.{Bytes}
use gose.Bytes.Split.{Lacks, split_3-parts}
use gose.Error.{ok, >>=-eq-ok}
use gose.Crypto.{Crypto}
use gose.Jose.Jws.{dot, decode_segment, unmarshal_url_base64}
use gose.Jose.Jwt.{JwtJson, JwtClaims, unmarshal_claims}
use gose.Jose.Jwt.Claims.{unmarshal_claims_sound}
use gose.Jose.Jwt.Token.{unmarshal-IsToken}
use gose.Verifier.{TrustSource, verify_jwt}
use gose.Verifier.Acceptance.{verify_jwt-IsAccepted}

members_of_claims :
    (json : JwtJson) (raw : Bytes) (c : JwtClaims)
    → unmarshal_claims json raw ≡ ok c
    → (claims : Dict Bytes) × (json.members raw ≡ ok claims)
unfolding unmarshal_claims
members_of_claims json raw c h = let (m, e, _) = >>=-eq-ok (json.members raw) _ h in (m, e)

-- the claims of a payload segment that was read
payload_claims :
    (json : JwtJson) (segment : Bytes) (c : JwtClaims)
    → unmarshal_url_base64 (unmarshal_claims json) segment ≡ ok c
    → (raw : Bytes) × (decode_segment segment ≡ ok raw) × (unmarshal_claims json raw ≡ ok c)
unfolding unmarshal_url_base64
payload_claims json segment c h = >>=-eq-ok (decode_segment segment) (unmarshal_claims json) h

-- A verifier whose clock has passed the epoch accepts only texts of three segments between dots, the
-- second of which holds the claims it returns, with an `exp` claim among their members that lies in
-- the future.
pub accepted_expires :
    {S : Type 0} (crypto : Crypto) (json : JwtJson) (store : TrustSource S) (now : ℤ)
    (audience : List String) (text : Bytes) (s : S) (kid : String) (claims : JwtClaims)
    → pos 0 ≤ℤ now
    → (verify_jwt crypto json store now audience text s).0 ≡ ok (kid, claims)
    → (first : Bytes) × (segment : Bytes) × (third : Bytes) × (raw : Bytes) × (members : Dict Bytes)
      × (text ≡ first ++ dot ∷ (segment ++ dot ∷ third))
      × Lacks dot first
      × Lacks dot segment
      × (decode_segment segment ≡ ok raw)
      × (json.members raw ≡ ok members)
      × (unmarshal_claims json raw ≡ ok claims)
      × (get "exp" members ≢ none)
      × (now <ℤ claims.settable.expiration)
accepted_expires crypto json store now audience text s kid claims epoch h =
    let a = verify_jwt-IsAccepted crypto json store now audience text s kid claims h in
    let t = unmarshal-IsToken json text a.token a.body a.parsed in
    let (raw, decoded, read) =
      payload_claims json t.segments.second t.parsed.payload t.segments.payload_read in
    let (spelled, lacks, lacks') =
      split_3-parts dot text t.segments.first t.segments.second t.segments.third t.segments.split in
    let (members, e) = members_of_claims json raw t.parsed.payload read in
    let (_, zero_without) = unmarshal_claims_sound json raw members t.parsed.payload e read in
    let same : claims ≡ t.parsed.payload = cc (a.its_claims, t.its_claims) in
    let future : now <ℤ claims.settable.expiration = rw (a.its_claims) (a.timely.not_over) in
    (
      t.segments.first,
      t.segments.second,
      t.segments.third,
      raw,
      members,
      spelled,
      lacks,
      lacks',
      decoded,
      e,
      rw same read,
      (λ missing. past now claims epoch future (rw same (zero_without missing))),
      future,
    )
  where
    past :
        (n : ℤ) (c : JwtClaims)
        → pos 0 ≤ℤ n
        → n <ℤ c.settable.expiration
        → c.settable.expiration ≡ pos 0
        → ⊥
    past n c p q e = ground (arith)
