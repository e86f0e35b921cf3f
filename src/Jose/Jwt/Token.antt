-- ===== src/Jose/Jwt/Token.antt =====
-- What a token that parses consists of.
use gose.Prelude.{◌≡◌}
use gose.Bytes.{Bytes}
use gose.Error.{ok, >>=-eq-ok}
use gose.Jose.Types.{JwsHeader}
use gose.Jose.Jws
use gose.Jose.Jws.{dot, Parsed, unmarshal_url_base64, decode_segment, marshal_jws}
use gose.Jose.Jws.Canonical.{Segments, unmarshal-Segments}
use gose.Jose.Jwt.{Jwt, JwtJson, JwtClaims, unmarshal, unmarshal_claims, verify_form}

-- the signed text and the signature of a token, and its header and claims
pub record IsToken (json : JwtJson) (text : Bytes) (token : Jwt) (body : Bytes) : Type 0 where
  pub parsed : Parsed JwsHeader JwtClaims
  pub segments : Segments json.header (unmarshal_claims json) text parsed
  pub its_header : token.header ≡ parsed.header
  pub its_claims : token.claims ≡ parsed.payload
  pub its_signature : token.signature ≡ parsed.signature
  pub its_body : body ≡ parsed.body
  pub well_formed : verify_form token ≡ ok tt

pub unmarshal-IsToken :
    (json : JwtJson) (text : Bytes) (token : Jwt) (body : Bytes)
    → unmarshal json text ≡ ok (token, body)
    → IsToken json text token body
unfolding unmarshal
unmarshal-IsToken json text token body h =
    let (p, e, h₁) = >>=-eq-ok (Jws.unmarshal json.header (unmarshal_claims json) text) _ h in
    let jwt : Jwt = record { header = p.header; claims = p.payload; signature = p.signature } in
    let (u, f, h₂) = >>=-eq-ok (verify_form jwt) _ h₁ in
    let same : jwt ≡ token = cc h₂ in
    record {
      parsed = p;
      segments = unmarshal-Segments json.header (unmarshal_claims json) text p e;
      its_header = cc h₂;
      its_claims = cc h₂;
      its_signature = cc h₂;
      its_body = cc h₂;
      well_formed = rw (← same) f;
    }
