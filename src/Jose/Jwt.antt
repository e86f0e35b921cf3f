-- ===== src/Jose/Jwt.antt =====
-- jose/jwt.go: JSON Web Tokens, their claims, and the checks of `Verify`.
pub mod Claims
pub mod Token
pub mod Members
pub mod Merging
pub mod RoundTrip
pub mod Written
use gose.Prelude.{
  ℕ, String, Bool, true, false, not, ◌||◌, Dict, get, put, delete, Option, none, some, List, [],
  ◌∷◌, str_eq, if◌then◌else◌, ℤ, pos,
}
use gose.Bytes.{Bytes}
use gose.Error.{
  Result, Checked, ok, err, guard, ◌>>=◌, ◌>>◌, jose_error, JoseError, jwk_reserved_claim_name,
  crit_header_not_supported,
}
use gose.Jose.Types.{JwsHeader}
use gose.Jose.Jws
use gose.Jose.Jws.{JsonShape, Parsed, unmarshal_audiences, check_type}

-- `reservedJwtClaims`
abbrev pub reserved_jwt_claims : Dict Bool
reserved_jwt_claims =
    ("iss", true)
    ∷ ("iat", true)
    ∷ ("jti", true)
    ∷ ("sub", true)
    ∷ ("aud", true)
    ∷ ("exp", true)
    ∷ ("nbf", true)
    ∷ []

pub record AutomaticJwtClaims : Type 0 where
  pub issuer : String
  pub issued_at : ℤ
  pub jwt_id : String

pub record SettableJwtClaims : Type 0 where
  pub subject : String
  pub audiences : List String
  pub expiration : ℤ
  pub not_before : ℤ

-- `JwtClaims`; an untyped claim is kept as the JSON text that it came with
pub record JwtClaims : Type 0 where
  pub automatic : AutomaticJwtClaims
  pub settable : SettableJwtClaims
  pub untyped : Dict Bytes

-- `encoding/json`, as jose/jwt.go and jose/jws.go call it
pub record JwtJson : Type 0 where
  pub header : Bytes → Result JwsHeader
  pub marshal_header : JwsHeader → Result Bytes
  pub members : Bytes → Result (Dict Bytes)
  pub marshal_members : Dict Bytes → Result Bytes
  pub text_member : Bytes → Result String
  pub number_member : Bytes → Result ℤ
  pub shape : Bytes → Result JsonShape
  pub marshal_typed : AutomaticJwtClaims → SettableJwtClaims → Result Bytes

pub record Jwt : Type 0 where
  pub header : JwsHeader
  pub claims : JwtClaims
  pub signature : Bytes

-- one round of `unmarshalTypedClaims`: a claim that is there is decoded and taken from the map, and
-- one that is not leaves the field at its zero value
take_member {ℓ} :
    {A : Type ℓ}
    → (Bytes → Result A)
    → A
    → String
    → Option Bytes
    → Dict Bytes
    → Result (A × Dict Bytes)
take_member decoder zero_value name none claims = ok (zero_value, claims)
take_member decoder zero_value name (some value) claims = do
  x ← decoder value
  ok (x, delete name claims)

take_claim {ℓ} :
    {A : Type ℓ} → (Bytes → Result A) → A → String → Dict Bytes → Result (A × Dict Bytes)
unfolding take_member
take_claim decoder zero_value name claims =
    take_member decoder zero_value name (get name claims) claims

any_reserved : Dict Bytes → Bool
unfolding get
any_reserved [] = false
any_reserved ((name, _) ∷ rest) = elim (get name reserved_jwt_claims) [
  | some _ ↦ true
  | none ↦ any_reserved rest
]

-- the loop of `MarshalJSON` over the untyped claims
pub merge_untyped : Dict Bytes → Dict Bytes → Result (Dict Bytes)
merge_untyped [] merged = ok merged
merge_untyped ((name, value) ∷ rest) merged = elim (get name reserved_jwt_claims) [
  | some _ ↦ err (jose_error jwk_reserved_claim_name)
  | none ↦ merge_untyped rest (put name value merged)
]

-- `Jwt.Verify`
unfoldable pub verify_form : Jwt → Checked
unfolding check_type any_reserved
verify_form jwt = do
  check_type jwt.header
  guard (elim (jwt.header.crit) [ [] ↦ true | _ ∷ _ ↦ false ])
      (jose_error crit_header_not_supported)
  guard (not (any_reserved jwt.claims.untyped)) (jose_error jwk_reserved_claim_name)

module _ (json : JwtJson) where
  -- `unmarshalTypedClaims` on `AutomaticJwtClaims`
  take_automatic : Dict Bytes → Result (AutomaticJwtClaims × Dict Bytes)
  take_automatic claims = do
    (issuer, c₁) ← take_claim json.text_member "" "iss" claims
    (issued_at, c₂) ← take_claim json.number_member (pos 0) "iat" c₁
    (jwt_id, c₃) ← take_claim json.text_member "" "jti" c₂
    ok (record { issuer = issuer; issued_at = issued_at; jwt_id = jwt_id }, c₃)

  -- `unmarshalTypedClaims` on `SettableJwtClaims`
  take_settable : Dict Bytes → Result (SettableJwtClaims × Dict Bytes)
  take_settable claims = do
    (subject, c₁) ← take_claim json.text_member "" "sub" claims
    (audiences, c₂) ← take_claim (unmarshal_audiences json.shape) [] "aud" c₁
    (expiration, c₃) ← take_claim json.number_member (pos 0) "exp" c₂
    (not_before, c₄) ← take_claim json.number_member (pos 0) "nbf" c₃
    ok (
      record {
        subject = subject;
        audiences = audiences;
        expiration = expiration;
        not_before = not_before;
      },
      c₄,
    )

  -- `JwtClaims.UnmarshalJSON`
  unfoldable pub unmarshal_claims : Bytes → Result JwtClaims
  unfolding take_claim take_automatic take_settable
  unmarshal_claims src = do
    claims ← json.members src
    (automatic, c₁) ← take_automatic claims
    (settable, c₂) ← take_settable c₁
    ok (record { automatic = automatic; settable = settable; untyped = c₂ })

  -- `JwtClaims.MarshalJSON`
  unfoldable pub marshal_claims : JwtClaims → Result Bytes
  unfolding merge_untyped
  marshal_claims c = do
    typed ← json.marshal_typed c.automatic c.settable
    merged ← json.members typed
    all ← merge_untyped c.untyped merged
    json.marshal_members all

  -- `Jwt.MarshalBody`
  unfoldable pub marshal_body : Jwt → Result Bytes
  marshal_body jwt = do
    verify_form jwt
    Jws.marshal_body jwt.header (json.marshal_header jwt.header) (marshal_claims jwt.claims)

  checked_token : Parsed JwsHeader JwtClaims → Result (Jwt × Bytes)
  checked_token p =
      let jwt : Jwt = record { header = p.header; claims = p.payload; signature = p.signature } in
      do verify_form jwt; ok (jwt, p.body)

  -- `Jwt.Unmarshal`: the token and the text that its signature covers
  unfoldable pub unmarshal : Bytes → Result (Jwt × Bytes)
  unfolding checked_token
  unmarshal src = do p ← Jws.unmarshal json.header unmarshal_claims src; checked_token p
