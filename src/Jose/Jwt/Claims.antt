-- ===== src/Jose/Jwt/Claims.antt =====
-- What reading the claims of a token establishes.
use gose.Prelude.{
  String, ◌≡◌, refl, Dict, get, delete, get-delete, Option, none, some, [], arith, eq_refl, All,
  pos,
}
use gose.Bytes.{Bytes}
use gose.Error.{Result, ok, >>=-eq-ok}
use gose.Jose.Jws.{unmarshal_audiences}
use gose.Jose.Jwt.{
  JwtClaims, JwtJson, take_member, take_claim, take_automatic, take_settable, unmarshal_claims,
  reserved_jwt_claims, AutomaticJwtClaims, SettableJwtClaims,
}

abbrev pub Absent : String → Dict Bytes → Type 0
Absent name claims = get name claims ≡ none

-- what is absent before a step is absent behind it
abbrev Fewer : Dict Bytes → Dict Bytes → Type 0
Fewer claims rest = (j : String) → Absent j claims → Absent j rest

Absent-delete :
    (name j : String) (claims : Dict Bytes) → Absent j claims → Absent j (delete name claims)
Absent-delete name j claims h = ground (arith, get-delete name j claims)

module _ {A : Type 0} (decoder : Bytes → Result A) (zero_value : A) (name : String) where
  take_member_sound :
      (found : Option Bytes) (claims rest : Dict Bytes) (x : A)
      → get name claims ≡ found
      → take_member decoder zero_value name found claims ≡ ok (x, rest)
      → Absent name rest × Fewer claims rest × (found ≡ none → x ≡ zero_value)
  unfolding take_member
  take_member_sound none claims rest x e h =
      let same : rest ≡ claims = ground (arith) in
      (rw same e, (λ j a. rw same a), (λ _. ground (arith, h)))
  take_member_sound (some value) claims rest x e h =
      let same : rest ≡ delete name claims = ground (arith) in
      (
        rw same (ground (arith, get-delete name name claims, eq_refl name)),
        (λ j a. rw same (Absent-delete name j claims a)),
        (λ p. cc p),
      )

  take_claim_sound :
      (claims rest : Dict Bytes) (x : A)
      → take_claim decoder zero_value name claims ≡ ok (x, rest)
      → Absent name rest × Fewer claims rest × (Absent name claims → x ≡ zero_value)
  unfolding take_claim
  take_claim_sound claims rest x h = take_member_sound (get name claims) claims rest x refl h

module _ (json : JwtJson) where
  take_automatic_sound :
      (claims rest : Dict Bytes) (a : AutomaticJwtClaims)
      → take_automatic json claims ≡ ok (a, rest)
      → Absent "iss" rest × Absent "iat" rest × Absent "jti" rest × Fewer claims rest
  unfolding take_automatic
  take_automatic_sound claims rest a h =
      let ((x₁, c₁), e₁, h₁) = >>=-eq-ok (take_claim json.text_member "" "iss" claims) _ h in
      let ((x₂, c₂), e₂, h₂) = >>=-eq-ok (take_claim json.number_member (pos 0) "iat" c₁) _ h₁ in
      let ((x₃, c₃), e₃, h₃) = >>=-eq-ok (take_claim json.text_member "" "jti" c₂) _ h₂ in
      let (a₁, f₁, _) = take_claim_sound json.text_member "" "iss" claims c₁ x₁ e₁ in
      let (a₂, f₂, _) = take_claim_sound json.number_member (pos 0) "iat" c₁ c₂ x₂ e₂ in
      let (a₃, f₃, _) = take_claim_sound json.text_member "" "jti" c₂ c₃ x₃ e₃ in
      let same : rest ≡ c₃ = cc h₃ in
      rw same (f₃ "iss" (f₂ "iss" a₁), f₃ "iat" a₂, a₃, (λ j p. f₃ j (f₂ j (f₁ j p))))

  take_settable_sound :
      (claims rest : Dict Bytes) (a : SettableJwtClaims)
      → take_settable json claims ≡ ok (a, rest)
      → Absent "sub" rest
        × Absent "aud" rest
        × Absent "exp" rest
        × Absent "nbf" rest
        × Fewer claims rest
        × (Absent "exp" claims → a.expiration ≡ pos 0)
  unfolding take_settable
  take_settable_sound claims rest a h =
      let aud = unmarshal_audiences json.shape in
      let ((x₁, c₁), e₁, h₁) = >>=-eq-ok (take_claim json.text_member "" "sub" claims) _ h in
      let ((x₂, c₂), e₂, h₂) = >>=-eq-ok (take_claim aud [] "aud" c₁) _ h₁ in
      let ((x₃, c₃), e₃, h₃) = >>=-eq-ok (take_claim json.number_member (pos 0) "exp" c₂) _ h₂ in
      let ((x₄, c₄), e₄, h₄) = >>=-eq-ok (take_claim json.number_member (pos 0) "nbf" c₃) _ h₃ in
      let (a₁, f₁, _) = take_claim_sound json.text_member "" "sub" claims c₁ x₁ e₁ in
      let (a₂, f₂, _) = take_claim_sound aud [] "aud" c₁ c₂ x₂ e₂ in
      let (a₃, f₃, z₃) = take_claim_sound json.number_member (pos 0) "exp" c₂ c₃ x₃ e₃ in
      let (a₄, f₄, _) = take_claim_sound json.number_member (pos 0) "nbf" c₃ c₄ x₄ e₄ in
      let same : rest ≡ c₄ = cc h₄ in
      rw same (
        f₄ "sub" (f₃ "sub" (f₂ "sub" a₁)),
        f₄ "aud" (f₃ "aud" a₂),
        f₄ "exp" a₃,
        a₄,
        (λ j p. f₄ j (f₃ j (f₂ j (f₁ j p)))),
        (λ p. cc (h₄, z₃ (f₂ "exp" (f₁ "exp" p)))),
      )

  -- The claims that a token is read into name none of the seven registered claims among the untyped
  -- ones, and a token with no `exp` claim has the expiration 0.
  pub unmarshal_claims_sound :
      (src : Bytes) (claims : Dict Bytes) (c : JwtClaims)
      → json.members src ≡ ok claims
      → unmarshal_claims json src ≡ ok c
      → All (λ r. Absent (r.0) c.untyped) reserved_jwt_claims
        × (Absent "exp" claims → c.settable.expiration ≡ pos 0)
  unfolding unmarshal_claims
  unmarshal_claims_sound src claims c e h =
      let (m, e₀, h₀) = >>=-eq-ok (json.members src) _ h in
      let ((a, c₁), e₁, h₁) = >>=-eq-ok (take_automatic json m) _ h₀ in
      let ((s, c₂), e₂, h₂) = >>=-eq-ok (take_settable json c₁) _ h₁ in
      let (iss, iat, jti, f₁) = take_automatic_sound m c₁ a e₁ in
      let (sub, aud, exp, nbf, f₂, z) = take_settable_sound c₁ c₂ s e₂ in
      let same : c.untyped ≡ c₂ = cc h₂ in
      let members : m ≡ claims = cc (e, e₀) in
      (
        rw same (f₂ "iss" iss, (f₂ "iat" iat, (f₂ "jti" jti, (sub, (aud, (exp, (nbf, tt))))))),
        (λ p. cc (h₂, z (f₁ "exp" (rw members p)))),
      )
