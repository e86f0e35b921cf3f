-- ===== src/Jose/Jwt/RoundTrip.antt =====
-- jose/jwt.go: the claims that `MarshalJSON` writes, `UnmarshalJSON` reads back.
use gose.Prelude.{
  get-delete, String, ◌≡◌, ◌≢◌, inl, inr, refl, ap, ◌∙◌, sym, Option, none, some, List, [], ◌∷◌,
  ◌++◌, map, append_assoc, append-nil, Dict, get, delete, pos, All, Option-cases,
}
use gose.Bytes.{Bytes, IsBytes}
use gose.Error.{Result, ok, >>=-eq-ok}
use gose.Jose.Jws.{JsonShape, audience_items, audiences_of, unmarshal_audiences, marshal_audiences}
use gose.Jose.Jwt.{
  JwtJson, JwtClaims, take_member, take_claim, take_automatic, take_settable, merge_untyped,
  unmarshal_claims, marshal_claims,
}
use gose.Jose.Jwt.Merging.{reserved_names, merged, unreserved, not_typed, All-absent}
use gose.Jose.Jwt.Members.{
  DistinctNames, NamedIn, delete-absent, get-append, without, without-named,
}

-- a member decodes to a value, or it is left out and the value is the zero value
abbrev pub ReadsAs : {A : Type 0} → (Bytes → Result A) → A → Option Bytes → A → Type 0
ReadsAs decoder zero_value none x = x ≡ zero_value
ReadsAs decoder zero_value (some v) x = decoder v ≡ ok x

-- `encoding/json` writes the typed claims as an object of members of their names, each of which it
-- decodes again, and writes and reads an object of raw members as it is
pub record IsFaithful (json : JwtJson) (claims : JwtClaims) (typed : Bytes) (m : Dict Bytes)
    : Type 0 where
  pub names : NamedIn reserved_names m
  pub issuer : ReadsAs json.text_member "" (get "iss" m) claims.automatic.issuer
  pub issued_at : ReadsAs json.number_member (pos 0) (get "iat" m) claims.automatic.issued_at
  pub jwt_id : ReadsAs json.text_member "" (get "jti" m) claims.automatic.jwt_id
  pub subject : ReadsAs json.text_member "" (get "sub" m) claims.settable.subject
  pub audiences : Bytes
  pub has_audiences : get "aud" m ≡ some audiences
  pub audience_shape : json.shape audiences ≡ ok (marshal_audiences claims.settable.audiences)
  pub expiration : ReadsAs json.number_member (pos 0) (get "exp" m) claims.settable.expiration
  pub not_before : ReadsAs json.number_member (pos 0) (get "nbf" m) claims.settable.not_before
  pub object_back :
      (w : Bytes)
      → json.marshal_members (m ++ claims.untyped) ≡ ok w
      → IsBytes w × (json.members w ≡ ok (m ++ claims.untyped))

items_back : (l acc : List String) → audience_items (map some l) acc ≡ ok (acc ++ l)
unfolding audience_items
items_back [] acc = ap ok (sym (append-nil acc))
items_back (s ∷ l) acc = items_back l (acc ++ s ∷ []) ∙ ap ok (append_assoc acc (s ∷ []) l)

-- the audiences come back, unless there are none
audiences_back :
    (shape : Bytes → Result JsonShape) (v : Bytes) (l : List String)
    → shape v ≡ ok (marshal_audiences l)
    → l ≢ []
    → unmarshal_audiences shape v ≡ ok l
unfolding unmarshal_audiences audiences_of marshal_audiences
audiences_back shape v [] h some_audience = absurd (some_audience refl)
audiences_back shape v (s ∷ []) h some_audience = rw h refl
audiences_back shape v (s ∷ t ∷ rest) h some_audience = rw h (items_back (s ∷ t ∷ rest) [])

-- one round of the loop takes a claim that decodes
take_back :
    {A : Type 0} (decoder : Bytes → Result A) (zero_value x : A) (name : String) (d : Dict Bytes)
    → ReadsAs decoder zero_value (get name d) x
    → take_claim decoder zero_value name d ≡ ok (x, delete name d)
unfolding take_claim take_member
take_back decoder zero_value x name d h = elim (Option-cases (get name d)) [
  | inl e ↦ let same : x ≡ zero_value = rw e at h in rw (e, same, delete-absent name d e) refl
  | inr (v, e) ↦ let read : decoder v ≡ ok x = rw e at h in rw (e, read) refl
]

module _ (json : JwtJson) (c : JwtClaims) where
  -- the members of an object that is read, whatever else it holds
  record AutomaticMembers (d : Dict Bytes) : Type 0 where
    pub issuer : ReadsAs json.text_member "" (get "iss" d) c.automatic.issuer
    pub issued_at : ReadsAs json.number_member (pos 0) (get "iat" d) c.automatic.issued_at
    pub jwt_id : ReadsAs json.text_member "" (get "jti" d) c.automatic.jwt_id

  record SettableMembers (d : Dict Bytes) : Type 0 where
    pub subject : ReadsAs json.text_member "" (get "sub" d) c.settable.subject
    pub audiences : ReadsAs (unmarshal_audiences json.shape) [] (get "aud" d) c.settable.audiences
    pub expiration : ReadsAs json.number_member (pos 0) (get "exp" d) c.settable.expiration
    pub not_before : ReadsAs json.number_member (pos 0) (get "nbf" d) c.settable.not_before

  automatic_back :
      (d : Dict Bytes)
      → AutomaticMembers d
      → take_automatic json d ≡ ok (c.automatic, without ("iss" ∷ "iat" ∷ "jti" ∷ []) d)
  unfolding take_automatic
  automatic_back d h =
      let d₁ = delete "iss" d in
      let d₂ = delete "iat" d₁ in
      let a = c.automatic in
      let e₁ = take_back json.text_member "" a.issuer "iss" d h.issuer in
      let e₂ =
        take_back json.number_member (pos 0) a.issued_at "iat" d₁
          (rw (get-delete "iss" "iat" d) h.issued_at) in
      let e₃ =
        take_back json.text_member "" a.jwt_id "jti" d₂
          (rw (get-delete "iat" "jti" d₁, get-delete "iss" "jti" d) h.jwt_id) in
      rw (e₁, e₂, e₃) refl

  settable_back :
      (d : Dict Bytes)
      → SettableMembers d
      → take_settable json d ≡ ok (c.settable, without ("sub" ∷ "aud" ∷ "exp" ∷ "nbf" ∷ []) d)
  unfolding take_settable
  settable_back d h =
      let d₁ = delete "sub" d in
      let d₂ = delete "aud" d₁ in
      let d₃ = delete "exp" d₂ in
      let s = c.settable in
      let e₁ = take_back json.text_member "" s.subject "sub" d h.subject in
      let e₂ =
        take_back (unmarshal_audiences json.shape) [] s.audiences "aud" d₁
          (rw (get-delete "sub" "aud" d) h.audiences) in
      let e₃ =
        take_back json.number_member (pos 0) s.expiration "exp" d₂
          (rw (get-delete "aud" "exp" d₁, get-delete "sub" "exp" d) h.expiration) in
      let e₄ = take_back json.number_member (pos 0) s.not_before "nbf" d₃ (
        rw (get-delete "exp" "nbf" d₂, get-delete "aud" "nbf" d₁, get-delete "sub" "nbf" d)
          h.not_before) in
      rw (e₁, e₂, e₃, e₄) refl

  -- the settable claims are still there after the automatic ones were taken
  still_there :
      (d : Dict Bytes)
      → SettableMembers d
      → SettableMembers (without ("iss" ∷ "iat" ∷ "jti" ∷ []) d)
  still_there d h = record {
    subject =
        rw
          (
            get-delete "jti" "sub" (delete "iat" (delete "iss" d)),
            get-delete "iat" "sub" (delete "iss" d),
            get-delete "iss" "sub" d,
          )
          h.subject;
    audiences =
        rw
          (
            get-delete "jti" "aud" (delete "iat" (delete "iss" d)),
            get-delete "iat" "aud" (delete "iss" d),
            get-delete "iss" "aud" d,
          )
          h.audiences;
    expiration =
        rw
          (
            get-delete "jti" "exp" (delete "iat" (delete "iss" d)),
            get-delete "iat" "exp" (delete "iss" d),
            get-delete "iss" "exp" d,
          )
          h.expiration;
    not_before =
        rw
          (
            get-delete "jti" "nbf" (delete "iat" (delete "iss" d)),
            get-delete "iat" "nbf" (delete "iss" d),
            get-delete "iss" "nbf" d,
          )
          h.not_before;
  }

  typed_back :
      (w : Bytes) (d : Dict Bytes)
      → json.members w ≡ ok d
      → AutomaticMembers d
      → SettableMembers d
      → unmarshal_claims json w
        ≡ ok (record {
          automatic = c.automatic;
          settable = c.settable;
          untyped = without reserved_names d;
        })
  unfolding unmarshal_claims
  typed_back w d e h h' =
      rw
        (
          e,
          automatic_back d h,
          settable_back (without ("iss" ∷ "iat" ∷ "jti" ∷ []) d) (still_there d h'),
        )
        refl

  -- typed members and untyped claims that none of them shadows are read together
  object_members :
      (typed : Bytes) (m : Dict Bytes)
      → IsFaithful json c typed m
      → All (λ n. get n c.untyped ≡ none) reserved_names
      → c.settable.audiences ≢ []
      → AutomaticMembers (m ++ c.untyped) × SettableMembers (m ++ c.untyped)
  object_members typed m f (iss, (iat, (jti, (sub, (aud, (exp, (nbf, _))))))) some_audience =
      let u = c.untyped in
      (
        record {
          issuer = rw (get-append "iss" m u iss) f.issuer;
          issued_at = rw (get-append "iat" m u iat) f.issued_at;
          jwt_id = rw (get-append "jti" m u jti) f.jwt_id;
        },
        record {
          subject = rw (get-append "sub" m u sub) f.subject;
          audiences =
              rw (get-append "aud" m u aud, f.has_audiences)
                (audiences_back json.shape f.audiences c.settable.audiences f.audience_shape
                  some_audience);
          expiration = rw (get-append "exp" m u exp) f.expiration;
          not_before = rw (get-append "nbf" m u nbf) f.not_before;
        },
      )

  -- The claims that `MarshalJSON` has written are read back by `UnmarshalJSON`, when the names of the
  -- untyped claims differ, there is an audience, and `encoding/json` is faithful for them.
  pub unmarshal_claims-marshal_claims :
      (w : Bytes)
      → ((typed : Bytes) (m : Dict Bytes)
          → json.marshal_typed c.automatic c.settable ≡ ok typed
          → json.members typed ≡ ok m
          → IsFaithful json c typed m)
      → DistinctNames c.untyped
      → c.settable.audiences ≢ []
      → marshal_claims json c ≡ ok w
      → IsBytes w × (unmarshal_claims json w ≡ ok c)
  unfolding marshal_claims
  unmarshal_claims-marshal_claims w faithful distinct some_audience h =
      let (typed, e, h₁) = >>=-eq-ok (json.marshal_typed c.automatic c.settable) _ h in
      let (m, e', h₂) = >>=-eq-ok (json.members typed) _ h₁ in
      let (all, merge, h₃) = >>=-eq-ok (merge_untyped c.untyped m) _ h₂ in
      let f = faithful typed m e e' in
      let fresh = unreserved c.untyped m all merge in
      let absent = All-absent c.untyped fresh in
      let whole = merged c.untyped m all merge distinct (not_typed c.untyped m fresh f.names) in
      let (bytes, back) = f.object_back w (rw whole at h₃) in
      let (automatic, settable) = object_members typed m f absent some_audience in
      let left = without-named reserved_names m c.untyped f.names absent in
      (
        bytes,
        typed_back w (m ++ c.untyped) back automatic settable
            ∙ ap (λ u. ok (record c { untyped = u })) left,
      )
