-- ===== src/Jose/Jwk/Parse/Sound.antt =====
-- What a JWK that parses has passed.
use gose.Prelude.{
  ℕ, zero, suc, [], ◌∷◌, ap, length-take, ◌≤◌, ◌≡◌, ◌≢◌, refl, not, arith, ltb, ◌==◌, str_eq,
  eq_iff, Bool, true, Option, none, some, List, ◌⊎◌, length, take, Bool-cases, inl, inr,
}
use gose.Bytes.{Bytes}
use gose.Error.{
  jwk_certificate_key_mismatch, ok, err, >>=-eq-ok, guard->>-eq-ok, jose_error, JoseError,
}
use gose.Crypto.{
  Crypto, Certificate, CertificateKey, rsa_certificate_key, ecdsa_certificate_key,
  other_certificate_key,
}
use gose.Jose.Types.{max_jwks_size}
use gose.Jose.Jwk.{
  Jwk, JwkFields, PublicRsaKeyFields, PrivateRsaKeyFields, PublicEcKeyFields, public_rsa,
  private_rsa, public_ec, private_ec, oct_secret, Kty, kty_rsa, kty_ec, kty_oct, kty, fields,
  check_consistency, check_rsa, check_ec, rsa_certifies, ec_certifies, check_x5c_matches_key,
  leaf_matches, max_key_ops,
}
use gose.Jose.Jwk.Consistency.{Distinct, FingerprintAgrees, check_consistency_iff}
use gose.Jose.Jwk.Parse.{
  JwkJson, unmarshal_rsa, unmarshal_ec, unmarshal_oct, rsa_of, ec_of, rsa_case, ec_case, oct_case,
  dispatch, unmarshal_jwk,
}

-- a certificate is for an RSA key, or for an EC key
abbrev pub IsRsa : PublicRsaKeyFields → CertificateKey → Type 0
IsRsa k (rsa_certificate_key pub_key) = (pub_key.n ≡ k.n) × (pub_key.e ≡ k.e)
IsRsa k _ = ⊥

abbrev pub IsEc : PublicEcKeyFields → CertificateKey → Type 0
IsEc k (ecdsa_certificate_key name x y) = (x ≡ k.x) × (y ≡ k.y) × ((k.crv ≡ "") ⊎ (name ≡ k.crv))
IsEc k _ = ⊥

-- the first certificate of a chain, if there is one, is there and is for a key
abbrev pub LeafIs : (CertificateKey → Type 0) → List (Option Certificate) → Type 0
LeafIs is_key [] = Unit
LeafIs is_key (none ∷ chain) = ⊥
LeafIs is_key (some leaf ∷ chain) = is_key leaf.public_key

-- the certificate that a JWK carries is one for its key; a JWK that names no curve does not ask for
-- one
abbrev pub IsCertified : Jwk → Type 0
IsCertified (public_rsa j k) = LeafIs (IsRsa k) j.key_x5c
IsCertified (private_rsa j k s) = LeafIs (IsRsa k) j.key_x5c
IsCertified (public_ec j k) = LeafIs (IsEc k) j.key_x5c
IsCertified (private_ec j k d) = LeafIs (IsEc k) j.key_x5c
IsCertified (oct_secret j k) = Unit

rsa_certifies_sound :
    (k : PublicRsaKeyFields) (c : CertificateKey) → rsa_certifies k c ≡ true → IsRsa k c
unfolding rsa_certifies
rsa_certifies_sound k (rsa_certificate_key pub_key) h = ground (arith, h)
rsa_certifies_sound k (ecdsa_certificate_key name x y) h = cc h
rsa_certifies_sound k other_certificate_key h = cc h

ec_certifies_sound :
    (k : PublicEcKeyFields) (c : CertificateKey) → ec_certifies k c ≡ true → IsEc k c
unfolding ec_certifies
ec_certifies_sound k (rsa_certificate_key pub_key) h = cc h
ec_certifies_sound k (ecdsa_certificate_key name x y) h =
    ground (arith, h, eq_iff k.crv "", eq_iff name k.crv)
ec_certifies_sound k other_certificate_key h = cc h

leaf_matched :
    (certifies : CertificateKey → Bool) (is_key : CertificateKey → Type 0)
    (sound : (c : CertificateKey) → certifies c ≡ true → is_key c)
    (chain : List (Option Certificate))
    → leaf_matches certifies chain ≡ ok tt
    → LeafIs is_key chain
unfolding leaf_matches
leaf_matched certifies is_key sound [] h = tt
leaf_matched certifies is_key sound (none ∷ chain) h = cc h
leaf_matched certifies is_key sound (some leaf ∷ chain) h =
    elim (Bool-cases (certifies leaf.public_key)) [
      | inl e ↦ sound leaf.public_key e
      | inr e ↦ let h' : err (jose_error jwk_certificate_key_mismatch) ≡ ok tt = rw e at h in cc h'
    ]

IsRsa-leaf :
    (k : PublicRsaKeyFields) (j : JwkFields) → check_rsa k j ≡ ok tt → LeafIs (IsRsa k) j.key_x5c
unfolding check_rsa check_x5c_matches_key
IsRsa-leaf k j h = leaf_matched (rsa_certifies k) (IsRsa k) (rsa_certifies_sound k) j.key_x5c h

IsEc-leaf :
    (k : PublicEcKeyFields) (j : JwkFields) → check_ec k j ≡ ok tt → LeafIs (IsEc k) j.key_x5c
unfolding check_ec check_x5c_matches_key
IsEc-leaf k j h = leaf_matched (ec_certifies k) (IsEc k) (ec_certifies_sound k) j.key_x5c h

-- a private key has a private part
abbrev pub HasPrivatePart : Jwk → Type 0
HasPrivatePart (private_rsa j k s) = s.d ≢ 0
HasPrivatePart (private_ec j k d) = d ≢ 0
HasPrivatePart _ = Unit

pub record IsChecked (crypto : Crypto) (kind : Kty) (jwk : Jwk) : Type 0 where
  pub same_kind : kty jwk ≡ kind
  pub few : length (fields jwk).key_ops ≤ max_key_ops
  pub distinct : Distinct (fields jwk).key_ops
  pub thumbprint : FingerprintAgrees crypto (fields jwk).key_x5c (fields jwk).key_x5t
  pub certified : IsCertified jwk
  pub private_part : HasPrivatePart jwk

take_all : (n : ℕ) (xs : Bytes) → length xs ≤ n → take n xs ≡ xs
take_all zero [] h = refl
take_all zero (x ∷ xs) h = absurd (omega (arith, h))
take_all (suc n) [] h = refl
take_all (suc n) (x ∷ xs) h = ap (λ r. x ∷ r) (take_all n xs (omega (arith, h)))

module _ (crypto : Crypto) (json : JwkJson) where
  IsRsa-checked :
      (src : Bytes) (j : JwkFields) (k : PublicRsaKeyFields) (s : PrivateRsaKeyFields)
      → unmarshal_rsa crypto json src ≡ ok (j, k, s)
      → (check_consistency crypto j ≡ ok tt) × LeafIs (IsRsa k) j.key_x5c
  unfolding unmarshal_rsa
  IsRsa-checked src j k s h =
      let ((kind, j', k', s'), _, h₁) = >>=-eq-ok (json.rsa_members src) _ h in
      let (_, h₂) = guard->>-eq-ok (str_eq kind kty_rsa) _ _ h₁ in
      let (_, e, h₃) = >>=-eq-ok (check_consistency crypto j') _ h₂ in
      let (_, f, h₄) = >>=-eq-ok (check_rsa k' j') _ h₃ in (cc (e, h₄), IsRsa-leaf k j (cc (f, h₄)))

  IsEc-checked :
      (src : Bytes) (j : JwkFields) (k : PublicEcKeyFields) (d : ℕ)
      → unmarshal_ec crypto json src ≡ ok (j, k, d)
      → (check_consistency crypto j ≡ ok tt) × LeafIs (IsEc k) j.key_x5c
  unfolding unmarshal_ec
  IsEc-checked src j k d h =
      let ((kind, j', k', d'), _, h₁) = >>=-eq-ok (json.ec_members src) _ h in
      let (_, h₂) = guard->>-eq-ok (str_eq kind kty_ec) _ _ h₁ in
      let (_, e, h₃) = >>=-eq-ok (check_consistency crypto j') _ h₂ in
      let (_, f, h₄) = >>=-eq-ok (check_ec k' j') _ h₃ in (cc (e, h₄), IsEc-leaf k j (cc (f, h₄)))

  oct_checked :
      (src : Bytes) (j : JwkFields) (k : Bytes)
      → unmarshal_oct crypto json src ≡ ok (j, k)
      → check_consistency crypto j ≡ ok tt
  unfolding unmarshal_oct
  oct_checked src j k h =
      let ((kind, j', k'), _, h₁) = >>=-eq-ok (json.oct_members src) _ h in
      let (_, h₂) = guard->>-eq-ok (str_eq kind kty_oct) _ _ h₁ in
      let (_, e, h₃) = >>=-eq-ok (check_consistency crypto j') _ h₂ in cc (e, h₃)

  passes :
      (j : JwkFields)
      → check_consistency crypto j ≡ ok tt
      → (length j.key_ops ≤ max_key_ops)
        × Distinct j.key_ops
        × FingerprintAgrees crypto j.key_x5c j.key_x5t
  passes j h = (check_consistency_iff crypto j).0 h

  rsa_of-IsChecked :
      (j : JwkFields) (k : PublicRsaKeyFields) (s : PrivateRsaKeyFields)
      → check_consistency crypto j ≡ ok tt
      → LeafIs (IsRsa k) j.key_x5c
      → IsChecked crypto kty_rsa (rsa_of j k s)
  unfolding rsa_of
  rsa_of-IsChecked j k s e f = elim (Bool-cases (s.d == 0)) [
    | inl z ↦ rw z (record {
      same_kind = refl;
      few = (passes j e).0;
      distinct = (passes j e).1;
      thumbprint = (passes j e).2;
      certified = f;
      private_part = tt;
    })
    | inr z ↦ rw z (record {
      same_kind = refl;
      few = (passes j e).0;
      distinct = (passes j e).1;
      thumbprint = (passes j e).2;
      certified = f;
      private_part = ground (arith, z);
    })
  ]

  ec_of-IsChecked :
      (j : JwkFields) (k : PublicEcKeyFields) (d : ℕ)
      → check_consistency crypto j ≡ ok tt
      → LeafIs (IsEc k) j.key_x5c
      → IsChecked crypto kty_ec (ec_of j k d)
  unfolding ec_of
  ec_of-IsChecked j k d e f = elim (Bool-cases (d == 0)) [
    | inl z ↦ rw z (record {
      same_kind = refl;
      few = (passes j e).0;
      distinct = (passes j e).1;
      thumbprint = (passes j e).2;
      certified = f;
      private_part = tt;
    })
    | inr z ↦ rw z (record {
      same_kind = refl;
      few = (passes j e).0;
      distinct = (passes j e).1;
      thumbprint = (passes j e).2;
      certified = f;
      private_part = ground (arith, z);
    })
  ]

  rsa_case-IsChecked :
      (src : Bytes) (jwk : Jwk) → rsa_case crypto json src ≡ ok jwk → IsChecked crypto kty_rsa jwk
  unfolding rsa_case
  rsa_case-IsChecked src jwk h =
      let ((j, k, s), e, h₁) = >>=-eq-ok (unmarshal_rsa crypto json src) _ h in
      let same : jwk ≡ rsa_of j k s = cc h₁ in
      let (c, f) = IsRsa-checked src j k s e in rw same (rsa_of-IsChecked j k s c f)

  ec_case-IsChecked :
      (src : Bytes) (jwk : Jwk) → ec_case crypto json src ≡ ok jwk → IsChecked crypto kty_ec jwk
  unfolding ec_case
  ec_case-IsChecked src jwk h =
      let ((j, k, d), e, h₁) = >>=-eq-ok (unmarshal_ec crypto json src) _ h in
      let same : jwk ≡ ec_of j k d = cc h₁ in
      let (c, f) = IsEc-checked src j k d e in rw same (ec_of-IsChecked j k d c f)

  oct_case-IsChecked :
      (src : Bytes) (jwk : Jwk) → oct_case crypto json src ≡ ok jwk → IsChecked crypto kty_oct jwk
  unfolding oct_case
  oct_case-IsChecked src jwk h =
      let ((j, k), e, h₁) = >>=-eq-ok (unmarshal_oct crypto json src) _ h in
      let same : jwk ≡ oct_secret j k = cc h₁ in
      rw same (record {
        same_kind = refl;
        few = (passes j (oct_checked src j k e)).0;
        distinct = (passes j (oct_checked src j k e)).1;
        thumbprint = (passes j (oct_checked src j k e)).2;
        certified = tt;
        private_part = tt;
      })

  dispatch-IsChecked :
      (kind : Kty) (src : Bytes) (jwk : Jwk)
      → dispatch crypto json kind src ≡ ok jwk
      → IsChecked crypto kind jwk
  unfolding dispatch
  dispatch-IsChecked kind src jwk h = elim (Bool-cases (str_eq kind kty_rsa)) [
    | inl r ↦ rw ((eq_iff kind kty_rsa).0 r) (rsa_case-IsChecked src jwk (rw r at h))
    | inr r ↦ elim (Bool-cases (str_eq kind kty_ec)) [
      | inl e ↦ rw ((eq_iff kind kty_ec).0 e) (ec_case-IsChecked src jwk (rw (r, e) at h))
      | inr e ↦ elim (Bool-cases (str_eq kind kty_oct)) [
        | inl o ↦ rw ((eq_iff kind kty_oct).0 o) (oct_case-IsChecked src jwk (rw (r, e, o) at h))
        | inr o ↦
            let h' : err (jose_error JoseError.unsupported_key_type) ≡ ok jwk = rw (r, e, o) at h in
            cc h'
      ]
    ]
  ]

  -- A JWK that parses is of the type that the document names, names at most 64 operations and none of
  -- them twice, and counts as private only if it has a private part. If it carries certificates, the
  -- first is for its numbers, and for its curve if it names one, and a thumbprint that it has is that
  -- of the first certificate. And the document was within the bound.
  pub unmarshal_jwk-IsChecked :
      (content : Bytes) (jwk : Jwk)
      → unmarshal_jwk crypto json content ≡ ok jwk
      → (length content ≤ max_jwks_size)
        × (kind : Kty) × (json.key_type content ≡ ok kind)
        × IsChecked crypto kind jwk
  unfolding unmarshal_jwk
  unmarshal_jwk-IsChecked content jwk h =
      let src = take (suc max_jwks_size) content in
      let (g, h₁) = guard->>-eq-ok (not (ltb max_jwks_size (length src))) _ _ h in
      let (kind, e, h₂) = >>=-eq-ok (json.key_type src) _ h₁ in
      let short : length content ≤ max_jwks_size =
        ground (arith, g, length-take (suc max_jwks_size) content) in
      let whole : src ≡ content = take_all (suc max_jwks_size) content (omega (arith, short)) in
      (short, kind, rw (← whole) e, dispatch-IsChecked kind src jwk h₂)
