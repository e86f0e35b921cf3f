-- ===== src/Keys/Convert/Halves.antt =====
-- helpers.go: the two halves of a key pair as JWKs, and what the conversion keeps.
use gose.Prelude.{ℕ, ◌≡◌, refl, sym, ◌∙◌, not, ◌||◌, Option, some, List, [], ◌∷◌, String, ◌==◌, ltb}
use gose.Error.{ok, guard->>-eq-ok, >>=-eq-ok, gose_error, invalid_exponent, invalid_key_type}
use gose.Crypto.{Crypto, Certificate, Curve, p256, p384, p521, other_curve, bit_size, curve_name}
use gose.Jose.Types.{KeyOps}
use gose.Jose.Jwk.{
  Jwk, JwkFields, PublicRsaKeyFields, PrivateRsaKeyFields, PublicEcKeyFields, public_rsa,
  private_rsa, public_ec, private_ec, oct_secret, fields, with_fields, set_ops, set_kid, ops, alg,
  kid,
}
use gose.Keys.Options.{ecdsa_curve_for_alg}
use gose.Keys.Load.{PublicKey, Signer, rsa_public, ecdsa_public, rsa_signer, ecdsa_signer}
use gose.Keys.Identity.{
  KeyIdentity, rsa_identity, ec_identity, identity, calculate_key_id, calculate_key_id-identity,
}
use gose.Keys.Convert.{
  ec_point_from_scalar, public_part, publish, public_from_private, jwk_of_signer,
  jwk_from_private_key, jwk_of_public, jwk_from_public_key, with_certs, ec_bits_to_alg, max_int_32,
  no_fields,
}

with_own_fields : (jwk : Jwk) → with_fields (fields jwk) jwk ≡ jwk
with_own_fields (public_rsa j k) = refl
with_own_fields (private_rsa j k s) = refl
with_own_fields (public_ec j k) = refl
with_own_fields (private_ec j k d) = refl
with_own_fields (oct_secret j k) = refl

-- the certificates change no field but their own
pub with_certs_shape :
    (certs : List (Option Certificate)) (jwk : Jwk)
    → (j : JwkFields) × (with_certs certs jwk ≡ with_fields j jwk)
      × (j.key_alg ≡ alg jwk)
      × (j.key_ops ≡ ops jwk)
      × (j.key_kid ≡ kid jwk)
unfolding with_certs
with_certs_shape [] jwk = (fields jwk, sym (with_own_fields jwk), refl, refl, refl)
with_certs_shape (c ∷ certs) jwk = (_, refl, refl, refl, refl)

pub identity-with_fields : (j : JwkFields) (jwk : Jwk) → identity (with_fields j jwk) ≡ identity jwk
identity-with_fields j (public_rsa i k) = refl
identity-with_fields j (private_rsa i k s) = refl
identity-with_fields j (public_ec i k) = refl
identity-with_fields j (private_ec i k d) = refl
identity-with_fields j (oct_secret i k) = refl

pub kid-with_fields : (j : JwkFields) (jwk : Jwk) → kid (with_fields j jwk) ≡ j.key_kid
kid-with_fields j (public_rsa i k) = refl
kid-with_fields j (private_rsa i k s) = refl
kid-with_fields j (public_ec i k) = refl
kid-with_fields j (private_ec i k d) = refl
kid-with_fields j (oct_secret i k) = refl

pub fields-with_fields : (j : JwkFields) (jwk : Jwk) → fields (with_fields j jwk) ≡ j
fields-with_fields j (public_rsa i k) = refl
fields-with_fields j (private_rsa i k s) = refl
fields-with_fields j (public_ec i k) = refl
fields-with_fields j (private_ec i k d) = refl
fields-with_fields j (oct_secret i k) = refl

pub identity-publish : (private public : Jwk) → identity (publish private public) ≡ identity public
unfolding publish
identity-publish private (public_rsa i k) = refl
identity-publish private (private_rsa i k s) = refl
identity-publish private (public_ec i k) = refl
identity-publish private (private_ec i k d) = refl
identity-publish private (oct_secret i k) = refl

abbrev pub public_identity : PublicKey → KeyIdentity
public_identity (rsa_public p) = rsa_identity p.n p.e
public_identity (ecdsa_public p) = ec_identity p.x p.y

-- the public key belongs to the private key; the point of an ECDSA key is that of its scalar
abbrev pub IsPair : Crypto → Signer → PublicKey → Type 0
IsPair crypto (rsa_signer v) (rsa_public p) = v.public ≡ p
IsPair crypto (ecdsa_signer v) (ecdsa_public p) =
    (v.public ≡ p) × (ec_point_from_scalar crypto p.curve v.d ≡ ok (p.x, p.y))
IsPair crypto (rsa_signer v) (ecdsa_public p) = ⊥
IsPair crypto (ecdsa_signer v) (rsa_public p) = ⊥

-- the curve that the algorithm of a key leads back to
named_curve :
    (crypto : Crypto) (c : Curve) (d : ℕ) (x y : ℕ)
    → ec_point_from_scalar crypto c d ≡ ok (x, y)
    → ecdsa_curve_for_alg (ec_bits_to_alg (bit_size c)) ≡ ok c
unfolding ecdsa_curve_for_alg ec_bits_to_alg ec_point_from_scalar bit_size
named_curve crypto p256 d x y h = refl
named_curve crypto p384 d x y h = refl
named_curve crypto p521 d x y h = refl
named_curve crypto (other_curve name bits) d x y h = cc h

module _ (crypto : Crypto) where
  -- what a successful `JwkFromPrivateKey` went through
  pub jwk_from_private_key_steps :
      (signer : Signer) (operations : List KeyOps) (certs : List (Option Certificate)) (jwk : Jwk)
      → jwk_from_private_key crypto signer operations certs ≡ ok jwk
      → (made : Jwk) × (public : Jwk) × (id : String) × (jwk_of_signer crypto operations signer
          ≡ ok made)
        × (public_from_private crypto (with_certs certs (set_ops operations made)) ≡ ok public)
        × (calculate_key_id crypto public ≡ ok id)
        × (jwk ≡ set_kid id (with_certs certs (set_ops operations made)))
  unfolding jwk_from_private_key
  jwk_from_private_key_steps signer operations certs jwk h =
      let (made, e, r) = >>=-eq-ok (jwk_of_signer crypto operations signer) _ h in
      let (public, e', r') =
        >>=-eq-ok (public_from_private crypto (with_certs certs (set_ops operations made))) _ r in
      let (id, e'', r'') = >>=-eq-ok (calculate_key_id crypto public) _ r' in
      (made, public, id, e, e', e'', cc r'')

  pub public_from_private_steps :
      (jwk public : Jwk)
      → public_from_private crypto jwk ≡ ok public
      → (part : Jwk) × (public_part crypto jwk ≡ ok part) × (public ≡ publish jwk part)
  unfolding public_from_private
  public_from_private_steps jwk public h =
      let (part, e, r) = >>=-eq-ok (public_part crypto jwk) _ h in (part, e, cc r)

  rsa_part :
      (jwk : Jwk) (j : JwkFields) (k : PublicRsaKeyFields) (s : PrivateRsaKeyFields) (part : Jwk)
      → jwk ≡ private_rsa j k s
      → public_part crypto jwk ≡ ok part
      → part ≡ public_rsa no_fields k
  unfolding public_part
  rsa_part jwk j k s part shape h =
      let h' = rw shape at h in
      let (e, r) =
        guard->>-eq-ok
          (not (
            s.d == 0
            || s.q == 0
            || s.dq == 0
            || s.p == 0
            || s.dp == 0
            || s.qi == 0
            || k.n == 0
            || k.e == 0))
          (gose_error invalid_key_type) (ok (public_rsa no_fields k)) h' in
      cc r

  ec_part :
      (jwk : Jwk) (j : JwkFields) (k : PublicEcKeyFields) (d : ℕ) (c : Curve) (x y : ℕ) (part : Jwk)
      → jwk ≡ private_ec j k d
      → ecdsa_curve_for_alg j.key_alg ≡ ok c
      → ec_point_from_scalar crypto c d ≡ ok (x, y)
      → public_part crypto jwk ≡ ok part
      → part ≡ public_ec no_fields (record { crv = curve_name c; x = x; y = y })
  unfolding public_part
  ec_part jwk j k d c x y part shape named point h =
      let h' = rw shape at h in
      let h'' = rw named at h' in
      let (e, r) = guard->>-eq-ok (not (d == 0)) (gose_error invalid_key_type) _ h'' in
      let r' : ok (public_ec no_fields (record { crv = curve_name c; x = x; y = y })) ≡ ok part =
        rw point at r in
      cc r'

  of_pair :
      (signer : Signer) (key : PublicKey) (operations : List KeyOps) (made public : Jwk)
      (certs : List (Option Certificate))
      → IsPair crypto signer key
      → jwk_of_signer crypto operations signer ≡ ok made
      → public_from_private crypto (with_certs certs (set_ops operations made)) ≡ ok public
      → identity public ≡ some (public_identity key)
  unfolding jwk_of_signer
  of_pair (rsa_signer v) (rsa_public p) operations made public certs pair h e =
      let (b, r) =
        guard->>-eq-ok (not (ltb max_int_32 v.public.e)) (gose_error invalid_exponent) _ h in
      let (j, shape, _, _, _) = with_certs_shape certs (set_ops operations made) in
      let (part, q, publish_eq) = public_from_private_steps _ public e in
      let (dp, dq, qinv) = crypto.rsa_precompute v in
      let part_eq =
        rsa_part (with_certs certs (set_ops operations made)) j
          (record { n = v.public.n; e = v.public.e })
          (record { d = v.d; p = v.p; q = v.q; dp = dp; dq = dq; qi = qinv }) part (cc (shape, r))
          q in
      rw publish_eq (identity-publish _ part ∙ (rw (part_eq, pair) refl))
  of_pair (ecdsa_signer v) (ecdsa_public p) operations made public certs (same, point) h e =
      let (j, shape, a, _, _) = with_certs_shape certs (set_ops operations made) in
      let (part, q, publish_eq) = public_from_private_steps _ public e in
      let alg_eq : j.key_alg ≡ ec_bits_to_alg (bit_size p.curve) = cc (a, h, same) in
      let named = named_curve crypto p.curve v.d p.x p.y point in
      let part_eq =
        ec_part (with_certs certs (set_ops operations made)) j
          (record { crv = curve_name v.public.curve; x = v.public.x; y = v.public.y }) v.d p.curve
          p.x p.y part (cc (shape, h)) (rw alg_eq named) point q in
      rw publish_eq (identity-publish _ part ∙ (rw part_eq refl))
  of_pair (rsa_signer v) (ecdsa_public p) operations made public certs pair h e = absurd pair
  of_pair (ecdsa_signer v) (rsa_public p) operations made public certs pair h e = absurd pair

  identity_of_public :
      (operations : List KeyOps) (key : PublicKey) (made : Jwk)
      → jwk_of_public crypto operations key ≡ ok made
      → identity (set_ops operations made) ≡ some (public_identity key)
  unfolding jwk_of_public
  identity_of_public operations (rsa_public p) made h =
      let (b, r) = guard->>-eq-ok (not (ltb max_int_32 p.e)) (gose_error invalid_exponent) _ h in
      identity-with_fields _ made ∙ cc r
  identity_of_public operations (ecdsa_public p) made h = identity-with_fields _ made ∙ cc h

  pub jwk_from_public_key_steps :
      (key : PublicKey) (operations : List KeyOps) (certs : List (Option Certificate)) (jwk : Jwk)
      → jwk_from_public_key crypto key operations certs ≡ ok jwk
      → (made : Jwk) × (id : String) × (jwk_of_public crypto operations key ≡ ok made)
        × (calculate_key_id crypto (set_ops operations made) ≡ ok id)
        × (jwk ≡ with_certs certs (set_kid id (set_ops operations made)))
  unfolding jwk_from_public_key
  jwk_from_public_key_steps key operations certs jwk h =
      let (made, e, r) = >>=-eq-ok (jwk_of_public crypto operations key) _ h in
      let (id, e', r') = >>=-eq-ok (calculate_key_id crypto (set_ops operations made)) _ r in
      (made, id, e, e', cc r')

  -- The JWK that `JwkFromPrivateKey` makes of a private key has the key ID of the one that
  -- `JwkFromPublicKey` makes of its public key, whatever operations and certificates the two are
  -- given, if both calls succeed and the point of an ECDSA key is that of its scalar.
  pub kid-jwk_from_private_key :
      (signer : Signer) (key : PublicKey) (operations operations' : List KeyOps)
      (certs certs' : List (Option Certificate)) (private public : Jwk)
      → IsPair crypto signer key
      → jwk_from_private_key crypto signer operations certs ≡ ok private
      → jwk_from_public_key crypto key operations' certs' ≡ ok public
      → kid private ≡ kid public
  kid-jwk_from_private_key signer key operations operations' certs certs' private public pair h h' =
      let (made, half, id, e, e', e'', result) =
        jwk_from_private_key_steps signer operations certs private h in
      let (made', id', f, f', result') =
        jwk_from_public_key_steps key operations' certs' public h' in
      let same = of_pair signer key operations made half certs pair e e' in
      let same' = identity_of_public operations' key made' f in
      let ids =
        calculate_key_id-identity crypto half (set_ops operations' made') (same ∙ sym same') in
      let (j, shape, _, _, named) =
        with_certs_shape certs' (set_kid id' (set_ops operations' made')) in
      let left : kid private ≡ id = rw result (kid-with_fields _ _) in
      let right : kid public ≡ id' =
        rw (result', shape) (kid-with_fields j _ ∙ (named ∙ kid-with_fields _ _)) in
      cc (left, right, ids, e'', f')
