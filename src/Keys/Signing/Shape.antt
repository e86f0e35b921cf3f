-- ===== src/Keys/Signing/Shape.antt =====
-- signer.go and helpers.go: the members of the keys that `NewSigningKey` and `PublicFromPrivate` make.
use gose.Prelude.{ℕ, ◌≡◌, refl, ap, ◌∙◌, not, ◌||◌, Option, none, some, List, map, ◌==◌}
use gose.Error.{
  Error, ok, require, guard->>-eq-ok, >>=-eq-ok, gose_error, GoseError, invalid_key_type,
  inconsistent_key_values, invalid_operations,
}
use gose.Crypto.{Crypto, Curve, curve_name, RsaPrivateKey, EcPrivateKey}
use gose.Jose.Types.{KeyOps}
use gose.Jose.Jwk
use gose.Jose.Jwk.{
  Jwk, JwkFields, PublicRsaKeyFields, PrivateRsaKeyFields, PublicEcKeyFields, public_rsa,
  private_rsa, public_ec, private_ec, oct_secret, with_fields,
}
use gose.KeyOps.{intersection, valid_signer_ops}
use gose.Keys.Options.{SignerOpts, opts_for_alg, signer_opts_for_alg, ecdsa_curve_for_alg}
use gose.Keys.Load.{
  Signer, rsa_signer, ecdsa_signer, key_algs, is_listed, lacks_required, check_rsa_bounds,
  validated, agrees_with_precomputed, import_rsa, import_private, load_private_key,
}
use gose.Keys.Convert.{
  inverse_op, publish, public_part, public_from_private, ec_point_from_scalar, no_fields,
}
use gose.Keys.Convert.Halves.{public_from_private_steps}
use gose.Keys.Signing.{
  SigningKey, algorithm, signing_key_impl, ecdsa_signing_key, signing_key_of, new_signing_key,
  is_nil,
}

-- the private key of an RSA JWK
abbrev pub rsa_private : PublicRsaKeyFields → PrivateRsaKeyFields → RsaPrivateKey
rsa_private k s = record { public = record { n = k.n; e = k.e }; d = s.d; p = s.p; q = s.q }

abbrev pub ec_private : Curve → PublicEcKeyFields → ℕ → EcPrivateKey
ec_private c k d = record { public = record { curve = c; x = k.x; y = k.y }; d = d }

-- the members of the public JWK that `PublicFromPrivate` makes
abbrev pub published : JwkFields → JwkFields
published j = record no_fields {
  key_ops = map inverse_op j.key_ops;
  key_alg = j.key_alg;
  key_kid = j.key_kid;
  key_x5c = j.key_x5c;
}

pub made_algorithm :
    (jwk : Jwk) (signer : Signer) (k : SigningKey)
    → signing_key_of jwk signer ≡ ok k
    → algorithm k ≡ Jwk.alg jwk
unfolding signing_key_of
made_algorithm (private_rsa j k s) signer key h =
    let e : key
        ≡ signing_key_impl (record {
          jwk = private_rsa j k s;
          key = signer;
          certs = j.key_x5c;
          ops = j.key_ops;
          alg = j.key_alg;
        }) =
      cc h in
    rw e refl
made_algorithm (private_ec j k d) signer key h =
    let e : key
        ≡ ecdsa_signing_key (record {
          jwk = private_ec j k d;
          key = signer;
          certs = j.key_x5c;
          ops = j.key_ops;
          alg = j.key_alg;
        }) =
      cc h in
    rw e refl
made_algorithm (public_rsa j k) signer key h = cc h
made_algorithm (public_ec j k) signer key h = cc h
made_algorithm (oct_secret j k) signer key h = cc h

module _ (crypto : Crypto) where
  pub import_rsa_made :
      (k : PublicRsaKeyFields) (s : PrivateRsaKeyFields) (signer : Signer)
      → import_rsa crypto k s ≡ ok signer
      → signer ≡ rsa_signer (rsa_private k s)
  unfolding import_rsa
  import_rsa_made k s signer h =
      let (_, h₁) =
        guard->>-eq-ok (not (s.d == 0 || k.e == 0 || k.n == 0)) (gose_error invalid_key_type) _ h in
      let (_, _, h₂) = >>=-eq-ok (check_rsa_bounds k) _ h₁ in
      let (_, h₃) =
        guard->>-eq-ok (not (s.p == 0 || s.q == 0 || s.dp == 0 || s.dq == 0 || s.qi == 0))
          (gose_error inconsistent_key_values) _ h₂ in
      let (_, _, h₄) = >>=-eq-ok (validated (crypto.rsa_validate (rsa_private k s))) _ h₃ in
      let (_, h₅) =
        guard->>-eq-ok (agrees_with_precomputed (crypto.rsa_precompute (rsa_private k s)) s)
          (gose_error inconsistent_key_values) _ h₄ in
      cc h₅

  pub loaded :
      (jwk : Jwk) (required : List KeyOps) (signer : Signer)
      → load_private_key crypto jwk required ≡ ok signer
      → import_private crypto jwk ≡ ok signer
  unfolding load_private_key
  loaded jwk required signer h =
      let (_, h₁) =
        guard->>-eq-ok (is_listed key_algs (Jwk.alg jwk)) (gose_error invalid_key_type) _ h in
      (guard->>-eq-ok (not (lacks_required (Jwk.ops jwk) required)) (gose_error invalid_operations)
        _ h₁).1

  pub import_ec_made :
      (j : JwkFields) (k : PublicEcKeyFields) (d : ℕ) (signer : Signer)
      → import_private crypto (private_ec j k d) ≡ ok signer
      → (c : Curve) × (ecdsa_curve_for_alg j.key_alg ≡ ok c)
        × (signer ≡ ecdsa_signer (ec_private c k d))
  unfolding import_private
  import_ec_made j k d signer h =
      let (_, h₁) = guard->>-eq-ok (not (d == 0)) (gose_error invalid_key_type) _ h in
      let (c, e, h₂) = >>=-eq-ok (ecdsa_curve_for_alg j.key_alg) _ h₁ in (c, e, cc h₂)

  -- what `NewSigningKey` makes: the fields are those of the JWK, and the key is imported from it
  pub new_signing_key_steps :
      (jwk : Jwk) (required : List KeyOps) (k : SigningKey)
      → new_signing_key crypto jwk required ≡ ok k
      → (opts : SignerOpts) × (signer : Signer) × (opts_for_alg (Jwk.alg jwk) ≡ some opts)
        × (import_private crypto jwk ≡ ok signer)
        × (signing_key_of jwk signer ≡ ok k)
  unfolding new_signing_key signer_opts_for_alg
  new_signing_key_steps jwk required k h =
      let (_, h₁) =
        guard->>-eq-ok (not (is_nil (intersection valid_signer_ops (Jwk.ops jwk))))
          (gose_error invalid_operations) _ h in
      let (opts, e, h₂) =
        >>=-eq-ok (require (opts_for_alg (Jwk.alg jwk)) (gose_error GoseError.invalid_algorithm)) _
          h₁ in
      let (signer, e', h₃) = >>=-eq-ok (load_private_key crypto jwk required) _ h₂ in
      (opts, signer, required_found _ _ opts e, loaded jwk required signer e', h₃)
    where
      required_found :
          (o : Option SignerOpts) (f : Error) (opts : SignerOpts)
          → require o f ≡ ok opts
          → o ≡ some opts
      required_found none f opts h = cc h
      required_found (some o) f opts h = cc h

  -- the public JWK of an RSA key
  pub public_from_rsa :
      (j : JwkFields) (k : PublicRsaKeyFields) (s : PrivateRsaKeyFields) (public : Jwk)
      → public_from_private crypto (private_rsa j k s) ≡ ok public
      → public ≡ public_rsa (published j) k
  unfolding public_part publish
  public_from_rsa j k s public h =
      let (part, e, r) = public_from_private_steps crypto (private_rsa j k s) public h in
      let (_, q) =
        guard->>-eq-ok
          (not (
            s.d == 0
            || s.q == 0
            || s.dq == 0
            || s.p == 0
            || s.dp == 0
            || s.qi == 0
            || k.n == 0
            || k.e == 0))
          (gose_error invalid_key_type) (ok (public_rsa no_fields k)) e in
      let part_eq : part ≡ public_rsa no_fields k = cc q in
      r ∙ ap (publish (private_rsa j k s)) part_eq

  -- the public JWK of an EC key, which has the point of the scalar
  pub public_from_ec :
      (j : JwkFields) (k : PublicEcKeyFields) (d : ℕ) (public : Jwk)
      → public_from_private crypto (private_ec j k d) ≡ ok public
      → (c : Curve) × (x : ℕ) × (y : ℕ) × (ecdsa_curve_for_alg j.key_alg ≡ ok c)
        × (ec_point_from_scalar crypto c d ≡ ok (x, y))
        × (public ≡ public_ec (published j) (record { crv = curve_name c; x = x; y = y }))
  unfolding public_part publish
  public_from_ec j k d public h =
      let (part, e, r) = public_from_private_steps crypto (private_ec j k d) public h in
      let (c, named, e₁) = >>=-eq-ok (ecdsa_curve_for_alg j.key_alg) _ e in
      let (_, e₂) = guard->>-eq-ok (not (d == 0)) (gose_error invalid_key_type) _ e₁ in
      let ((x, y), point, e₃) = >>=-eq-ok (ec_point_from_scalar crypto c d) _ e₂ in
      let part_eq : part ≡ public_ec no_fields (record { crv = curve_name c; x = x; y = y }) =
        cc e₃ in
      (c, x, y, named, point, r ∙ ap (publish (private_ec j k d)) part_eq)
