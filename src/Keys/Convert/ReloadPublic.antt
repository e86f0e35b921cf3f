-- ===== src/Keys/Convert/ReloadPublic.antt =====
-- helpers.go: a public key that was made into a JWK is loaded from it again.
use gose.Prelude.{
  ◌≤◌, ◌<◌, ◌^◌, ◌≡◌, refl, ap, ◌∙◌, true, false, not, ◌||◌, Option, List, arith, ◌==◌, ltb,
}
use gose.Error.{ok, guard->>-eq-ok, gose_error, GoseError}
use gose.Crypto.{Crypto, Certificate, bit_size, curve_name}
use gose.Jose.Types.{KeyOps}
use gose.Jose.Jwk.{
  Jwk, JwkFields, PublicRsaKeyFields, PublicEcKeyFields, public_rsa, public_ec, fields, with_fields,
  set_ops, set_kid, ops, alg,
}
use gose.Keys.Options.{ecdsa_curve_for_alg}
use gose.Keys.Load.{
  PublicKey, rsa_public, ecdsa_public, key_algs, is_listed, lacks_required, import_public,
  load_public_key,
}
use gose.Keys.Convert.{
  rsa_alg_from_ops, ec_bits_to_alg, jwk_of_public, jwk_from_public_key, max_int_32,
}
use gose.Keys.Convert.Halves.{with_certs_shape, fields-with_fields, jwk_from_public_key_steps}
use gose.Keys.Convert.Reload.{
  rsa_alg_from_ops-is_listed, ec_bits_to_alg_back, within_bounds, with_fields-id, reshaped, IsNamed,
}

-- what the loader asks of a public key
abbrev pub IsLoadablePublic : PublicKey → Type 0
IsLoadablePublic (rsa_public v) = (2 ^ 2047 ≤ v.n) × (0 < v.e)
IsLoadablePublic (ecdsa_public v) = IsNamed v.curve × (0 < v.x) × (0 < v.y)

module _ (crypto : Crypto) where
  import_public_loads :
      (key : PublicKey) (operations : List KeyOps) (made : Jwk) (j : JwkFields) (jwk : Jwk)
      → IsLoadablePublic key
      → jwk_of_public crypto operations key ≡ ok made
      → j.key_alg ≡ alg made
      → jwk ≡ with_fields j made
      → (is_listed key_algs (alg made) ≡ true) × (import_public jwk ≡ ok key)
  unfolding jwk_of_public import_public
  import_public_loads (rsa_public v) operations made j jwk (hn, he) h same shape =
      let (b, r) =
        guard->>-eq-ok (not (ltb max_int_32 v.e)) (gose_error GoseError.invalid_exponent) _ h in
      let k : PublicRsaKeyFields = record { n = v.n; e = v.e } in
      let whole : jwk ≡ public_rsa j k = cc (shape, r) in
      let a : alg made ≡ rsa_alg_from_ops v.n operations = cc r in
      let big : 0 < v.n = omega (arith, hn) in
      let there : not (v.n == 0 || v.e == 0) ≡ true = ground (arith, he, big) in
      (
        rw a (rsa_alg_from_ops-is_listed v.n operations),
        rw (whole, there, within_bounds k hn he b) refl,
      )
  import_public_loads (ecdsa_public v) operations made j jwk (known, hx, hy) h same shape =
      let k : PublicEcKeyFields = record { crv = curve_name v.curve; x = v.x; y = v.y } in
      let (listed, named) = ec_bits_to_alg_back v.curve known in
      let whole : jwk ≡ public_ec j k = cc (shape, h) in
      let a : alg made ≡ ec_bits_to_alg (bit_size v.curve) = cc h in
      let b : j.key_alg ≡ ec_bits_to_alg (bit_size v.curve) = cc (same, a) in
      let there : not (v.x == 0 || v.y == 0) ≡ true = ground (arith, hx, hy) in
      let named' : ecdsa_curve_for_alg j.key_alg ≡ ok v.curve = rw b named in
      (rw a listed, rw (whole, there, named') refl)

  -- A public key is loaded again from the JWK that `JwkFromPublicKey` makes of it, with any
  -- certificates, for any required operations that the JWK was given. An RSA key must have a modulus
  -- of at least 2048 bits and a positive exponent; an ECDSA key must be on one of the three named
  -- curves with coordinates that are not zero.
  pub load_public_key-jwk_from_public_key :
      (key : PublicKey) (operations required : List KeyOps) (certs : List (Option Certificate))
      (jwk : Jwk)
      → IsLoadablePublic key
      → lacks_required operations required ≡ false
      → jwk_from_public_key crypto key operations certs ≡ ok jwk
      → load_public_key jwk required ≡ ok key
  unfolding load_public_key
  load_public_key-jwk_from_public_key key operations required certs jwk loadable held h =
      let (made, id, e, _, result) = jwk_from_public_key_steps crypto key operations certs jwk h in
      let (i, shape, alg_eq, ops_eq, _) =
        with_certs_shape certs (set_kid id (set_ops operations made)) in
      let base = set_ops operations made in
      let inner = fields-with_fields (record (fields made) { key_ops = operations }) made in
      let outer = fields-with_fields (record (fields base) { key_kid = id }) base in
      let flat =
        reshaped i (record (fields base) { key_kid = id }) base (set_kid id base) refl
        ∙ with_fields-id i _ made in
      let whole : jwk ≡ with_fields i made = result ∙ (shape ∙ flat) in
      let same : i.key_alg ≡ alg made = cc (alg_eq, outer, inner) in
      let have : i.key_ops ≡ operations = cc (ops_eq, outer, inner) in
      let (listed, imported) =
        import_public_loads key operations made i jwk loadable e same whole in
      let a : alg jwk ≡ alg made =
        rw whole (ap (λ f. f.key_alg) (fields-with_fields i made) ∙ same) in
      let o : ops jwk ≡ operations =
        rw whole (ap (λ f. f.key_ops) (fields-with_fields i made) ∙ have) in
      rw (a, listed, o, held) imported
