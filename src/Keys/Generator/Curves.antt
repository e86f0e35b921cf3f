-- ===== src/Keys/Generator/Curves.antt =====
-- key_generator.go: the curve of a generated ECDSA key.
use gose.Prelude.{
  eq_iff, str_eq, inr, String, Bool-cases, inl, ℕ, ◌≡◌, refl, ◌∙◌, ap, get, Option, none, some,
  List, [],
}
use gose.Error.{ok, require, >>=-eq-ok, gose_error, GoseError}
use gose.Crypto.{bit_size, curve_name, Crypto, Curve, p256, p384, p521, EcPrivateKey}
use gose.Jose.Types.{Alg, KeyOps, alg_es256, alg_es384, alg_es512}
use gose.Jose.Jwk.{set_kid, JwkFields, PublicEcKeyFields, Jwk, private_ec, set_alg, set_ops}
use gose.Keys.Load.{ecdsa_signer}
use gose.Keys.Convert.{ec_bits_to_alg, no_fields, with_certs, jwk_of_signer, jwk_from_private_key}
use gose.Keys.Signing.{
  ecdsa_signing_key, signing_fields, signing_key_of, SigningKey, algorithm, new_signing_key,
}
use gose.Keys.Signing.Shape.{import_ec_made, ec_private, new_signing_key_steps}
use gose.Keys.Convert.Halves.{jwk_from_private_key_steps}
use gose.Keys.Options.{ecdsa_curve_for_alg, opts_for_alg}
use gose.Keys.Verification.Usable.{IsOnCurve}
use gose.Keys.Generator.{Generators, generate_ecdsa_signing_key, ecds_algs}

curve_found :
    (o : Option Curve) (c : Curve)
    → require o (gose_error GoseError.invalid_algorithm) ≡ ok c
    → o ≡ some c
curve_found none c h = cc h
curve_found (some o) c h = cc h

-- the curve that an algorithm names is the one of the loader
curve_loaded : (a : Alg) (c c' : Curve) → IsOnCurve a c → ecdsa_curve_for_alg a ≡ ok c' → c' ≡ c
unfolding ecdsa_curve_for_alg opts_for_alg
curve_loaded a c c' (inl e) h =
    let n : a ≡ alg_es256 = ap (λ x. x.0) e in
    let m : c ≡ p256 = ap (λ x. x.1) e in cc (rw n at h, m)
curve_loaded a c c' (inr (inl e)) h =
    let n : a ≡ alg_es384 = ap (λ x. x.0) e in
    let m : c ≡ p384 = ap (λ x. x.1) e in cc (rw n at h, m)
curve_loaded a c c' (inr (inr (inl e))) h =
    let n : a ≡ alg_es512 = ap (λ x. x.0) e in
    let m : c ≡ p521 = ap (λ x. x.1) e in cc (rw n at h, m)
curve_loaded a c c' (inr (inr (inr e))) h = absurd e

curve_listed : (a : Alg) (c : Curve) → get a ecds_algs ≡ some c → IsOnCurve a c
unfolding get
curve_listed a c h = elim (Bool-cases (str_eq alg_es256 a)) [
  | inl e ↦
      let h' : some p256 ≡ some c = rw e at h in
      let n : alg_es256 ≡ a = (eq_iff alg_es256 a).0 e in inl (cc (n, h'))
  | inr e ↦ elim (Bool-cases (str_eq alg_es384 a)) [
    | inl e' ↦
        let h' : some p384 ≡ some c = rw (e, e') at h in
        let n : alg_es384 ≡ a = (eq_iff alg_es384 a).0 e' in inr (inl (cc (n, h')))
    | inr e' ↦ elim (Bool-cases (str_eq alg_es512 a)) [
      | inl e'' ↦
          let h' : some p521 ≡ some c = rw (e, e', e'') at h in
          let n : alg_es512 ≡ a = (eq_iff alg_es512 a).0 e'' in inr (inr (inl (cc (n, h'))))
      | inr e'' ↦ let h' : none ≡ some c = rw (e, e', e'') at h in cc h'
    ]
  ]
]

abbrev numbers : EcPrivateKey → PublicEcKeyFields
numbers v = record { crv = curve_name v.public.curve; x = v.public.x; y = v.public.y }

-- the JWK of a generated key
jwk_shape :
    (crypto : Crypto) (operations : List KeyOps) (v : EcPrivateKey) (made : Jwk) (a : Alg)
    (id : String)
    → jwk_of_signer crypto operations (ecdsa_signer v) ≡ ok made
    → (j : JwkFields) × (set_alg a (set_kid id (with_certs [] (set_ops operations made)))
        ≡ private_ec (record j { key_alg = a }) (numbers v) v.d)
unfolding jwk_of_signer with_certs
jwk_shape crypto operations v made a id h =
    let e : made
        ≡ private_ec (record no_fields { key_alg = ec_bits_to_alg (bit_size v.public.curve) })
            (numbers v) v.d =
      cc h in
    rw e (record no_fields { key_alg = a; key_ops = operations; key_kid = id }, refl)

-- the algorithm of a key that was loaded from an EC JWK, and the key that it signs with
signs_with :
    (crypto : Crypto) (w : Jwk) (j : JwkFields) (m : PublicEcKeyFields) (d : ℕ) (c : Curve)
    (operations : List KeyOps) (k : SigningKey)
    → w ≡ private_ec j m d
    → IsOnCurve j.key_alg c
    → new_signing_key crypto w operations ≡ ok k
    → (algorithm k ≡ j.key_alg) × ((signing_fields k).key ≡ ecdsa_signer (ec_private c m d))
unfolding signing_key_of
signs_with crypto w j m d c operations k shape on h =
    let h' = rw shape at h in
    let (_, signer, _, imported, made) =
      new_signing_key_steps crypto (private_ec j m d) operations k h' in
    let (c', named, is) = import_ec_made crypto j m d signer imported in
    let same : c' ≡ c = curve_loaded j.key_alg c c' on named in
    let e : k
        ≡ ecdsa_signing_key (record {
          jwk = private_ec j m d;
          key = signer;
          certs = j.key_x5c;
          ops = j.key_ops;
          alg = j.key_alg;
        }) =
      cc made in
    (rw e refl, rw (e, is, same) refl)

-- An ECDSA signing key that the generator has made has the algorithm that was asked for, and signs
-- with the numbers that were generated on the curve of that algorithm, which is P-256 for ES256, P-384
-- for ES384 and P-521 for ES512.
pub generate_ecdsa_signing_key-algorithm :
    (crypto : Crypto) (g : Generators) (a : Alg) (operations : List KeyOps) (k : SigningKey)
    → generate_ecdsa_signing_key crypto g a operations ≡ ok k
    → (algorithm k ≡ a)
      × (c : Curve) × (v : EcPrivateKey) × IsOnCurve a c
      × (g.generate_ecdsa c ≡ ok v)
      × ((signing_fields k).key
          ≡ ecdsa_signer
              (record { public = record { curve = c; x = v.public.x; y = v.public.y }; d = v.d }))
unfolding generate_ecdsa_signing_key
generate_ecdsa_signing_key-algorithm crypto g a operations k h =
    let (c, e, h₁) =
      >>=-eq-ok (require (get a ecds_algs) (gose_error GoseError.invalid_algorithm)) _ h in
    let (v, generated, h₂) = >>=-eq-ok (g.generate_ecdsa c) _ h₁ in
    let (jwk, written, h₃) =
      >>=-eq-ok (jwk_from_private_key crypto (ecdsa_signer v) operations []) _ h₂ in
    let on = curve_listed a c (curve_found (get a ecds_algs) c e) in
    let (made, public, id, of_signer, _, _, is) =
      jwk_from_private_key_steps crypto (ecdsa_signer v) operations [] jwk written in
    let (j, shape) = jwk_shape crypto operations v made a id of_signer in
    let whole = ap (set_alg a) is ∙ shape in
    let (same, key) =
      signs_with crypto (set_alg a jwk) (record j { key_alg = a }) (numbers v) v.d c operations k
        whole on h₃ in
    (same, c, v, on, generated, key)
