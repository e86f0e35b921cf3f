-- ===== src/Keys/Verification/Usable.antt =====
-- What the keys that `NewVerificationKey` makes can do.
use gose.Prelude.{
  ap, ℕ, ◌≤◌, ◌<◌, ◌^◌, ◌≡◌, ◌⊎◌, inl, inr, refl, true, false, not, ◌||◌, Option, none, some, List,
  [], ◌∷◌, arith, ◌==◌, eq_iff, Bool-cases, Has,
}
use gose.Bytes.{Bytes}
use gose.Error.{Result, Checked, ok, err, guard-eq-ok, guard->>-eq-ok, gose_error, GoseError}
use gose.Crypto.{p521, p384, p256, Curve, Crypto, Hash}
use gose.Jose.Types.{
  KeyOps, Alg, alg_rs256, alg_rs384, alg_rs512, alg_ps256, alg_ps384, alg_ps512, alg_es256,
  alg_es384, alg_es512,
}
use gose.Jose.Jwk.{
  Jwk, JwkFields, PublicRsaKeyFields, PublicEcKeyFields, public_rsa, private_rsa, public_ec,
  private_ec, oct_secret, ops, set_ops,
}
use gose.Keys.Options.{SignerOpts, EcdsaOptions, pss, pkcs1v15, ecdsa, opts_for_alg, pss_algs}
use gose.Keys.Load.{is_listed, check_rsa_bounds, bit_len_above}
use gose.Keys.Verification.{
  VerificationKey, rsa_key, ec_key, fallback_alg, is_rsa_signature_alg, is_ec_signature_alg,
  new_rsa_verifier, rsa_labelled, rsa_within, ec_curve_asserted, new_ec_verifier, new_key_of,
  limited_to, verification_ops, new_verification_key,
}

pub rsa_named :
    (a : Alg)
    → is_rsa_signature_alg a ≡ true
    → Has a (alg_ps256 ∷ alg_ps384 ∷ alg_ps512 ∷ alg_rs256 ∷ alg_rs384 ∷ alg_rs512 ∷ [])
unfolding is_rsa_signature_alg
rsa_named a h = ground (
  arith,
  eq_iff a alg_ps256,
  eq_iff a alg_ps384,
  eq_iff a alg_ps512,
  eq_iff a alg_rs256,
  eq_iff a alg_rs384,
  eq_iff a alg_rs512,
)

pub ec_named :
    (a : Alg) → is_ec_signature_alg a ≡ true → Has a (alg_es256 ∷ alg_es384 ∷ alg_es512 ∷ [])
unfolding is_ec_signature_alg
ec_named a h = ground (arith, eq_iff a alg_es256, eq_iff a alg_es384, eq_iff a alg_es512)

-- the signature algorithms of RSA, and those of ECDSA, each with its curve
abbrev pub IsRsaSignature : Alg → Type 0
IsRsaSignature a =
    Has a (alg_ps256 ∷ alg_ps384 ∷ alg_ps512 ∷ alg_rs256 ∷ alg_rs384 ∷ alg_rs512 ∷ [])

abbrev pub IsOnCurve : Alg → Curve → Type 0
IsOnCurve a c =
    Has {A = Alg × Curve} (a, c) ((alg_es256, p256) ∷ (alg_es384, p384) ∷ (alg_es512, p521) ∷ [])

-- the algorithm of a key is one for its material, and an RSA key is within the bounds
abbrev pub IsFit : VerificationKey → Type 0
IsFit (rsa_key k) = IsRsaSignature k.alg × (2 ^ 2047 ≤ k.key.n) × (0 < k.key.e) × (k.key.e < 2 ^ 32)
IsFit (ec_key k) = IsOnCurve k.alg k.key.curve

-- the options of an ECDSA algorithm name its curve
on_curve :
    (a : Alg) (o : EcdsaOptions)
    → Has a (alg_es256 ∷ alg_es384 ∷ alg_es512 ∷ [])
    → opts_for_alg a ≡ some (ecdsa o)
    → IsOnCurve a o.curve
unfolding opts_for_alg
on_curve a o (inl e) h = let c : p256 ≡ o.curve = cc (rw e at h) in inl (cc (e, c))
on_curve a o (inr (inl e)) h = let c : p384 ≡ o.curve = cc (rw e at h) in inr (inl (cc (e, c)))
on_curve a o (inr (inr (inl e))) h =
    let c : p521 ≡ o.curve = cc (rw e at h) in inr (inr (inl (cc (e, c))))
on_curve a o (inr (inr (inr e))) h = absurd e

pub on_curve_named :
    (a : Alg) (c : Curve) → IsOnCurve a c → Has a (alg_es256 ∷ alg_es384 ∷ alg_es512 ∷ [])
on_curve_named a c (inl e) = inl (ap (λ x. x.0) e)
on_curve_named a c (inr (inl e)) = inr (inl (ap (λ x. x.0) e))
on_curve_named a c (inr (inr (inl e))) = inr (inr (inl (ap (λ x. x.0) e)))
on_curve_named a c (inr (inr (inr e))) = absurd e

check_rsa_bounds_sound :
    (k : PublicRsaKeyFields)
    → check_rsa_bounds k ≡ ok tt
    → (2 ^ 2047 ≤ k.n) × (0 < k.e) × (k.e < 2 ^ 32)
unfolding check_rsa_bounds bit_len_above
check_rsa_bounds_sound k h =
    let (e, n) = guard->>-eq-ok (not (bit_len_above 32 k.e || k.e == 0)) _ _ h in
    let m = guard-eq-ok (bit_len_above 2047 k.n) _ n in
    (ground (arith, m), ground (arith, e), ground (arith, e))

within-IsFit :
    (valid : List KeyOps) (jwk : Jwk) (k : PublicRsaKeyFields) (a : Alg) (r : Checked)
    (key : VerificationKey)
    → is_rsa_signature_alg a ≡ true
    → check_rsa_bounds k ≡ r
    → (rsa_within valid jwk k a r).0 ≡ ok key
    → IsFit key
unfolding rsa_within
within-IsFit valid jwk k a (err e) key named bounds h = cc h
within-IsFit valid jwk k a (ok _) key named bounds h =
    let e : key
        ≡ rsa_key (record {
          key = record { n = k.n; e = k.e };
          jwk = set_ops valid jwk;
          ops = valid;
          alg = a;
        }) =
      cc h in
    let (n, low, high) = check_rsa_bounds_sound k bounds in rw e (rsa_named a named, n, low, high)

labelled-IsFit :
    (valid : List KeyOps) (j : JwkFields) (k : PublicRsaKeyFields) (r : Result Alg)
    (key : VerificationKey)
    → (rsa_labelled valid j k r).0 ≡ ok key
    → IsFit key
unfolding rsa_labelled
labelled-IsFit valid j k (err e) key h = cc h
labelled-IsFit valid j k (ok a) key h = elim (Bool-cases (is_rsa_signature_alg a)) [
  | inl named ↦
      within-IsFit valid (public_rsa (record j { key_alg = a }) k) k a (check_rsa_bounds k) key
        named refl (rw named at h)
  | inr other ↦
      let h' : err (gose_error GoseError.unsupported_key_type) ≡ ok key = rw other at h in cc h'
]

asserted-IsFit :
    (o : Option SignerOpts) (j : JwkFields) (k : PublicEcKeyFields) (valid : List KeyOps)
    (key : VerificationKey)
    → is_ec_signature_alg j.key_alg ≡ true
    → opts_for_alg j.key_alg ≡ o
    → ec_curve_asserted o j k valid ≡ ok key
    → IsFit key
unfolding ec_curve_asserted
asserted-IsFit (some (ecdsa o)) j k valid key named found h =
    let e : key
        ≡ ec_key (record {
          key = record { curve = o.curve; x = k.x; y = k.y };
          jwk = public_ec j k;
          ops = valid;
          alg = j.key_alg;
        }) =
      cc h in
    rw e (on_curve j.key_alg o (ec_named j.key_alg named) found)
asserted-IsFit (some (pss salt h')) j k valid key named found h = cc h
asserted-IsFit (some (pkcs1v15 h')) j k valid key named found h = cc h
asserted-IsFit none j k valid key named found h = cc h

ec-IsFit :
    (valid : List KeyOps) (j : JwkFields) (k : PublicEcKeyFields) (key : VerificationKey)
    → (new_ec_verifier valid j k).0 ≡ ok key
    → IsFit key
unfolding new_ec_verifier
ec-IsFit valid j k key h = elim (Bool-cases (is_ec_signature_alg j.key_alg)) [
  | inl named ↦ asserted-IsFit (opts_for_alg j.key_alg) j k valid key named refl (rw named at h)
  | inr other ↦
      let h' : err (gose_error GoseError.unsupported_key_type) ≡ ok key = rw other at h in cc h'
]

of-IsFit :
    (valid : List KeyOps) (jwk : Jwk) (key : VerificationKey)
    → (new_key_of valid jwk).0 ≡ ok key
    → IsFit key
unfolding new_key_of new_rsa_verifier
of-IsFit valid (public_rsa j k) key h =
    labelled-IsFit valid j k (fallback_alg j.key_alg j.key_x5c) key h
of-IsFit valid (public_ec j k) key h = ec-IsFit valid j k key h
of-IsFit valid (private_rsa j k s) key h = cc h
of-IsFit valid (private_ec j k d) key h = cc h
of-IsFit valid (oct_secret j k) key h = cc h

limited-IsFit :
    (limit : Result (List KeyOps)) (jwk : Jwk) (key : VerificationKey)
    → (limited_to limit jwk).0 ≡ ok key
    → IsFit key
unfolding limited_to
limited-IsFit (err e) jwk key h = cc h
limited-IsFit (ok valid) jwk key h = of-IsFit valid jwk key h

-- The keys that `NewVerificationKey` makes have an algorithm that fits their material: RS256, RS384,
-- RS512, PS256, PS384 or PS512 for an RSA key, which has a modulus of at least 2048 bits and a positive
-- exponent of at most 32 bits, and for an EC key ES256 on P-256, ES384 on P-384 or ES512 on P-521. The
-- curve is that of the algorithm, whatever `crv` says.
pub new_verification_key-IsFit :
    (jwk : Jwk) (key : VerificationKey) → (new_verification_key jwk).0 ≡ ok key → IsFit key
unfolding new_verification_key
new_verification_key-IsFit jwk key h = limited-IsFit (verification_ops (ops jwk)) jwk key h

-- the options of an RSA algorithm, which are PSS options for the PSS algorithms alone
abbrev pub RsaOpts : Alg → Type 0
RsaOpts a =
    ((salt : ℕ) × (h : Hash) × (opts_for_alg a ≡ some (pss salt h)) × (is_listed pss_algs a ≡ true))
    ⊎ ((h : Hash) × (opts_for_alg a ≡ some (pkcs1v15 h)) × (is_listed pss_algs a ≡ false))

pub rsa_opts :
    (a : Alg)
    → Has a (alg_ps256 ∷ alg_ps384 ∷ alg_ps512 ∷ alg_rs256 ∷ alg_rs384 ∷ alg_rs512 ∷ [])
    → RsaOpts a
unfolding opts_for_alg is_listed
rsa_opts a (inl e) = rw e (inl (_, _, refl, refl))
rsa_opts a (inr (inl e)) = rw e (inl (_, _, refl, refl))
rsa_opts a (inr (inr (inl e))) = rw e (inl (_, _, refl, refl))
rsa_opts a (inr (inr (inr (inl e)))) = rw e (inr (_, refl, refl))
rsa_opts a (inr (inr (inr (inr (inl e))))) = rw e (inr (_, refl, refl))
rsa_opts a (inr (inr (inr (inr (inr (inl e)))))) = rw e (inr (_, refl, refl))
rsa_opts a (inr (inr (inr (inr (inr (inr e)))))) = absurd e

pub ec_opts :
    (a : Alg)
    → Has a (alg_es256 ∷ alg_es384 ∷ alg_es512 ∷ [])
    → (o : EcdsaOptions) × (opts_for_alg a ≡ some (ecdsa o))
unfolding opts_for_alg
ec_opts a (inl e) = rw e (_, refl)
ec_opts a (inr (inl e)) = rw e (_, refl)
ec_opts a (inr (inr (inl e))) = rw e (_, refl)
ec_opts a (inr (inr (inr e))) = absurd e
