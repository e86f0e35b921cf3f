-- ===== src/Keys/Verification/Made.antt =====
-- verifier.go: the key that `NewVerificationKey` makes, member by member.
use gose.Prelude.{
  ◌≡◌, ◌≢◌, refl, inl, inr, true, Option, none, some, List, [], ◌∷◌, eq_iff, arith, Bool-cases, Has,
}
use gose.Error.{Checked, ok, err, gose_error, GoseError}
use gose.Crypto.{Certificate}
use gose.Jose.Types.{KeyOps, Alg, key_ops_verify}
use gose.Jose.Jwk.{
  Jwk, JwkFields, PublicRsaKeyFields, PublicEcKeyFields, public_rsa, public_ec, set_ops,
}
use gose.KeyOps.{intersection, valid_verification_ops}
use gose.KeyOps.Policy.{Has-intersection}
use gose.Keys.Options.{SignerOpts, EcdsaOptions, ecdsa, opts_for_alg}
use gose.Keys.Load.{check_rsa_bounds}
use gose.Keys.Verification.{
  VerificationKey, rsa_key, ec_key, fallback_alg, is_rsa_signature_alg, is_ec_signature_alg,
  new_rsa_verifier, rsa_labelled, rsa_within, ec_curve_asserted, new_ec_verifier, new_key_of,
  limited_to, verification_ops, new_verification_key,
}

kept :
    (o : KeyOps) (have l : List KeyOps)
    → intersection valid_verification_ops (o ∷ have) ≡ l
    → Has key_ops_verify l
    → (valid : List KeyOps) × (verification_ops (o ∷ have) ≡ ok valid) × Has key_ops_verify valid
unfolding verification_ops
kept o have [] e m = absurd m
kept o have (v ∷ valid) e m = (v ∷ valid, rw (verification_ops, e) refl, m)

-- the operations of the new key still hold "verify"
verification_ops_keeps :
    (have : List KeyOps)
    → Has key_ops_verify have
    → (valid : List KeyOps) × (verification_ops have ≡ ok valid) × Has key_ops_verify valid
unfolding verification_ops
verification_ops_keeps [] h = absurd h
verification_ops_keeps (o ∷ have) h =
    let held =
      (Has-intersection key_ops_verify valid_verification_ops (o ∷ have)).1 (inl refl, h) in
    kept o have (intersection valid_verification_ops (o ∷ have)) refl held

named_fallback :
    (a : Alg) (chain : List (Option Certificate)) → a ≢ "" → fallback_alg a chain ≡ ok a
unfolding fallback_alg
named_fallback a [] h = refl
named_fallback a (none ∷ chain) h = ground (arith, eq_iff a "", h)
named_fallback a (some c ∷ chain) h = ground (arith, eq_iff a "", h)

within_made :
    (valid : List KeyOps) (jwk : Jwk) (k : PublicRsaKeyFields) (a : Alg) (r : Checked)
    (key : VerificationKey)
    → (rsa_within valid jwk k a r).0 ≡ ok key
    → key
      ≡ rsa_key (record {
        key = record { n = k.n; e = k.e };
        jwk = set_ops valid jwk;
        ops = valid;
        alg = a;
      })
unfolding rsa_within
within_made valid jwk k a (err e) key h = cc h
within_made valid jwk k a (ok _) key h = cc h

labelled_made :
    (valid : List KeyOps) (j : JwkFields) (k : PublicRsaKeyFields) (key : VerificationKey)
    → (rsa_labelled valid j k (ok j.key_alg)).0 ≡ ok key
    → key
      ≡ rsa_key (record {
        key = record { n = k.n; e = k.e };
        jwk = set_ops valid (public_rsa j k);
        ops = valid;
        alg = j.key_alg;
      })
unfolding rsa_labelled
labelled_made valid j k key h = elim (Bool-cases (is_rsa_signature_alg j.key_alg)) [
  | inl named ↦
      within_made valid (public_rsa j k) k j.key_alg (check_rsa_bounds k) key (rw named at h)
  | inr other ↦
      let h' : err (gose_error GoseError.unsupported_key_type) ≡ ok key = rw other at h in cc h'
]

-- A key of an RSA JWK has the members of the JWK, and "verify" if the JWK names it.
pub rsa_key_made :
    (j : JwkFields) (k : PublicRsaKeyFields) (key : VerificationKey)
    → j.key_alg ≢ ""
    → Has key_ops_verify j.key_ops
    → (new_verification_key (public_rsa j k)).0 ≡ ok key
    → (valid : List KeyOps) × Has key_ops_verify valid
      × (key
          ≡ rsa_key (record {
            key = record { n = k.n; e = k.e };
            jwk = set_ops valid (public_rsa j k);
            ops = valid;
            alg = j.key_alg;
          }))
unfolding new_verification_key limited_to new_key_of new_rsa_verifier
rsa_key_made j k key named held h =
    let (valid, e, m) = verification_ops_keeps j.key_ops held in
    let h' : (new_rsa_verifier valid j k).0 ≡ ok key = rw e at h in
    (valid, m, labelled_made valid j k key (rw (named_fallback j.key_alg j.key_x5c named) at h'))

asserted_made :
    (o : EcdsaOptions) (r : Option SignerOpts) (j : JwkFields) (k : PublicEcKeyFields)
    (valid : List KeyOps) (key : VerificationKey)
    → r ≡ some (ecdsa o)
    → ec_curve_asserted r j k valid ≡ ok key
    → key
      ≡ ec_key (record {
        key = record { curve = o.curve; x = k.x; y = k.y };
        jwk = public_ec j k;
        ops = valid;
        alg = j.key_alg;
      })
unfolding ec_curve_asserted
asserted_made o r j k valid key e h =
    let h' : ec_curve_asserted (some (ecdsa o)) j k valid ≡ ok key = rw e at h in cc h'

-- A key of an EC JWK has the coordinates of the JWK on the curve of its algorithm.
pub ec_key_made :
    (j : JwkFields) (k : PublicEcKeyFields) (o : EcdsaOptions) (key : VerificationKey)
    → opts_for_alg j.key_alg ≡ some (ecdsa o)
    → Has key_ops_verify j.key_ops
    → (new_verification_key (public_ec j k)).0 ≡ ok key
    → (valid : List KeyOps) × Has key_ops_verify valid
      × (is_ec_signature_alg j.key_alg ≡ true)
      × (key
          ≡ ec_key (record {
            key = record { curve = o.curve; x = k.x; y = k.y };
            jwk = public_ec j k;
            ops = valid;
            alg = j.key_alg;
          }))
unfolding new_verification_key limited_to new_key_of new_ec_verifier
ec_key_made j k o key named held h =
    let (valid, e, m) = verification_ops_keeps j.key_ops held in
    let h' : (new_ec_verifier valid j k).0 ≡ ok key = rw e at h in
    elim (Bool-cases (is_ec_signature_alg j.key_alg)) [
      | inl t ↦
          (valid, m, t, asserted_made o (opts_for_alg j.key_alg) j k valid key named (rw t at h'))
      | inr f ↦
          let h'' : err (gose_error GoseError.unsupported_key_type) ≡ ok key = rw f at h' in cc h''
    ]
