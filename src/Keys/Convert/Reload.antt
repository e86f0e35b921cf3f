-- ===== src/Keys/Convert/Reload.antt =====
-- helpers.go: a key that was made into a JWK is loaded from it again.
use gose.Prelude.{
  ℕ, ◌≤◌, ◌<◌, ◌^◌, ◌≡◌, inl, inr, refl, true, false, not, ◌||◌, List, [], ◌∷◌, arith, ◌==◌, ltb,
  Bool-cases, str_eq,
}
use gose.Error.{ok}
use gose.Crypto.{Crypto, Curve, p256, p384, p521, other_curve, bit_size, RsaPrivateKey}
use gose.Jose.Types.{KeyOps, key_ops_encrypt, key_ops_decrypt}
use gose.Jose.Jwk.{
  Jwk, JwkFields, PublicRsaKeyFields, PrivateRsaKeyFields, public_rsa, private_rsa, public_ec,
  private_ec, oct_secret, with_fields,
}
use gose.Keys.Options.{ecdsa_curve_for_alg}
use gose.Keys.Load.{
  Signer, rsa_signer, ecdsa_signer, key_algs, is_listed, bit_len_above, check_rsa_bounds,
  agrees_with_precomputed,
}
use gose.Keys.Convert.{rsa_bits_to_alg, rsa_alg_from_ops, ec_bits_to_alg, max_int_32}

pub rsa_alg_from_ops-is_listed :
    (n : ℕ) (operations : List KeyOps) → is_listed key_algs (rsa_alg_from_ops n operations) ≡ true
unfolding rsa_alg_from_ops rsa_bits_to_alg is_listed
rsa_alg_from_ops-is_listed n [] = elim (Bool-cases (bit_len_above 15359 n)) [
  | inl e ↦ rw e refl
  | inr e ↦ elim (Bool-cases (bit_len_above 7679 n)) [
    | inl f ↦ rw (e, f) refl
    | inr f ↦ rw (e, f) refl
  ]
]
rsa_alg_from_ops-is_listed n (op ∷ rest) =
    elim (Bool-cases (str_eq op key_ops_encrypt || str_eq op key_ops_decrypt)) [
      | inl e ↦ rw e refl
      | inr e ↦ rw e (rsa_alg_from_ops-is_listed n rest)
    ]

pub with_fields-id :
    (i j : JwkFields) (jwk : Jwk) → with_fields i (with_fields j jwk) ≡ with_fields i jwk
with_fields-id i j (public_rsa _ k) = refl
with_fields-id i j (private_rsa _ k s) = refl
with_fields-id i j (public_ec _ k) = refl
with_fields-id i j (private_ec _ k d) = refl
with_fields-id i j (oct_secret _ k) = refl

pub reshaped :
    (i j : JwkFields) (made jwk : Jwk)
    → jwk ≡ with_fields j made
    → with_fields i jwk ≡ with_fields i made
reshaped i j made jwk h = rw h (with_fields-id i j made)

-- one of the curves that the program names
abbrev pub IsNamed : Curve → Type 0
IsNamed (other_curve name bits) = ⊥
IsNamed _ = Unit

pub ec_bits_to_alg_back :
    (c : Curve)
    → IsNamed c
    → (is_listed key_algs (ec_bits_to_alg (bit_size c)) ≡ true)
      × (ecdsa_curve_for_alg (ec_bits_to_alg (bit_size c)) ≡ ok c)
unfolding ec_bits_to_alg bit_size is_listed ecdsa_curve_for_alg
ec_bits_to_alg_back p256 h = (refl, refl)
ec_bits_to_alg_back p384 h = (refl, refl)
ec_bits_to_alg_back p521 h = (refl, refl)
ec_bits_to_alg_back (other_curve name bits) h = absurd h

pub within_bounds :
    (k : PublicRsaKeyFields)
    → 2 ^ 2047 ≤ k.n
    → 0 < k.e
    → not (ltb max_int_32 k.e) ≡ true
    → check_rsa_bounds k ≡ ok tt
unfolding check_rsa_bounds bit_len_above
within_bounds k hn he hm =
    let first : not (not (ltb k.e (2 ^ 32)) || k.e == 0) ≡ true = ground (arith, hm, he) in
    let second : not (ltb k.n (2 ^ 2047)) ≡ true = ground (arith, hn) in rw (first, second) refl

-- what the loader asks of a private key, beyond what the conversion has checked
abbrev pub IsLoadable : Crypto → Signer → Type 0
IsLoadable crypto (rsa_signer v) =
    (2 ^ 2047 ≤ v.public.n) × (0 < v.public.e) × (crypto.rsa_validate v ≡ ok tt)
IsLoadable crypto (ecdsa_signer v) = IsNamed v.public.curve

==-refl : (n : ℕ) → (n == n) ≡ true
==-refl n = ground arith

-- all the members of an RSA key are there
abbrev HasAll : RsaPrivateKey → ℕ × ℕ × ℕ → Type 0
HasAll v (dp, dq, qinv) =
    (v.d == 0
      || v.q == 0
      || dq == 0
      || v.p == 0
      || dp == 0
      || qinv == 0
      || v.public.n == 0
      || v.public.e == 0)
    ≡ false

abbrev members : RsaPrivateKey → ℕ × ℕ × ℕ → PrivateRsaKeyFields
members v (dp, dq, qinv) = record { d = v.d; p = v.p; q = v.q; dp = dp; dq = dq; qi = qinv }

abbrev public_members : RsaPrivateKey → PublicRsaKeyFields
public_members v = record { n = v.public.n; e = v.public.e }

pub agrees : (v : RsaPrivateKey) (t : ℕ × ℕ × ℕ) → agrees_with_precomputed t (members v t) ≡ true
unfolding agrees_with_precomputed
agrees v (dp, dq, qinv) = rw (==-refl dp, ==-refl dq, ==-refl qinv) refl
