-- ===== src/Keys/Load.antt =====
-- `LoadPrivateKey` and `LoadPublicKey` of helpers.go.
use gose.Prelude.{
  ℕ, ◌^◌, Bool, true, false, not, ◌&&◌, ◌||◌, Dict, get, none, some, List, [], ◌∷◌, ltb, ◌==◌,
}
use gose.Error.{
  Result, Checked, ok, err, guard, ◌>>=◌, ◌>>◌, gose_error, GoseError, joined, invalid_key_type,
  invalid_operations, invalid_exponent, invalid_key_size, inconsistent_key_values,
}
use gose.Crypto.{Crypto, RsaPublicKey, RsaPrivateKey, EcPublicKey, EcPrivateKey}
use gose.Jose.Types.{
  Alg, KeyOps, alg_ps256, alg_ps384, alg_ps512, alg_rs256, alg_rs384, alg_rs512, alg_es256,
  alg_es384, alg_es512, alg_rsa_oaep, alg_rsa_oaep_sha2,
}
use gose.Jose.Jwk.{
  Jwk, PublicRsaKeyFields, PrivateRsaKeyFields, public_rsa, private_rsa, public_ec, private_ec, ops,
  alg,
}
use gose.KeyOps.{is_subset}
use gose.Keys.Options.{ecdsa_curve_for_alg}

-- `privateKeyAlgs`, and `publicKeyAlgs` with the same entries
abbrev pub key_algs : Dict Bool
key_algs =
    (alg_rs256, true)
    ∷ (alg_rs384, true)
    ∷ (alg_rs512, true)
    ∷ (alg_ps256, true)
    ∷ (alg_ps384, true)
    ∷ (alg_ps512, true)
    ∷ (alg_es256, true)
    ∷ (alg_es384, true)
    ∷ (alg_es512, true)
    ∷ (alg_rsa_oaep, true)
    ∷ (alg_rsa_oaep_sha2, true)
    ∷ []

-- `_, ok := algs[alg]`
unfoldable pub is_listed : Dict Bool → Alg → Bool
unfolding get
is_listed algs a = elim (get a algs) [ none ↦ false | some _ ↦ true ]

-- `x.BitLen() > bits`, on a number that is not negative
unfoldable pub bit_len_above : ℕ → ℕ → Bool
bit_len_above bits x = not (ltb x (2 ^ bits))

abbrev pub min_rsa_modulus_bits : ℕ
min_rsa_modulus_bits = 2048

-- `len(required) > 0 && !isSubset(jwk.Ops(), required)`
unfoldable pub lacks_required : List KeyOps → List KeyOps → Bool
lacks_required have [] = false
lacks_required have (r ∷ required) = not (is_subset have (r ∷ required))

-- the bounds on exponent and modulus: `E.BitLen() > 32 || E.Sign() < 1`, and
-- `N.BitLen() < MinRsaModulusBits`
unfoldable pub check_rsa_bounds : PublicRsaKeyFields → Checked
unfolding bit_len_above
check_rsa_bounds k = do
  guard (not (bit_len_above 32 k.e || k.e == 0)) (gose_error invalid_exponent)
  guard (bit_len_above 2047 k.n) (gose_error invalid_key_size)

pub data PublicKey : Type 0 where
  rsa_public : RsaPublicKey → PublicKey
  ecdsa_public : EcPublicKey → PublicKey

pub data Signer : Type 0 where
  rsa_signer : RsaPrivateKey → Signer
  ecdsa_signer : EcPrivateKey → Signer

-- the type switch of `LoadPublicKey`
unfoldable pub import_public : Jwk → Result PublicKey
unfolding check_rsa_bounds ecdsa_curve_for_alg
import_public (public_rsa j k) = do
  guard (not (k.n == 0 || k.e == 0)) (gose_error invalid_key_type)
  check_rsa_bounds k
  ok (rsa_public (record { n = k.n; e = k.e }))
import_public (public_ec j k) = do
  guard (not (k.x == 0 || k.y == 0)) (gose_error invalid_key_type)
  curve ← ecdsa_curve_for_alg j.key_alg
  ok (ecdsa_public (record { curve = curve; x = k.x; y = k.y }))
import_public _ = err (gose_error GoseError.unsupported_key_type)

unfoldable pub load_public_key : Jwk → List KeyOps → Result PublicKey
unfolding is_listed lacks_required import_public
load_public_key jwk required = do
  guard (is_listed key_algs (alg jwk)) (gose_error invalid_key_type)
  guard (not (lacks_required (ops jwk) required)) (gose_error invalid_operations)
  import_public jwk

-- `key.Validate()`, whose error is joined to `ErrInconsistentKeyValues`
unfoldable pub validated : Checked → Checked
validated (ok u) = ok u
validated (err e) = err (joined (gose_error inconsistent_key_values) e)

-- `Precompute` and the comparison of Dp, Dq and Qinv with the members of the JWK
unfoldable pub agrees_with_precomputed : ℕ × ℕ × ℕ → PrivateRsaKeyFields → Bool
agrees_with_precomputed (dp, dq, qinv) s = dp == s.dp && dq == s.dq && qinv == s.qi

module _ (crypto : Crypto) where
  unfoldable pub import_rsa : PublicRsaKeyFields → PrivateRsaKeyFields → Result Signer
  unfolding check_rsa_bounds validated agrees_with_precomputed
  import_rsa k s = do
    guard (not (s.d == 0 || k.e == 0 || k.n == 0)) (gose_error invalid_key_type)
    check_rsa_bounds k
    guard (not (s.p == 0 || s.q == 0 || s.dp == 0 || s.dq == 0 || s.qi == 0))
        (gose_error inconsistent_key_values)
    let key : RsaPrivateKey = record {
      public = record { n = k.n; e = k.e };
      d = s.d;
      p = s.p;
      q = s.q;
    }
    validated (crypto.rsa_validate key)
    guard (agrees_with_precomputed (crypto.rsa_precompute key) s)
        (gose_error inconsistent_key_values)
    ok (rsa_signer key)

  -- the type switch of `LoadPrivateKey`
  unfoldable pub import_private : Jwk → Result Signer
  unfolding import_rsa ecdsa_curve_for_alg
  import_private (private_rsa j k s) = import_rsa k s
  import_private (private_ec j k d) = do
    guard (not (d == 0)) (gose_error invalid_key_type)
    curve ← ecdsa_curve_for_alg j.key_alg
    ok (ecdsa_signer (record { public = record { curve = curve; x = k.x; y = k.y }; d = d }))
  import_private _ = err (gose_error GoseError.unsupported_key_type)

  unfoldable pub load_private_key : Jwk → List KeyOps → Result Signer
  unfolding is_listed lacks_required import_private
  load_private_key jwk required = do
    guard (is_listed key_algs (alg jwk)) (gose_error invalid_key_type)
    guard (not (lacks_required (ops jwk) required)) (gose_error invalid_operations)
    import_private jwk
