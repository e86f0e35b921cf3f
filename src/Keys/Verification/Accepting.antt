-- ===== src/Keys/Verification/Accepting.antt =====
-- rsa_public.go and ecdsa_verifier.go: when a verification key accepts a signature.
use gose.Prelude.{
  ℕ, ◌*◌, ◌≡◌, refl, inl, true, false, some, List, arith, length, take, drop, Has, ◌==◌,
}
use gose.Bytes.{Bytes}
use gose.Bytes.BigEndian.{from_bytes}
use gose.Error.{ok}
use gose.Crypto.{Crypto, Hash}
use gose.Jose.Types.{KeyOps, key_ops_verify}
use gose.KeyOps.{permits, valid_verification_ops}
use gose.KeyOps.Policy.{permits_iff}
use gose.Keys.Options.{EcdsaOptions, pss, pkcs1v15, ecdsa, opts_for_alg, pss_algs}
use gose.Keys.Load.{is_listed}
use gose.Keys.Verification.{
  RsaVerifier, EcVerifier, rsa_verify, ec_verify, rsa_verify_with, ec_verify_with,
}

open_gate :
    (ops : List KeyOps)
    → Has key_ops_verify ops
    → permits valid_verification_ops ops key_ops_verify ≡ true
open_gate ops h = (permits_iff valid_verification_ops ops key_ops_verify).1 (inl refl, h)

module _ (crypto : Crypto) where
  pub pss_accepts :
      (k : RsaVerifier) (salt : ℕ) (h : Hash) (text signature : Bytes)
      → Has key_ops_verify k.ops
      → opts_for_alg k.alg ≡ some (pss salt h)
      → is_listed pss_algs k.alg ≡ true
      → crypto.verify_pss k.key h salt (crypto.digest h text) signature ≡ true
      → rsa_verify crypto k key_ops_verify text signature ≡ ok true
  unfolding rsa_verify rsa_verify_with
  pss_accepts k salt h text signature held opts listed valid =
      rw (open_gate k.ops held, opts, listed, valid) refl

  pub pkcs1v15_accepts :
      (k : RsaVerifier) (h : Hash) (text signature : Bytes)
      → Has key_ops_verify k.ops
      → opts_for_alg k.alg ≡ some (pkcs1v15 h)
      → is_listed pss_algs k.alg ≡ false
      → crypto.verify_pkcs1v15 k.key h (crypto.digest h text) signature ≡ true
      → rsa_verify crypto k key_ops_verify text signature ≡ ok true
  unfolding rsa_verify rsa_verify_with
  pkcs1v15_accepts k h text signature held opts listed valid =
      rw (open_gate k.ops held, opts, listed, valid) refl

  pub ecdsa_accepts :
      (k : EcVerifier) (o : EcdsaOptions) (text signature : Bytes)
      → Has key_ops_verify k.ops
      → opts_for_alg k.alg ≡ some (ecdsa o)
      → length signature ≡ 2 * o.key_size_bytes
      → crypto.is_available o.hash ≡ true
      → crypto.ecdsa_verify k.key
          (crypto.digest o.hash text)
          (from_bytes (take o.key_size_bytes signature))
          (from_bytes (drop o.key_size_bytes signature))
        ≡ true
      → ec_verify crypto k key_ops_verify text signature ≡ ok true
  unfolding ec_verify ec_verify_with
  ecdsa_accepts k o text signature held opts size available valid =
      let sized : (length signature == 2 * o.key_size_bytes) ≡ true = ground (arith, size) in
      rw (open_gate k.ops held, opts, sized, available, valid) refl
