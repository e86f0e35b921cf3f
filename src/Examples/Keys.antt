-- ===== src/Examples/Keys.antt =====
-- Examples for the reading of keys and for the keys that verify.
use gose.Prelude.{◌↔◌, All, Has, ◌^◌, ◌+◌, ◌≡◌, ◌≤◌, refl, [], ◌∷◌, length}
use gose.Bytes.{Bytes}
use gose.Error.{ok, err, external}
use gose.KeyOps.{intersection}
use gose.Jose.Types.{max_jwks_size, key_ops_verify}
use gose.Jose.Jwk.{Kty, ops, kty_rsa, check_consistency, check_rsa}
use gose.Jose.Jwk.Parse.{JwkJson, unmarshal_jwk}
use gose.Jose.Jwk.Parse.Sound.{IsChecked, unmarshal_jwk-IsChecked}
use gose.Keys.Documents.{load_jwk, load_jwk_iff}
use gose.Keys.Verification.{VerificationKey, rsa_key, new_verification_key}
use gose.Keys.Verification.Usable.{IsFit, new_verification_key-IsFit}
use gose.Examples.Inputs.{toy_crypto, key_fields, rsa_jwk}

-- all documents are the one public RSA key
abbrev one_document : JwkJson
one_document = record {
  key_type = λ _. ok kty_rsa;
  rsa_members = λ _. ok (
    kty_rsa,
    key_fields,
    record { n = 2 ^ 2047 + 1; e = 65537 },
    record { d = 0; p = 0; q = 0; dp = 0; dq = 0; qi = 0 },
  );
  ec_members = λ _. err (external "type");
  oct_members = λ _. err (external "type");
}

abbrev document : Bytes
document = 1 ∷ []

key_read : unmarshal_jwk toy_crypto one_document document ≡ ok rsa_jwk
unfolding unmarshal_jwk check_consistency check_rsa
key_read = refl

unmarshal_jwk-IsChecked_example :
    (length document ≤ max_jwks_size)
    × (kind : Kty) × (one_document.key_type document ≡ ok kind)
    × IsChecked toy_crypto kind rsa_jwk
unmarshal_jwk-IsChecked_example =
    unmarshal_jwk-IsChecked toy_crypto one_document document rsa_jwk key_read

abbrev rsa_verifier : VerificationKey
rsa_verifier = rsa_key (record {
  key = record { n = 2 ^ 2047 + 1; e = 65537 };
  jwk = rsa_jwk;
  ops = key_ops_verify ∷ [];
  alg = key_fields.key_alg;
})

key_made : (new_verification_key rsa_jwk).0 ≡ ok rsa_verifier
unfolding new_verification_key intersection
key_made = refl

new_verification_key-IsFit_example : IsFit rsa_verifier
new_verification_key-IsFit_example = new_verification_key-IsFit rsa_jwk rsa_verifier key_made

load_jwk_iff_example :
    (load_jwk toy_crypto one_document document (key_ops_verify ∷ []) ≡ ok rsa_jwk) ↔ (
      (unmarshal_jwk toy_crypto one_document document ≡ ok rsa_jwk)
      × All (λ op. Has op (ops rsa_jwk)) (key_ops_verify ∷ []))
load_jwk_iff_example = load_jwk_iff toy_crypto one_document document (key_ops_verify ∷ []) rsa_jwk
