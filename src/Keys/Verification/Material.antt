-- ===== src/Keys/Verification/Material.antt =====
-- verifier.go: what `NewVerificationKey` writes to the JWK that it is given.
use gose.Prelude.{◌≡◌, refl, List, [], arith}
use gose.Error.{Result, ok, err}
use gose.Jose.Jwk.{
  Jwk, JwkFields, PublicRsaKeyFields, PublicEcKeyFields, public_rsa, public_ec, fields, with_fields,
  ops,
}
use gose.Jose.Types.{KeyOps}
use gose.Keys.Verification.{
  new_rsa_verifier, new_ec_verifier, new_key_of, limited_to, verification_ops, new_verification_key,
}

-- the part of a JWK that is no metadata: its type, its key material, its key ID and certificates
unfoldable pub material : Jwk → Jwk
material jwk = with_fields (record (fields jwk) { key_ops = []; key_alg = "" }) jwk

rsa_material :
    (valid : List KeyOps) (j : JwkFields) (k : PublicRsaKeyFields)
    → material (new_rsa_verifier valid j k).1 ≡ material (public_rsa j k)
unfolding material new_rsa_verifier
rsa_material valid j k = ground arith

ec_material :
    (valid : List KeyOps) (j : JwkFields) (k : PublicEcKeyFields)
    → material (new_ec_verifier valid j k).1 ≡ material (public_ec j k)
unfolding material new_ec_verifier
ec_material valid j k = ground arith

of_material : (valid : List KeyOps) (jwk : Jwk) → material (new_key_of valid jwk).1 ≡ material jwk
of_material valid (public_rsa j k) = unfold new_key_of in rsa_material valid j k
of_material valid (public_ec j k) = unfold new_key_of in ec_material valid j k
of_material valid _ = unfold new_key_of in refl

limited_material :
    (limit : Result (List KeyOps)) (jwk : Jwk) → material (limited_to limit jwk).1 ≡ material jwk
limited_material (err e) jwk = unfold limited_to in refl
limited_material (ok valid) jwk = unfold limited_to in of_material valid jwk

pub material-new_verification_key :
    (jwk : Jwk) → material (new_verification_key jwk).1 ≡ material jwk
unfolding new_verification_key
material-new_verification_key jwk = limited_material (verification_ops (ops jwk)) jwk
