-- ===== src/Keys/Signing/Matching.antt =====
-- signer.go, ecdsa_signer.go: what a signing key signs, its own verification key verifies.
use gose.Prelude.{
  ℕ, ◌+◌, ◌*◌, ◌/◌, ◌≡◌, refl, ap, true, some, List, arith, ◌==◌, inl, inr, Has, length, take, drop,
}
use gose.Bytes.{Bytes, IsBytes}
use gose.Bytes.BigEndian.{from_bytes}
use gose.Error.{
  ok, guard->>-eq-ok, >>=-eq-ok, gose_error, invalid_key, invalid_operations, hash_unavailable,
}
use gose.Crypto.{Crypto, Curve, RsaPrivateKey, EcPrivateKey, bit_size, curve_name}
use gose.Jose.Types.{KeyOps, key_ops_sign, key_ops_verify}
use gose.Jose.Jwk
use gose.Jose.Jwk.{
  Jwk, JwkFields, PublicRsaKeyFields, PrivateRsaKeyFields, PublicEcKeyFields, public_rsa,
  private_rsa, public_ec, private_ec, oct_secret,
}
use gose.KeyOps.{permits, valid_signer_ops}
use gose.Keys.Options.{
  SignerOpts, EcdsaOptions, pss, pkcs1v15, ecdsa, hash_func, opts_for_alg, signer_opts_for_alg,
  ecdsa_curve_for_alg,
}
use gose.Keys.Load.{Signer, rsa_signer, ecdsa_signer, import_private}
use gose.Keys.Convert.Operations.{verify_published}
use gose.Keys.Convert.{ec_point_from_scalar, public_from_private}
use gose.Keys.Verification
use gose.Keys.Verification.{
  VerificationKey, RsaVerifier, rsa_verify, rsa_key, ec_key, verify, is_rsa_signature_alg,
  is_ec_signature_alg, new_verification_key,
}
use gose.Keys.Verification.Usable.{RsaOpts, rsa_opts, new_verification_key-IsFit}
use gose.Keys.Verification.Made.{rsa_key_made, ec_key_made}
use gose.Keys.Verification.Accepting.{pss_accepts, pkcs1v15_accepts, ecdsa_accepts}
use gose.Keys.Signing.Sound.{
  IsSound, ecdsa_serialised_split, ecdsa_serialised-IsBytes, ecdsa_entry, named_alg, found_opts,
  signing_gate,
}
use gose.Keys.Signing.Shape.{
  rsa_private, ec_private, published, import_rsa_made, import_ec_made, new_signing_key_steps,
  public_from_rsa, public_from_ec,
}
use gose.Keys.Signing.{
  PrivateCrypto, SigningFields, SigningKey, signing_fields, signing_key_impl, ecdsa_signing_key,
  ecdsa_serialised, impl_sign, ecdsa_sign, sign, algorithm, kid, key_sign, ecdsa_key_sign,
  ecdsa_checked, verifier, new_signing_key, signing_key_of,
}

module _ (crypto : Crypto) (private : PrivateCrypto) (sound : IsSound crypto private) where
  rsa_accepts :
      (v : RsaPrivateKey) (k : RsaVerifier) (opts : SignerOpts) (text signature : Bytes)
      → k.key ≡ v.public
      → Has key_ops_verify k.ops
      → opts_for_alg k.alg ≡ some opts
      → RsaOpts k.alg
      → private.rsa_sign v opts (crypto.digest (hash_func opts) text) ≡ ok signature
      → rsa_verify crypto k key_ops_verify text signature ≡ ok true
  rsa_accepts v k opts text signature same held e (inl (salt, h, e', listed)) signed =
      let which : opts ≡ pss salt h = cc (e, e') in
      let signed' = rw which at signed in
      pss_accepts crypto k salt h text signature held e' listed
        (rw same (sound.pss_verifies v salt h (crypto.digest h text) signature signed'))
  rsa_accepts v k opts text signature same held e (inr (h, e', listed)) signed =
      let which : opts ≡ pkcs1v15 h = cc (e, e') in
      let signed' = rw which at signed in
      pkcs1v15_accepts crypto k h text signature held e' listed
        (rw same (sound.pkcs1v15_verifies v h (crypto.digest h text) signature signed'))

  rsa_signed :
      (f : SigningFields) (j : JwkFields) (k : PublicRsaKeyFields) (s : PrivateRsaKeyFields)
      (vk : VerificationKey) (requested : KeyOps) (text signature : Bytes)
      → f.key ≡ rsa_signer (rsa_private k s)
      → f.ops ≡ j.key_ops
      → f.alg ≡ j.key_alg
      → impl_sign crypto private f requested text ≡ ok signature
      → (new_verification_key (public_rsa (published j) k)).0 ≡ ok vk
      → (verify crypto vk key_ops_verify text signature ≡ ok true)
        × (Verification.algorithm vk ≡ j.key_alg)
        × (Verification.kid vk ≡ j.key_kid)
  unfolding impl_sign key_sign verify
  rsa_signed f j k s vk requested text signature key ops alg h made =
      let (gate, h₁) =
        guard->>-eq-ok (permits valid_signer_ops f.ops requested) (gose_error invalid_operations) _
          h in
      let (opts, e, h₂) = >>=-eq-ok (signer_opts_for_alg f.alg) _ h₁ in
      let found : opts_for_alg j.key_alg ≡ some opts = rw⁻¹ alg (found_opts f.alg opts e) in
      let held : Has key_ops_sign j.key_ops = rw⁻¹ ops (signing_gate f.ops requested gate).1 in
      let signed : private.rsa_sign (rsa_private k s) opts (crypto.digest (hash_func opts) text)
          ≡ ok signature =
        rw key at h₂ in
      let (valid, m, vk_eq) =
        rsa_key_made (published j) k vk (named_alg j.key_alg opts found)
          (verify_published j.key_ops held) made in
      let fit = new_verification_key-IsFit (public_rsa (published j) k) vk made in
      let fit' = rw vk_eq at fit in
      let fitting = rsa_opts j.key_alg fit'.0 in
      rw vk_eq (
        rsa_accepts (rsa_private k s) _ opts text signature refl m found fitting signed,
        refl,
        refl,
      )

  -- what a successful ECDSA signing has gone through
  ecdsa_steps :
      (v : EcPrivateKey) (opts : SignerOpts) (digest signature : Bytes)
      → ecdsa_key_sign crypto private (ecdsa_signer v) opts digest ≡ ok signature
      → (o : EcdsaOptions) × (r : ℕ) × (s : ℕ) × (opts ≡ ecdsa o)
        × (private.ecdsa_sign v digest ≡ ok (r, s))
        × (o.curve_bits ≡ bit_size v.public.curve)
        × (ecdsa_serialised ((bit_size v.public.curve + 7) / 8) (r, s) ≡ ok signature)
  unfolding ecdsa_key_sign ecdsa_checked
  ecdsa_steps v (ecdsa o) digest signature h =
      let ((r, s), e, h₁) = >>=-eq-ok (private.ecdsa_sign v digest) _ h in
      let (same, h₂) =
        guard->>-eq-ok (o.curve_bits == bit_size v.public.curve) (gose_error invalid_key) _ h₁ in
      (o, r, s, refl, e, ground (arith, same), h₂)
  ecdsa_steps v (pss salt h') digest signature h =
      let (_, _, h₁) = >>=-eq-ok (private.ecdsa_sign v digest) _ h in cc h₁
  ecdsa_steps v (pkcs1v15 h') digest signature h =
      let (_, _, h₁) = >>=-eq-ok (private.ecdsa_sign v digest) _ h in cc h₁

  ec_signed :
      (f : SigningFields) (j : JwkFields) (k : PublicEcKeyFields) (d : ℕ) (c : Curve) (x y : ℕ)
      (pk : PublicEcKeyFields) (vk : VerificationKey) (requested : KeyOps) (text signature : Bytes)
      → f.key ≡ ecdsa_signer (ec_private c k d)
      → f.ops ≡ j.key_ops
      → f.alg ≡ j.key_alg
      → ecdsa_curve_for_alg j.key_alg ≡ ok c
      → ec_point_from_scalar crypto c d ≡ ok (x, y)
      → (pk.x ≡ x) × (pk.y ≡ y)
      → ecdsa_sign crypto private f requested text ≡ ok signature
      → (new_verification_key (public_ec (published j) pk)).0 ≡ ok vk
      → (verify crypto vk key_ops_verify text signature ≡ ok true)
        × (Verification.algorithm vk ≡ j.key_alg)
        × (Verification.kid vk ≡ j.key_kid)
  unfolding ecdsa_sign verify
  ec_signed f j k d c x y pk vk requested text signature key ops alg named point (px, py) h made =
      let (gate, h₁) =
        guard->>-eq-ok (permits valid_signer_ops f.ops requested) (gose_error invalid_operations) _
          h in
      let (opts, e, h₂) = >>=-eq-ok (signer_opts_for_alg f.alg) _ h₁ in
      let (available, h₃) =
        guard->>-eq-ok (crypto.is_available (hash_func opts)) (gose_error hash_unavailable) _ h₂ in
      let h₄ = rw key at h₃ in
      let (o, r, s, which, signed, bits, out) =
        ecdsa_steps (ec_private c k d) opts _ signature h₄ in
      let found : opts_for_alg j.key_alg ≡ some (ecdsa o) =
        cc (alg, found_opts f.alg opts e, which) in
      let held : Has key_ops_sign j.key_ops = rw⁻¹ ops (signing_gate f.ops requested gate).1 in
      let (valid, m, is_ec, vk_eq) =
        ec_key_made (published j) pk o vk found (verify_published j.key_ops held) made in
      let (size, curve) = ecdsa_entry j.key_alg o is_ec found in
      let same_curve : o.curve ≡ c = cc (curve, named) in
      let bytes : (bit_size c + 7) / 8 ≡ o.key_size_bytes = rw⁻¹ bits size in
      let digest = crypto.digest (hash_func opts) text in
      let (fr, fs) = sound.ecdsa_fits (ec_private c k d) digest r s signed in
      let (len, first, second) =
        ecdsa_serialised_split ((bit_size c + 7) / 8) r s signature fr fs out in
      let checked = sound.ecdsa_verifies (ec_private c k d) digest r s x y signed point in
      let hash : hash_func opts ≡ o.hash = ap hash_func which in
      let len' : length signature ≡ 2 * o.key_size_bytes = rw bytes at len in
      let available' : crypto.is_available o.hash ≡ true = rw hash at available in
      let valid_signature : crypto.ecdsa_verify (record { curve = o.curve; x = pk.x; y = pk.y })
            (crypto.digest o.hash text) (from_bytes (take o.key_size_bytes signature))
            (from_bytes (drop o.key_size_bytes signature))
          ≡ true =
        cc (checked, same_curve, px, py, bytes, first, second, hash) in
      rw vk_eq (
        ecdsa_accepts crypto _ o text signature m found len' available' valid_signature,
        refl,
        refl,
      )

  verifier_steps :
      (k : SigningKey) (vk : VerificationKey)
      → verifier crypto k ≡ ok vk
      → (public : Jwk) × (public_from_private crypto (signing_fields k).jwk ≡ ok public)
        × ((new_verification_key public).0 ≡ ok vk)
  unfolding verifier
  verifier_steps k vk h = >>=-eq-ok (public_from_private crypto (signing_fields k).jwk) _ h

  sign_gate :
      (k : SigningKey) (requested : KeyOps) (text signature : Bytes)
      → sign crypto private k requested text ≡ ok signature
      → (requested ≡ key_ops_sign) × Has key_ops_sign (signing_fields k).ops
  unfolding sign impl_sign ecdsa_sign
  sign_gate (signing_key_impl f) requested text signature h =
      signing_gate f.ops requested
        (guard->>-eq-ok (permits valid_signer_ops f.ops requested) (gose_error invalid_operations) _
          h).0
  sign_gate (ecdsa_signing_key f) requested text signature h =
      signing_gate f.ops requested
        (guard->>-eq-ok (permits valid_signer_ops f.ops requested) (gose_error invalid_operations) _
          h).0

  of_kind :
      (jwk : Jwk) (signer : Signer) (k : SigningKey) (vk : VerificationKey) (requested : KeyOps)
      (text signature : Bytes)
      → import_private crypto jwk ≡ ok signer
      → signing_key_of jwk signer ≡ ok k
      → verifier crypto k ≡ ok vk
      → sign crypto private k requested text ≡ ok signature
      → (verify crypto vk key_ops_verify text signature ≡ ok true)
        × (Verification.algorithm vk ≡ algorithm k)
        × (Verification.kid vk ≡ kid k)
        × (requested ≡ key_ops_sign)
        × Has key_ops_sign (Jwk.ops jwk)
  unfolding signing_key_of sign import_private
  of_kind (private_rsa j k s) signer key vk requested text signature imported made hv hs =
      let f : SigningFields = record {
        jwk = private_rsa j k s;
        key = signer;
        certs = j.key_x5c;
        ops = j.key_ops;
        alg = j.key_alg;
      } in
      let key_eq : key ≡ signing_key_impl f = cc made in
      let hs' = rw key_eq at hs in
      let (public, e, e') = verifier_steps (signing_key_impl f) vk (rw key_eq at hv) in
      let public_eq = public_from_rsa crypto j k s public e in
      let signer_eq = import_rsa_made crypto k s signer imported in
      let (only, held) = sign_gate (signing_key_impl f) requested text signature hs' in
      let (valid, same_alg, same_kid) =
        rsa_signed f j k s vk requested text signature signer_eq refl refl hs'
          (rw public_eq at e') in
      (valid, rw key_eq same_alg, rw key_eq same_kid, only, held)
  of_kind (private_ec j k d) signer key vk requested text signature imported made hv hs =
      let f : SigningFields = record {
        jwk = private_ec j k d;
        key = signer;
        certs = j.key_x5c;
        ops = j.key_ops;
        alg = j.key_alg;
      } in
      let key_eq : key ≡ ecdsa_signing_key f = cc made in
      let hs' = rw key_eq at hs in
      let (public, e, e') = verifier_steps (ecdsa_signing_key f) vk (rw key_eq at hv) in
      let (c, x, y, named, point, public_eq) = public_from_ec crypto j k d public e in
      let (c', named', signer_eq) = import_ec_made crypto j k d signer imported in
      let same : c' ≡ c = cc (named, named') in
      let (only, held) = sign_gate (ecdsa_signing_key f) requested text signature hs' in
      let signer_eq' : signer ≡ ecdsa_signer (ec_private c k d) = cc (signer_eq, same) in
      let (valid, same_alg, same_kid) =
        ec_signed f j k d c x y (record { crv = curve_name c; x = x; y = y }) vk requested text
          signature signer_eq' refl refl named point (refl, refl) hs' (rw public_eq at e') in
      (valid, rw key_eq same_alg, rw key_eq same_kid, only, held)
  of_kind (public_rsa j k) signer key vk requested text signature imported made hv hs = cc made
  of_kind (public_ec j k) signer key vk requested text signature imported made hv hs = cc made
  of_kind (oct_secret j k) signer key vk requested text signature imported made hv hs = cc made

  -- a signature consists of bytes
  of_key :
      (signer : Signer) (opts : SignerOpts) (digest signature : Bytes)
      → key_sign crypto private signer opts digest ≡ ok signature
      → IsBytes signature
  unfolding key_sign
  of_key (rsa_signer v) opts digest signature h = sound.rsa_bytes v opts digest signature h
  of_key (ecdsa_signer v) opts digest signature h = cc h

  of_ecdsa_key :
      (signer : Signer) (opts : SignerOpts) (digest signature : Bytes)
      → ecdsa_key_sign crypto private signer opts digest ≡ ok signature
      → IsBytes signature
  unfolding ecdsa_key_sign
  of_ecdsa_key (rsa_signer v) opts digest signature h = cc h
  of_ecdsa_key (ecdsa_signer v) opts digest signature h =
      let (o, r, s, _, _, _, out) = ecdsa_steps v opts digest signature h in
      ecdsa_serialised-IsBytes ((bit_size v.public.curve + 7) / 8) r s signature out

  pub sign-IsBytes :
      (k : SigningKey) (requested : KeyOps) (text signature : Bytes)
      → sign crypto private k requested text ≡ ok signature
      → IsBytes signature
  unfolding sign impl_sign ecdsa_sign
  sign-IsBytes (signing_key_impl f) requested text signature h =
      let (_, h₁) =
        guard->>-eq-ok (permits valid_signer_ops f.ops requested) (gose_error invalid_operations) _
          h in
      let (opts, _, h₂) = >>=-eq-ok (signer_opts_for_alg f.alg) _ h₁ in
      of_key f.key opts (crypto.digest (hash_func opts) text) signature h₂
  sign-IsBytes (ecdsa_signing_key f) requested text signature h =
      let (_, h₁) =
        guard->>-eq-ok (permits valid_signer_ops f.ops requested) (gose_error invalid_operations) _
          h in
      let (opts, _, h₂) = >>=-eq-ok (signer_opts_for_alg f.alg) _ h₁ in
      let (_, h₃) =
        guard->>-eq-ok (crypto.is_available (hash_func opts)) (gose_error hash_unavailable) _ h₂ in
      of_ecdsa_key f.key opts (crypto.digest (hash_func opts) text) signature h₃

  -- A signature that a key of `NewSigningKey` has made is verified by the key's own verification key,
  -- whatever the text, and the two keys have the same algorithm and the same key ID. The signature
  -- schemes are taken to be sound. Only the operation "sign" is signed for, and only by a key whose
  -- JWK names it.
  pub verify-sign :
      (jwk : Jwk) (required : List KeyOps) (k : SigningKey) (vk : VerificationKey)
      (requested : KeyOps) (text signature : Bytes)
      → new_signing_key crypto jwk required ≡ ok k
      → verifier crypto k ≡ ok vk
      → sign crypto private k requested text ≡ ok signature
      → (verify crypto vk key_ops_verify text signature ≡ ok true)
        × (Verification.algorithm vk ≡ algorithm k)
        × (Verification.kid vk ≡ kid k)
        × (requested ≡ key_ops_sign)
        × Has key_ops_sign (Jwk.ops jwk)
  unfolding sign verifier
  verify-sign jwk required k vk requested text signature h hv hs =
      let (opts, signer, _, imported, made) = new_signing_key_steps crypto jwk required k h in
      of_kind jwk signer k vk requested text signature imported made hv hs
