-- ===== src/Examples/Signing.antt =====
-- Examples for the keys that sign, and for the tokens that they sign.
use gose.Keys.Generator.Curves.{generate_ecdsa_signing_key-algorithm}
use gose.Keys.Verification.Usable.{IsOnCurve}
use gose.Prelude.{
  ℕ, ◌^◌, ◌+◌, ◌/◌, ◌<◌, ◌≤◌, ◌≡◌, refl, true, Option, none, some, [], ◌∷◌, arith, Has, length, get,
  put, delete, Dict, pos, inl, inr, ◌==◌,
}
use gose.Bytes.{Bytes, bytes_eq, codes}
use gose.Bytes.Minimal.{left_padded, big_bytes}
use gose.Bytes.BigEndian.{from_bytes}
use gose.Bytes.Split.{split_n, join}
use gose.Bytes.Base64.{encode, decode}
use gose.Error.{Result, ok, err, external}
use gose.Crypto.{EcPrivateKey, Curve, p256, p384, p521, other_curve, bit_size}
use gose.Jose.Types.{
  alg_es256, key_ops_sign, key_ops_verify, JwsHeader, empty_header, jwt_type, max_compact_size,
}
use gose.Jose.Jwk.{Jwk, JwkFields, private_ec, ops}
use gose.Jose.Jws
use gose.Jose.Jws.{
  Parsed, unmarshal_url_base64, decode_segment, strict_compact_b64, marshal_jws,
  unmarshal_audiences, marshal_audiences, check_type,
}
use gose.Jose.Jwt
use gose.Jose.Jwt.{
  Jwt, JwtJson, SettableJwtClaims, unmarshal_claims, marshal_claims, verify_form,
  reserved_jwt_claims,
}
use gose.Jose.Jwt.Written.{ReadsBack}
use gose.KeyOps.{intersection, permits, is_subset}
use gose.Keys.Options.{ecdsa_curve_for_alg, signer_opts_for_alg, opts_for_alg}
use gose.Keys.Load.{is_listed, ecdsa_signer, load_private_key, import_private}
use gose.Keys.Identity.{calculate_key_id}
use gose.Keys.Convert.{jwk_from_private_key, public_from_private, public_part, publish, inverse_op}
use gose.Keys.Verification
use gose.Keys.Verification.{VerificationKey, verify, new_verification_key}
use gose.Keys.Signing.{
  signing_fields, PrivateCrypto, SigningKey, ecdsa_signing_key, new_signing_key, verifier, sign,
  ecdsa_sign, algorithm, kid,
}
use gose.Keys.Signing.Sound.{IsSound}
use gose.Keys.Signing.Matching.{verify-sign}
use gose.Keys.Documents.{load_jws, load_jws-unmarshal}
use gose.Keys.Generator.{Generators, generate_ecdsa_signing_key}
use gose.Signer.{JwtSigner, sign_claims, encode_untyped, token_for}
use gose.Signer.Delivery.{verify_jwt-sign_claims}
use gose.Verifier.{TrustSource, verify_jwt}
use gose.Verifier.Acceptance.{IsTimely}
use gose.Examples.Inputs.{toy_crypto, toy_json, key_fields, token_text, token_header}

-- signatures are the byte 3, or the pair of 5 and 5 on a named curve
abbrev toy_ecdsa : Curve → Result (ℕ × ℕ)
toy_ecdsa (other_curve name bits) = err (external "curve")
toy_ecdsa p256 = ok (5, 5)
toy_ecdsa p384 = ok (5, 5)
toy_ecdsa p521 = ok (5, 5)

abbrev toy_private : PrivateCrypto
toy_private = record {
  rsa_sign = λ _ _ _. ok (3 ∷ []);
  ecdsa_sign = λ v _. toy_ecdsa v.public.curve;
  decrypt_oaep = λ _ _ c. ok c;
  encrypt_oaep = λ _ _ c. ok c;
}

toy_ecdsa_fits :
    (c : Curve) (r s : ℕ)
    → toy_ecdsa c ≡ ok (r, s)
    → (r < 256 ^ ((bit_size c + 7) / 8)) × (s < 256 ^ ((bit_size c + 7) / 8)) × ((r == s) ≡ true)
unfolding bit_size
toy_ecdsa_fits (other_curve name bits) r s e = cc e
toy_ecdsa_fits p256 r s e =
    let (er, es) : (r ≡ 5) × (s ≡ 5) = (cc e, cc e) in rw (er, es) (omega arith, omega arith, refl)
toy_ecdsa_fits p384 r s e =
    let (er, es) : (r ≡ 5) × (s ≡ 5) = (cc e, cc e) in rw (er, es) (omega arith, omega arith, refl)
toy_ecdsa_fits p521 r s e =
    let (er, es) : (r ≡ 5) × (s ≡ 5) = (cc e, cc e) in rw (er, es) (omega arith, omega arith, refl)

toy-IsSound : IsSound toy_crypto toy_private
unfolding bytes_eq
toy-IsSound = record {
  pss_verifies = λ v salt h digest s e. let e' : s ≡ 3 ∷ [] = cc e in rw e' refl;
  pkcs1v15_verifies = λ v h digest s e. let e' : s ≡ 3 ∷ [] = cc e in rw e' refl;
  rsa_bytes = λ v opts digest s e. let e' : s ≡ 3 ∷ [] = cc e in rw e' (omega arith, tt);
  ecdsa_verifies = λ v digest r s x y e _. (toy_ecdsa_fits v.public.curve r s e).2;
  ecdsa_fits = λ v digest r s e. let (fr, fs, _) = toy_ecdsa_fits v.public.curve r s e in (fr, fs);
}

abbrev ec_fields : JwkFields
ec_fields = record key_fields { key_ops = key_ops_sign ∷ []; key_alg = alg_es256 }

abbrev ec_jwk : Jwk
ec_jwk = private_ec ec_fields (record { crv = "P-256"; x = 3; y = 3 }) 3

abbrev key_or : Result SigningKey → SigningKey
key_or (ok k) = k
key_or (err e) = ecdsa_signing_key (record {
  jwk = ec_jwk;
  key = ecdsa_signer (record { public = record { curve = p256; x = 0; y = 0 }; d = 0 });
  certs = [];
  ops = [];
  alg = "";
})

abbrev ec_signing_key : SigningKey
ec_signing_key = key_or (new_signing_key toy_crypto ec_jwk (key_ops_sign ∷ []))

ec_key_made : new_signing_key toy_crypto ec_jwk (key_ops_sign ∷ []) ≡ ok ec_signing_key
unfolding new_signing_key load_private_key import_private intersection is_subset signer_opts_for_alg
    opts_for_alg ecdsa_curve_for_alg get is_listed
ec_key_made = refl

abbrev verifier_or : Result VerificationKey → VerificationKey
verifier_or (ok k) = k
verifier_or (err e) =
    Verification.ec_key
      (record { key = record { curve = p256; x = 0; y = 0 }; jwk = ec_jwk; ops = []; alg = "" })

abbrev ec_verification_key : VerificationKey
ec_verification_key = verifier_or (verifier toy_crypto ec_signing_key)

ec_verifier_made : verifier toy_crypto ec_signing_key ≡ ok ec_verification_key
unfolding new_signing_key load_private_key import_private intersection is_subset signer_opts_for_alg
    opts_for_alg ecdsa_curve_for_alg get is_listed verifier public_from_private public_part publish
    new_verification_key inverse_op big_bytes left_padded bit_size from_bytes
ec_verifier_made = refl

abbrev bytes_or : Result Bytes → Bytes
bytes_or (ok b) = b
bytes_or (err e) = []

abbrev ec_signature : Bytes
ec_signature = bytes_or (sign toy_crypto toy_private ec_signing_key key_ops_sign (1 ∷ 2 ∷ []))

ec_signature_made :
    sign toy_crypto toy_private ec_signing_key key_ops_sign (1 ∷ 2 ∷ []) ≡ ok ec_signature
unfolding new_signing_key load_private_key import_private intersection is_subset signer_opts_for_alg
    opts_for_alg ecdsa_curve_for_alg get is_listed sign ecdsa_sign permits big_bytes left_padded
    bit_size
ec_signature_made = refl

verify-sign_example :
    (verify toy_crypto ec_verification_key key_ops_verify (1 ∷ 2 ∷ []) ec_signature ≡ ok true)
    × (Verification.algorithm ec_verification_key ≡ algorithm ec_signing_key)
    × (Verification.kid ec_verification_key ≡ kid ec_signing_key)
    × (key_ops_sign ≡ key_ops_sign)
    × Has key_ops_sign (ops ec_jwk)
verify-sign_example =
    verify-sign toy_crypto toy_private toy-IsSound ec_jwk (key_ops_sign ∷ []) ec_signing_key
      ec_verification_key key_ops_sign (1 ∷ 2 ∷ []) ec_signature ec_key_made ec_verifier_made
      ec_signature_made

abbrev written_header : JwsHeader
written_header = record empty_header { alg = alg_es256; kid = "k1"; typ = jwt_type }

abbrev ec_json : JwtJson
ec_json = record toy_json { header = λ _. ok written_header }

abbrev alice : JwtSigner
alice = record { key = ec_signing_key; issuer = "alice" }

abbrev her_claims : SettableJwtClaims
her_claims = record { subject = ""; audiences = "bob" ∷ []; expiration = pos 2; not_before = pos 0 }

abbrev her_token : Jwt
her_token = token_for alice (pos 0) "" her_claims []

no_claims : Option (Dict ℕ)
no_claims = none

abbrev her_text : Bytes
her_text = bytes_or (
    sign_claims toy_crypto toy_private ec_json (λ (n : ℕ). ok (n ∷ [])) alice (pos 0) "" her_claims
      no_claims)

abbrev her_store : TrustSource Unit
her_store = record { get_key = λ _ _ s. (ok (some ec_verification_key), s) }

her_token-ReadsBack : ReadsBack ec_json her_token
unfolding new_signing_key load_private_key import_private intersection is_subset signer_opts_for_alg
    opts_for_alg ecdsa_curve_for_alg get is_listed token_for from_bytes marshal_audiences
her_token-ReadsBack = record {
  header_back = λ w e. let e' : w ≡ 1 ∷ [] = cc e in rw e' ((omega arith, tt), refl);
  faithful = λ typed m e e'.
      let et : typed ≡ 2 ∷ [] = cc e in
      let em : m ≡ ("iss", 2 ∷ []) ∷ ("exp", 2 ∷ []) ∷ ("aud", 2 ∷ []) ∷ [] = cc (e', et) in
      rw em (record {
        names = (
          inl refl,
          (inr (inr (inr (inr (inr (inl refl))))), (inr (inr (inr (inr (inl refl)))), tt)),
        );
        issuer = refl;
        issued_at = refl;
        jwt_id = refl;
        subject = refl;
        audiences = 2 ∷ [];
        has_audiences = refl;
        audience_shape = refl;
        expiration = refl;
        not_before = refl;
        object_back = λ w h. let eh : w ≡ 2 ∷ [] = cc h in rw eh ((omega arith, tt), refl);
      });
}

her_token_written :
    sign_claims toy_crypto toy_private ec_json
      (λ (n : ℕ). ok (n ∷ []))
      alice
      (pos 0)
      ""
      her_claims
      no_claims
    ≡ ok her_text
unfolding new_signing_key load_private_key import_private intersection is_subset signer_opts_for_alg
    opts_for_alg ecdsa_curve_for_alg get is_listed token_for marshal_claims sign_claims
    encode_untyped no_claims Jwt.marshal_body Jws.marshal_body check_type verify_form sign
    ecdsa_sign permits big_bytes left_padded bit_size encode join put delete
her_token_written = refl

untyped_written : encode_untyped (λ (n : ℕ). ok (n ∷ [])) no_claims ≡ ok []
unfolding encode_untyped no_claims
untyped_written = refl

her_text_short : length her_text ≤ max_compact_size
unfolding new_signing_key load_private_key import_private intersection is_subset signer_opts_for_alg
    opts_for_alg ecdsa_curve_for_alg get is_listed token_for marshal_claims sign_claims
    encode_untyped no_claims Jwt.marshal_body Jws.marshal_body check_type verify_form sign
    ecdsa_sign permits big_bytes left_padded bit_size encode join put delete marshal_jws
her_text_short = omega arith

her_token-IsTimely : IsTimely (pos 1) ("bob" ∷ []) her_token
unfolding new_signing_key load_private_key import_private intersection is_subset signer_opts_for_alg
    opts_for_alg ecdsa_curve_for_alg get is_listed token_for
her_token-IsTimely = record {
  started = omega arith;
  not_over = omega arith;
  shared = ("bob", inl refl, inl refl);
  has_kid = λ e. cc e;
}

verify_jwt-sign_claims_example :
    (verify_jwt toy_crypto ec_json her_store (pos 1) ("bob" ∷ []) her_text tt).0
    ≡ ok (kid ec_signing_key, her_token.claims)
verify_jwt-sign_claims_example =
    verify_jwt-sign_claims toy_crypto toy_private toy-IsSound ec_json her_store
      (λ (n : ℕ). ok (n ∷ [])) ec_jwk (key_ops_sign ∷ []) alice ec_verification_key (pos 0) (pos 1)
      "" her_claims no_claims [] ("bob" ∷ []) her_text tt ec_key_made ec_verifier_made
      untyped_written her_token-ReadsBack her_token_written her_text_short her_token-IsTimely refl

abbrev read_text : Parsed JwsHeader Bytes
read_text = record {
  header = token_header;
  payload = 100 ∷ [];
  signature = 3 ∷ [];
  body = codes "AQ.ZA";
}

read_text_made : Jws.unmarshal toy_json.header (λ b. ok b) token_text ≡ ok read_text
unfolding Jws.unmarshal unmarshal_url_base64 decode_segment strict_compact_b64 decode encode split_n
    join bytes_eq
read_text_made = refl

load_jws-unmarshal_example :
    (head : Bytes) × (body_bytes : Bytes) × (load_jws toy_json.header token_text
      ≡ ok (record {
        protected_header = token_header;
        header = head;
        body_bytes = body_bytes;
        payload = codes "AQ.ZA";
        signature = 3 ∷ [];
      }))
load_jws-unmarshal_example =
    load_jws-unmarshal toy_json.header (λ b. ok b) token_text read_text read_text_made

abbrev toy_generators : Generators
toy_generators = record {
  generate_rsa = λ _. err (external "rsa");
  generate_ecdsa = λ c. ok (record { public = record { curve = c; x = 3; y = 3 }; d = 3 });
  random = λ _. ok [];
  gcm = λ _. err (external "gcm");
}

abbrev generated_key : SigningKey
generated_key =
    key_or (generate_ecdsa_signing_key toy_crypto toy_generators alg_es256 (key_ops_sign ∷ []))

generated_key_made :
    generate_ecdsa_signing_key toy_crypto toy_generators alg_es256 (key_ops_sign ∷ [])
    ≡ ok generated_key
unfolding new_signing_key load_private_key import_private intersection is_subset signer_opts_for_alg
    opts_for_alg ecdsa_curve_for_alg get is_listed public_from_private public_part publish
    inverse_op big_bytes left_padded bit_size from_bytes generate_ecdsa_signing_key
    jwk_from_private_key calculate_key_id
generated_key_made = refl

generate_ecdsa_signing_key-algorithm_example :
    (algorithm generated_key ≡ alg_es256)
    × (c : Curve) × (v : EcPrivateKey) × IsOnCurve alg_es256 c
    × (toy_generators.generate_ecdsa c ≡ ok v)
    × ((signing_fields generated_key).key
        ≡ ecdsa_signer
            (record { public = record { curve = c; x = v.public.x; y = v.public.y }; d = v.d }))
generate_ecdsa_signing_key-algorithm_example =
    generate_ecdsa_signing_key-algorithm toy_crypto toy_generators alg_es256 (key_ops_sign ∷ [])
      generated_key generated_key_made
