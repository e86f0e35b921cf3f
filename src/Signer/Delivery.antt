-- ===== src/Signer/Delivery.antt =====
-- jwt_signer.go and jwt_verifier.go: the signer of a token and its verifier together.
use gose.Prelude.{
  ◌≤◌, ◌≡◌, refl, sym, String, Option, none, some, List, [], ◌∷◌, ◌≢◌, Dict, put, ℤ, length,
}
use gose.Bytes.{Bytes}
use gose.Error.{Result, ok, >>=-eq-ok}
use gose.Crypto.{Crypto}
use gose.Jose.Types.{KeyOps, key_ops_sign, max_compact_size}
use gose.Jose.Jwk.{Jwk}
use gose.Jose.Jws.{marshal_jws}
use gose.Jose.Jwt.Members.{DistinctNames, put-DistinctNames}
use gose.Jose.Jwt.Written.{ReadsBack, read_back}
use gose.Jose.Jwt
use gose.Jose.Jwt.{Jwt, JwtJson, JwtClaims, SettableJwtClaims}
use gose.Keys.Verification.{VerificationKey}
use gose.Keys.Signing
use gose.Keys.Signing.{PrivateCrypto, SigningKey, new_signing_key, verifier, sign}
use gose.Keys.Signing.Sound.{IsSound}
use gose.Keys.Signing.Matching.{verify-sign, sign-IsBytes}
use gose.Signer.{encode_entries, JwtSigner, encode_untyped, token_for, sign_claims}
use gose.Verifier.Audience.{SharesAudience}
use gose.Verifier.{TrustSource, verify_jwt}
use gose.Verifier.Acceptance.{IsAccepted, IsTimely}
use gose.Verifier.Completeness.{IsAccepted-verify_jwt}

-- the loop over the untyped claims fills a map, and no name stands in it twice
encode_entries-DistinctNames :
    {V : Type 0} (marshal : V → Result Bytes) (entries : Dict V) (done encoded : Dict Bytes)
    → DistinctNames done
    → encode_entries marshal entries done ≡ ok encoded
    → DistinctNames encoded
unfolding encode_entries
encode_entries-DistinctNames marshal [] done encoded distinct h =
    let same : done ≡ encoded = cc h in rw same at distinct
encode_entries-DistinctNames marshal ((k, v) ∷ rest) done encoded distinct h =
    let (value, _, h₁) = >>=-eq-ok (marshal v) _ h in
    encode_entries-DistinctNames marshal rest (put k value done) encoded
      (put-DistinctNames k value done distinct) h₁

encode_untyped-DistinctNames :
    {V : Type 0} (marshal : V → Result Bytes) (untyped : Option (Dict V)) (encoded : Dict Bytes)
    → encode_untyped marshal untyped ≡ ok encoded
    → DistinctNames encoded
unfolding encode_untyped
encode_untyped-DistinctNames marshal none encoded h =
    let same : [] ≡ encoded = cc h in rw (sym same) tt
encode_untyped-DistinctNames marshal (some entries) encoded h =
    encode_entries-DistinctNames marshal entries [] encoded tt h

-- a list that shares a member with another is not empty
shared_not_empty : (l k : List String) → SharesAudience l k → k ≢ []
shared_not_empty l k (x, _, m) e = rw e at m

module _ {S : Type 0} (crypto : Crypto) (private : PrivateCrypto) (sound : IsSound crypto private)
    (json : JwtJson) (store : TrustSource S) where
  -- A token that `Sign` has made with a key of `NewSigningKey` is accepted by `Verify`, with its
  -- claims and the key ID of the signer, by a verifier whose trust store knows the signer's own
  -- verification key under issuer and key ID, if the claims are timely for it, the token is no longer
  -- than the bound, and encoding/json reads back the header as it was written, each typed claim from
  -- the member of its name, and an object of raw members as it was. The signature schemes are taken
  -- to be sound.
  pub verify_jwt-sign_claims :
      {V : Type 0} (marshal : V → Result Bytes) (jwk : Jwk) (required : List KeyOps)
      (signer : JwtSigner) (key : VerificationKey) (issued now : ℤ) (uuid : String)
      (claims : SettableJwtClaims) (untyped : Option (Dict V)) (encoded : Dict Bytes)
      (audience : List String) (text : Bytes) (s : S)
      → new_signing_key crypto jwk required ≡ ok signer.key
      → verifier crypto signer.key ≡ ok key
      → encode_untyped marshal untyped ≡ ok encoded
      → ReadsBack json (token_for signer issued uuid claims encoded)
      → sign_claims crypto private json marshal signer issued uuid claims untyped ≡ ok text
      → length text ≤ max_compact_size
      → IsTimely now audience (token_for signer issued uuid claims encoded)
      → (store.get_key signer.issuer (Signing.kid signer.key) s).0 ≡ ok (some key)
      → (verify_jwt crypto json store now audience text s).0
        ≡ ok (Signing.kid signer.key, (token_for signer issued uuid claims encoded).claims)
  unfolding sign_claims token_for
  verify_jwt-sign_claims marshal jwk required signer key issued now uuid claims untyped encoded
        audience text s made verifies encodes reads h short timely trusted =
      let token = token_for signer issued uuid claims encoded in
      let h' = rw encodes at h in
      let (body, e, h₁) = >>=-eq-ok (Jwt.marshal_body json token) _ h' in
      let (signature, e', h₂) = >>=-eq-ok (sign crypto private signer.key key_ops_sign body) _ h₁ in
      let written : text ≡ marshal_jws body signature = cc h₂ in
      let (valid, same_alg, same_kid, _, _) =
        verify-sign crypto private sound jwk required signer.key key key_ops_sign body signature
          made verifies e' in
      let bytes = sign-IsBytes crypto private sound signer.key key_ops_sign body signature e' in
      let parsed =
        read_back json token body signature reads
          (encode_untyped-DistinctNames marshal untyped encoded encodes)
          (shared_not_empty audience claims.audiences timely.shared) e bytes
          (rw written at short) in
      let accepted : IsAccepted crypto json store now audience text s (Signing.kid signer.key)
          token.claims =
        record {
          token = record token { signature = signature };
          body = body;
          key = key;
          short = short;
          parsed = rw written parsed;
          timely = record {
            started = timely.started;
            not_over = timely.not_over;
            shared = timely.shared;
            has_kid = timely.has_kid;
          };
          trusted = trusted;
          same_algorithm = same_alg;
          signed = valid;
          key_id = sym same_kid;
          its_claims = refl;
        } in
      IsAccepted-verify_jwt crypto json store now audience text s (Signing.kid signer.key)
        token.claims accepted
