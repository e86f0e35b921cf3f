-- ===== src/Verifier/Revoked.antt =====
-- jwt_verifier.go over the trust store of keystore.go, after a key has been removed.
use gose.Prelude.{◌≡◌, String, true, Option, some, List, ℤ}
use gose.Bytes.{Bytes}
use gose.Error.{Result, ok, err, gose_error, unknown_key}
use gose.Crypto.{Crypto}
use gose.Jose.Jwt
use gose.Jose.Jwt.{Jwt, JwtJson, JwtClaims}
use gose.Keys.Verification.{VerificationKey}
use gose.TrustStore
use gose.TrustStore.{TrustKeyStore, Operation, run, remove}
use gose.TrustStore.Revocation.{remove_is_final}
use gose.Verifier.{TrustSource, verify_jwt}
use gose.Verifier.Acceptance.{verify_jwt-IsAccepted}

-- a call that returns a key or an error, as the interface has it
abbrev pub as_answer : Result VerificationKey → Result (Option VerificationKey)
as_answer (ok key) = ok (some key)
as_answer (err e) = err e

-- `TrustKeyStoreImpl` as a `TrustStore`
abbrev pub key_store : TrustSource TrustKeyStore
key_store = record {
  get_key =
      λ issuer kid s. let (answer, s') = TrustStore.get_key issuer kid s in (as_answer answer, s');
}

-- After `remove` has returned true for an issuer and a key ID, and whatever operations on the store
-- follow, a token that is accepted is not one of that issuer under that key ID.
pub removed_key_verifies_nothing :
    (crypto : Crypto) (json : JwtJson) (now : ℤ) (audience : List String) (text : Bytes)
    (issuer kid : String) (s : TrustKeyStore) (os : List Operation) (returned : String)
    (claims : JwtClaims)
    → (remove issuer kid s).0 ≡ true
    → (verify_jwt crypto json key_store now audience text (run os (remove issuer kid s).1)).0
      ≡ ok (returned, claims)
    → (token : Jwt) × (body : Bytes) × (Jwt.unmarshal json text ≡ ok (token, body))
      × ¬ ((token.claims.automatic.issuer ≡ issuer) × (token.header.kid ≡ kid))
removed_key_verifies_nothing crypto json now audience text issuer kid s os returned claims gone h =
    let s' = run os (remove issuer kid s).1 in
    let a = verify_jwt-IsAccepted crypto json key_store now audience text s' returned claims h in
    (
      a.token,
      a.body,
      a.parsed,
      (λ same.
          refuted (TrustStore.get_key issuer kid s').0 (remove_is_final issuer kid s os gone)
            (rw (same.0, same.1) at (a.trusted))),
    )
  where
    refuted :
        (answer : Result VerificationKey) {key : VerificationKey}
        → answer ≡ err (gose_error unknown_key)
        → as_answer answer ≡ ok (some key)
        → ⊥
    refuted (ok k) e h = cc e
    refuted (err x) e h = cc h
