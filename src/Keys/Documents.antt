-- ===== src/Keys/Documents.antt =====
-- helpers.go: `LoadJwk`, `LoadJwkFromFile` and `LoadJws`, which read documents.
use gose.Prelude.{◌≡◌, ◌↔◌, refl, false, not, List, [], ◌∷◌, arith, All, Has}
use gose.Bytes.{Bytes}
use gose.Bytes.Split.{split_n, join}
use gose.Bytes.Base64.{decode}
use gose.Error.{
  Result, ok, err, guard, require, ◌>>=◌, ◌>>◌, >>=-eq-ok, guard->>-eq-ok, gose_error,
  invalid_operations, invalid_signing_key_url, invalid_jws_compact_encoding,
  invalid_jws_base64_header_encoding, invalid_jws_header_encoding, invalid_jws_base64_body_encoding,
  invalid_jws_base64_signature_encoding,
}
use gose.Crypto.{Crypto}
use gose.Jose.Types.{JwsHeader, KeyOps}
use gose.Jose.Jwk.{Jwk, ops}
use gose.Jose.Jwk.Parse.{JwkJson, unmarshal_jwk}
use gose.Jose.Jws.{dot, Parsed}
use gose.Jose.Jws
use gose.Jose.Jws.Decoded.{unmarshal-Decoded}
use gose.KeyOps.Policy.{is_subset_iff}
use gose.Keys.Load.{lacks_required}

-- `LoadJwk`, on what the reader supplies
unfoldable pub load_jwk : Crypto → JwkJson → Bytes → List KeyOps → Result Jwk
load_jwk crypto json content required = do
  jwk ← unmarshal_jwk crypto json content
  guard (not (lacks_required (ops jwk) required)) (gose_error invalid_operations)
  ok jwk

-- `LoadJwkFromFile`, on the content of the file or the error of opening it
unfoldable pub load_jwk_from_file : Crypto → JwkJson → Result Bytes → List KeyOps → Result Jwk
unfolding load_jwk
load_jwk_from_file crypto json (err e) required = err (gose_error invalid_signing_key_url)
load_jwk_from_file crypto json (ok content) required = load_jwk crypto json content required

-- the results of `LoadJws`
pub record LoadedJws : Type 0 where
  pub protected_header : JwsHeader
  pub header : Bytes
  pub body_bytes : Bytes
  pub payload : Bytes
  pub signature : Bytes

-- any error of the header's JSON is reported alike
header_or : Result JwsHeader → Result JwsHeader
header_or (ok h) = ok h
header_or (err e) = err (gose_error invalid_jws_header_encoding)

load_parts : (Bytes → Result JwsHeader) → List Bytes → Result LoadedJws
unfolding header_or
load_parts read (a ∷ b ∷ c ∷ []) = do
  header ← require (decode a) (gose_error invalid_jws_base64_header_encoding)
  protected ← header_or (read header)
  body_bytes ← require (decode b) (gose_error invalid_jws_base64_body_encoding)
  signature ← require (decode c) (gose_error invalid_jws_base64_signature_encoding)
  ok (record {
    protected_header = protected;
    header = header;
    body_bytes = body_bytes;
    payload = join dot (a ∷ b ∷ []);
    signature = signature;
  })
load_parts read _ = err (gose_error invalid_jws_compact_encoding)

-- `LoadJws`
unfoldable pub load_jws : (Bytes → Result JwsHeader) → Bytes → Result LoadedJws
unfolding load_parts
load_jws read text = load_parts read (split_n dot text 3)

not_lacking :
    (have required : List KeyOps)
    → (lacks_required have required ≡ false) ↔ All (λ op. Has op have) required
unfolding lacks_required
not_lacking have [] = ((λ h. tt), (λ h. refl))
not_lacking have (r ∷ required) =
    let (sound, complete) = is_subset_iff have (r ∷ required) in
    (
      (λ h. (sound (ground (arith, h))).1),
      (λ h. let held = complete ((cc), h) in ground (arith, held)),
    )

-- `LoadJwk` gives a key exactly when `UnmarshalJwk` gives it and the key names every operation that
-- is required, of which there may be none.
pub load_jwk_iff :
    (crypto : Crypto) (json : JwkJson) (content : Bytes) (required : List KeyOps) (jwk : Jwk)
    → (load_jwk crypto json content required ≡ ok jwk)
      ↔ ((unmarshal_jwk crypto json content ≡ ok jwk) × All (λ op. Has op (ops jwk)) required)
unfolding load_jwk
load_jwk_iff crypto json content required jwk = (
  (λ h.
      let (key, e, h₁) = >>=-eq-ok (unmarshal_jwk crypto json content) _ h in
      let (held, h₂) =
        guard->>-eq-ok (not (lacks_required (ops key) required)) (gose_error invalid_operations)
          (ok key) h₁ in
      let same : key ≡ jwk = cc h₂ in
      (cc (e, same), (not_lacking (ops jwk) required).0 (ground (arith, held, same)))),
  (λ h. let held = (not_lacking (ops jwk) required).1 h.1 in rw (h.0, held) refl),
)

-- Whatever `Jws.Unmarshal` accepts, with any decoder for the payload, `LoadJws` accepts as well: it
-- gives the same header and the same signature, and as payload the text that the signature covers.
pub load_jws-unmarshal :
    {P : Type 0} (read : Bytes → Result JwsHeader) (payload : Bytes → Result P) (text : Bytes)
    (p : Parsed JwsHeader P)
    → Jws.unmarshal read payload text ≡ ok p
    → (head : Bytes) × (body_bytes : Bytes) × (load_jws read text
        ≡ ok (record {
          protected_header = p.header;
          header = head;
          body_bytes = body_bytes;
          payload = p.body;
          signature = p.signature;
        }))
unfolding load_jws load_parts header_or
load_jws-unmarshal read payload text p h =
    let d = unmarshal-Decoded read payload text p h in
    (
      d.head,
      d.body_bytes,
      rw (d.split, d.head_decoded, d.header_read, d.data_decoded, d.signature_read, d.covered) refl,
    )
