-- ===== src/Jose/Jws/Decoded.antt =====
-- jose/jws.go: the three segments that `Unmarshal` has decoded.
use gose.Prelude.{◌≡◌, refl, not, some, List, [], ◌∷◌, ltb, length, Option-cases, inl, inr}
use gose.Bytes.{Bytes, bytes_eq}
use gose.Bytes.Split.{split_n, join}
use gose.Bytes.Base64.{encode, decode}
use gose.Error.{Result, ok, err, >>=-eq-ok, guard->>-eq-ok, external, jose_error, jwt_format}
use gose.Jose.Types.{max_compact_size}
use gose.Jose.Jws.{
  dot, decode_segment, strict_compact_b64, as_malformed, signature_segment, Parsed, unmarshal_parts,
  unmarshal, unmarshal_url_base64,
}

decoded : (s b : Bytes) → decode_segment s ≡ ok b → decode s ≡ some b
unfolding decode_segment
decoded s b h = elim (Option-cases (decode s)) [
  | inl e ↦ let h' : err (external "illegal base64 data") ≡ ok b = rw e at h in cc h'
  | inr (c, e) ↦ let h' : ok c ≡ ok b = rw e at h in cc (e, h')
]

malformed-eq-ok : (r : Result Bytes) (b : Bytes) → as_malformed r ≡ ok b → r ≡ ok b
unfolding as_malformed
malformed-eq-ok (ok a) b h = h
malformed-eq-ok (err e) b h = cc h

signature_decoded : (s b : Bytes) → signature_segment s ≡ ok b → decode s ≡ some b
unfolding signature_segment strict_compact_b64
signature_decoded s b h =
    let strict = malformed-eq-ok (strict_compact_b64 s) b h in
    let (c, e, h₁) = >>=-eq-ok (decode_segment s) _ strict in
    let (_, h₂) = guard->>-eq-ok (bytes_eq (encode c) s) (jose_error jwt_format) (ok c) h₁ in
    let same : c ≡ b = cc h₂ in decoded s b (cc (e, same))

-- the segments of an accepted text, with what they decode to
pub record Decoded {H P : Type 0} (header : Bytes → Result H) (text : Bytes) (p : Parsed H P)
    : Type 0 where
  pub first : Bytes
  pub second : Bytes
  pub third : Bytes
  pub head : Bytes
  pub body_bytes : Bytes
  pub split : split_n dot text 3 ≡ first ∷ second ∷ third ∷ []
  pub head_decoded : decode first ≡ some head
  pub header_read : header head ≡ ok p.header
  pub data_decoded : decode second ≡ some body_bytes
  pub signature_read : decode third ≡ some p.signature
  pub covered : p.body ≡ join dot (first ∷ second ∷ [])

module _ {H P : Type 0} (header : Bytes → Result H) (payload : Bytes → Result P) where
  parts-Decoded :
      (text : Bytes) (parts : List Bytes) (p : Parsed H P)
      → split_n dot text 3 ≡ parts
      → unmarshal_parts header payload parts ≡ ok p
      → Decoded header text p
  unfolding unmarshal_parts unmarshal_url_base64
  parts-Decoded text [] p e h = cc h
  parts-Decoded text (a ∷ []) p e h = cc h
  parts-Decoded text (a ∷ b ∷ []) p e h = cc h
  parts-Decoded text (a ∷ b ∷ c ∷ d ∷ r) p e h = cc h
  parts-Decoded text (a ∷ b ∷ c ∷ []) p e h =
      let (x, e₁, h₁) = >>=-eq-ok (unmarshal_url_base64 header a) _ h in
      let (y, e₂, h₂) = >>=-eq-ok (unmarshal_url_base64 payload b) _ h₁ in
      let (s, e₃, h₃) = >>=-eq-ok (signature_segment c) _ h₂ in
      let (raw, d₁, read) = >>=-eq-ok (decode_segment a) _ e₁ in
      let (raw', d₂, _) = >>=-eq-ok (decode_segment b) _ e₂ in
      record {
        first = a;
        second = b;
        third = c;
        head = raw;
        body_bytes = raw';
        split = e;
        head_decoded = decoded a raw d₁;
        header_read = cc (read, h₃);
        data_decoded = decoded b raw' d₂;
        signature_read = signature_decoded c p.signature (cc (e₃, h₃));
        covered = cc h₃;
      }

  pub unmarshal-Decoded :
      (text : Bytes) (p : Parsed H P) → unmarshal header payload text ≡ ok p → Decoded header text p
  unfolding unmarshal
  unmarshal-Decoded text p h =
      let (_, k) = guard->>-eq-ok (not (ltb max_compact_size (length text))) _ _ h in
      parts-Decoded text (split_n dot text 3) p refl k
