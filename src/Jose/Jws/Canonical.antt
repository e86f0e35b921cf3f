-- ===== src/Jose/Jws/Canonical.antt =====
-- jose/jws.go: the spelling of the compact form that `Unmarshal` reads.
use gose.Prelude.{◌≤◌, ◌≡◌, refl, ◌∙◌, not, List, [], ◌∷◌, ◌++◌, arith, ltb, length, append_assoc}
use gose.Bytes.{Bytes, bytes_eq_iff}
use gose.Bytes.Split.{split_n, join, join-split_n}
use gose.Bytes.Base64.{encode}
use gose.Error.{Result, ok, guard, >>=-eq-ok, guard->>-eq-ok, jose_error, JoseError}
use gose.Jose.Types.{max_compact_size}
use gose.Jose.Jws.{
  dot, signature_segment, marshal_jws, Parsed, unmarshal_parts, unmarshal, unmarshal_url_base64,
}

signature_segment-canonical : (s b : Bytes) → signature_segment s ≡ ok b → encode b ≡ s
unfolding signature_segment
signature_segment-canonical s b h = ground (arith, bytes_eq_iff (encode b) s)

module _ {H P : Type 0} (header : Bytes → Result H) (payload : Bytes → Result P) where
  parts-canonical :
      (parts : List Bytes) (p : Parsed H P)
      → unmarshal_parts header payload parts ≡ ok p
      → marshal_jws p.body p.signature ≡ join dot parts
  unfolding unmarshal_parts
  parts-canonical [] p h = cc
  parts-canonical (a ∷ []) p h = cc
  parts-canonical (a ∷ b ∷ []) p h = cc
  parts-canonical (a ∷ b ∷ c ∷ d ∷ r) p h = cc
  parts-canonical (a ∷ b ∷ c ∷ []) p h =
      let (x, _, h₁) = >>=-eq-ok (unmarshal_url_base64 header a) _ h in
      let (y, _, h₂) = >>=-eq-ok (unmarshal_url_base64 payload b) _ h₁ in
      let (s, e, h₃) = >>=-eq-ok (signature_segment c) _ h₂ in
      let spelled : encode p.signature ≡ c =
        signature_segment-canonical c p.signature (cc (e, h₃)) in
      let whole : p.body ≡ join dot (a ∷ b ∷ []) = cc h₃ in
      unfold marshal_jws join in rw (spelled, whole) (append_assoc a (dot ∷ b) (dot ∷ c))

  -- Whatever is accepted is, byte for byte, what `marshal_jws` writes for the signed text and the
  -- signature that were read: no second spelling of a token is accepted.
  pub marshal_jws-unmarshal :
      (src : Bytes) (p : Parsed H P)
      → unmarshal header payload src ≡ ok p
      → marshal_jws p.body p.signature ≡ src
  unfolding unmarshal
  marshal_jws-unmarshal src p h =
      let (_, _, k) =
        >>=-eq-ok
          (guard (not (ltb max_compact_size (length src))) (jose_error JoseError.input_too_large)) _
          h in
      parts-canonical (split_n dot src 3) p k ∙ join-split_n dot src 2

  -- the three segments of an accepted text, each decoded
  pub record Segments (text : Bytes) (p : Parsed H P) : Type 0 where
    pub first : Bytes
    pub second : Bytes
    pub third : Bytes
    pub split : split_n dot text 3 ≡ first ∷ second ∷ third ∷ []
    pub short : length text ≤ max_compact_size
    pub header_read : unmarshal_url_base64 header first ≡ ok p.header
    pub payload_read : unmarshal_url_base64 payload second ≡ ok p.payload
    pub signature_spelled : encode p.signature ≡ third
    pub covered : p.body ≡ first ++ dot ∷ second

  segments_of :
      (text : Bytes) (parts : List Bytes) (p : Parsed H P)
      → split_n dot text 3 ≡ parts
      → length text ≤ max_compact_size
      → unmarshal_parts header payload parts ≡ ok p
      → Segments text p
  unfolding unmarshal_parts
  segments_of text [] p e short h = cc h
  segments_of text (a ∷ []) p e short h = cc h
  segments_of text (a ∷ b ∷ []) p e short h = cc h
  segments_of text (a ∷ b ∷ c ∷ d ∷ r) p e short h = cc h
  segments_of text (a ∷ b ∷ c ∷ []) p e short h =
      let (x, e₁, h₁) = >>=-eq-ok (unmarshal_url_base64 header a) _ h in
      let (y, e₂, h₂) = >>=-eq-ok (unmarshal_url_base64 payload b) _ h₁ in
      let (s, e₃, h₃) = >>=-eq-ok (signature_segment c) _ h₂ in
      let whole : p.body ≡ join dot (a ∷ b ∷ []) = cc h₃ in
      record {
        first = a;
        second = b;
        third = c;
        split = e;
        short = short;
        header_read = cc (e₁, h₃);
        payload_read = cc (e₂, h₃);
        signature_spelled = signature_segment-canonical c p.signature (cc (e₃, h₃));
        covered = rw whole (unfold join in refl);
      }

  pub unmarshal-Segments :
      (text : Bytes) (p : Parsed H P) → unmarshal header payload text ≡ ok p → Segments text p
  unfolding unmarshal
  unmarshal-Segments text p h =
      let (g, k) = guard->>-eq-ok (not (ltb max_compact_size (length text))) _ _ h in
      segments_of text (split_n dot text 3) p refl (ground (arith, g)) k
