-- ===== src/Jose/Jws/Written.antt =====
-- jose/jws.go: what `MarshalBody` and `MarshalJws` write, `Unmarshal` reads back.
use gose.Prelude.{◌≤◌, ◌≡◌, refl, true, not, [], ◌∷◌, ◌++◌, arith, ltb, length, append_assoc}
use gose.Bytes.{Bytes, IsBytes, bytes_eq_refl}
use gose.Bytes.Split.{split_n, join, split_n-join}
use gose.Bytes.Base64.{encode, decode-encode, encode-Lacks}
use gose.Error.{Result, ok}
use gose.Jose.Types.{max_compact_size}
use gose.Jose.Jws.{
  dot, decode_segment, strict_compact_b64, as_malformed, signature_segment, marshal_jws,
  unmarshal_parts, unmarshal, unmarshal_url_base64,
}

decode_written : (b : Bytes) → IsBytes b → decode_segment (encode b) ≡ ok b
unfolding decode_segment
decode_written b h = rw (decode-encode b h) refl

signature_written : (b : Bytes) → IsBytes b → signature_segment (encode b) ≡ ok b
unfolding signature_segment strict_compact_b64 as_malformed
signature_written b h = rw (decode_written b h, bytes_eq_refl (encode b)) refl

split_written :
    (a b s : Bytes)
    → split_n dot (marshal_jws (encode a ++ dot ∷ encode b) s) 3
      ≡ encode a ∷ encode b ∷ encode s ∷ []
unfolding marshal_jws join
split_written a b s =
    let joined =
      split_n-join dot (encode a) (encode b ∷ encode s ∷ [])
        (encode-Lacks a, (encode-Lacks b, tt)) in
    rw (append_assoc (encode a) (dot ∷ encode b) (dot ∷ encode s)) joined

module _ {H P : Type 0} (header : Bytes → Result H) (payload : Bytes → Result P) where
  -- A text that was written of a header, a payload and a signature is read as those, and the text that
  -- the signature covers is what was signed.
  pub unmarshal-marshal_jws :
      (a b s : Bytes) (h : H) (p : P)
      → IsBytes a
      → IsBytes b
      → IsBytes s
      → header a ≡ ok h
      → payload b ≡ ok p
      → length (marshal_jws (encode a ++ dot ∷ encode b) s) ≤ max_compact_size
      → unmarshal header payload (marshal_jws (encode a ++ dot ∷ encode b) s)
        ≡ ok (record { header = h; payload = p; signature = s; body = encode a ++ dot ∷ encode b })
  unfolding unmarshal unmarshal_parts unmarshal_url_base64 join
  unmarshal-marshal_jws a b s h p ba bb bs eh ep short =
      let fits : not (ltb max_compact_size (length (marshal_jws (encode a ++ dot ∷ encode b) s)))
          ≡ true =
        ground (arith, short) in
      rw
        (
          fits,
          split_written a b s,
          decode_written a ba,
          eh,
          decode_written b bb,
          ep,
          signature_written s bs,
        )
        refl
