-- ===== src/Jose/Jwe/RoundTrip.antt =====
-- What the compact serialisation of a JWE gives back.
use gose.Prelude.{◌≤◌, ◌≡◌, refl, true, not, [], ◌∷◌, arith, ltb, length}
use gose.Bytes.{Bytes, IsBytes}
use gose.Bytes.Split.{split_n, join, split_n-join}
use gose.Bytes.Base64.{encode, encode-Lacks, decode-encode, encode-eq-nil}
use gose.Error.{Checked, ok}
use gose.Jose.Types.{max_compact_size}
use gose.Jose.Jws.{dot, decode_segment}
use gose.Jose.Jwe.{
  JweProtectedHeader, Jwe, JweRfc7516Compact, HeaderJson, key_segment, decode_sealed, check_header,
  check_crit, marshal_protected_header, read_header, compact_parts, unmarshal_compact, legacy_parts,
  unmarshal_legacy, segments, marshal_compact, marshal_legacy, aad,
}

decode_segment-encode : (b : Bytes) → IsBytes b → decode_segment (encode b) ≡ ok b
unfolding decode_segment
decode_segment-encode b h = rw (decode-encode b h) refl

key_segment-cases :
    (s b : Bytes) → decode_segment s ≡ ok b → (s ≡ [] → b ≡ []) → key_segment s ≡ ok b
unfolding key_segment
key_segment-cases [] b h k = cc (k refl)
key_segment-cases (c ∷ s) b h k = h

key_segment-encode : (b : Bytes) → IsBytes b → key_segment (encode b) ≡ ok b
key_segment-encode b h =
    key_segment-cases (encode b) b (decode_segment-encode b h) (encode-eq-nil b)

-- byte strings behind the header
pub record AreBytes (k v c t : Bytes) : Type 0 where
  pub key : IsBytes k
  pub vector : IsBytes v
  pub body : IsBytes c
  pub tag : IsBytes t

decode_sealed-encode :
    (k v c t : Bytes)
    → AreBytes k v c t
    → decode_sealed (encode k) (encode v) (encode c) (encode t)
      ≡ ok (record {
        encrypted_key = k;
        initialization_vector = v;
        ciphertext = c;
        authentication_tag = t;
      })
unfolding decode_sealed
decode_sealed-encode k v c t h =
    rw
      (
        key_segment-encode k h.key,
        decode_segment-encode v h.vector,
        decode_segment-encode c h.body,
        decode_segment-encode t h.tag,
      )
      refl

split-segments :
    (h k v c t : Bytes)
    → split_n dot (join dot (segments (encode h) k v c t)) 5 ≡ segments (encode h) k v c t
unfolding segments
split-segments h k v c t =
    split_n-join dot (encode h) (encode k ∷ encode v ∷ encode c ∷ encode t ∷ [])
      (encode-Lacks h, (encode-Lacks k, (encode-Lacks v, (encode-Lacks c, tt))))

read_header-encode :
    (json : HeaderJson) (check : JweProtectedHeader → Checked) (h : JweProtectedHeader) (w : Bytes)
    → IsBytes w
    → json.read w ≡ ok h
    → check h ≡ ok tt
    → read_header json check (encode w) ≡ ok h
unfolding read_header
read_header-encode json check h w bytes reads passes =
    rw (decode_segment-encode w bytes, reads, passes) refl

module _ (json : HeaderJson) where
  compact-segments :
      (jwe : JweRfc7516Compact) (w : Bytes)
      → IsBytes w
      → json.read w ≡ ok jwe.protected_header
      → check_header jwe.protected_header ≡ ok tt
      → AreBytes jwe.encrypted_key jwe.initialization_vector jwe.ciphertext jwe.authentication_tag
      → compact_parts json (
          segments
            (encode w)
            jwe.encrypted_key
            jwe.initialization_vector
            jwe.ciphertext
            jwe.authentication_tag)
        ≡ ok (record jwe { raw_protected_header = encode w })
  unfolding compact_parts segments
  compact-segments jwe w bytes reads passes rest =
      rw
        (
          read_header-encode json check_header jwe.protected_header w bytes reads passes,
          decode_sealed-encode _ _ _ _ rest,
        )
        refl

  marshal_compact-text :
      (jwe : JweRfc7516Compact) (w text : Bytes)
      → json.write jwe.protected_header ≡ ok w
      → marshal_compact json jwe ≡ ok text
      → text
        ≡ join dot (
            segments
              (encode w)
              jwe.encrypted_key
              jwe.initialization_vector
              jwe.ciphertext
              jwe.authentication_tag)
  unfolding marshal_compact marshal_protected_header
  marshal_compact-text jwe w text e h =
      let h' : ok (
            join dot (
              segments (encode w) jwe.encrypted_key jwe.initialization_vector jwe.ciphertext
                jwe.authentication_tag))
          ≡ ok text =
        rw e at h in
      cc h'

  aad_received :
      (jwe : JweRfc7516Compact) (w : Bytes)
      → json.write jwe.protected_header ≡ ok w
      → aad json (record jwe { raw_protected_header = encode w }) ≡ ok (encode w)
  unfolding aad marshal_protected_header
  aad_received jwe w e =
      elim (encode w)
          as (λ s. encode w ≡ s → aad json (record jwe { raw_protected_header = s }) ≡ ok s) [
            | [] ↦ λ n. rw e (cc n)
            | c ∷ s ↦ λ _. refl
          ]
        refl

  -- A JWE with a supported header that is marshalled to a text within the bound is read back whole,
  -- if its parts are byte strings and `encoding/json` reads what it wrote for the header; what is
  -- read in addition is the header segment, and it is the authenticated data.
  pub unmarshal_compact-marshal :
      (jwe : JweRfc7516Compact) (w text : Bytes)
      → json.write jwe.protected_header ≡ ok w
      → json.read w ≡ ok jwe.protected_header
      → IsBytes w
      → check_header jwe.protected_header ≡ ok tt
      → AreBytes jwe.encrypted_key jwe.initialization_vector jwe.ciphertext jwe.authentication_tag
      → marshal_compact json jwe ≡ ok text
      → length text ≤ max_compact_size
      → (unmarshal_compact json text ≡ ok (record jwe { raw_protected_header = encode w }))
        × (aad json (record jwe { raw_protected_header = encode w }) ≡ ok (encode w))
  unfolding unmarshal_compact
  unmarshal_compact-marshal jwe w text writes reads bytes passes rest h short =
      let whole = marshal_compact-text jwe w text writes h in
      let parts : split_n dot text 5
          ≡ segments (encode w) jwe.encrypted_key jwe.initialization_vector jwe.ciphertext
              jwe.authentication_tag =
        rw whole (
          split-segments w jwe.encrypted_key jwe.initialization_vector jwe.ciphertext
            jwe.authentication_tag) in
      let within : not (ltb max_compact_size (length text)) ≡ true = ground (arith, short) in
      (
        rw (within, parts) (compact-segments jwe w bytes reads passes rest),
        aad_received jwe w writes,
      )

  legacy-segments :
      (jwe : Jwe) (w : Bytes)
      → IsBytes w
      → json.read w ≡ ok jwe.header
      → jwe.marshalled_header ≡ encode w
      → check_crit jwe.header ≡ ok tt
      → AreBytes jwe.encrypted_key jwe.iv jwe.ciphertext jwe.tag
      → legacy_parts json (segments (encode w) jwe.encrypted_key jwe.iv jwe.ciphertext jwe.tag)
        ≡ ok jwe
  unfolding legacy_parts segments
  legacy-segments jwe w bytes reads e passes rest =
      rw
        (
          read_header-encode json check_crit jwe.header w bytes reads passes,
          decode_sealed-encode _ _ _ _ rest,
          ← e,
        )
        refl

  -- The deprecated form is read back whole under the same conditions: the header segment is the one
  -- that was marshalled, `encoding/json` reads it, no extension is critical, and the text is within
  -- the bound.
  pub unmarshal_legacy-marshal :
      (jwe : Jwe) (w : Bytes)
      → IsBytes w
      → json.read w ≡ ok jwe.header
      → jwe.marshalled_header ≡ encode w
      → check_crit jwe.header ≡ ok tt
      → AreBytes jwe.encrypted_key jwe.iv jwe.ciphertext jwe.tag
      → length (marshal_legacy jwe) ≤ max_compact_size
      → unmarshal_legacy json (marshal_legacy jwe) ≡ ok jwe
  unfolding unmarshal_legacy
  unmarshal_legacy-marshal jwe w bytes reads e passes rest short =
      let whole : marshal_legacy jwe
          ≡ join dot (segments (encode w) jwe.encrypted_key jwe.iv jwe.ciphertext jwe.tag) =
        unfold marshal_legacy in rw (← e) refl in
      let parts : split_n dot (marshal_legacy jwe) 5
          ≡ segments (encode w) jwe.encrypted_key jwe.iv jwe.ciphertext jwe.tag =
        rw whole (split-segments w jwe.encrypted_key jwe.iv jwe.ciphertext jwe.tag) in
      let within : not (ltb max_compact_size (length (marshal_legacy jwe))) ≡ true =
        ground (arith, short) in
      rw (within, parts) (legacy-segments jwe w bytes reads e passes rest)
