-- ===== src/Jose/Jwe.antt =====
-- jose/jwe.go: JSON Web Encryption in the compact serialisation. `Jwe` and `JweRfc7516Compact` differ
-- in the checks of the header and in what the caller marshals.
pub mod RoundTrip
use gose.Prelude.{
  ℕ, String, Bool, true, false, not, ◌||◌, Option, none, some, List, [], ◌∷◌, ◌++◌, ltb, str_eq,
  if◌then◌else◌, length, Dict, get,
}
use gose.Bytes.{Bytes}
use gose.Bytes.Split.{split_n, join}
use gose.Bytes.Base64.{encode}
use gose.Error.{
  Result, Checked, ok, err, guard, ◌>>=◌, ◌>>◌, jose_error, context, joined, message, JoseError,
  jwe_format, crit_header_not_supported,
}
use gose.Jose.Types.{
  Alg, Enc, Zip, JwsHeader, max_compact_size, alg_dir, alg_rsa_oaep, alg_rsa_oaep_sha2, alg_a128gcm,
  alg_a192gcm, alg_a256gcm, alg_a256cbc, enc_a128gcm, enc_a192gcm, enc_a256gcm, enc_a256cbc,
}
use gose.Jose.Jws.{dot, decode_segment}

abbrev pub supported_jwe_algs : Dict Bool
supported_jwe_algs =
    (alg_dir, true)
    ∷ (alg_rsa_oaep, true)
    ∷ (alg_rsa_oaep_sha2, true)
    ∷ (alg_a128gcm, true)
    ∷ (alg_a192gcm, true)
    ∷ (alg_a256gcm, true)
    ∷ (alg_a256cbc, true)
    ∷ []

abbrev pub supported_jwe_encs : Dict Bool
supported_jwe_encs =
    (enc_a128gcm, true) ∷ (enc_a192gcm, true) ∷ (enc_a256gcm, true) ∷ (enc_a256cbc, true) ∷ []

is_present : Option Bool → Bool
is_present none = false
is_present (some _) = true

-- `_, ok := m[key]`
unfoldable pub is_supported : Dict Bool → String → Bool
unfolding is_present
is_supported m key = is_present (get key m)

-- `JweProtectedHeader`, with the members of `JwsHeader` and `JweCustomHeaderFields` embedded
pub record JweProtectedHeader : Type 0 where
  pub jws : JwsHeader
  pub other_aad : Option Bytes
  pub enc : Enc
  pub zip : Zip

-- the deprecated `JweHeader` has the same members
abbrev pub JweHeader : Type 0
JweHeader = JweProtectedHeader

-- `Jwe`, less the plaintext, which no serialisation carries
pub record Jwe : Type 0 where
  pub header : JweHeader
  pub marshalled_header : Bytes
  pub encrypted_key : Bytes
  pub iv : Bytes
  pub ciphertext : Bytes
  pub tag : Bytes

pub record JweRfc7516Compact : Type 0 where
  pub protected_header : JweProtectedHeader
  pub raw_protected_header : Bytes
  pub encrypted_key : Bytes
  pub initialization_vector : Bytes
  pub ciphertext : Bytes
  pub authentication_tag : Bytes

-- `encoding/json` on a header
pub record HeaderJson : Type 0 where
  pub read : Bytes → Result JweProtectedHeader
  pub write : JweProtectedHeader → Result Bytes

-- an empty segment is left as it is
unfoldable pub key_segment : Bytes → Result Bytes
key_segment [] = ok []
key_segment (c ∷ s) = decode_segment (c ∷ s)

-- the segments behind the header, decoded
pub record Sealed : Type 0 where
  pub encrypted_key : Bytes
  pub initialization_vector : Bytes
  pub ciphertext : Bytes
  pub authentication_tag : Bytes

unfoldable pub decode_sealed : Bytes → Bytes → Bytes → Bytes → Result Sealed
unfolding key_segment
decode_sealed k v c t = do
  key ← key_segment k
  vector ← decode_segment v
  body ← decode_segment c
  tag ← decode_segment t
  ok (record {
    encrypted_key = key;
    initialization_vector = vector;
    ciphertext = body;
    authentication_tag = tag;
  })

no_crit : List String → Bool
no_crit [] = true
no_crit (_ ∷ _) = false

unfoldable pub check_crit : JweProtectedHeader → Checked
unfolding no_crit
check_crit h = guard (no_crit h.jws.crit) (jose_error crit_header_not_supported)

-- the header checks of `JweRfc7516Compact.Unmarshal`
unfoldable pub check_header : JweProtectedHeader → Checked
unfolding check_crit is_supported
check_header h = do
  check_crit h
  guard (is_supported supported_jwe_algs h.jws.alg)
      (joined (jose_error JoseError.invalid_algorithm) (message "unsupported JWE alg"))
  guard (is_supported supported_jwe_encs h.enc)
      (joined (jose_error JoseError.invalid_encryption) (message "unsupported JWE enc"))

module _ (json : HeaderJson) where
  -- `MarshalHeader`, `MarshalProtectedHeader`
  unfoldable pub marshal_protected_header : JweProtectedHeader → Result Bytes
  marshal_protected_header h = do header_bytes ← json.write h; ok (encode header_bytes)

  unfoldable pub read_header : (JweProtectedHeader → Checked) → Bytes → Result JweProtectedHeader
  read_header check segment = do raw ← decode_segment segment; h ← json.read raw; check h; ok h

  legacy_parts : List Bytes → Result Jwe
  unfolding read_header check_crit decode_sealed
  legacy_parts (h ∷ k ∷ v ∷ c ∷ t ∷ []) = do
    header ← read_header check_crit h
    s ← decode_sealed k v c t
    ok (record {
      header = header;
      marshalled_header = h;
      encrypted_key = s.encrypted_key;
      iv = s.initialization_vector;
      ciphertext = s.ciphertext;
      tag = s.authentication_tag;
    })
  legacy_parts _ = err (jose_error jwe_format)

  -- `Jwe.Unmarshal`
  unfoldable pub unmarshal_legacy : Bytes → Result Jwe
  unfolding legacy_parts
  unmarshal_legacy src = do
    guard (not (ltb max_compact_size (length src))) (jose_error JoseError.input_too_large)
    legacy_parts (split_n dot src 5)

  unfoldable pub compact_parts : List Bytes → Result JweRfc7516Compact
  unfolding read_header check_header decode_sealed
  compact_parts (h ∷ k ∷ v ∷ c ∷ t ∷ []) = do
    header ← read_header check_header h
    s ← decode_sealed k v c t
    ok (record {
      protected_header = header;
      raw_protected_header = h;
      encrypted_key = s.encrypted_key;
      initialization_vector = s.initialization_vector;
      ciphertext = s.ciphertext;
      authentication_tag = s.authentication_tag;
    })
  compact_parts _ = err (jose_error jwe_format)

  -- `JweRfc7516Compact.Unmarshal`
  unfoldable pub unmarshal_compact : Bytes → Result JweRfc7516Compact
  unfolding compact_parts
  unmarshal_compact src = do
    guard (not (ltb max_compact_size (length src))) (jose_error JoseError.input_too_large)
    compact_parts (split_n dot src 5)

  -- `JweRfc7516Compact.AAD`
  aad_of : Bytes → JweProtectedHeader → Result Bytes
  aad_of [] h = marshal_protected_header h
  aad_of (c ∷ raw) h = ok (c ∷ raw)

  unfoldable pub aad : JweRfc7516Compact → Result Bytes
  unfolding aad_of
  aad jwe = aad_of jwe.raw_protected_header jwe.protected_header

-- the five segments
unfoldable pub segments : Bytes → Bytes → Bytes → Bytes → Bytes → List Bytes
segments h k v c t = h ∷ encode k ∷ encode v ∷ encode c ∷ encode t ∷ []

-- `Jwe.Marshal`
unfoldable pub marshal_legacy : Jwe → Bytes
unfolding segments
marshal_legacy jwe =
    join dot (segments jwe.marshalled_header jwe.encrypted_key jwe.iv jwe.ciphertext jwe.tag)

as_header_error : Result Bytes → Result Bytes
as_header_error (ok b) = ok b
as_header_error (err e) = err (context "error marshalling the JWE header" e)

-- `JweRfc7516Compact.Marshal`
unfoldable pub marshal_compact : HeaderJson → JweRfc7516Compact → Result Bytes
unfolding as_header_error segments
marshal_compact json jwe = do
  header ← as_header_error (marshal_protected_header json jwe.protected_header)
  ok (
      join dot (
        segments header jwe.encrypted_key jwe.initialization_vector jwe.ciphertext
          jwe.authentication_tag))
