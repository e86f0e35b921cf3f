-- ===== src/Jose/Jws.antt =====
-- jose/jws.go: the compact serialisation of a signed object, and the `aud` claim.
pub mod Canonical
pub mod Written
pub mod Decoded
use gose.Prelude.{
  map, ℕ, String, Bool, true, false, not, ◌&&◌, ◌||◌, Option, none, some, List, [], ◌∷◌, ◌++◌, ltb,
  str_eq, if◌then◌else◌, length,
}
use gose.Bytes.{Bytes, bytes_eq}
use gose.Bytes.Split.{split_n, join}
use gose.Bytes.Base64.{encode, decode}
use gose.Error.{
  Result, Checked, ok, err, guard, require, ◌>>=◌, ◌>>◌, jose_error, external, JoseError,
  json_format, jwt_format,
}
use gose.Jose.Types.{JwsHeader, jwt_type, max_compact_size}

-- the shapes that `Audiences.UnmarshalJSON` tells apart in a decoded value; an item of an array that
-- is no string is `none`
pub data JsonShape : Type 0 where
  json_string : String → JsonShape
  json_array : List (Option String) → JsonShape
  json_other : JsonShape

unfoldable pub audience_items : List (Option String) → List String → Result (List String)
audience_items [] aud = ok aud
audience_items (none ∷ rest) aud = err (jose_error json_format)
audience_items (some s ∷ rest) aud = audience_items rest (aud ++ s ∷ [])

unfoldable pub audiences_of : JsonShape → Result (List String)
unfolding audience_items
audiences_of (json_string s) = ok (s ∷ [])
audiences_of (json_array items) = audience_items items []
audiences_of json_other = err (jose_error json_format)

-- `Audiences.UnmarshalJSON` into a zero value, with `json.Unmarshal` into an `interface{}`
unfoldable pub unmarshal_audiences : (Bytes → Result JsonShape) → Bytes → Result (List String)
unfolding audiences_of
unmarshal_audiences shape src = do value ← shape src; audiences_of value

-- `Audiences.MarshalJSON`: one audience is a string, several are an array, and a nil slice is null
unfoldable pub marshal_audiences : List String → JsonShape
marshal_audiences [] = json_other
marshal_audiences (s ∷ []) = json_string s
marshal_audiences (s ∷ t ∷ rest) = json_array (map some (s ∷ t ∷ rest))

abbrev pub dot : ℕ
dot = b'.'

-- `base64.RawURLEncoding.DecodeString`, with its error
unfoldable pub decode_segment : Bytes → Result Bytes
decode_segment s = require (decode s) (external "illegal base64 data")

-- `unmarshalURLBase64`, with the decoder of the instance
unfoldable pub unmarshal_url_base64 {ℓ} : {A : Type ℓ} → (Bytes → Result A) → Bytes → Result A
unfolding decode_segment
unmarshal_url_base64 decoder segment = do raw ← decode_segment segment; decoder raw

-- `strictCompactB64`
unfoldable pub strict_compact_b64 : Bytes → Result Bytes
unfolding decode_segment
strict_compact_b64 s = do
  b ← decode_segment s
  guard (bytes_eq (encode b) s) (jose_error jwt_format)
  ok b

-- any error of the strict decoder is reported as a malformed token
as_malformed : Result Bytes → Result Bytes
as_malformed (ok b) = ok b
as_malformed (err _) = err (jose_error jwt_format)

signature_segment : Bytes → Result Bytes
unfolding strict_compact_b64 as_malformed
signature_segment s = as_malformed (strict_compact_b64 s)

-- `MarshalJws`
unfoldable pub marshal_jws : Bytes → Bytes → Bytes
marshal_jws body signature = body ++ dot ∷ encode signature

-- what `Jws.Unmarshal` writes and returns
pub record Parsed (H P : Type 0) : Type 0 where
  pub header : H
  pub payload : P
  pub signature : Bytes
  pub body : Bytes

module _ {H P : Type 0} (header : Bytes → Result H) (payload : Bytes → Result P) where
  unmarshal_parts : List Bytes → Result (Parsed H P)
  unfolding signature_segment
  unmarshal_parts (a ∷ b ∷ c ∷ []) = do
    h ← unmarshal_url_base64 header a
    p ← unmarshal_url_base64 payload b
    s ← signature_segment c
    ok (record { header = h; payload = p; signature = s; body = join dot (a ∷ b ∷ []) })
  unmarshal_parts _ = err (jose_error jwt_format)

  -- `Jws.Unmarshal`
  unfoldable pub unmarshal : Bytes → Result (Parsed H P)
  unfolding unmarshal_parts
  unmarshal src = do
    guard (not (ltb max_compact_size (length src))) (jose_error JoseError.input_too_large)
    unmarshal_parts (split_n dot src 3)

-- the header checks of `Jws.MarshalBody`
unfoldable pub check_type : JwsHeader → Checked
check_type h = do
  guard (str_eq h.typ jwt_type) (jose_error jwt_format)
  guard (str_eq h.cty "" || str_eq h.cty jwt_type) (jose_error jwt_format)

-- `Jws.MarshalBody`, on the marshalled header and payload
unfoldable pub marshal_body : JwsHeader → Result Bytes → Result Bytes → Result Bytes
unfolding check_type
marshal_body h header payload = do
  check_type h
  head ← header
  claims ← payload
  ok (encode head ++ dot ∷ encode claims)
