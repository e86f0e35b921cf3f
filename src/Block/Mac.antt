-- ===== src/Block/Mac.antt =====
-- hmac_sha_cryptor.go and jwe_hmac_verifier.go: a keyed hash, and the tag that it makes. The keyed
-- hash function itself is a parameter.
use gose.Prelude.{String, Bool, true, false, Option, none, some, List, [], ◌∷◌, ◌++◌, length, ℕ}
use gose.Bytes.{Bytes, bytes_eq}
use gose.Bytes.BigEndian.{to_bytes}
use gose.Error.{Result, ok, err, ◌>>=◌, in_context, panics}
use gose.Jose.Jwe.{JweRfc7516Compact, HeaderJson, aad}

-- `HmacShaCryptor`, less its mutex
pub record HmacShaCryptor : Type 0 where
  pub kid : String
  pub hash : Option (Bytes → Bytes)
  pub destroyed : Bool

-- `Reset`, `Write` and `Sum` of a keyed hash that may be nil
sum : Option (Bytes → Bytes) → Bytes → Result Bytes
sum none input = err (panics "nil pointer dereference")
sum (some mac) input = ok (mac input)

-- `Hash`
unfoldable pub hash_of : HmacShaCryptor → Bytes → Result Bytes
unfolding sum
hash_of h input = elim h.destroyed [
  | true ↦ err (panics "gose: Hash called on a destroyed HmacShaCryptor")
  | false ↦ sum h.hash input
]

-- `Destroy`
unfoldable pub destroy : HmacShaCryptor → HmacShaCryptor
destroy h = record h { destroyed = true; hash = none }

-- `uintToBytesBigEndian`
unfoldable pub uint_to_bytes_big_endian : ℕ → Bytes
uint_to_bytes_big_endian val = to_bytes 8 val

-- `concatByteArrays`
unfoldable pub concat_byte_arrays : List Bytes → Bytes
concat_byte_arrays [] = []
concat_byte_arrays (s ∷ slices) = s ++ concat_byte_arrays slices

-- `computeAL`
unfoldable pub compute_al : Bytes → Bytes
unfolding uint_to_bytes_big_endian
compute_al aad = uint_to_bytes_big_endian (length aad)

-- `ComputeHash`
unfoldable pub compute_hash : HmacShaCryptor → Bytes → Bytes → Bytes → Result Bytes
unfolding hash_of concat_byte_arrays compute_al
compute_hash key aad iv ciphertext =
    hash_of key (concat_byte_arrays (aad ∷ iv ∷ ciphertext ∷ compute_al aad ∷ []))

-- `VerifyCompact`
unfoldable pub verify_compact : HmacShaCryptor → HeaderJson → JweRfc7516Compact → Result Bool
unfolding hash_of concat_byte_arrays compute_al
verify_compact key json jwe = do
  received ← in_context "error marshalling the JWE Header" (aad json jwe)
  let input : Bytes =
      concat_byte_arrays
        (received ∷ jwe.initialization_vector ∷ jwe.ciphertext ∷ compute_al received ∷ [])
  output ← hash_of key input
  ok (bytes_eq output jwe.authentication_tag)
