-- ===== src/Jose/Jwks.antt =====
-- jose/jwks.go: a set of JWKs.
use gose.Prelude.{not, ltb, length, List, [], ◌∷◌, ◌++◌}
use gose.Bytes.{Bytes}
use gose.Error.{Result, ok, guard, ◌>>=◌, ◌>>◌, jose_error, JoseError}
use gose.Jose.Types.{max_jwks_size}
use gose.Jose.Jwk.{Jwk}

-- the loop over the raw keys, with `UnmarshalJwk` as an argument
unmarshal_keys : (Bytes → Result Jwk) → List Bytes → List Jwk → Result (List Jwk)
unmarshal_keys unmarshal [] keys = ok keys
unmarshal_keys unmarshal (blob ∷ rest) keys = do
  jwk ← unmarshal blob
  unmarshal_keys unmarshal rest (keys ++ jwk ∷ [])

-- `Jwks.UnmarshalJSON` into a zero value; `members` is `json.Unmarshal` of the member `keys`
unfoldable pub unmarshal_jwks :
    (Bytes → Result (List Bytes)) → (Bytes → Result Jwk) → Bytes → Result (List Jwk)
unfolding unmarshal_keys
unmarshal_jwks members unmarshal src = do
  guard (not (ltb max_jwks_size (length src))) (jose_error JoseError.input_too_large)
  blobs ← members src
  unmarshal_keys unmarshal blobs []
