-- ===== src/TrustStore.antt =====
-- keystore.go: the trust store `TrustKeyStoreImpl`. Every method holds `mtx` from its first access to
-- the maps to its return, so concurrent callers amount to a sequence of `Operation`s.
pub mod View
pub mod Revocation
pub mod Retention
use gose.Prelude.{
  ℕ, String, Bool, true, false, not, Dict, get, put, delete, Option, none, some, List, [], ◌∷◌, ◌^◌,
  str_eq, ltb, if◌then◌else◌,
}
use gose.Bytes.{Bytes}
use gose.Error.{
  Error, Result, Checked, ok, err, guard, ◌>>=◌, ◌>>◌, gose_error, GoseError, invalid_key,
  unknown_key,
}
use gose.Jose.Jwk
use gose.Jose.Jwk.{Jwk}
use gose.Keys.Verification.{VerificationKey, new_verification_key}

-- `TrustKeyStoreImpl`; a set is a dictionary to the unit type
pub record TrustKeyStore : Type 0 where
  pub keys : Dict (Dict Jwk)
  pub revoked : Dict (Dict (Unit {0}))

abbrev pub empty : TrustKeyStore
empty = record { keys = []; revoked = [] }

-- `m[k]` of a map of maps: a missing inner map reads as an empty one
inner {ℓ} : {V : Type ℓ} → Option (Dict V) → Dict V
inner none = []
inner (some m) = m

has {ℓ} : {V : Type ℓ} → Option V → Bool
has none = false
has (some _) = true

-- `if _, exists := m[k]; !exists { m[k] = make(map[…]) }`
ensure {ℓ} : {V : Type ℓ} → String → Dict (Dict V) → Dict (Dict V)
unfolding get put has
ensure k m = if has (get k m) then m else put k [] m

unfoldable pub add : String → Jwk → TrustKeyStore → Checked × TrustKeyStore
unfolding inner ensure
add issuer jwk s =
    if str_eq (Jwk.kid jwk) ""
    then (err (gose_error invalid_key), s)
    else let keys = ensure issuer s.keys in
      let key_set = inner (get issuer keys) in
      if has (get (Jwk.kid jwk) key_set)
      then (ok tt, record s { keys = keys })
      else (ok tt, record s { keys = put issuer (put (Jwk.kid jwk) jwk key_set) keys })

unfoldable pub remove : String → String → TrustKeyStore → Bool × TrustKeyStore
unfolding inner ensure
remove issuer kid s =
    let revoked = ensure issuer s.revoked in
    if has (get issuer s.keys)
    then (
      true,
      record {
        keys = put issuer (delete kid (inner (get issuer s.keys))) s.keys;
        revoked = put issuer (put kid tt (inner (get issuer revoked))) revoked;
      },
    )
    else (false, s)

-- the stored JWK is a pointer, so what `NewVerificationKey` writes to it stays in the store
get_stored : String → String → Option Jwk → TrustKeyStore → Result VerificationKey × TrustKeyStore
unfolding inner
get_stored issuer kid none s = (err (gose_error unknown_key), s)
get_stored issuer kid (some jwk) s =
    let (key, jwk') = new_verification_key jwk in
    (key, record s { keys = put issuer (put kid jwk' (inner (get issuer s.keys))) s.keys })

unfoldable pub get_key : String → String → TrustKeyStore → Result VerificationKey × TrustKeyStore
unfolding get_stored has
get_key issuer kid s =
    if has (get kid (inner (get issuer s.revoked)))
    then (err (gose_error unknown_key), s)
    else get_stored issuer kid (get kid (inner (get issuer s.keys))) s

-- the loop of `NewTrustKeyStore`; on an error the store is dropped
add_all : Dict Jwk → TrustKeyStore → Result TrustKeyStore
add_all [] s = ok s
add_all ((issuer, jwk) ∷ rest) s = let (added, s') = add issuer jwk s in do added; add_all rest s'

unfoldable pub new_trust_key_store : Dict Jwk → Result TrustKeyStore
unfolding add_all
new_trust_key_store root = add_all root empty

abbrev pub max_key_file_size : ℕ
max_key_file_size = 2 ^ 20

-- the loop of `NewTrustKeyStoreFromFile`, with `UnmarshalJwk` as an argument
add_entries : (Bytes → Result Jwk) → Dict Bytes → TrustKeyStore → Result TrustKeyStore
add_entries unmarshal [] s = ok s
add_entries unmarshal ((issuer, entry) ∷ rest) s = do
  jwk ← unmarshal entry
  let (added, s') = add issuer jwk s
  added
  add_entries unmarshal rest s'

-- `NewTrustKeyStoreFromFile`, on the answers of `os.Stat` and `os.ReadFile`
unfoldable pub new_trust_key_store_from_file :
    (Bytes → Result (Dict Bytes))
    → (Bytes → Result Jwk)
    → Result ℕ
    → Result Bytes
    → Result TrustKeyStore
unfolding add_entries
new_trust_key_store_from_file entries unmarshal size content = do
  bytes ← size
  guard (not (ltb max_key_file_size bytes)) (gose_error GoseError.input_too_large)
  root ← content
  members ← entries root
  add_entries unmarshal members empty

pub data Operation : Type 0 where
  add_op : String → Jwk → Operation
  remove_op : String → String → Operation
  get_op : String → String → Operation

unfoldable pub step : Operation → TrustKeyStore → TrustKeyStore
unfolding add remove get_key
step (add_op issuer jwk) s = (add issuer jwk s).1
step (remove_op issuer kid) s = (remove issuer kid s).1
step (get_op issuer kid) s = (get_key issuer kid s).1

unfoldable pub run : List Operation → TrustKeyStore → TrustKeyStore
run [] s = s
run (o ∷ rest) s = run rest (step o s)
