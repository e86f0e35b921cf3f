-- ===== src/Jwks.antt =====
-- jwks_truststore.go: the trust store that fetches its keys. Its clock is read several times in one
-- call, and the network answers once, so both come in as arguments.
pub mod Freshness
pub mod RateLimit
pub mod Refresh
use gose.Prelude.{
  ℕ, ◌^◌, ◌-◌, ◌*◌, String, Bool, true, false, not, ◌&&◌, ◌||◌, Option, none, some, List, [], ◌∷◌,
  ◌++◌, str_eq, ◌==◌, if◌then◌else◌, ℤ, pos, negsuc, sub_ℕ, int_leb, int_ltb, take,
}
use gose.Bytes.{Bytes, bytes_eq, codes}
use gose.Bytes.Split.{split}
use gose.Error.{
  Error, Result, Checked, ok, err, guard, ◌>>=◌, ◌>>◌, gose_error, message, context, jwks_stale,
}
use gose.Jose.Jwk.{Jwk}
use gose.Keys.Verification
use gose.Keys.Verification.{VerificationKey, new_verification_key}

-- `time.Time`, in nanoseconds behind the zero time
abbrev pub Time : Type 0
Time = ℕ

-- `time.Duration`
abbrev pub Duration : Type 0
Duration = ℤ

abbrev pub min_duration : Duration
min_duration = negsuc (2 ^ 63 - 1)

abbrev pub max_duration : Duration
max_duration = pos (2 ^ 63 - 1)

-- `t.Sub(u)`, which stops at the least and the greatest duration
unfoldable pub sub_time : Time → Time → Duration
sub_time t u =
    let d = sub_ℕ t u in
    if int_ltb d min_duration
    then min_duration
    else if int_ltb max_duration d
    then max_duration
    else d

pub record JwksTrustStore : Type 0 where
  pub input_issuers : Bytes
  pub issuers : List Bytes
  pub keys : List VerificationKey
  pub fetched_at : Time
  pub last_attempt : Time
  pub refresh_interval : Duration
  pub min_refresh_interval : Duration

-- `DefaultJwksRefreshInterval`
abbrev pub default_jwks_refresh_interval : Duration
default_jwks_refresh_interval = pos (5 * 60 * 10 ^ 9)

-- `DefaultJwksMinRefreshInterval`
abbrev pub default_jwks_min_refresh_interval : Duration
default_jwks_min_refresh_interval = pos (30 * 10 ^ 9)

-- `NewJwksKeyStore` with no options
abbrev pub new_jwks_key_store : Bytes → JwksTrustStore
new_jwks_key_store issuer_list = record {
  input_issuers = issuer_list;
  issuers = [];
  keys = [];
  fetched_at = 0;
  last_attempt = 0;
  refresh_interval = default_jwks_refresh_interval;
  min_refresh_interval = default_jwks_min_refresh_interval;
}

-- the list of issuers is made on the first call
load_issuers : JwksTrustStore → JwksTrustStore
load_issuers s = elim (s.issuers) [
  | [] ↦ record s { issuers = split b',' s.input_issuers }
  | _ ∷ _ ↦ s
]

is_among : Bytes → List Bytes → Bool
is_among issuer [] = false
is_among issuer (i ∷ rest) = if bytes_eq i issuer then true else is_among issuer rest

unfoldable pub known_issuer : String → JwksTrustStore → Bool × JwksTrustStore
unfolding load_issuers is_among
known_issuer issuer s = let s' = load_issuers s in (is_among (codes issuer) s'.issuers, s')

find_key : String → List VerificationKey → Option VerificationKey
find_key kid [] = none
find_key kid (candidate ∷ rest) =
    if str_eq (Verification.kid candidate) kid then some candidate else find_key kid rest

is_zero : Duration → Bool
is_zero d = int_leb d (pos 0) && int_leb (pos 0) d

unfoldable pub is_fresh : Time → JwksTrustStore → Bool
unfolding is_zero
is_fresh now s =
    not (s.fetched_at == 0)
    && (is_zero s.refresh_interval || int_leb (sub_time now s.fetched_at) s.refresh_interval)

unfoldable pub is_cooling_down : Time → JwksTrustStore → Bool
is_cooling_down now s =
    not (s.last_attempt == 0) && int_ltb (sub_time now s.last_attempt) s.min_refresh_interval

-- what `lookup` returns: an answer (`done`), or that a fetch is needed
pub data Lookup : Type 0 where
  answered : Result (Option VerificationKey) → Lookup
  not_done : Lookup

decide : Option VerificationKey → Bool → Bool → Lookup
decide (some key) true cooling = answered (ok (some key))
decide (some key) false true = answered (err (gose_error jwks_stale))
decide none fresh true = answered (ok none)
decide (some key) false false = not_done
decide none fresh false = not_done

unfoldable pub lookup : Time → String → JwksTrustStore → Lookup
unfolding decide find_key
lookup now kid s = decide (find_key kid s.keys) (is_fresh now s) (is_cooling_down now s)

-- what `client.Do` and the response give
pub data Response : Type 0 where
  failed : Error → Response
  status : ℕ → Bytes → Response

-- the keys of a set, or the first error
verification_keys : List Jwk → List VerificationKey → Result (List VerificationKey)
verification_keys [] keys = ok keys
verification_keys (jwk ∷ rest) keys = elim ((new_verification_key jwk).0) [
  | err e ↦ err (context "failed to load verification key from JWK" e)
  | ok key ↦ verification_keys rest (keys ++ key ∷ [])
]

abbrev pub max_jwks_bytes : ℕ
max_jwks_bytes = 2 ^ 20

as_invalid : Result (List Jwk) → Result (List Jwk)
as_invalid (ok jwks) = ok jwks
as_invalid (err _) = err (message "error encountered retrieving JWKS: invalid encoding")

-- the keys that a response carries; `decode` is the JSON decoder on `jose.Jwks`
unfoldable pub response_keys :
    (Bytes → Result (List Jwk)) → Response → Result (List VerificationKey)
unfolding verification_keys as_invalid
response_keys decode (failed e) = err (context "error encountered retrieving JWKS" e)
response_keys decode (status code body) = do
  guard (code == 200) (message "error encountered retrieving JWKS")
  jwks ← as_invalid (decode (take max_jwks_bytes body))
  verification_keys jwks []

-- the first critical section of `refresh`
unfoldable pub begin_refresh : Time → JwksTrustStore → JwksTrustStore
begin_refresh now s = record s { last_attempt = now }

-- the rest of `refresh`: only a set that loads whole replaces the old one
unfoldable pub end_refresh :
    Time → Result (List VerificationKey) → JwksTrustStore → Checked × JwksTrustStore
end_refresh now (err e) s = (err e, s)
end_refresh now (ok keys) s = (ok tt, record s { keys = keys; fetched_at = now })

-- the clock at the five places where a call may read it, and the answer of the network
pub record Surroundings : Type 0 where
  pub first_lookup : Time
  pub second_lookup : Time
  pub attempt : Time
  pub arrival : Time
  pub last_lookup : Time
  pub response : Response

-- an answer, or nil where the last lookup has none
settled : Lookup → Result (Option VerificationKey)
settled (answered a) = a
settled not_done = ok none

-- the lookup after a fetch, unless the fetch failed
conclude :
    Time → String → Checked × JwksTrustStore → Result (Option VerificationKey) × JwksTrustStore
unfolding settled
conclude now kid (err e, s) = (err e, s)
conclude now kid (ok _, s) = (settled (lookup now kid s), s)

module _ (decode : Bytes → Result (List Jwk)) (w : Surroundings) where
  fetch_and_answer : String → JwksTrustStore → Result (Option VerificationKey) × JwksTrustStore
  unfolding conclude
  fetch_and_answer kid s =
      conclude w.last_lookup kid
        (end_refresh w.arrival (response_keys decode w.response) (begin_refresh w.attempt s))

  relock : String → JwksTrustStore → Lookup → Result (Option VerificationKey) × JwksTrustStore
  unfolding fetch_and_answer
  relock kid s (answered a) = (a, s)
  relock kid s not_done = fetch_and_answer kid s

  check_cache : String → JwksTrustStore → Lookup → Result (Option VerificationKey) × JwksTrustStore
  unfolding relock
  check_cache kid s (answered a) = (a, s)
  check_cache kid s not_done = relock kid s (lookup w.second_lookup kid s)

  -- `Get`, where no other call runs in between
  unfoldable pub get_key :
      String → String → JwksTrustStore → Result (Option VerificationKey) × JwksTrustStore
  unfolding check_cache
  get_key issuer kid s =
      let (known, s') = known_issuer issuer s in
      if known then check_cache kid s' (lookup w.first_lookup kid s') else (ok none, s')

-- `Add`: the store is read-only
abbrev pub add : String → Jwk → JwksTrustStore → Checked × JwksTrustStore
add issuer jwk s = (err (message "read-only trust store"), s)

-- `Remove`
abbrev pub remove : String → String → JwksTrustStore → Bool × JwksTrustStore
remove issuer kid s = (false, s)

-- `WithJwksRefreshInterval`
abbrev pub with_jwks_refresh_interval : Duration → JwksTrustStore → JwksTrustStore
with_jwks_refresh_interval d s = record s { refresh_interval = d }

-- `WithJwksMinRefreshInterval`
abbrev pub with_jwks_min_refresh_interval : Duration → JwksTrustStore → JwksTrustStore
with_jwks_min_refresh_interval d s = record s { min_refresh_interval = d }
