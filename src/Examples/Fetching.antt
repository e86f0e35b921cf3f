-- ===== src/Examples/Fetching.antt =====
-- Examples for the trust store that fetches its keys.
use gose.Prelude.{◌≡◌, ◌^◌, ◌*◌, ◌+◌, refl, inl, true, List, [], ◌∷◌, arith}
use gose.Bytes.{Bytes, codes}
use gose.Error.{Result, ok, err, external}
use gose.Jose.Jwk.{Jwk}
use gose.Keys.Verification.{VerificationKey, rsa_key}
use gose.Jwks
use gose.Jwks.{
  Time, JwksTrustStore, Surroundings, status, failed, new_jwks_key_store, known_issuer, lookup,
  not_done, is_fresh, is_cooling_down, sub_time, begin_refresh, end_refresh,
  default_jwks_min_refresh_interval,
}
use gose.Jwks.Refresh.{no_fetch_in_cooldown}
use gose.Jwks.RateLimit.{
  Shared, idle, waiting, tick, check, attempt, arrive, Reach, here, next, Spaced, IsStart,
  attempts-Spaced,
}
use gose.Examples.Inputs.{rsa_jwk, key_fields}

abbrev decode_one : Bytes → Result (List Jwk)
decode_one _ = ok (rsa_jwk ∷ [])

abbrev new_store : JwksTrustStore
new_store = new_jwks_key_store (codes "alice")

abbrev at_once : Surroundings
at_once = record {
  first_lookup = 5;
  second_lookup = 5;
  attempt = 5;
  arrival = 6;
  last_lookup = 7;
  response = status 200 (1 ∷ []);
}

abbrev loaded_key : VerificationKey
loaded_key = rsa_key (record {
  key = record { n = 2 ^ 2047 + 1; e = 65537 };
  jwk = rsa_jwk;
  ops = key_fields.key_ops;
  alg = key_fields.key_alg;
})

abbrev unreachable : Surroundings
unreachable = record at_once { response = failed (external "timeout") }

abbrev tried_store : JwksTrustStore
tried_store = record new_store { last_attempt = 4 }

cooling : is_cooling_down at_once.second_lookup tried_store ≡ true
unfolding is_cooling_down sub_time
cooling = refl

no_fetch_in_cooldown_example :
    (Jwks.get_key decode_one at_once "alice" "k1" tried_store).1
    ≡ (known_issuer "alice" tried_store).1
no_fetch_in_cooldown_example =
    no_fetch_in_cooldown decode_one at_once "alice" "k1" tried_store (inl cooling)

abbrev later : Time
later = 40 * 10 ^ 9

abbrev start : Shared
start = record { store = new_store; phase = idle; clock = 1; attempts = [] }

abbrev between : Shared
between = record start { store = record new_store { last_attempt = 1 }; attempts = 1 ∷ [] }

abbrev final : Shared
final = record {
  store = record new_store { last_attempt = later };
  phase = waiting;
  clock = later;
  attempts = later ∷ 1 ∷ [];
}

first_missed : lookup 1 "k1" new_store ≡ not_done
unfolding lookup is_fresh is_cooling_down
first_missed = refl

second_missed : lookup later "k1" between.store ≡ not_done
unfolding lookup is_fresh is_cooling_down sub_time
second_missed = refl

one_attempt : Reach start between
unfolding begin_refresh end_refresh
one_attempt =
    next (next (next here (check "k1" refl first_missed)) (attempt refl))
      (arrive (err (external "timeout")) refl)

two_attempts : Reach start final
unfolding begin_refresh
two_attempts =
    next (next (next one_attempt (tick later (omega arith))) (check "k1" refl second_missed))
      (attempt refl)

start-IsStart : IsStart default_jwks_min_refresh_interval start
start-IsStart = record {
  running = omega arith;
  same_gap = refl;
  no_attempt = refl;
  never = refl;
  nobody = refl;
}

attempts-Spaced_example : Spaced default_jwks_min_refresh_interval final.attempts
attempts-Spaced_example =
    attempts-Spaced default_jwks_min_refresh_interval start-IsStart two_attempts
