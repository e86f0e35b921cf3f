-- ===== src/Jwks/Freshness.antt =====
-- jwks_truststore.go: which keys `Get` hands out, and when.
use gose.Prelude.{String, ◌≡◌, ◌≢◌, ◌⊎◌, Has, pos, ◌≤ℤ◌}
use gose.Bytes.{Bytes}
use gose.Jose.Jwk.{Jwk}
use gose.Keys.Verification
use gose.Keys.Verification.{VerificationKey}
use gose.Jwks.{Time, sub_time, JwksTrustStore, Surroundings}

-- the set was fetched, and it is not older than the refresh interval, where there is one
pub record IsFresh (now : Time) (s : JwksTrustStore) : Type 0 where
  pub was_fetched : s.fetched_at ≢ 0
  pub young : (s.refresh_interval ≡ pos 0) ⊎ (sub_time now s.fetched_at ≤ℤ s.refresh_interval)

-- the key is one of the set, under the key ID that was asked for, and the set is fresh
pub record IsCurrentAt (now : Time) (kid : String) (key : VerificationKey) (s : JwksTrustStore)
    : Type 0 where
  pub in_set : Has key s.keys
  pub named : Verification.kid key ≡ kid
  pub fresh : IsFresh now s

-- The key is of the set that was there before, at the time of one of the lookups before a fetch, or of
-- the set that a fetch of this call has brought, at the time of the lookup after it.
abbrev pub IsCurrent :
    Surroundings → String → VerificationKey → JwksTrustStore → JwksTrustStore → Type 0
IsCurrent w kid key s s' =
    ((s'.keys ≡ s.keys)
      × (s'.fetched_at ≡ s.fetched_at)
      × (IsCurrentAt w.first_lookup kid key s' ⊎ IsCurrentAt w.second_lookup kid key s'))
    ⊎ ((s'.fetched_at ≡ w.arrival) × IsCurrentAt w.last_lookup kid key s')
