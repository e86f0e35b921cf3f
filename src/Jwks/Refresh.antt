-- ===== src/Jwks/Refresh.antt =====
-- What a call of `Get` may change of the store.
use gose.Prelude.{String, ◌≡◌, ◌≢◌, ◌∙◌, ◌⊎◌, inl, inr, refl, true, false, List, arith, Bool-cases}
use gose.Bytes.{Bytes}
use gose.Error.{Result, Error}
use gose.Jose.Jwk.{Jwk}
use gose.Keys.Verification.{VerificationKey}
use gose.Jwks.{
  Time, JwksTrustStore, known_issuer, is_cooling_down, Lookup, answered, not_done, lookup,
  Surroundings, relock, check_cache, get_key,
}

-- what a store offers its callers: the keys and when they were fetched
abbrev pub cached : JwksTrustStore → List VerificationKey × Time
cached s = (s.keys, s.fetched_at)

cooling_answers :
    (now : Time) (kid : String) (s : JwksTrustStore)
    → is_cooling_down now s ≡ true
    → lookup now kid s ≢ not_done
unfolding lookup
cooling_answers now kid s h = ground arith

known_issuer-cooling :
    (now : Time) (issuer : String) (s : JwksTrustStore)
    → is_cooling_down now (known_issuer issuer s).1 ≡ is_cooling_down now s
unfolding known_issuer is_cooling_down
known_issuer-cooling now issuer s = ground arith

module _ (decode : Bytes → Result (List Jwk)) (w : Surroundings) where
  relock-cooling :
      (kid : String) (s : JwksTrustStore) (l : Lookup)
      → l ≢ not_done
      → (relock decode w kid s l).1 ≡ s
  unfolding relock
  relock-cooling kid s (answered a) h = refl
  relock-cooling kid s not_done h = absurd (h refl)

  cache-cooling :
      (kid : String) (s : JwksTrustStore) (l : Lookup)
      → is_cooling_down w.second_lookup s ≡ true
      → (check_cache decode w kid s l).1 ≡ s
  unfolding check_cache
  cache-cooling kid s (answered a) h = refl
  cache-cooling kid s not_done h =
      relock-cooling kid s (lookup w.second_lookup kid s) (cooling_answers w.second_lookup kid s h)

  cooling_or_known :
      (issuer : String) (s : JwksTrustStore)
      → (known_issuer issuer s).0 ≡ true
      → (is_cooling_down w.second_lookup s ≡ true) ⊎ ((known_issuer issuer s).0 ≡ false)
      → is_cooling_down w.second_lookup s ≡ true
  cooling_or_known issuer s k (inl c) = c
  cooling_or_known issuer s k (inr n) = cc (k, n)

  -- During the cooldown after a fetch attempt, as measured once the fetch lock is held, and for an
  -- issuer outside the list at any time, a call of `Get` does to the store what reading the list of
  -- issuers does to it, and nothing else: it does not contact the network.
  pub no_fetch_in_cooldown :
      (issuer kid : String) (s : JwksTrustStore)
      → (is_cooling_down w.second_lookup s ≡ true) ⊎ ((known_issuer issuer s).0 ≡ false)
      → (get_key decode w issuer kid s).1 ≡ (known_issuer issuer s).1
  unfolding get_key
  no_fetch_in_cooldown issuer kid s h =
      let s' = (known_issuer issuer s).1 in
      elim (Bool-cases ((known_issuer issuer s).0)) [
        | inl k ↦ rw k (
            cache-cooling kid s' (lookup w.first_lookup kid s')
              (known_issuer-cooling w.second_lookup issuer s ∙ cooling_or_known issuer s k h))
        | inr k ↦ rw k refl
      ]
