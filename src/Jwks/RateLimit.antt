-- ===== src/Jwks/RateLimit.antt =====
-- How often the key set is fetched, whatever calls run at once.
use gose.Prelude.{◌∙◌, ◌≤◌, ◌<◌, String, ◌≡◌, refl, false, List, [], ◌∷◌, arith, ◌≤ℤ◌}
use gose.Error.{Result}
use gose.Keys.Verification.{VerificationKey}
use gose.Jwks.{
  Time, Duration, sub_time, JwksTrustStore, known_issuer, is_cooling_down, not_done, lookup,
  begin_refresh, end_refresh,
}

-- Where the holder of `fetchMu` stands, if there is one: it has looked the key up in vain, or it
-- waits for the network.
pub data Phase : Type 0 where
  idle checked waiting : Phase

-- the store with its locks, the clock, and the times of the fetch attempts so far, the latest first
pub record Shared : Type 0 where
  pub store : JwksTrustStore
  pub phase : Phase
  pub clock : Time
  pub attempts : List Time

-- What calls that run at once do to the store, one critical section at a time. A lookup that is
-- answered changes nothing and is no step; `fetchMu` lets one caller at a time past `idle`.
pub data Step : Shared → Shared → Type 0 where
  tick : {s : Shared} (t : Time) → s.clock ≤ t → Step s (record s { clock = t })
  ask :
      {s : Shared} (issuer : String) → Step s (record s { store = (known_issuer issuer s.store).1 })
  check :
      {s : Shared} (kid : String)
      → s.phase ≡ idle
      → lookup s.clock kid s.store ≡ not_done
      → Step s (record s { phase = checked })
  attempt :
      {s : Shared}
      → s.phase ≡ checked
      → Step s (record s {
        store = begin_refresh s.clock s.store;
        phase = waiting;
        attempts = s.clock ∷ s.attempts;
      })
  arrive :
      {s : Shared} (keys : Result (List VerificationKey))
      → s.phase ≡ waiting
      → Step s (record s { store = (end_refresh s.clock keys s.store).1; phase = idle })

pub data Reach (s : Shared) : Shared → Type 0 where
  here : Reach s s
  next : {t u : Shared} → Reach s t → Step t u → Reach s u

-- two attempts in a row are at least `gap` apart
abbrev pub Spaced : Duration → List Time → Type 0
Spaced gap [] = Unit
Spaced gap (t ∷ []) = Unit
Spaced gap (t ∷ u ∷ rest) = (gap ≤ℤ sub_time t u) × Spaced gap (u ∷ rest)

sub_time-mono : (t t' u : Time) → t ≤ t' → sub_time t u ≤ℤ sub_time t' u
unfolding sub_time
sub_time-mono t t' u h = ground arith

not_done-cool :
    (now : Time) (kid : String) (s : JwksTrustStore)
    → lookup now kid s ≡ not_done
    → is_cooling_down now s ≡ false
unfolding lookup
not_done-cool now kid s h = ground arith

Latest : Time → List Time → Type 0
Latest last [] = last ≡ 0
Latest last (t ∷ rest) = (last ≡ t) × (0 < t)

Cool : Duration → Time → List Time → Type 0
Cool gap now [] = Unit
Cool gap now (t ∷ rest) = gap ≤ℤ sub_time now t

Cool-mono :
    (gap : Duration) (now later : Time) (ts : List Time)
    → now ≤ later
    → Cool gap now ts
    → Cool gap later ts
unfolding Cool
Cool-mono gap now later [] h c = tt
Cool-mono gap now later (t ∷ rest) h c = omega (arith, sub_time-mono now later t h)

cooled :
    (now : Time) (s : JwksTrustStore) (ts : List Time)
    → Latest s.last_attempt ts
    → is_cooling_down now s ≡ false
    → Cool s.min_refresh_interval now ts
unfolding Cool Latest is_cooling_down
cooled now s [] l h = tt
cooled now s (t ∷ rest) l h = let (e, _) = l in rw (← e) (ground (arith))

-- the clock has left the zero time, and the attempts so far keep their distance
pub record IsPaced (gap : Duration) (s : Shared) : Type 0 where
  pub running : 0 < s.clock
  pub same_gap : s.store.min_refresh_interval ≡ gap
  latest : Latest s.store.last_attempt s.attempts
  pub spaced : Spaced gap s.attempts
  cool : s.phase ≡ checked → Cool gap s.clock s.attempts

Spaced-cons :
    (gap : Duration) (now : Time) (ts : List Time)
    → Cool gap now ts
    → Spaced gap ts
    → Spaced gap (now ∷ ts)
unfolding Cool
Spaced-cons gap now [] c h = tt
Spaced-cons gap now (t ∷ rest) c h = (c, h)

known_issuer-keeps :
    (issuer : String) (s : JwksTrustStore)
    → ((known_issuer issuer s).1.min_refresh_interval ≡ s.min_refresh_interval)
      × ((known_issuer issuer s).1.last_attempt ≡ s.last_attempt)
unfolding known_issuer
known_issuer-keeps issuer s = ground arith

end_refresh-keeps :
    (now : Time) (keys : Result (List VerificationKey)) (s : JwksTrustStore)
    → ((end_refresh now keys s).1.min_refresh_interval ≡ s.min_refresh_interval)
      × ((end_refresh now keys s).1.last_attempt ≡ s.last_attempt)
unfolding end_refresh
end_refresh-keeps now keys s = ground arith

Step-IsPaced : (gap : Duration) {s t : Shared} → Step s t → IsPaced gap s → IsPaced gap t
Step-IsPaced gap (tick {s} t h) p = record {
  running = omega (arith, p.running);
  same_gap = p.same_gap;
  latest = p.latest;
  spaced = p.spaced;
  cool = λ e. Cool-mono gap s.clock t s.attempts h (p.cool e);
}
Step-IsPaced gap (ask {s} issuer) p =
    let (same, last) = known_issuer-keeps issuer s.store in
    record {
      running = p.running;
      same_gap = same ∙ p.same_gap;
      latest = rw last (p.latest);
      spaced = p.spaced;
      cool = p.cool;
    }
Step-IsPaced gap (check {s} kid idle_now missed) p = record {
  running = p.running;
  same_gap = p.same_gap;
  latest = p.latest;
  spaced = p.spaced;
  cool = λ _.
      rw (← (p.same_gap))
        (cooled s.clock s.store s.attempts p.latest (not_done-cool s.clock kid s.store missed));
}
Step-IsPaced gap (attempt {s} ready) p = record {
  running = p.running;
  same_gap = unfold begin_refresh in p.same_gap;
  latest = unfold begin_refresh Latest in (refl, p.running);
  spaced = Spaced-cons gap s.clock s.attempts (p.cool ready) p.spaced;
  cool = λ e. cc e;
}
Step-IsPaced gap (arrive {s} keys waits) p =
    let (same, last) = end_refresh-keeps s.clock keys s.store in
    record {
      running = p.running;
      same_gap = same ∙ p.same_gap;
      latest = rw last (p.latest);
      spaced = p.spaced;
      cool = λ e. cc e;
    }

-- a store that has made no attempt, with nobody in `refresh`
pub record IsStart (gap : Duration) (s : Shared) : Type 0 where
  pub running : 0 < s.clock
  pub same_gap : s.store.min_refresh_interval ≡ gap
  pub no_attempt : s.attempts ≡ []
  pub never : s.store.last_attempt ≡ 0
  pub nobody : s.phase ≡ idle

IsStart-IsPaced : (gap : Duration) (s : Shared) → IsStart gap s → IsPaced gap s
unfolding Latest
IsStart-IsPaced gap s i = record {
  running = i.running;
  same_gap = i.same_gap;
  latest = rw (i.no_attempt) (i.never);
  spaced = rw (i.no_attempt) tt;
  cool = λ e. cc (e, i.nobody);
}

Reach-IsPaced : (gap : Duration) {s t : Shared} → IsPaced gap s → Reach s t → IsPaced gap t
Reach-IsPaced gap p here = p
Reach-IsPaced gap p (next r st) = Step-IsPaced gap st (Reach-IsPaced gap p r)

-- From a new store, however the calls interleave and whatever key IDs they ask for, two fetch
-- attempts in a row are never closer than the minimum refresh interval.
pub attempts-Spaced :
    (gap : Duration) {s t : Shared} → IsStart gap s → Reach s t → Spaced gap t.attempts
attempts-Spaced gap {s} i r = (Reach-IsPaced gap (IsStart-IsPaced gap s i) r).spaced
