-- ===== src/Verifier/Audience.antt =====
-- The audience test: the nested loops over the expected audiences and those of the token.
use gose.Prelude.{
  String, ◌≡◌, refl, Bool, true, not, ◌||◌, List, [], ◌∷◌, arith, str_eq, eq_iff, Has, ◌⊎◌, inl,
  inr,
}
use gose.Verifier.{any_audience, shares_audience, is_empty}

-- one of the expected audiences is one of the token's
abbrev pub SharesAudience : List String → List String → Type 0
SharesAudience expected auds = (a : String) × Has a expected × Has a auds

any_audience_sound :
    (found : Bool) (c : String) (auds : List String)
    → any_audience found c auds ≡ true
    → (found ≡ true) ⊎ Has c auds
unfolding any_audience
any_audience_sound found c [] h = inl h
any_audience_sound found c (aud ∷ rest) h =
    ground (arith, eq_iff c aud, any_audience_sound (found || str_eq c aud) c rest)

pub shares_audience_sound :
    (found : Bool) (expected auds : List String)
    → shares_audience found expected auds ≡ true
    → (found ≡ true) ⊎ SharesAudience expected auds
unfolding shares_audience
shares_audience_sound found [] auds h = inl h
shares_audience_sound found (c ∷ rest) auds h =
    elim (shares_audience_sound (any_audience found c auds) rest auds h) [
      | inl e ↦ elim (any_audience_sound found c auds e) [
        | inl f ↦ inl f
        | inr m ↦ inr (c, inl refl, m)
      ]
      | inr (a, p, q) ↦ inr (a, inr p, q)
    ]

any_audience-true : (c : String) (auds : List String) → any_audience true c auds ≡ true
unfolding any_audience
any_audience-true c [] = refl
any_audience-true c (aud ∷ rest) = any_audience-true c rest

any_audience_complete :
    (found : Bool) (c : String) (auds : List String) → Has c auds → any_audience found c auds ≡ true
unfolding any_audience
any_audience_complete found c [] h = absurd h
any_audience_complete found c (aud ∷ rest) (inl e) =
    ground (arith, eq_iff c aud, any_audience-true c rest)
any_audience_complete found c (aud ∷ rest) (inr h) =
    any_audience_complete (found || str_eq c aud) c rest h

shares_audience-true : (expected auds : List String) → shares_audience true expected auds ≡ true
unfolding shares_audience
shares_audience-true [] auds = refl
shares_audience-true (c ∷ rest) auds =
    rw (any_audience-true c auds) (shares_audience-true rest auds)

pub shares_audience_complete :
    (found : Bool) (expected auds : List String)
    → SharesAudience expected auds
    → shares_audience found expected auds ≡ true
unfolding shares_audience
shares_audience_complete found [] auds (a, p, q) = absurd p
shares_audience_complete found (c ∷ rest) auds (a, inl e, q) =
    rw (any_audience_complete found c auds (rw (← e) q)) (shares_audience-true rest auds)
shares_audience_complete found (c ∷ rest) auds (a, inr p, q) =
    shares_audience_complete (any_audience found c auds) rest auds (a, p, q)

pub SharesAudience-nonempty :
    (expected auds : List String)
    → SharesAudience expected auds
    → not (is_empty auds || is_empty expected) ≡ true
unfolding is_empty
SharesAudience-nonempty [] auds (a, p, q) = absurd p
SharesAudience-nonempty (c ∷ rest) [] (a, p, q) = absurd q
SharesAudience-nonempty (c ∷ rest) (d ∷ auds) h = refl
