-- ===== src/TrustStore/Retention.antt =====
-- keystore.go: how long a stored key stays.
use gose.Prelude.{
  String, ◌≡◌, ◌∙◌, refl, Bool, true, false, Option, none, some, List, [], ◌∷◌, arith, eq_iff,
  str_eq, if◌then◌else◌, ◌&&◌, All,
}
use gose.Jose.Jwk.{Jwk, kid as kid_of}
use gose.Keys.Verification.Material.{material, material-new_verification_key}
use gose.TrustStore.{TrustKeyStore, Operation, add_op, remove_op, get_op, step, run}
use gose.TrustStore.View.{
  stored, is_revoked, touched, kept_or, stored-add, stored-remove, stored-get_key,
}

-- the store holds key material `m` for a pair
abbrev pub Holds : Jwk → Option Jwk → Type 0
Holds m none = ⊥
Holds m (some jwk) = material jwk ≡ m

-- the operation does not remove the pair
abbrev pub Spares : String → String → Operation → Type 0
Spares issuer kid (remove_op i k) = ((i ≡ issuer) × (k ≡ kid)) → ⊥
Spares issuer kid _ = Unit

Holds-touched : (m : Jwk) (gone : Bool) (o : Option Jwk) → Holds m o → Holds m (touched gone o)
Holds-touched m true o h = h
Holds-touched m false none h = h
Holds-touched m false (some jwk) h = material-new_verification_key jwk ∙ h

Holds-if :
    (m : Jwk) (b : Bool) (x y : Option Jwk)
    → (b ≡ true → Holds m x)
    → (b ≡ false → Holds m y)
    → Holds m (if b then x else y)
Holds-if m true x y p q = p refl
Holds-if m false x y p q = q refl

Holds-kept_or : (m : Jwk) (o : Option Jwk) (jwk : Jwk) → Holds m o → Holds m (kept_or o jwk)
Holds-kept_or m none jwk h = absurd h
Holds-kept_or m (some old) jwk h = h

both_equal : (i j k l : String) → (str_eq i j && str_eq k l) ≡ true → (i ≡ j) × (k ≡ l)
both_equal i j k l h = ground (arith, eq_iff i j, eq_iff k l)

step-Holds :
    (o : Operation) (issuer kid : String) (m : Jwk) (s : TrustKeyStore)
    → Spares issuer kid o
    → Holds m (stored issuer kid s)
    → Holds m (stored issuer kid (step o s))
unfolding step
step-Holds (add_op i jwk) issuer kid m s spare h = rw (stored-add i jwk s issuer kid) (
    Holds-if m (str_eq (kid_of jwk) "") (stored issuer kid s)
      (if str_eq i issuer && str_eq (kid_of jwk) kid
        then kept_or (stored issuer kid s) jwk
        else stored issuer kid s)
      (λ _. h)
      (λ _.
        Holds-if m (str_eq i issuer && str_eq (kid_of jwk) kid) (kept_or (stored issuer kid s) jwk)
          (stored issuer kid s) (λ _. Holds-kept_or m (stored issuer kid s) jwk h) (λ _. h)))
step-Holds (remove_op i k) issuer kid m s spare h = rw (stored-remove i k s issuer kid) (
    Holds-if m (str_eq i issuer && str_eq k kid) none (stored issuer kid s)
      (λ e. absurd (spare (both_equal i issuer k kid e))) (λ _. h))
step-Holds (get_op i k) issuer kid m s spare h = rw (stored-get_key i k s issuer kid) (
    Holds-if m (str_eq i issuer && str_eq k kid) (touched (is_revoked i k s) (stored i k s))
      (stored issuer kid s)
      (λ e.
        let (p, q) = both_equal i issuer k kid e in
        Holds-touched m (is_revoked i k s) (stored i k s) (rw (p, q) h))
      (λ _. h))

-- A key that is stored stays, with its type, key material, key ID and certificates, through all
-- operations that do not remove it: a second `add` under its issuer and key ID replaces nothing, and
-- `get_key` rewrites no more than its operations and its algorithm.
pub run-Holds :
    (os : List Operation) (issuer kid : String) (m : Jwk) (s : TrustKeyStore)
    → All (Spares issuer kid) os
    → Holds m (stored issuer kid s)
    → Holds m (stored issuer kid (run os s))
unfolding run
run-Holds [] issuer kid m s spare h = h
run-Holds (o ∷ os) issuer kid m s spare h =
    run-Holds os issuer kid m (step o s) spare.1 (step-Holds o issuer kid m s spare.0 h)
