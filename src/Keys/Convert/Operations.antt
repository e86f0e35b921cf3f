-- ===== src/Keys/Convert/Operations.antt =====
-- helpers.go: the operations that `PublicFromPrivate` gives the public key.
use gose.Prelude.{
  ◌≡◌, ◌≢◌, ◌↔◌, ◌⊎◌, inl, inr, refl, ap, List, [], ◌∷◌, map, arith, eq_iff, Has, get,
}
use gose.Error.{ok}
use gose.Crypto.{Crypto}
use gose.Jose.Types.{KeyOps, key_ops_sign, key_ops_verify, key_ops_encrypt, key_ops_decrypt}
use gose.Jose.Jwk.{Jwk, ops, public_rsa, private_rsa, public_ec, private_ec, oct_secret}
use gose.Keys.Convert.{inverse_op, publish, public_from_private}
use gose.Keys.Convert.Halves.{public_from_private_steps}

-- the operations that have an inverse
abbrev pub IsInvertible : KeyOps → Type 0
IsInvertible op = Has op (key_ops_encrypt ∷ key_ops_decrypt ∷ key_ops_sign ∷ key_ops_verify ∷ [])

inverse_cases : (op : KeyOps) → IsInvertible op ⊎ (inverse_op op ≡ "")
unfolding inverse_op get
inverse_cases op = ground (
  arith,
  eq_iff key_ops_encrypt op,
  eq_iff key_ops_decrypt op,
  eq_iff key_ops_sign op,
  eq_iff key_ops_verify op,
)

named : (op : KeyOps) → IsInvertible op → op ≢ ""
named op (inl e) h = cc (e, h)
named op (inr (inl e)) h = cc (e, h)
named op (inr (inr (inl e))) h = cc (e, h)
named op (inr (inr (inr (inl e)))) h = cc (e, h)
named op (inr (inr (inr (inr e)))) h = absurd e

inverse_of_nothing : inverse_op "" ≡ ""
unfolding inverse_op get
inverse_of_nothing = refl

inverse_back : (op : KeyOps) → IsInvertible op → inverse_op (inverse_op op) ≡ op
unfolding inverse_op get
inverse_back op (inl e) = rw e refl
inverse_back op (inr (inl e)) = rw e refl
inverse_back op (inr (inr (inl e))) = rw e refl
inverse_back op (inr (inr (inr (inl e)))) = rw e refl
inverse_back op (inr (inr (inr (inr e)))) = absurd e

-- an invertible operation is the inverse of one operation only
inverse_injective :
    (op other : KeyOps) → IsInvertible op → inverse_op op ≡ inverse_op other → op ≡ other
inverse_injective op other h e = elim (inverse_cases other) [
  | inl known ↦ cc (inverse_back op h, inverse_back other known, e)
  | inr none_given ↦ absurd (named op h (cc (inverse_back op h, e, none_given, inverse_of_nothing)))
]

Has-map :
    (op : KeyOps) (have : List KeyOps)
    → IsInvertible op
    → Has (inverse_op op) (map inverse_op have) ↔ Has op have
Has-map op [] h = ((λ m. m), (λ m. m))
Has-map op (o ∷ have) h =
    let (sound, complete) = Has-map op have h in
    (
      (λ m. elim m [ inl e ↦ inl (inverse_injective op o h e) | inr r ↦ inr (sound r) ]),
      (λ m. elim m [ inl e ↦ inl (cc e) | inr r ↦ inr (complete r) ]),
    )

pub verify_published :
    (have : List KeyOps) → Has key_ops_sign have → Has key_ops_verify (map inverse_op have)
verify_published have h =
    let inverse : inverse_op key_ops_sign ≡ key_ops_verify = unfold inverse_op get in refl in
    rw⁻¹ inverse ((Has-map key_ops_sign have (inr (inr (inl refl)))).1 h)

ops-publish : (private public : Jwk) → ops (publish private public) ≡ map inverse_op (ops private)
unfolding publish
ops-publish private (public_rsa i k) = refl
ops-publish private (private_rsa i k s) = refl
ops-publish private (public_ec i k) = refl
ops-publish private (private_ec i k d) = refl
ops-publish private (oct_secret i k) = refl

-- what a holder of the public half does when the holder of the private half does the first
abbrev pub Opposite : KeyOps → KeyOps → Type 0
Opposite op other =
    Has {A = KeyOps × KeyOps} (op, other)
      ((key_ops_sign, key_ops_verify)
        ∷ (key_ops_verify, key_ops_sign)
        ∷ (key_ops_decrypt, key_ops_encrypt)
        ∷ (key_ops_encrypt, key_ops_decrypt)
        ∷ [])

Opposite-known : (op other : KeyOps) → Opposite op other → IsInvertible op × (inverse_op op ≡ other)
unfolding inverse_op get
Opposite-known op other (inl e) =
    let (a, b) : (op ≡ key_ops_sign) × (other ≡ key_ops_verify) =
      (ap (λ x. x.0) e, ap (λ x. x.1) e) in
    (inr (inr (inl a)), rw (a, b) refl)
Opposite-known op other (inr (inl e)) =
    let (a, b) : (op ≡ key_ops_verify) × (other ≡ key_ops_sign) =
      (ap (λ x. x.0) e, ap (λ x. x.1) e) in
    (inr (inr (inr (inl a))), rw (a, b) refl)
Opposite-known op other (inr (inr (inl e))) =
    let (a, b) : (op ≡ key_ops_decrypt) × (other ≡ key_ops_encrypt) =
      (ap (λ x. x.0) e, ap (λ x. x.1) e) in
    (inr (inl a), rw (a, b) refl)
Opposite-known op other (inr (inr (inr (inl e)))) =
    let (a, b) : (op ≡ key_ops_encrypt) × (other ≡ key_ops_decrypt) =
      (ap (λ x. x.0) e, ap (λ x. x.1) e) in
    (inl a, rw (a, b) refl)
Opposite-known op other (inr (inr (inr (inr e)))) = absurd e

-- The public key that `PublicFromPrivate` makes names "verify" exactly when the private key names
-- "sign", "encrypt" exactly when it names "decrypt", and the other way round.
pub Has-public_from_private :
    (crypto : Crypto) (jwk public : Jwk) (op other : KeyOps)
    → public_from_private crypto jwk ≡ ok public
    → Opposite op other
    → Has other (ops public) ↔ Has op (ops jwk)
Has-public_from_private crypto jwk public op other h opposite =
    let (known, is) = Opposite-known op other opposite in
    let (part, _, e) = public_from_private_steps crypto jwk public h in
    rw (← is) (rw (e, ops-publish jwk part) (Has-map op (ops jwk) known))
