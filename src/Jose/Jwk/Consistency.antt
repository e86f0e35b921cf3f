-- ===== src/Jose/Jwk/Consistency.antt =====
-- What the checks of a JWK establish.
use gose.Prelude.{
  ℕ, ◌≤◌, sym, ◌≡◌, ◌↔◌, inl, inr, refl, Bool, true, false, Option, none, some, List, [], ◌∷◌,
  arith, ltb, str_eq, eq_iff, Has, length, Bool-cases, if◌then◌else◌,
}
use gose.Bytes.{Bytes, bytes_eq_iff}
use gose.Error.{ok, err, Checked, jose_error, too_many_key_ops, duplicate_key_ops}
use gose.Crypto.{Crypto, Certificate, sha1}
use gose.Jose.Types.{KeyOps}
use gose.Jose.Jwk.{
  JwkFields, max_key_ops, seen_before, has_duplicate, check_fingerprint, check_consistency,
}

-- no entry occurs twice, and none is in `seen`
abbrev pub DistinctFrom : List KeyOps → List KeyOps → Type 0
DistinctFrom seen [] = Unit
DistinctFrom seen (op ∷ rest) = (¬ Has op seen) × DistinctFrom (op ∷ seen) rest

abbrev pub Distinct : List KeyOps → Type 0
Distinct = DistinctFrom []

-- the thumbprint, if there is one, is the digest of the first certificate
abbrev pub FingerprintAgrees : Crypto → List (Option Certificate) → Option Bytes → Type 0
FingerprintAgrees crypto [] x5t = Unit
FingerprintAgrees crypto (c ∷ chain) none = Unit
FingerprintAgrees crypto (none ∷ chain) (some digest) = ⊥
FingerprintAgrees crypto (some c ∷ chain) (some digest) = crypto.digest sha1 c.raw ≡ digest

seen_before_iff : (op : KeyOps) (seen : List KeyOps) → (seen_before op seen ≡ true) ↔ Has op seen
unfolding seen_before
seen_before_iff op [] = ((λ h. cc), (λ h. absurd h))
seen_before_iff op (s ∷ seen) =
    let (sound, complete) = seen_before_iff op seen in
    let (same, eq) = eq_iff s op in
    (
      (λ h. elim (Bool-cases (str_eq s op)) [
        | inl e ↦ inl (sym (same e))
        | inr e ↦ inr (sound (rw e at h))
      ]),
      (λ h. elim h [ inl e ↦ rw (eq (sym e)) | inr m ↦ ground (arith, complete m) ]),
    )

has_duplicate_iff :
    (seen ops : List KeyOps) → (has_duplicate seen ops ≡ false) ↔ DistinctFrom seen ops
unfolding has_duplicate
has_duplicate_iff seen [] = ((λ h. tt), (λ h. refl))
has_duplicate_iff seen (op ∷ rest) =
    let (sound, complete) = has_duplicate_iff (op ∷ seen) rest in
    let (found, missed) = seen_before_iff op seen in
    elim (Bool-cases (seen_before op seen)) [
      | inl e ↦ ((λ h. cc (h, e)), (λ h. absurd (h.0 (found e))))
      | inr e ↦ ((λ h. ((λ m. cc (missed m, e)), sound (rw e at h))), (λ h. rw e (complete h.1)))
    ]

check_fingerprint_iff :
    (crypto : Crypto) (chain : List (Option Certificate)) (x5t : Option Bytes)
    → (check_fingerprint crypto chain x5t ≡ ok tt) ↔ FingerprintAgrees crypto chain x5t
unfolding check_fingerprint
check_fingerprint_iff crypto [] x5t = ((λ h. tt), (λ h. refl))
check_fingerprint_iff crypto (c ∷ chain) none = ((λ h. tt), (λ h. refl))
check_fingerprint_iff crypto (none ∷ chain) (some digest) = ((λ h. cc), (λ h. absurd h))
check_fingerprint_iff crypto (some c ∷ chain) (some digest) =
    let (a, b) = bytes_eq_iff (crypto.digest sha1 c.raw) digest in
    ((λ h. a (ground (arith, h))), (λ h. rw (b h)))

passed :
    (n : ℕ) (duplicate : Bool) (print : Checked)
    → (if ltb max_key_ops n
        then err (jose_error too_many_key_ops)
        else if duplicate
        then err (jose_error duplicate_key_ops)
        else print)
      ≡ ok tt
    → (n ≤ max_key_ops) × (duplicate ≡ false) × (print ≡ ok tt)
passed n duplicate print h = ground (arith)

all_pass :
    (n : ℕ) (duplicate : Bool) (print : Checked)
    → n ≤ max_key_ops
    → duplicate ≡ false
    → print ≡ ok tt
    → (if ltb max_key_ops n
        then err (jose_error too_many_key_ops)
        else if duplicate
        then err (jose_error duplicate_key_ops)
        else print)
      ≡ ok tt
all_pass n duplicate print few d p = ground (arith)

-- A JWK passes exactly when it names at most 64 operations, none of them twice, and its thumbprint
-- agrees with its first certificate.
pub check_consistency_iff :
    (crypto : Crypto) (j : JwkFields)
    → (check_consistency crypto j ≡ ok tt) ↔ (
        (length j.key_ops ≤ max_key_ops)
        × Distinct j.key_ops
        × FingerprintAgrees crypto j.key_x5c j.key_x5t)
unfolding check_consistency
check_consistency_iff crypto j =
    let (sound, complete) = has_duplicate_iff [] j.key_ops in
    let (agree, pass) = check_fingerprint_iff crypto j.key_x5c j.key_x5t in
    (
      (λ h.
          let (few, distinct, print) = passed (length j.key_ops) (has_duplicate [] j.key_ops) _ h in
          (few, sound distinct, agree print)),
      (λ h.
          all_pass (length j.key_ops) (has_duplicate [] j.key_ops) _ h.0 (complete h.1) (pass h.2)),
    )
