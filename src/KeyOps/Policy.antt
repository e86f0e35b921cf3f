-- ===== src/KeyOps/Policy.antt =====
-- What the policy functions decide.
use gose.Prelude.{
  ◌≡◌, refl, ◌≢◌, ◌↔◌, ◌⊎◌, inl, inr, Bool, true, false, ◌&&◌, ◌||◌, List, [], ◌∷◌, ◌++◌, arith,
  str_eq, eq_iff, Has, All, Bool-cases,
}
use gose.Jose.Types.{KeyOps}
use gose.KeyOps.{op_exists, all_exist, is_subset, matches, intersection, permits}

op_exists_sound :
    (found : Bool) (req : KeyOps) (set : List KeyOps)
    → op_exists found req set ≡ true
    → (found ≡ true) ⊎ Has req set
unfolding op_exists
op_exists_sound found req [] h = inl h
op_exists_sound found req (op ∷ set) h =
    ground (arith, eq_iff req op, op_exists_sound (found || str_eq req op) req set h)

op_exists_found : (req : KeyOps) (set : List KeyOps) → op_exists false req set ≡ true → Has req set
op_exists_found req set h = elim (op_exists_sound false req set h) [ inl e ↦ cc | inr m ↦ m ]

op_exists-true : (req : KeyOps) (set : List KeyOps) → op_exists true req set ≡ true
unfolding op_exists
op_exists-true req [] = cc
op_exists-true req (op ∷ set) = op_exists-true req set

op_exists_complete :
    (found : Bool) (req : KeyOps) (set : List KeyOps) → Has req set → op_exists found req set ≡ true
unfolding op_exists
op_exists_complete found req [] h = absurd h
op_exists_complete found req (op ∷ set) (inl e) =
    ground (arith, eq_iff req op, op_exists-true req set)
op_exists_complete found req (op ∷ set) (inr h) =
    op_exists_complete (found || str_eq req op) req set h

all_exist_sound :
    (result : Bool) (set subset : List KeyOps)
    → all_exist result set subset ≡ true
    → (result ≡ true) × All (λ req. Has req set) subset
unfolding all_exist
all_exist_sound result set [] h = (h, tt)
all_exist_sound result set (req ∷ subset) h =
    let (both, rest) = all_exist_sound (result && op_exists false req set) set subset h in
    (ground (arith, both), (op_exists_found req set (ground (arith, both)), rest))

all_exist_complete :
    (set subset : List KeyOps) → All (λ req. Has req set) subset → all_exist true set subset ≡ true
unfolding all_exist
all_exist_complete set [] h = cc
all_exist_complete set (req ∷ subset) (h, hs) =
    ground (arith, op_exists_complete false req set h, all_exist_complete set subset hs)

-- `is_subset` holds exactly when the second list is not empty and each of its entries is in the
-- first one. An empty requirement is refused.
pub is_subset_iff :
    (set subset : List KeyOps)
    → (is_subset set subset ≡ true) ↔ ((subset ≢ []) × All (λ req. Has req set) subset)
unfolding is_subset
is_subset_iff set [] = ((λ h. cc), (λ h. absurd (h.0 refl)))
is_subset_iff set (req ∷ subset) = (
  (λ h. (cc, (all_exist_sound true set (req ∷ subset) h).1)),
  (λ h. all_exist_complete set (req ∷ subset) h.1),
)

Has-append_left : (a : KeyOps) (xs ys : List KeyOps) → Has a xs → Has a (xs ++ ys)
Has-append_left a [] ys h = absurd h
Has-append_left a (x ∷ xs) ys (inl e) = inl e
Has-append_left a (x ∷ xs) ys (inr h) = inr (Has-append_left a xs ys h)

Has-append_right : (a : KeyOps) (xs ys : List KeyOps) → Has a ys → Has a (xs ++ ys)
Has-append_right a [] ys h = h
Has-append_right a (x ∷ xs) ys h = inr (Has-append_right a xs ys h)

Has-append_split : (a : KeyOps) (xs ys : List KeyOps) → Has a (xs ++ ys) → Has a xs ⊎ Has a ys
Has-append_split a [] ys h = inr h
Has-append_split a (x ∷ xs) ys (inl e) = inl (inl e)
Has-append_split a (x ∷ xs) ys (inr h) = elim (Has-append_split a xs ys h) [
  | inl m ↦ inl (inr m)
  | inr m ↦ inr m
]

matches_sound :
    (a op : KeyOps) (second : List KeyOps) → Has op (matches a second) → (op ≡ a) × Has a second
unfolding matches
matches_sound a op [] h = absurd h
matches_sound a op (b ∷ second) h = elim (Bool-cases (str_eq a b)) [
  | inl e ↦
      let m : (op ≡ a) ⊎ Has op (matches a second) = rw e at h in
      elim m [
        | inl p ↦ (p, inl ((eq_iff a b).0 e))
        | inr p ↦ let (q, r) = matches_sound a op second p in (q, inr r)
      ]
  | inr e ↦ let (p, q) = matches_sound a op second (rw e at h) in (p, inr q)
]

matches_complete : (a : KeyOps) (second : List KeyOps) → Has a second → Has a (matches a second)
unfolding matches
matches_complete a [] h = absurd h
matches_complete a (b ∷ second) (inl e) = rw ((eq_iff a b).1 e) (inl refl)
matches_complete a (b ∷ second) (inr h) = elim (Bool-cases (str_eq a b)) [
  | inl e ↦ rw e (inl refl)
  | inr e ↦ rw e (matches_complete a second h)
]

-- `intersection` holds exactly the operations that both lists hold.
pub Has-intersection :
    (op : KeyOps) (first second : List KeyOps)
    → Has op (intersection first second) ↔ (Has op first × Has op second)
unfolding intersection
Has-intersection op [] second = ((λ h. absurd h), (λ h. absurd h.0))
Has-intersection op (a ∷ first) second =
    let (sound, complete) = Has-intersection op first second in
    (
      (λ h. elim (Has-append_split op (matches a second) (intersection first second) h) [
        | inl m ↦ let (p, q) = matches_sound a op second m in (inl p, rw p q)
        | inr m ↦ let (p, q) = sound m in (inr p, q)
      ]),
      (λ h. elim (h.0) [
        | inl e ↦
            Has-append_left op (matches a second) (intersection first second)
              (rw e (matches_complete a second (rw e at (h.1))))
        | inr m ↦
            Has-append_right op (matches a second) (intersection first second) (complete (m, h.1))
      ]),
    )

-- The gate lets an operation through exactly when the key type offers it and the key's own key_ops
-- name it.
pub permits_iff :
    (valid ops : List KeyOps) (operation : KeyOps)
    → (permits valid ops operation ≡ true) ↔ (Has operation valid × Has operation ops)
permits_iff valid ops operation =
    let (a, b) = is_subset_iff (intersection valid ops) (operation ∷ []) in
    let (c, d) = Has-intersection operation valid ops in
    ((λ h. c (a (unfold permits in h)).1.0), (λ h. unfold permits in b (cc, (d h, tt))))
