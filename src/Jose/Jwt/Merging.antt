-- ===== src/Jose/Jwt/Merging.antt =====
-- jose/jwt.go: the untyped claims that `MarshalJSON` merges with the members of the typed ones.
use gose.Prelude.{
  String, ◌≡◌, ◌≢◌, inl, inr, refl, ◌∙◌, none, List, [], ◌∷◌, ◌++◌, append-nil, Dict, get, put, All,
  Has, Option-cases, Bool-cases, eq_iff, str_eq, false,
}
use gose.Bytes.{Bytes}
use gose.Error.{ok}
use gose.Jose.Jwt.{reserved_jwt_claims, merge_untyped}
use gose.Jose.Jwt.Members.{NamedIn, DistinctNames, absent_unless_named, put_at_end, get-put_other}

abbrev pub reserved_names : List String
reserved_names = "iss" ∷ "iat" ∷ "jti" ∷ "sub" ∷ "aud" ∷ "exp" ∷ "nbf" ∷ []

-- what the merge of untyped claims shows of them
pub merged :
    (u m all : Dict Bytes)
    → merge_untyped u m ≡ ok all
    → DistinctNames u
    → All (λ e. get e.0 m ≡ none) u
    → all ≡ m ++ u
unfolding merge_untyped
merged [] m all h distinct fresh = cc (h, append-nil m)
merged ((n, v) ∷ u) m all h (others, distinct) (first, fresh) =
    elim (Option-cases (get n reserved_jwt_claims)) [
      | inl e ↦
          merged u (put n v m) all (rw (merge_untyped, e) at h) distinct
            (still u n v m others fresh)
          ∙ put_at_end n v m u first
      | inr (b, e) ↦ absurd (cc (rw (merge_untyped, e) at h))
    ]
  where
    still :
        (u : Dict Bytes) (n : String) (v : Bytes) (m : Dict Bytes)
        → All (λ e. str_eq n e.0 ≡ false) u
        → All (λ e. get e.0 m ≡ none) u
        → All (λ e. get e.0 (put n v m) ≡ none) u
    still [] n v m others fresh = tt
    still ((k, w) ∷ u) n v m (other, others) (first, fresh) =
        (get-put_other k n v m other first, still u n v m others fresh)

pub unreserved :
    (u m all : Dict Bytes)
    → merge_untyped u m ≡ ok all
    → All (λ e. get e.0 reserved_jwt_claims ≡ none) u
unfolding merge_untyped
unreserved [] m all h = tt
unreserved ((n, v) ∷ u) m all h = elim (Option-cases (get n reserved_jwt_claims)) [
  | inl e ↦ (e, unreserved u (put n v m) all (rw (merge_untyped, e) at h))
  | inr (b, e) ↦ absurd (cc (rw (merge_untyped, e) at h))
]

-- names that are not reserved are not among the typed members, and the reserved ones not among these
not_reserved : (n : String) → get n reserved_jwt_claims ≡ none → ¬ Has n reserved_names
unfolding get
not_reserved n h (inl e) = cc (rw e at h)
not_reserved n h (inr (inl e)) = cc (rw e at h)
not_reserved n h (inr (inr (inl e))) = cc (rw e at h)
not_reserved n h (inr (inr (inr (inl e)))) = cc (rw e at h)
not_reserved n h (inr (inr (inr (inr (inl e))))) = cc (rw e at h)
not_reserved n h (inr (inr (inr (inr (inr (inl e)))))) = cc (rw e at h)
not_reserved n h (inr (inr (inr (inr (inr (inr (inl e))))))) = cc (rw e at h)
not_reserved n h (inr (inr (inr (inr (inr (inr (inr e))))))) = e

pub not_typed :
    (u m : Dict Bytes)
    → All (λ e. get e.0 reserved_jwt_claims ≡ none) u
    → NamedIn reserved_names m
    → All (λ e. get e.0 m ≡ none) u
not_typed [] m h named = tt
not_typed ((n, v) ∷ u) m (first, h) named =
    (absent_unless_named n reserved_names m (not_reserved n first) named, not_typed u m h named)

reserved_absent :
    (r : String) (u : Dict Bytes)
    → get r reserved_jwt_claims ≢ none
    → All (λ e. get e.0 reserved_jwt_claims ≡ none) u
    → get r u ≡ none
unfolding get
reserved_absent r [] is_reserved h = refl
reserved_absent r ((n, v) ∷ u) is_reserved (first, h) = elim (Bool-cases (str_eq n r)) [
  | inl e ↦ let same : n ≡ r = (eq_iff n r).0 e in absurd (is_reserved (rw same at first))
  | inr e ↦ rw e (reserved_absent r u is_reserved h)
]

pub All-absent :
    (u : Dict Bytes)
    → All (λ e. get e.0 reserved_jwt_claims ≡ none) u
    → All (λ n. get n u ≡ none) reserved_names
unfolding get
All-absent u h = (
  reserved_absent "iss" u (λ e. cc e) h,
  (
    reserved_absent "iat" u (λ e. cc e) h,
    (
      reserved_absent "jti" u (λ e. cc e) h,
      (
        reserved_absent "sub" u (λ e. cc e) h,
        (
          reserved_absent "aud" u (λ e. cc e) h,
          (reserved_absent "exp" u (λ e. cc e) h, (reserved_absent "nbf" u (λ e. cc e) h, tt)),
        ),
      ),
    ),
  ),
)
