-- ===== src/Jose/Jwt/Members.antt =====
-- The members of a JSON object as a map: what is put in and deleted when claims are written and read.
use gose.Prelude.{
  get-put, String, ◌≡◌, inl, inr, refl, ap, ◌∙◌, true, false, none, List, [], ◌∷◌, ◌++◌,
  append_assoc, Dict, get, put, delete, str_eq, eq_iff, Bool-cases, All, Has,
}
use gose.Bytes.{Bytes}

-- the names of a map are different
abbrev pub DistinctNames {ℓ} : {V : Type ℓ} → Dict V → Type 0
DistinctNames [] = Unit
DistinctNames ((n, v) ∷ rest) = All (λ e. str_eq n e.0 ≡ false) rest × DistinctNames rest

-- all names are among those of a list
abbrev pub NamedIn : List String → Dict Bytes → Type 0
NamedIn names = All (λ e. Has e.0 names)

pub delete-absent : (k : String) (d : Dict Bytes) → get k d ≡ none → delete k d ≡ d
unfolding get delete
delete-absent k [] h = refl
delete-absent k ((j, v) ∷ d) h = elim (Bool-cases (str_eq j k)) [
  | inl e ↦ absurd (cc (rw e at h))
  | inr e ↦ rw e (ap (λ r. (j, v) ∷ r) (delete-absent k d (rw e at h)))
]

delete-append : (k : String) (c d : Dict Bytes) → delete k (c ++ d) ≡ delete k c ++ delete k d
unfolding delete
delete-append k [] d = refl
delete-append k ((j, v) ∷ c) d = elim (Bool-cases (str_eq j k)) [
  | inl e ↦ rw e (delete-append k c d)
  | inr e ↦ rw e (ap (λ r. (j, v) ∷ r) (delete-append k c d))
]

pub get-append : (k : String) (c d : Dict Bytes) → get k d ≡ none → get k (c ++ d) ≡ get k c
unfolding get
get-append k [] d h = h
get-append k ((j, v) ∷ c) d h = elim (Bool-cases (str_eq j k)) [
  | inl e ↦ rw e refl
  | inr e ↦ rw e (get-append k c d h)
]

put-new : (k : String) (v : Bytes) (d : Dict Bytes) → get k d ≡ none → put k v d ≡ d ++ (k, v) ∷ []
unfolding get put
put-new k v [] h = refl
put-new k v ((j, w) ∷ d) h = elim (Bool-cases (str_eq j k)) [
  | inl e ↦ absurd (cc (rw e at h))
  | inr e ↦ rw e (ap (λ r. (j, w) ∷ r) (put-new k v d (rw e at h)))
]

-- a map without some names
abbrev pub without : List String → Dict Bytes → Dict Bytes
without [] d = d
without (n ∷ names) d = without names (delete n d)

delete-NamedIn :
    (n : String) (names : List String) (d : Dict Bytes)
    → NamedIn (n ∷ names) d
    → NamedIn names (delete n d)
unfolding delete
delete-NamedIn n names [] h = tt
delete-NamedIn n names ((j, v) ∷ d) (inl e, h) =
    let same : str_eq j n ≡ true = (eq_iff j n).1 e in rw same (delete-NamedIn n names d h)
delete-NamedIn n names ((j, v) ∷ d) (inr m, h) = elim (Bool-cases (str_eq j n)) [
  | inl e ↦ rw e (delete-NamedIn n names d h)
  | inr e ↦ rw e (m, delete-NamedIn n names d h)
]

without-all : (names : List String) (d : Dict Bytes) → NamedIn names d → without names d ≡ []
without-all [] [] h = refl
without-all [] (e ∷ d) h = absurd (h.0)
without-all (n ∷ names) d h = without-all names (delete n d) (delete-NamedIn n names d h)

without-append :
    (names : List String) (c d : Dict Bytes)
    → All (λ n. get n d ≡ none) names
    → without names (c ++ d) ≡ without names c ++ d
without-append [] c d h = refl
without-append (n ∷ names) c d (absent, h) =
    ap (without names) (delete-append n c d ∙ ap (λ r. delete n c ++ r) (delete-absent n d absent))
    ∙ without-append names (delete n c) d h

-- Of a map that has the names, and entries that have none of them, the entries are left.
pub without-named :
    (names : List String) (c d : Dict Bytes)
    → NamedIn names c
    → All (λ n. get n d ≡ none) names
    → without names (c ++ d) ≡ d
without-named names c d named absent =
    without-append names c d absent ∙ ap (λ r. r ++ d) (without-all names c named)

pub put-DistinctNames :
    (k : String) (v : Bytes) (d : Dict Bytes) → DistinctNames d → DistinctNames (put k v d)
unfolding put
put-DistinctNames k v [] h = (tt, tt)
put-DistinctNames k v ((j, w) ∷ d) (fresh, h) = elim (Bool-cases (str_eq j k)) [
  | inl e ↦ rw e (renamed j k d ((eq_iff j k).0 e) fresh, h)
  | inr e ↦ rw e (others j k v d e fresh, put-DistinctNames k v d h)
]
  where
    renamed :
        (j k : String) (d : Dict Bytes)
        → j ≡ k
        → All (λ e. str_eq j e.0 ≡ false) d
        → All (λ e. str_eq k e.0 ≡ false) d
    renamed j k d same h = rw same at h

    others :
        (j k : String) (v : Bytes) (d : Dict Bytes)
        → str_eq j k ≡ false
        → All (λ e. str_eq j e.0 ≡ false) d
        → All (λ e. str_eq j e.0 ≡ false) (put k v d)
    others j k v [] other h = (other, tt)
    others j k v ((i, w) ∷ d) other (first, h) = elim (Bool-cases (str_eq i k)) [
      | inl e ↦ rw e (other, h)
      | inr e ↦ rw e (first, others j k v d other h)
    ]

-- a name that stands in no entry
pub absent_unless_named :
    (k : String) (names : List String) (d : Dict Bytes)
    → ¬ Has k names
    → NamedIn names d
    → get k d ≡ none
unfolding get
absent_unless_named k names [] out h = refl
absent_unless_named k names ((j, v) ∷ d) out (m, h) = elim (Bool-cases (str_eq j k)) [
  | inl e ↦ let same : j ≡ k = (eq_iff j k).0 e in absurd (out (rw same at m))
  | inr e ↦ rw e (absent_unless_named k names d out h)
]

-- new names are put at the end
pub put_at_end :
    (k : String) (v : Bytes) (c rest : Dict Bytes)
    → get k c ≡ none
    → put k v c ++ rest ≡ c ++ (k, v) ∷ rest
put_at_end k v c rest h = ap (λ r. r ++ rest) (put-new k v c h) ∙ append_assoc c ((k, v) ∷ []) rest

pub get-put_other :
    (j k : String) (v : Bytes) (c : Dict Bytes)
    → str_eq k j ≡ false
    → get j c ≡ none
    → get j (put k v c) ≡ none
get-put_other j k v c other h = get-put k j v c ∙ rw other h
