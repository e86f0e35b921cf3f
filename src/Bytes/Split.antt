-- ===== src/Bytes/Split.antt =====
-- `strings.SplitN` and `strings.Join` on one separating byte.
use gose.Prelude.{
  sym, ℕ, zero, suc, ◌≡◌, ◌≢◌, refl, ap, Option, none, some, List, [], ◌∷◌, ◌++◌, arith, ◌==◌,
  ==_iff, if◌then◌else◌, All, Bool-cases, ◌⊎◌, inl, inr, length, Option-cases,
}

abbrev Text : Type 0
Text = List ℕ

abbrev pub Lacks : ℕ → Text → Type 0
Lacks sep = All (λ c. c ≢ sep)

prepend : ℕ → Option (Text × Text) → Option (Text × Text)
prepend c none = none
prepend c (some (a, b)) = some (c ∷ a, b)

-- what stands before the first `sep`, and what stands behind it
unfoldable pub cut : ℕ → Text → Option (Text × Text)
unfolding prepend
cut sep [] = none
cut sep (c ∷ s) = if c == sep then some ([], s) else prepend c (cut sep s)

-- `strings.SplitN(s, sep, n)` for a positive count: the last part takes what is left
unfoldable pub split_n : ℕ → Text → ℕ → List Text
unfolding cut
split_n sep s zero = []
split_n sep s (suc zero) = s ∷ []
split_n sep s (suc (suc n)) = elim (cut sep s) [
  | none ↦ s ∷ []
  | some (a, b) ↦ a ∷ split_n sep b (suc n)
]

-- `strings.Join(parts, sep)`
unfoldable pub join : ℕ → List Text → Text
join sep [] = []
join sep (p ∷ []) = p
join sep (p ∷ q ∷ ps) = p ++ sep ∷ join sep (q ∷ ps)

pub cut-append : (sep : ℕ) (a b : Text) → Lacks sep a → cut sep (a ++ sep ∷ b) ≡ some (a, b)
unfolding cut
cut-append sep [] b h = ground arith
cut-append sep (c ∷ a) b h = ground (arith, cut-append sep a b h.1)

pub cut-Lacks : (sep : ℕ) (s : Text) → Lacks sep s → cut sep s ≡ none
unfolding cut
cut-Lacks sep [] h = refl
cut-Lacks sep (c ∷ s) h = ground (arith, cut-Lacks sep s h.1)

prepend-eq-some :
    (c : ℕ) (o : Option (Text × Text)) (a b : Text)
    → prepend c o ≡ some (a, b)
    → (a' : Text) × (o ≡ some (a', b)) × (a ≡ c ∷ a')
unfolding prepend
prepend-eq-some c none a b h = cc
prepend-eq-some c (some (a', b')) a b h = (a', ground arith, ground arith)

-- nothing is lost by a cut, and the first part holds no separator
pub append-cut :
    (sep : ℕ) (s a b : Text) → cut sep s ≡ some (a, b) → (a ++ sep ∷ b ≡ s) × Lacks sep a
unfolding cut
append-cut sep [] a b h = cc
append-cut sep (c ∷ s) a b h = elim (Bool-cases (c == sep)) [
  | inl e ↦
      let h' : some ([], s) ≡ some (a, b) = rw e at h in
      (ground (arith, h', (==_iff c sep).0 e), ground (arith, h'))
  | inr e ↦
      let h' : prepend c (cut sep s) ≡ some (a, b) = rw e at h in
      let (a', p, q) = prepend-eq-some c (cut sep s) a b h' in
      let (spell, lacks) = append-cut sep s a' b p in
      (rw q (ap (λ t. c ∷ t) spell), rw q ((λ x. ground (arith, e, x)), lacks))
]

cut-cases :
    (sep : ℕ) (s : Text)
    → (cut sep s ≡ none)
      ⊎ ((a : Text) × (b : Text) × (cut sep s ≡ some (a, b)) × (a ++ sep ∷ b ≡ s) × Lacks sep a)
cut-cases sep s = elim (Option-cases (cut sep s)) [
  | inl e ↦ inl e
  | inr ((a, b), e) ↦ let (spell, lacks) = append-cut sep s a b e in inr (a, b, e, spell, lacks)
]

split_n-none :
    (sep : ℕ) (s : Text) (n : ℕ) → cut sep s ≡ none → split_n sep s (suc (suc n)) ≡ s ∷ []
unfolding split_n
split_n-none sep s n e = rw (e, split_n)

split_n-some :
    (sep : ℕ) (s a b : Text) (n : ℕ)
    → cut sep s ≡ some (a, b)
    → split_n sep s (suc (suc n)) ≡ a ∷ split_n sep b (suc n)
unfolding split_n
split_n-some sep s a b n e = rw (e, split_n)

join-cons :
    (sep : ℕ) (p : Text) (ps : List Text) → ps ≢ [] → join sep (p ∷ ps) ≡ p ++ sep ∷ join sep ps
unfolding join
join-cons sep p [] h = absurd (h refl)
join-cons sep p (q ∷ ps) h = refl

split_n-ne-nil : (sep : ℕ) (s : Text) (n : ℕ) → split_n sep s (suc n) ≢ []
split_n-ne-nil sep s zero = unfold split_n in cc
split_n-ne-nil sep s (suc n) = elim (cut-cases sep s) [
  | inl e ↦ rw (split_n-none sep s n e) (cc)
  | inr (a, b, e, _, _) ↦ rw (split_n-some sep s a b n e) (cc)
]

-- Joining the parts of a split gives the text back, whatever the number of parts.
pub join-split_n : (sep : ℕ) (s : Text) (n : ℕ) → join sep (split_n sep s (suc n)) ≡ s
join-split_n sep s zero = unfold split_n join in refl
join-split_n sep s (suc n) = elim (cut-cases sep s) [
  | inl e ↦ rw (split_n-none sep s n e) (unfold join in refl)
  | inr (a, b, e, spell, _) ↦
      rw
        (
          split_n-some sep s a b n e,
          join-cons sep a (split_n sep b (suc n)) (split_n-ne-nil sep b n),
          join-split_n sep b n,
        )
        spell
]

-- Splitting a join into as many parts gives the parts back, if none but the last holds the
-- separator.
abbrev pub AllButLast : ℕ → List Text → Type 0
AllButLast sep [] = Unit
AllButLast sep (p ∷ []) = Unit
AllButLast sep (p ∷ q ∷ ps) = Lacks sep p × AllButLast sep (q ∷ ps)

pub split_n-join :
    (sep : ℕ) (p : Text) (ps : List Text)
    → AllButLast sep (p ∷ ps)
    → split_n sep (join sep (p ∷ ps)) (suc (length ps)) ≡ p ∷ ps
split_n-join sep p [] h = unfold split_n join in refl
split_n-join sep p (q ∷ ps) h = rw (
  join-cons sep p (q ∷ ps) (cc),
  split_n-some sep _ p (join sep (q ∷ ps)) (length ps) (cut-append sep p _ h.0),
  split_n-join sep q ps h.1,
)

-- Joins of as many parts are equal only if the parts are.
pub join_injective :
    (sep : ℕ) (p q : Text) (ps qs : List Text)
    → AllButLast sep (p ∷ ps)
    → AllButLast sep (q ∷ qs)
    → length ps ≡ length qs
    → join sep (p ∷ ps) ≡ join sep (q ∷ qs)
    → p ∷ ps ≡ q ∷ qs
join_injective sep p q ps qs hp hq same h =
    cc (split_n-join sep p ps hp, split_n-join sep q qs hq, same, h)

-- the parts before the last hold no separator
pub split_n-AllButLast : (sep : ℕ) (s : Text) (n : ℕ) → AllButLast sep (split_n sep s (suc n))
split_n-AllButLast sep s zero = unfold split_n in tt
split_n-AllButLast sep s (suc n) = elim (cut-cases sep s) [
  | inl e ↦ rw (split_n-none sep s n e) tt
  | inr (a, b, e, _, lacks) ↦
      rw (split_n-some sep s a b n e)
        (go a (split_n sep b (suc n)) lacks (split_n-AllButLast sep b n))
]
  where
    go : (p : Text) (ps : List Text) → Lacks sep p → AllButLast sep ps → AllButLast sep (p ∷ ps)
    go p [] h k = tt
    go p (q ∷ ps) h k = (h, k)

-- A text that splits into three parts is those parts with the separator between them.
pub split_3-parts :
    (sep : ℕ) (s a b c : Text)
    → split_n sep s 3 ≡ a ∷ b ∷ c ∷ []
    → (s ≡ a ++ sep ∷ (b ++ sep ∷ c)) × Lacks sep a × Lacks sep b
split_3-parts sep s a b c h =
    let whole = join-split_n sep s 2 in
    let lacks = split_n-AllButLast sep s 2 in
    let lacks' : AllButLast sep (a ∷ b ∷ c ∷ []) = rw h at lacks in
    (unfold join in (sym (rw h at whole)), lacks'.0, lacks'.1.0)

-- `strings.Split(s, sep)`, on the part that is being read
split_onto : ℕ → Text → Text → List Text
split_onto sep cur [] = cur ∷ []
split_onto sep cur (c ∷ s) =
    if c == sep then cur ∷ split_onto sep [] s else split_onto sep (cur ++ c ∷ []) s

unfoldable pub split : ℕ → Text → List Text
unfolding split_onto
split sep s = split_onto sep [] s
