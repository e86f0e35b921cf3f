-- ===== src/Block/Direct/Authentic.antt =====
-- jwe_direct_decryptor_block.go: what a successful decryption shows.
use gose.Prelude.{
  ℕ, sym, ◌∙◌, ◌≢◌, ◌⊎◌, inl, inr, List, ◌++◌, ◌≤◌, ◌≡◌, refl, ◌%◌, ◌==◌, Option, none, some, [],
  ◌∷◌, not, str_eq, ltb, eq_iff, arith, length, take,
}
use gose.Bytes.{Bytes, bytes_eq→eq}
use gose.Bytes.BigEndian.{from_bytes}
use gose.Error.{
  Error, ◌>>=◌, Result, ok, err, >>=-eq-ok, guard->>-eq-ok, in_context, in_context-eq-ok,
}
use gose.Jose.Types.{max_compact_size}
use gose.Jose.Jwe.{
  JweRfc7516Compact, JweProtectedHeader, HeaderJson, unmarshal_compact, aad, compact_parts,
  read_header, check_header, decode_sealed,
}
use gose.Jose.Jws.{dot, decode_segment}
use gose.Bytes.Split.{Lacks, split_n, join, join-split_n, AllButLast, split_n-AllButLast}
use gose.Bytes.Base64.{decode}
use gose.Block.{open_blocks}
use gose.Block.Mac.{hash_of, concat_byte_arrays, compute_al, verify_compact}
use gose.Block.Direct.{
  BlockDecryptor, aes_block_size, declared_plaintext, authenticated, decrypt, opened_text,
  decrypt_checked,
}

-- The text is an encrypted object for the key, and its tag is the keyed hash over the text's own first
-- segment, the initialisation vector and the ciphertext.
pub record IsVerified {S : Type 0} (json : HeaderJson) (d : BlockDecryptor S) (text : Bytes)
    (jwe : JweRfc7516Compact) : Type 0 where
  pub head : Bytes
  pub rest : Bytes
  pub short : length text ≤ max_compact_size
  pub spelled : text ≡ head ++ dot ∷ rest
  pub first_dot : Lacks dot head
  pub parsed : unmarshal_compact json text ≡ ok jwe
  pub same_alg : jwe.protected_header.jws.alg ≡ d.aes_key.alg
  pub same_kid : jwe.protected_header.jws.kid ≡ d.aes_key.kid
  pub tagged :
      hash_of d.hmac_key (
        concat_byte_arrays
          (head ∷ jwe.initialization_vector ∷ jwe.ciphertext ∷ compute_al head ∷ []))
      ≡ ok jwe.authentication_tag
  pub uncompressed : jwe.protected_header.zip ≡ ""
  pub aligned : length jwe.ciphertext % aes_block_size ≡ 0

-- the plaintext is the start of a block of bytes, with the length that a header declares
pub record IsDeclared (other : Option Bytes) (block p : Bytes) : Type 0 where
  pub declared : Bytes
  pub declares : other ≡ some declared
  pub plaintext : p ≡ take (from_bytes (take 8 declared)) block
  pub long_enough : from_bytes (take 8 declared) ≤ length block

-- Either the call is refused, and the mode was not run; or the text is verified, the mode has run over
-- its ciphertext, and the result is the plaintext of the declared length, or an error.
abbrev pub Outcome :
    {S : Type 0} → HeaderJson → BlockDecryptor S → Bytes → S → Result Bytes → S → Type 0
Outcome json d text s r s' =
    ((e : Error) × (r ≡ err e) × (s' ≡ s))
    ⊎ ((jwe : JweRfc7516Compact) × IsVerified json d text jwe
        × ((open_blocks d.aes_key jwe.ciphertext s).1 ≡ s')
        × (((e : Error) × (r ≡ err e))
            ⊎ ((p : Bytes) × (block : Bytes) × (r ≡ ok p)
                × ((open_blocks d.aes_key jwe.ciphertext s).0 ≡ ok block)
                × IsDeclared jwe.protected_header.other_aad block p)))

IsDeclared-steps :
    (other : Option Bytes) (block p : Bytes)
    → declared_plaintext other block ≡ ok p
    → IsDeclared other block p
unfolding declared_plaintext
IsDeclared-steps none block p h = cc h
IsDeclared-steps (some declared) block p h =
    let (_, h₁) = guard->>-eq-ok (not (ltb (length declared) 8)) _ _ h in
    let (long, h₂) =
      guard->>-eq-ok (not (ltb (length block) (from_bytes (take 8 declared)))) _ _ h₁ in
    record {
      declared = declared;
      declares = refl;
      plaintext = cc h₂;
      long_enough = ground (arith, long);
    }

authenticated_steps :
    {S : Type 0} (json : HeaderJson) (d : BlockDecryptor S) (text : Bytes) (jwe : JweRfc7516Compact)
    → authenticated json d text ≡ ok jwe
    → (received : Bytes) × (length text ≤ max_compact_size)
      × (unmarshal_compact json text ≡ ok jwe)
      × (jwe.protected_header.jws.alg ≡ d.aes_key.alg)
      × (jwe.protected_header.jws.kid ≡ d.aes_key.kid)
      × (aad json jwe ≡ ok received)
      × (hash_of d.hmac_key (
            concat_byte_arrays
              (received ∷ jwe.initialization_vector ∷ jwe.ciphertext ∷ compute_al received ∷ []))
          ≡ ok jwe.authentication_tag)
      × (jwe.protected_header.zip ≡ "")
      × (length jwe.ciphertext % aes_block_size ≡ 0)
unfolding authenticated verify_compact
authenticated_steps json d text jwe h =
    let (short, h₁) = guard->>-eq-ok (not (ltb max_compact_size (length text))) _ _ h in
    let (j, e, h₂) =
      >>=-eq-ok (in_context "error unmarshalling the jwe" (unmarshal_compact json text)) _ h₁ in
    let (alg, h₃) = guard->>-eq-ok (str_eq j.protected_header.jws.alg d.aes_key.alg) _ _ h₂ in
    let (kid, h₄) = guard->>-eq-ok (str_eq j.protected_header.jws.kid d.aes_key.kid) _ _ h₃ in
    let (integrity, e', h₅) = >>=-eq-ok (verify_compact d.hmac_key json j) _ h₄ in
    let (same, h₆) = guard->>-eq-ok integrity _ _ h₅ in
    let (zip, h₇) = guard->>-eq-ok (str_eq j.protected_header.zip "") _ _ h₆ in
    let (whole, h₈) = guard->>-eq-ok (length j.ciphertext % aes_block_size == 0) _ _ h₇ in
    let (received, r, e₁) =
      >>=-eq-ok (in_context "error marshalling the JWE Header" (aad json j)) _ e' in
    let (output, o, e₂) = >>=-eq-ok (hash_of d.hmac_key _) _ e₁ in
    let tag : output ≡ j.authentication_tag =
      bytes_eq→eq output j.authentication_tag (cc (e₂, same)) in
    let is : j ≡ jwe = cc h₈ in
    rw (← is) (
      received,
      ground (arith, short),
      in_context-eq-ok _ _ e,
      (eq_iff _ _).0 alg,
      (eq_iff _ _).0 kid,
      in_context-eq-ok _ _ r,
      rw tag at o,
      (eq_iff _ _).0 zip,
      ground (arith, whole),
    )

-- a header segment that is read is not empty
not_empty :
    (json : HeaderJson) (a : Bytes) (h : JweProtectedHeader)
    → ((g : JweProtectedHeader) → json.read [] ≢ ok g)
    → read_header json check_header a ≡ ok h
    → (c : ℕ) × (b : Bytes) × (a ≡ c ∷ b)
unfolding read_header decode_segment decode
not_empty json [] h none_read e =
    let (g, read, _) = >>=-eq-ok (json.read []) _ e in absurd (none_read g read)
not_empty json (c ∷ b) h none_read e = (c, b, refl)

aad_kept :
    (json : HeaderJson) (jwe : JweRfc7516Compact) (c : ℕ) (b : Bytes)
    → jwe.raw_protected_header ≡ c ∷ b
    → aad json jwe ≡ ok (c ∷ b)
unfolding aad
aad_kept json jwe c b e = rw e refl

first_of_five :
    (text a b c d e : Bytes)
    → split_n dot text 5 ≡ a ∷ b ∷ c ∷ d ∷ e ∷ []
    → (text ≡ a ++ dot ∷ join dot (b ∷ c ∷ d ∷ e ∷ [])) × Lacks dot a
first_of_five text a b c d e split =
    let whole = join-split_n dot text 4 in
    let lacks = split_n-AllButLast dot text 4 in
    let lacks' : AllButLast dot (a ∷ b ∷ c ∷ d ∷ e ∷ []) = rw split at lacks in
    (unfold join in sym (rw split at whole), lacks'.0)

-- the first segment is kept as it is written
raw_header :
    (json : HeaderJson) (parts : List Bytes) (text : Bytes) (jwe : JweRfc7516Compact)
    → ((h : JweProtectedHeader) → json.read [] ≢ ok h)
    → split_n dot text 5 ≡ parts
    → compact_parts json parts ≡ ok jwe
    → (head : Bytes) × (rest : Bytes) × (text ≡ head ++ dot ∷ rest)
      × Lacks dot head
      × (aad json jwe ≡ ok head)
unfolding compact_parts
raw_header json [] text jwe none_read split h = cc h
raw_header json (a ∷ []) text jwe none_read split h = cc h
raw_header json (a ∷ b ∷ []) text jwe none_read split h = cc h
raw_header json (a ∷ b ∷ c ∷ []) text jwe none_read split h = cc h
raw_header json (a ∷ b ∷ c ∷ d ∷ []) text jwe none_read split h = cc h
raw_header json (a ∷ b ∷ c ∷ d ∷ e ∷ f ∷ g) text jwe none_read split h = cc h
raw_header json (a ∷ b ∷ c ∷ d ∷ e ∷ []) text jwe none_read split h =
    let (header, read, h₁) = >>=-eq-ok (read_header json check_header a) _ h in
    let (sealed, _, h₂) = >>=-eq-ok (decode_sealed b c d e) _ h₁ in
    let kept : jwe.raw_protected_header ≡ a = cc h₂ in
    let (x, y, is) = not_empty json a header none_read read in
    let (spelled, lacks) = first_of_five text a b c d e split in
    (a, join dot (b ∷ c ∷ d ∷ e ∷ []), spelled, lacks, rw is (aad_kept json jwe x y (kept ∙ is)))

verified :
    {S : Type 0} (json : HeaderJson) (d : BlockDecryptor S) (text : Bytes) (jwe : JweRfc7516Compact)
    → ((h : JweProtectedHeader) → json.read [] ≢ ok h)
    → authenticated json d text ≡ ok jwe
    → IsVerified json d text jwe
unfolding unmarshal_compact
verified json d text jwe none_read h =
    let (received, short, parsed, alg, kid, additional, tagged, zip, whole) =
      authenticated_steps json d text jwe h in
    let (_, read) = guard->>-eq-ok (not (ltb max_compact_size (length text))) _ _ parsed in
    let (head, rest, spelled, lacks, raw) =
      raw_header json (split_n dot text 5) text jwe none_read refl read in
    let same : received ≡ head = cc (additional, raw) in
    record {
      head = head;
      rest = rest;
      short = short;
      spelled = spelled;
      first_dot = lacks;
      parsed = parsed;
      same_alg = alg;
      same_kid = kid;
      tagged = rw same at tagged;
      uncompressed = zip;
      aligned = whole;
    }

-- what follows the checks
opened_outcome :
    (r : Result Bytes) (other : Option Bytes)
    → ((e : Error) × ((r >>= declared_plaintext other) ≡ err e))
      ⊎ ((p : Bytes) × (block : Bytes) × ((r >>= declared_plaintext other) ≡ ok p)
          × (r ≡ ok block)
          × IsDeclared other block p)
opened_outcome (err e) other = inl (e, refl)
opened_outcome (ok block) other = of (declared_plaintext other block) refl
  where
    of :
        (q : Result Bytes)
        → declared_plaintext other block ≡ q
        → ((e : Error) × (declared_plaintext other block ≡ err e))
          ⊎ ((p : Bytes) × (b : Bytes) × (declared_plaintext other block ≡ ok p)
              × (ok block ≡ ok b)
              × IsDeclared other b p)
    of (err e) h = inl (e, h)
    of (ok p) h = inr (p, block, h, refl, IsDeclared-steps other block p h)

checked-Outcome :
    {S : Type 0} (json : HeaderJson) (d : BlockDecryptor S) (text : Bytes) (s : S)
    (checked : Result JweRfc7516Compact)
    → ((h : JweProtectedHeader) → json.read [] ≢ ok h)
    → authenticated json d text ≡ checked
    → Outcome json d text s
        (decrypt_checked json d s checked).0
        (decrypt_checked json d s checked).1
unfolding decrypt_checked opened_text
checked-Outcome json d text s (err e) none_read h = inl (e, refl, refl)
checked-Outcome json d text s (ok jwe) none_read h = inr (
  jwe,
  verified json d text jwe none_read h,
  refl,
  opened_outcome (open_blocks d.aes_key jwe.ciphertext s).0 jwe.protected_header.other_aad,
)

-- `Decrypt` decrypts nothing of a text that is not verified: the block mode is left in its state, and
-- the call is refused with an error. A text is verified if it is an encrypted object for the key and
-- its algorithm, whose tag is the keyed hash over the first segment of the text as it was received,
-- the initialisation vector and the ciphertext. A plaintext that is returned is the start of what the
-- ciphertext decrypts to, of the length that this header declares. The condition is that encoding/json
-- reads no header from an empty text.
pub decrypt-IsAuthentic :
    {S : Type 0} (json : HeaderJson) (d : BlockDecryptor S) (text : Bytes) (s : S)
    → ((h : JweProtectedHeader) → json.read [] ≢ ok h)
    → Outcome json d text s (decrypt json d text s).0 (decrypt json d text s).1
unfolding decrypt
decrypt-IsAuthentic json d text s none_read =
    checked-Outcome json d text s (authenticated json d text) none_read refl
