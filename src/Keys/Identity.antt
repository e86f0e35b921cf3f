-- ===== src/Keys/Identity.antt =====
-- `CalculateKeyID` of helpers.go.
use gose.Prelude.{
  ℕ, ◌≡◌, ◌≢◌, ◌⊎◌, inl, inr, refl, ap, Option, none, some, [], ◌∷◌, String, arith, Bool-cases,
}
use gose.Bytes.{Bytes, IsBytes, codes, bytes_eq, bytes_eq→eq, bytes_eq_refl}
use gose.Bytes.Split.{join, Lacks, join_injective}
use gose.Bytes.Base64.{encode, decode, encode-Lacks, decode-encode}
use gose.Bytes.Minimal.{big_bytes, big_bytes-IsBytes, big_bytes_injective, hex, hex_injective}
use gose.Error.{Result, ok, err, gose_error, GoseError}
use gose.Crypto.{Crypto, Hash, sha256}
use gose.Jose.Jwk.{
  Jwk, public_rsa, private_rsa, public_ec, private_ec, oct_secret, kty_rsa, kty_ec, kty_oct,
}

-- `version1`
abbrev pub version_1 : Bytes
version_1 = codes "v1"

-- the text that is hashed
encoded_rsa : ℕ → ℕ → Bytes
encoded_rsa n e =
    join b'.'
      (version_1 ∷ codes "jwk" ∷ codes kty_rsa ∷ encode (big_bytes n) ∷ encode (big_bytes e) ∷ [])

encoded_ec : ℕ → ℕ → Bytes
encoded_ec x y =
    join b'.'
      (version_1 ∷ codes "jwk" ∷ codes kty_ec ∷ encode (big_bytes x) ∷ encode (big_bytes y) ∷ [])

encoded_oct : Bytes → Bytes
encoded_oct k = join b'.' (version_1 ∷ codes "jwk" ∷ codes kty_oct ∷ encode k ∷ [])

module _ (crypto : Crypto) where
  digest_id : Bytes → String
  digest_id encoded = hex (crypto.digest sha256 encoded)

  -- `CalculateKeyID`
  unfoldable pub calculate_key_id : Jwk → Result String
  unfolding encoded_rsa encoded_ec encoded_oct digest_id
  calculate_key_id (public_rsa j k) = ok (digest_id (encoded_rsa k.n k.e))
  calculate_key_id (public_ec j k) = ok (digest_id (encoded_ec k.x k.y))
  calculate_key_id (oct_secret j k) = ok (digest_id (encoded_oct k))
  calculate_key_id (private_rsa j k s) = err (gose_error GoseError.unsupported_key_type)
  calculate_key_id (private_ec j k d) = err (gose_error GoseError.unsupported_key_type)

-- what a key ID stands for
pub data KeyIdentity : Type 0 where
  rsa_identity : (n e : ℕ) → KeyIdentity
  ec_identity : (x y : ℕ) → KeyIdentity
  oct_identity : Bytes → KeyIdentity

abbrev pub identity : Jwk → Option KeyIdentity
identity (public_rsa j k) = some (rsa_identity k.n k.e)
identity (public_ec j k) = some (ec_identity k.x k.y)
identity (oct_secret j k) = some (oct_identity k)
identity (private_rsa j k s) = none
identity (private_ec j k d) = none

encoded : KeyIdentity → Bytes
encoded (rsa_identity n e) = encoded_rsa n e
encoded (ec_identity x y) = encoded_ec x y
encoded (oct_identity k) = encoded_oct k

-- the key ID of what it stands for
id_of : Crypto → Option KeyIdentity → Result String
unfolding encoded
id_of crypto none = err (gose_error GoseError.unsupported_key_type)
id_of crypto (some i) = ok (digest_id crypto (encoded i))

calculate_key_id-id_of :
    (crypto : Crypto) (jwk : Jwk) → calculate_key_id crypto jwk ≡ id_of crypto (identity jwk)
unfolding calculate_key_id id_of encoded
calculate_key_id-id_of crypto (public_rsa j k) = refl
calculate_key_id-id_of crypto (public_ec j k) = refl
calculate_key_id-id_of crypto (oct_secret j k) = refl
calculate_key_id-id_of crypto (private_rsa j k s) = refl
calculate_key_id-id_of crypto (private_ec j k d) = refl

pub calculate_key_id-identity :
    (crypto : Crypto) (a b : Jwk)
    → identity a ≡ identity b
    → calculate_key_id crypto a ≡ calculate_key_id crypto b
calculate_key_id-identity crypto a b h =
    cc (calculate_key_id-id_of crypto a, calculate_key_id-id_of crypto b, h)

-- the bytes of a symmetric key are bytes
abbrev pub IsProper : Jwk → Type 0
IsProper (oct_secret j k) = IsBytes k
IsProper _ = Unit

abbrev IsProperIdentity : KeyIdentity → Type 0
IsProperIdentity (oct_identity k) = IsBytes k
IsProperIdentity _ = Unit

encode_injective : (s t : Bytes) → IsBytes s → IsBytes t → encode s ≡ encode t → s ≡ t
encode_injective s t hs ht h =
    let e : some s ≡ some t = cc (decode-encode s hs, decode-encode t ht, ap decode h) in cc e

number_injective : (m n : ℕ) → encode (big_bytes m) ≡ encode (big_bytes n) → m ≡ n
number_injective m n h =
    big_bytes_injective m n
      (encode_injective (big_bytes m) (big_bytes n) (big_bytes-IsBytes m) (big_bytes-IsBytes n) h)

-- five parts joined, of which the first three are the same
five_injective :
    (kind a b c d : Bytes)
    → Lacks b'.' kind
    → join b'.' (version_1 ∷ codes "jwk" ∷ kind ∷ encode a ∷ encode b ∷ [])
      ≡ join b'.' (version_1 ∷ codes "jwk" ∷ kind ∷ encode c ∷ encode d ∷ [])
    → (encode a ≡ encode c) × (encode b ≡ encode d)
five_injective kind a b c d lacks h =
    let v : Lacks b'.' version_1 = ground arith in
    let w : Lacks b'.' (codes "jwk") = ground arith in
    let e =
      join_injective b'.' version_1 version_1 (codes "jwk" ∷ kind ∷ encode a ∷ encode b ∷ [])
        (codes "jwk" ∷ kind ∷ encode c ∷ encode d ∷ []) (v, (w, (lacks, (encode-Lacks a, tt))))
        (v, (w, (lacks, (encode-Lacks c, tt)))) refl h in
    (cc e, cc e)

-- the first byte of the key type, behind "v1.jwk."
kind_of : Bytes → ℕ
kind_of (_ ∷ _ ∷ _ ∷ _ ∷ _ ∷ _ ∷ _ ∷ b ∷ _) = b
kind_of _ = 0

encoded_injective :
    (a b : KeyIdentity) → IsProperIdentity a → IsProperIdentity b → encoded a ≡ encoded b → a ≡ b
unfolding encoded encoded_rsa encoded_ec encoded_oct join kind_of
encoded_injective (rsa_identity n e) (rsa_identity n' e') pa pb h =
    let (p, q) =
      five_injective (codes kty_rsa) (big_bytes n) (big_bytes e) (big_bytes n') (big_bytes e')
        (ground arith) h in
    cc (number_injective n n' p, number_injective e e' q)
encoded_injective (ec_identity n e) (ec_identity n' e') pa pb h =
    let (p, q) =
      five_injective (codes kty_ec) (big_bytes n) (big_bytes e) (big_bytes n') (big_bytes e')
        (ground arith) h in
    cc (number_injective n n' p, number_injective e e' q)
encoded_injective (oct_identity k) (oct_identity k') pa pb h =
    cc (encode_injective k k' pa pb (cc h))
encoded_injective (rsa_identity n e) (ec_identity n' e') pa pb h =
    let e : b'R' ≡ b'E' = ap kind_of h in absurd (omega (arith, e))
encoded_injective (rsa_identity n e) (oct_identity k) pa pb h =
    let e : b'R' ≡ b'o' = ap kind_of h in absurd (omega (arith, e))
encoded_injective (ec_identity n e) (rsa_identity n' e') pa pb h =
    let e : b'E' ≡ b'R' = ap kind_of h in absurd (omega (arith, e))
encoded_injective (ec_identity n e) (oct_identity k) pa pb h =
    let e : b'E' ≡ b'o' = ap kind_of h in absurd (omega (arith, e))
encoded_injective (oct_identity k) (rsa_identity n' e') pa pb h =
    let e : b'o' ≡ b'R' = ap kind_of h in absurd (omega (arith, e))
encoded_injective (oct_identity k) (ec_identity n' e') pa pb h =
    let e : b'o' ≡ b'E' = ap kind_of h in absurd (omega (arith, e))

-- two texts that the hash confuses
abbrev pub Collision : Crypto → Type 0
Collision crypto =
    (s : Bytes) × (t : Bytes) × (s ≢ t) × (crypto.digest sha256 s ≡ crypto.digest sha256 t)

digest_id_injective :
    (crypto : Crypto) (s t : Bytes)
    → ((h : Hash) (b : Bytes) → IsBytes (crypto.digest h b))
    → digest_id crypto s ≡ digest_id crypto t
    → (s ≡ t) ⊎ Collision crypto
unfolding digest_id
digest_id_injective crypto s t bytes h =
    let same =
      hex_injective (crypto.digest sha256 s) (crypto.digest sha256 t) (bytes sha256 s)
        (bytes sha256 t) h in
    elim (Bool-cases (bytes_eq s t)) [
      | inl e ↦ inl (bytes_eq→eq s t e)
      | inr e ↦ inr (s, t, (λ p. cc (e, bytes_eq_refl s, p)), same)
    ]

identity_text :
    (crypto : Crypto) (jwk : Jwk) (id : String)
    → calculate_key_id crypto jwk ≡ ok id
    → (i : KeyIdentity) × (identity jwk ≡ some i)
      × (id ≡ digest_id crypto (encoded i))
      × (IsProper jwk → IsProperIdentity i)
unfolding calculate_key_id encoded
identity_text crypto (public_rsa j k) id h = (_, refl, cc h, (λ p. p))
identity_text crypto (public_ec j k) id h = (_, refl, cc h, (λ p. p))
identity_text crypto (oct_secret j k) id h = (_, refl, cc h, (λ p. p))
identity_text crypto (private_rsa j k s) id h = cc h
identity_text crypto (private_ec j k d) id h = cc h

-- Two keys, public or symmetric, that `CalculateKeyID` gives the same key ID have the same key
-- material, modulus and exponent, coordinates or bytes, unless SHA-256 maps two texts to one digest.
-- Conversely the key ID depends on the key material alone. The hash is taken to give bytes, and the
-- symmetric keys to consist of bytes.
pub calculate_key_id_injective :
    (crypto : Crypto) (a b : Jwk) (i j : String)
    → ((h : Hash) (t : Bytes) → IsBytes (crypto.digest h t))
    → IsProper a
    → IsProper b
    → calculate_key_id crypto a ≡ ok i
    → calculate_key_id crypto b ≡ ok j
    → (i ≡ j → (identity a ≡ identity b) ⊎ Collision crypto) × (identity a ≡ identity b → i ≡ j)
calculate_key_id_injective crypto a b i j bytes pa pb ha hb =
    let (ka, ea, ta, qa) = identity_text crypto a i ha in
    let (kb, eb, tb, qb) = identity_text crypto b j hb in
    (
      (λ same.
          elim (digest_id_injective crypto (encoded ka) (encoded kb) bytes (cc (same, ta, tb))) [
            | inl e ↦ let k = encoded_injective ka kb (qa pa) (qb pb) e in inl (cc (k, ea, eb))
            | inr c ↦ inr c
          ]),
      (λ same. let k : ka ≡ kb = cc (same, ea, eb) in cc (ta, tb, k)),
    )
