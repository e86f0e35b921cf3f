-- ===== src/Jose/Jwk.antt =====
-- jose/jwk.go: the JSON Web Keys, their accessors, and the checks that parsing makes.
pub mod Consistency
pub mod Parse
use gose.Prelude.{
  ℕ, String, Bool, true, false, Option, none, some, List, [], ◌∷◌, ◌++◌, map, ltb, ◌==◌, ◌&&◌,
  str_eq, if◌then◌else◌, length,
}
use gose.Bytes.{Bytes, bytes_eq}
use gose.Error.{
  Checked, ok, err, jose_error, panics, too_many_key_ops, duplicate_key_ops,
  jwk_inconsistent_certificate_fields, jwk_certificate_key_mismatch,
}
use gose.Jose.Types.{KeyOps, KeyUse, Alg, Crv}
use gose.Crypto.{
  Certificate, CertificateKey, rsa_certificate_key, ecdsa_certificate_key, Crypto, sha1,
}

abbrev pub Kty : Type 0
Kty = String

abbrev pub kty_rsa : Kty
kty_rsa = "RSA"

abbrev pub kty_ec : Kty
kty_ec = "EC"

abbrev pub kty_oct : Kty
kty_oct = "oct"

-- `jwkFields`; a certificate is a pointer, which may be nil
pub record JwkFields : Type 0 where
  pub key_use : KeyUse
  pub key_ops : List KeyOps
  pub key_alg : Alg
  pub key_kid : String
  pub key_x5c : List (Option Certificate)
  pub key_x5t : Option Bytes

pub record PublicRsaKeyFields : Type 0 where
  pub n : ℕ
  pub e : ℕ

pub record PrivateRsaKeyFields : Type 0 where
  pub d : ℕ
  pub p : ℕ
  pub q : ℕ
  pub dp : ℕ
  pub dq : ℕ
  pub qi : ℕ

pub record PublicEcKeyFields : Type 0 where
  pub crv : Crv
  pub x : ℕ
  pub y : ℕ

pub data Jwk : Type 0 where
  public_rsa : JwkFields → PublicRsaKeyFields → Jwk
  private_rsa : JwkFields → PublicRsaKeyFields → PrivateRsaKeyFields → Jwk
  public_ec : JwkFields → PublicEcKeyFields → Jwk
  private_ec : JwkFields → PublicEcKeyFields → ℕ → Jwk
  oct_secret : JwkFields → Bytes → Jwk

abbrev pub fields : Jwk → JwkFields
fields (public_rsa j k) = j
fields (private_rsa j k s) = j
fields (public_ec j k) = j
fields (private_ec j k d) = j
fields (oct_secret j k) = j

abbrev pub with_fields : JwkFields → Jwk → Jwk
with_fields j (public_rsa _ k) = public_rsa j k
with_fields j (private_rsa _ k s) = private_rsa j k s
with_fields j (public_ec _ k) = public_ec j k
with_fields j (private_ec _ k d) = private_ec j k d
with_fields j (oct_secret _ k) = oct_secret j k

abbrev pub kty : Jwk → Kty
kty (public_rsa j k) = kty_rsa
kty (private_rsa j k s) = kty_rsa
kty (public_ec j k) = kty_ec
kty (private_ec j k d) = kty_ec
kty (oct_secret j k) = kty_oct

abbrev pub ops : Jwk → List KeyOps
ops jwk = (fields jwk).key_ops

abbrev pub alg : Jwk → Alg
alg jwk = (fields jwk).key_alg

abbrev pub kid : Jwk → String
kid jwk = (fields jwk).key_kid

abbrev pub x5c : Jwk → List (Option Certificate)
x5c jwk = (fields jwk).key_x5c

abbrev pub set_ops : List KeyOps → Jwk → Jwk
set_ops value jwk = with_fields (record (fields jwk) { key_ops = value }) jwk

abbrev pub set_alg : Alg → Jwk → Jwk
set_alg value jwk = with_fields (record (fields jwk) { key_alg = value }) jwk

abbrev pub set_kid : String → Jwk → Jwk
set_kid value jwk = with_fields (record (fields jwk) { key_kid = value }) jwk

-- the chain is appended to the one that is there
abbrev pub set_x5c : List (Option Certificate) → Jwk → Jwk
set_x5c chain jwk = with_fields (record (fields jwk) { key_x5c = x5c jwk ++ chain }) jwk

abbrev pub max_key_ops : ℕ
max_key_ops = 64

-- a lookup in the set `seen`
seen_before : KeyOps → List KeyOps → Bool
seen_before op [] = false
seen_before op (s ∷ seen) = if str_eq s op then true else seen_before op seen

has_duplicate : List KeyOps → List KeyOps → Bool
unfolding seen_before
has_duplicate seen [] = false
has_duplicate seen (op ∷ rest) =
    if seen_before op seen then true else has_duplicate (op ∷ seen) rest

check_fingerprint : Crypto → List (Option Certificate) → Option Bytes → Checked
check_fingerprint crypto [] x5t = ok tt
check_fingerprint crypto (c ∷ chain) none = ok tt
check_fingerprint crypto (none ∷ chain) (some digest) = err (panics "nil certificate")
check_fingerprint crypto (some c ∷ chain) (some digest) =
    if bytes_eq (crypto.digest sha1 c.raw) digest
    then ok tt
    else err (jose_error jwk_inconsistent_certificate_fields)

-- `CheckConsistency`
unfoldable pub check_consistency : Crypto → JwkFields → Checked
unfolding has_duplicate check_fingerprint
check_consistency crypto j =
    if ltb max_key_ops (length j.key_ops)
    then err (jose_error too_many_key_ops)
    else if has_duplicate [] j.key_ops
    then err (jose_error duplicate_key_ops)
    else check_fingerprint crypto j.key_x5c j.key_x5t

rsa_certifies : PublicRsaKeyFields → CertificateKey → Bool
rsa_certifies k (rsa_certificate_key pub_key) = pub_key.n == k.n && pub_key.e == k.e
rsa_certifies k _ = false

ec_certifies : PublicEcKeyFields → CertificateKey → Bool
ec_certifies k (ecdsa_certificate_key name x y) =
    x == k.x && y == k.y && (if str_eq k.crv "" then true else str_eq name k.crv)
ec_certifies k _ = false

-- the leaf of a chain (`x5cLeaf`), and what is compared with its key
leaf_matches : (CertificateKey → Bool) → List (Option Certificate) → Checked
leaf_matches certifies [] = ok tt
leaf_matches certifies (none ∷ chain) = err (jose_error jwk_inconsistent_certificate_fields)
leaf_matches certifies (some leaf ∷ chain) =
    if certifies leaf.public_key then ok tt else err (jose_error jwk_certificate_key_mismatch)

-- `checkX5CMatchesKey`, over what the key type compares with the leaf's key
check_x5c_matches_key : (CertificateKey → Bool) → JwkFields → Checked
unfolding leaf_matches
check_x5c_matches_key certifies j = leaf_matches certifies j.key_x5c

unfoldable pub check_rsa : PublicRsaKeyFields → JwkFields → Checked
unfolding rsa_certifies check_x5c_matches_key
check_rsa k j = check_x5c_matches_key (rsa_certifies k) j

unfoldable pub check_ec : PublicEcKeyFields → JwkFields → Checked
unfolding ec_certifies check_x5c_matches_key
check_ec k j = check_x5c_matches_key (ec_certifies k) j
