-- ===== src/Crypto.antt =====
-- The cryptography of Go's standard library that the program calls: a parameter of the model. The
-- certificates are `crypto/x509`'s, of which the program reads three parts.
use gose.Prelude.{ℕ, Bool, String}
use gose.Bytes.{Bytes}
use gose.Error.{Result}

-- `crypto.Hash`; `no_hash` is `crypto.Hash(0)`
pub data Hash : Type 0 where
  no_hash sha1 sha256 sha384 sha512 : Hash

-- `elliptic.Curve`: the three that the program names, and any other by its parameters
pub data Curve : Type 0 where
  p256 p384 p521 : Curve
  other_curve : (name : String) → (bits : ℕ) → Curve

-- `curve.Params().BitSize`
unfoldable pub bit_size : Curve → ℕ
bit_size p256 = 256
bit_size p384 = 384
bit_size p521 = 521
bit_size (other_curve name bits) = bits

-- `curve.Params().Name`
unfoldable pub curve_name : Curve → String
curve_name p256 = "P-256"
curve_name p384 = "P-384"
curve_name p521 = "P-521"
curve_name (other_curve name bits) = name

pub record RsaPublicKey : Type 0 where
  pub n : ℕ
  pub e : ℕ

-- `rsa.PrivateKey` with two primes
pub record RsaPrivateKey : Type 0 where
  pub public : RsaPublicKey
  pub d : ℕ
  pub p : ℕ
  pub q : ℕ

pub record EcPublicKey : Type 0 where
  pub curve : Curve
  pub x : ℕ
  pub y : ℕ

pub record EcPrivateKey : Type 0 where
  pub public : EcPublicKey
  pub d : ℕ

-- `x509.SignatureAlgorithm`
pub data SignatureAlgorithm : Type 0 where
  sha256_with_rsa sha384_with_rsa sha512_with_rsa : SignatureAlgorithm
  sha256_with_rsa_pss sha384_with_rsa_pss sha512_with_rsa_pss : SignatureAlgorithm
  other_signature_algorithm : SignatureAlgorithm

pub data CertificateKey : Type 0 where
  rsa_certificate_key : RsaPublicKey → CertificateKey
  ecdsa_certificate_key : (curve_name : String) → ℕ → ℕ → CertificateKey
  other_certificate_key : CertificateKey

-- `x509.Certificate`
pub record Certificate : Type 0 where
  pub raw : Bytes
  pub signature_algorithm : SignatureAlgorithm
  pub public_key : CertificateKey

-- What the standard library computes. `rsa_precompute` gives Dp, Dq and Qinv, `curve_order` is
-- `Params().N`, and `ecdh_public` gives the encoded public point of an encoded scalar
-- (`NewPrivateKey` and `PublicKey().Bytes()` of crypto/ecdh).
pub record Crypto : Type 0 where
  pub is_available : Hash → Bool
  pub digest : Hash → Bytes → Bytes
  pub verify_pss : RsaPublicKey → Hash → (salt_length : ℕ) → Bytes → Bytes → Bool
  pub verify_pkcs1v15 : RsaPublicKey → Hash → Bytes → Bytes → Bool
  pub ecdsa_verify : EcPublicKey → Bytes → ℕ → ℕ → Bool
  pub rsa_validate : RsaPrivateKey → Result (Unit {0})
  pub rsa_precompute : RsaPrivateKey → ℕ × ℕ × ℕ
  pub curve_order : Curve → ℕ
  pub ecdh_public : Curve → Bytes → Result Bytes
