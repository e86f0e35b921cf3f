-- ===== src/Keys/Signing/Sound.antt =====
-- ecdsa_signer.go: the serialisation of a signature, the table of algorithms and the gate of `Sign`.
use gose.Prelude.{
  ℕ, ◌+◌, ◌*◌, ◌/◌, ◌^◌, ◌<◌, ◌≡◌, ◌≢◌, refl, true, Option, none, some, List, ◌++◌, arith, inl, inr,
  Has, length, length-append, take, drop, take-append_eq, drop-append_eq, All-append,
}
use gose.Bytes.{Bytes, IsByte, IsBytes}
use gose.Bytes.BigEndian.{from_bytes}
use gose.Bytes.Minimal.{
  big_bytes, left_padded, left_padded-big_bytes, left_padded-IsBytes, big_bytes-IsBytes,
}
use gose.Error.{ok, require, >>=-eq-ok, gose_error, GoseError}
use gose.Crypto.{Crypto, Hash, RsaPrivateKey, EcPrivateKey, bit_size}
use gose.Jose.Types.{KeyOps, Alg, key_ops_sign}
use gose.KeyOps.{permits, valid_signer_ops}
use gose.KeyOps.Policy.{permits_iff}
use gose.Keys.Options.{
  SignerOpts, EcdsaOptions, pss, pkcs1v15, ecdsa, opts_for_alg, signer_opts_for_alg, es256_opts,
  es384_opts, es512_opts, ecdsa_curve_for_alg,
}
use gose.Keys.Convert.{ec_point_from_scalar}
use gose.Keys.Verification.{is_ec_signature_alg}
use gose.Keys.Verification.Usable.{ec_named}
use gose.Keys.Signing.{PrivateCrypto, ecdsa_serialised}

-- What is documented of the signature schemes: a signature verifies under the public key, which for
-- ECDSA is the point of the scalar, an RSA signature consists of bytes, and the two parts of an ECDSA
-- signature are below the group order, so that they fit in the bytes of the curve.
pub record IsSound (crypto : Crypto) (private : PrivateCrypto) : Type 0 where
  pub pss_verifies :
      (v : RsaPrivateKey) (salt : ℕ) (h : Hash) (digest s : Bytes)
      → private.rsa_sign v (pss salt h) digest ≡ ok s
      → crypto.verify_pss v.public h salt digest s ≡ true
  pub pkcs1v15_verifies :
      (v : RsaPrivateKey) (h : Hash) (digest s : Bytes)
      → private.rsa_sign v (pkcs1v15 h) digest ≡ ok s
      → crypto.verify_pkcs1v15 v.public h digest s ≡ true
  pub rsa_bytes :
      (v : RsaPrivateKey) (opts : SignerOpts) (digest s : Bytes)
      → private.rsa_sign v opts digest ≡ ok s
      → IsBytes s
  pub ecdsa_verifies :
      (v : EcPrivateKey) (digest : Bytes) (r s x y : ℕ)
      → private.ecdsa_sign v digest ≡ ok (r, s)
      → ec_point_from_scalar crypto v.public.curve v.d ≡ ok (x, y)
      → crypto.ecdsa_verify (record { curve = v.public.curve; x = x; y = y }) digest r s ≡ true
  pub ecdsa_fits :
      (v : EcPrivateKey) (digest : Bytes) (r s : ℕ)
      → private.ecdsa_sign v digest ≡ ok (r, s)
      → (r < 256 ^ ((bit_size v.public.curve + 7) / 8))
        × (s < 256 ^ ((bit_size v.public.curve + 7) / 8))

-- The serialisation is of twice the length and is split back into the same numbers.
pub ecdsa_serialised_split :
    (n r s : ℕ) (out : Bytes)
    → r < 256 ^ n
    → s < 256 ^ n
    → ecdsa_serialised n (r, s) ≡ ok out
    → (length out ≡ 2 * n) × (from_bytes (take n out) ≡ r) × (from_bytes (drop n out) ≡ s)
unfolding ecdsa_serialised
ecdsa_serialised_split n r s out hr hs h =
    let (a, ea, la, va) = left_padded-big_bytes n r hr in
    let (b, eb, lb, vb) = left_padded-big_bytes n s hs in
    let h₁ = rw ea at h in
    let h₂ : ok (a ++ b) ≡ ok out = rw eb at h₁ in
    let whole : out ≡ a ++ b = cc h₂ in
    (
      rw whole (omega (arith, length-append a b, la, lb)),
      rw (whole, take-append_eq n a b la) va,
      rw (whole, drop-append_eq n a b la) vb,
    )

pub ecdsa_serialised-IsBytes :
    (n r s : ℕ) (out : Bytes) → ecdsa_serialised n (r, s) ≡ ok out → IsBytes out
unfolding ecdsa_serialised
ecdsa_serialised-IsBytes n r s out h =
    let (a, ea, h₁) = >>=-eq-ok (left_padded n (big_bytes r)) _ h in
    let (b, eb, h₂) = >>=-eq-ok (left_padded n (big_bytes s)) _ h₁ in
    let whole : out ≡ a ++ b = cc h₂ in
    rw whole (
      All-append IsByte a b (left_padded-IsBytes n (big_bytes r) a (big_bytes-IsBytes r) ea)
        (left_padded-IsBytes n (big_bytes s) b (big_bytes-IsBytes s) eb))

-- the table's ECDSA entries: the sizes agree with the curve
pub ecdsa_entry :
    (a : Alg) (o : EcdsaOptions)
    → is_ec_signature_alg a ≡ true
    → opts_for_alg a ≡ some (ecdsa o)
    → ((o.curve_bits + 7) / 8 ≡ o.key_size_bytes) × (ecdsa_curve_for_alg a ≡ ok o.curve)
unfolding opts_for_alg ecdsa_curve_for_alg
ecdsa_entry a o named h = elim (ec_named a named) [
  | inl e ↦
      let h' : some (ecdsa es256_opts) ≡ some (ecdsa o) = rw e at h in
      let q : o ≡ es256_opts = cc h' in rw (q, e) (refl, refl)
  | inr (inl e) ↦
      let h' : some (ecdsa es384_opts) ≡ some (ecdsa o) = rw e at h in
      let q : o ≡ es384_opts = cc h' in rw (q, e) (refl, refl)
  | inr (inr (inl e)) ↦
      let h' : some (ecdsa es512_opts) ≡ some (ecdsa o) = rw e at h in
      let q : o ≡ es512_opts = cc h' in rw (q, e) (refl, refl)
  | inr (inr (inr e)) ↦ absurd e
]

pub named_alg : (a : Alg) (opts : SignerOpts) → opts_for_alg a ≡ some opts → a ≢ ""
unfolding opts_for_alg
named_alg a opts h e = let h' : none ≡ some opts = rw e at h in cc h'

pub found_opts :
    (a : Alg) (opts : SignerOpts) → signer_opts_for_alg a ≡ ok opts → opts_for_alg a ≡ some opts
unfolding signer_opts_for_alg
found_opts a opts h = required (opts_for_alg a) h
  where
    required :
        (o : Option SignerOpts)
        → require o (gose_error GoseError.invalid_algorithm) ≡ ok opts
        → o ≡ some opts
    required none h = cc h
    required (some o) h = cc h

-- the gate of `Sign` lets only "sign" through, if the key names it
pub signing_gate :
    (ops : List KeyOps) (requested : KeyOps)
    → permits valid_signer_ops ops requested ≡ true
    → (requested ≡ key_ops_sign) × Has key_ops_sign ops
signing_gate ops requested h =
    let (valid, held) = (permits_iff valid_signer_ops ops requested).0 h in
    let same : requested ≡ key_ops_sign = elim valid [ inl e ↦ e | inr n ↦ absurd n ] in
    (same, rw same at held)
