-- ===== src/Keys/Options.antt =====
-- `algToOptsMap` of signer.go and the types of its entries.
use gose.Prelude.{ℕ, Bool, Dict, get, Option, some, [], ◌∷◌, true}
use gose.Error.{Result, ok, err, require, gose_error, GoseError}
use gose.Crypto.{Hash, sha256, sha384, sha512, Curve, p256, p384, p521}
use gose.Jose.Types.{
  Alg, alg_ps256, alg_ps384, alg_ps512, alg_rs256, alg_rs384, alg_rs512, alg_es256, alg_es384,
  alg_es512,
}

-- `ECDSAOptions`
pub record EcdsaOptions : Type 0 where
  pub hash : Hash
  pub key_size_bytes : ℕ
  pub curve_bits : ℕ
  pub curve : Curve

-- `crypto.SignerOpts`: a `*rsa.PSSOptions`, a `crypto.Hash` or an `*ECDSAOptions`
pub data SignerOpts : Type 0 where
  pss : (salt_length : ℕ) → Hash → SignerOpts
  pkcs1v15 : Hash → SignerOpts
  ecdsa : EcdsaOptions → SignerOpts

-- `opts.HashFunc()`
abbrev pub hash_func : SignerOpts → Hash
hash_func (pss salt h) = h
hash_func (pkcs1v15 h) = h
hash_func (ecdsa o) = o.hash

abbrev pub es256_opts : EcdsaOptions
es256_opts = record { hash = sha256; key_size_bytes = 32; curve_bits = 256; curve = p256 }

abbrev pub es384_opts : EcdsaOptions
es384_opts = record { hash = sha384; key_size_bytes = 48; curve_bits = 384; curve = p384 }

abbrev pub es512_opts : EcdsaOptions
es512_opts = record { hash = sha512; key_size_bytes = 66; curve_bits = 521; curve = p521 }

abbrev pub alg_to_opts_map : Dict SignerOpts
alg_to_opts_map =
    (alg_ps256, pss 32 sha256)
    ∷ (alg_ps384, pss 48 sha384)
    ∷ (alg_ps512, pss 64 sha512)
    ∷ (alg_rs256, pkcs1v15 sha256)
    ∷ (alg_rs384, pkcs1v15 sha384)
    ∷ (alg_rs512, pkcs1v15 sha512)
    ∷ (alg_es256, ecdsa es256_opts)
    ∷ (alg_es384, ecdsa es384_opts)
    ∷ (alg_es512, ecdsa es512_opts)
    ∷ []

unfoldable pub opts_for_alg : Alg → Option SignerOpts
unfolding get
opts_for_alg alg = get alg alg_to_opts_map

-- `signerOptsForAlg`
unfoldable pub signer_opts_for_alg : Alg → Result SignerOpts
unfolding opts_for_alg
signer_opts_for_alg alg = require (opts_for_alg alg) (gose_error GoseError.invalid_algorithm)

curve_of : Option SignerOpts → Result Curve
curve_of (some (ecdsa o)) = ok o.curve
curve_of _ = err (gose_error GoseError.invalid_key_type)

-- `ecdsaCurveForAlg`: the assertion to `*ECDSAOptions` fails for any other entry and for none
unfoldable pub ecdsa_curve_for_alg : Alg → Result Curve
unfolding curve_of opts_for_alg
ecdsa_curve_for_alg alg = curve_of (opts_for_alg alg)

-- `pssAlgs`
abbrev pub pss_algs : Dict Bool
pss_algs = (alg_ps256, true) ∷ (alg_ps384, true) ∷ (alg_ps512, true) ∷ []
