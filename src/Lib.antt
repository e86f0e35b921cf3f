-- ===== src/Lib.antt =====
-- gose, a JOSE library in Go: JSON web keys, signed tokens, encrypted objects and trust stores.
--
-- The package jose (jose/) holds the data types and their serialisations, the package gose (the
-- repository's root) the keys, the trust stores and the verifier. A compact text is bounded, split at
-- its dots and decoded (jose/jws.go, jose/jwe.go); a token is read into a header and claims and
-- checked for form (jose/jwt.go); the verifier (jwt_verifier.go) checks time, audience and key ID,
-- asks a trust store (keystore.go, jwks_truststore.go) for the key of issuer and key ID, and lets
-- that key (verifier.go, rsa_public.go, ecdsa_verifier.go) verify the signature over the text that
-- was received. On the other side the signer (jwt_signer.go) sets the automatic claims and lets a
-- signing key (signer.go, ecdsa_signer.go) sign the written token. Keys are generated
-- (key_generator.go), turned into JWKs and back, and named by a digest (helpers.go). An encrypted
-- object carries its content key encrypted with RSA-OAEP (jwe_key_encryption_encryptor.go,
-- jwe_key_encryption_decryptor.go) or uses a shared key (jwe_direct_encryptor_aead.go,
-- jwe_direct_decryptor_aead.go).
--
-- Which file models what:
--   Error           the error values of errors.go and jose/types.go, and results
--   Bytes           byte strings, and what Go's strings and base64 packages do to them; Bytes/Minimal
--                   the bytes of a big.Int, its padding and the text of `%x`
--   Crypto          Go's cryptography, as a record of functions that the model takes as a parameter
--   Jose/Types      jose/types.go: string types, constants, bounds, and the header of jose/jws.go
--   Jose/Jwk        jose/jwk.go: the keys, CheckConsistency, checkX5CMatchesKey; Jose/Jwk/Parse its
--                   UnmarshalJwk
--   Jose/Jwks       jose/jwks.go
--   Jose/Jws        jose/jws.go: Unmarshal, MarshalBody, MarshalJws, strictCompactB64
--   Jose/Jwt        jose/jwt.go: claims, Verify, Unmarshal, MarshalBody
--   Jose/Jwe        jose/jwe.go: both compact forms
--   KeyOps          helpers.go: isSubset and intersection, and the gate that is made of them
--   Keys/Options    signer.go: algToOptsMap; Keys/Load helpers.go: LoadPublicKey, LoadPrivateKey
--   Keys/Verification
--                   verifier.go: NewVerificationKey; the Verify methods of rsa_public.go and
--                   ecdsa_verifier.go
--   Keys/Identity   helpers.go: CalculateKeyID
--   Keys/Convert    helpers.go: PublicFromPrivate, JwkFromPrivateKey, JwkFromPublicKey
--   Keys/Symmetric  helpers.go: JwkFromSymmetric, loadSymmetricBytes, LoadSymmetricAEAD; the
--                   constructors of aes_gcm_cryptor.go
--   Keys/Signing    signer.go and ecdsa_signer.go: NewSigningKey, Sign, Verifier; rsa_private.go;
--                   Encrypt of rsa_public.go
--   Keys/Documents  helpers.go: LoadJwk, LoadJwkFromFile, LoadJws
--   Keys/Generator  key_generator.go
--   TrustStore      keystore.go: Add, Remove, Get and the constructors
--   Jwks            jwks_truststore.go: Get, lookup, refresh
--   Signer          jwt_signer.go: Sign
--   Verifier        jwt_verifier.go: Verify
--   Aead            aes_gcm_cryptor.go: Open, Seal
--   Aead/Direct     jwe_direct_encryptor_aead.go and jwe_direct_decryptor_aead.go
--   Block           aes_cbc_cryptor.go; Block/Mac hmac_sha_cryptor.go and jwe_hmac_verifier.go;
--                   Block/Direct jwe_direct_encryptor_block.go and jwe_direct_decryptor_block.go
--   KeyEncryption   jwe_key_encryption_decryptor.go and rsa_oaep_alg.go; KeyEncryption/Encryptor
--                   jwe_key_encryption_encryptor.go; KeyEncryption/KeyStore
--                   asymmetric_decryption_key_store.go
--   Examples        each result at a concrete input
--
-- How state and calls are modelled. A method that changes a store takes the store and returns it
-- with its result. A pointer that may be nil is an option, a Go error a value of Error; where a call
-- can panic the model returns the error `panics`, so that nothing is hidden. NewVerificationKey
-- writes to the JWK that it is given, which the trust store shares; the model returns the JWK and
-- the store keeps it. All methods of the trust store run under one mutex, so calls that run at once
-- are a sequence of operations. The fetching store releases its mutex during a fetch: there
-- Jwks/RateLimit has a step relation with one step for each critical section, in which the clock
-- moves on and calls interleave. Its clock counts nanoseconds from the zero time, and a difference
-- of times saturates as time.Time.Sub does.
--
-- Parameters: encoding/json, the cryptography of the standard library, the cipher of an AEAD, a
-- block mode with its chaining state, a keyed hash, the source of random bytes and the network, each
-- a record or a function with the operations that the code calls. What a theorem relies on of them
-- is among its hypotheses.
--
-- Bounds: all recursion is on lists, byte strings or numbers that are given, so no fuel is needed;
-- the splitting of a text takes the number of parts that the code asks for.
--
-- Not modelled: NewHmacShaCryptor, which looks by reflection whether a hash is keyed, PKCS #11 keys
-- (hsm/), PEM output and the marshalling of JWKs. A big.Int of a key is a natural number, since the
-- codecs make no negative one, and an RSA key has two primes. The hash functions that a signature
-- algorithm names are taken to be linked into the program, except where the code itself asks.
mod Prelude
pub mod Error
pub mod Bytes
pub mod Crypto
pub mod Jose
pub mod KeyOps
pub mod Keys
pub mod TrustStore
pub mod Jwks
pub mod Signer
pub mod Verifier
pub mod Aead
pub mod Block
pub mod KeyEncryption
mod Examples
