-- ===== src/Keys.antt =====
-- The keys that sign, verify and encrypt: signer.go, verifier.go, rsa_public.go, rsa_private.go,
-- ecdsa_verifier.go, ecdsa_signer.go, key_generator.go and the key functions of helpers.go.
pub mod Options
pub mod Load
pub mod Verification
pub mod Identity
pub mod Convert
pub mod Symmetric
pub mod Signing
pub mod Documents
pub mod Generator
