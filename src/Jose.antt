-- ===== src/Jose.antt =====
-- Package jose: the JOSE data types and their serialisations.
pub mod Types
pub mod Jwk
pub mod Jwks
pub mod Jws
pub mod Jwt
pub mod Jwe
