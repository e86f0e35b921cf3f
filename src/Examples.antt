-- ===== src/Examples.antt =====
-- Examples: each property at a concrete input.
mod Inputs
mod Tokens
mod Fetching
mod Encryption
mod Keys
mod Wrapping
mod Blocks
mod Conversion
mod Signing
