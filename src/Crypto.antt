-- ===== src/Crypto.antt =====
-- services/identity/src/crypto: keys, tokens and passwords over primitives that other crates
-- implement.
pub mod Primitives
pub mod Keys
pub mod Jwt
pub mod Tokens
pub mod Fips
pub mod Encryption
pub mod Kek
