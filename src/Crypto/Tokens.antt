-- ===== src/Crypto/Tokens.antt =====
-- services/identity/src/crypto/token.rs and crypto/password.rs. The argon2 and the FIPS build
-- differ only in the hash function, which is a parameter.
use home_ryanseipp.Prelude.{ℕ, String, Option, Result, ok, ok_or, ensure, ◌>>=◌, ◌>>◌}
use home_ryanseipp.Effect.{Bytes}
use home_ryanseipp.Crypto.Primitives.{CryptoError, rng_failure, Primitives}

-- crypto/password.rs
pub data PasswordError : Type 0 where
  hashing_failed verification_failed invalid_format : PasswordError

module _ (p : Primitives) where
  -- The 32 random bytes, or the failure of the generator, are the argument.
  unfoldable pub generate_verification_token : Option Bytes → Result CryptoError (String × Bytes)
  generate_verification_token filled = do
    raw_token ← ok_or rng_failure filled
    ok (p.b64_encode raw_token, p.sha256 raw_token)

  -- The salt is an argument.
  unfoldable pub hash_password : String → ℕ → Result PasswordError String
  hash_password password salt = ok_or hashing_failed (p.phc_hash password salt)

  unfoldable pub verify_password : String → String → Result PasswordError (Unit {0})
  verify_password password phc_hash = do
    ensure (p.accepts_phc phc_hash) invalid_format
    ensure (p.phc_matches password phc_hash) verification_failed
