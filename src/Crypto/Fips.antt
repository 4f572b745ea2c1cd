-- ===== src/Crypto/Fips.antt =====
-- services/identity/src/crypto/password_fips.rs: PBKDF2-HMAC-SHA-256 behind the traits of the crate
-- `password-hash`.
pub mod RoundTrip
use home_ryanseipp.Prelude.{
  ℕ, String, Bool, Option, none, some, List, Result, ok, ok_or, ensure, not, ◌==◌, str_eq, find,
  length, ◌>>=◌, ◌>>◌,
}
use home_ryanseipp.Prelude.Text.{as_bytes}
use home_ryanseipp.Effect.{Bytes}

abbrev pub iterations : ℕ
iterations = 600_000

abbrev pub alg_id : String
alg_id = "pbkdf2-sha256"

-- the errors of `password_hash` that the code makes
pub data HashError : Type 0 where
  output_size param_value_invalid salt_invalid password_mismatch : HashError

-- The crates `aws-lc-rs` and `password-hash`, as the code uses them: `pbkdf2::derive` (iterations,
-- salt, password, length) and `pbkdf2::verify`, `Output::new`, and `ParamsString` with its entries, each a name
-- and a value that may be a decimal number.
pub record Pbkdf2 : Type 1 where
  pub derive : ℕ → Bytes → Bytes → ℕ → Bytes
  pub verify : ℕ → Bytes → Bytes → Bytes → Bool
  pub output_new : Bytes → Option Bytes
  pub ParamsString : Type 0
  pub empty_params : ParamsString
  pub add_decimal : ParamsString → String → ℕ → Option ParamsString
  pub iter : ParamsString → List (String × String)
  pub decimal : String → Option ℕ

module _ (x : Pbkdf2) where
  pub record PasswordHash : Type 0 where
    pub algorithm : String
    pub version : Option ℕ
    pub params : x.ParamsString
    pub salt : Option String
    pub hash : Option Bytes

  -- `hash_password_customized`
  unfoldable pub hash_password_customized : Bytes → String → Result HashError PasswordHash
  hash_password_customized password salt = do
    output ← ok_or output_size (x.output_new (x.derive iterations (as_bytes salt) password 32))
    params ← ok_or param_value_invalid (x.add_decimal x.empty_params "i" iterations)
    ok (record {
      algorithm = alg_id;
      version = none;
      params = params;
      salt = some salt;
      hash = some output;
    })

  abbrev pub decimal_of : Option (String × String) → Option ℕ
  decimal_of none = none
  decimal_of (some entry) = x.decimal entry.1

  -- `verify_password`, where the first derivation only asks for a count that is not zero
  unfoldable pub verify_password : Bytes → PasswordHash → Result HashError (Unit {0})
  verify_password password h = do
    count ←
        ok_or param_value_invalid
          (decimal_of (find (λ (entry : String × String). str_eq entry.0 "i") (x.iter h.params)))
    salt ← ok_or salt_invalid h.salt
    expected_output ← ok_or output_size h.hash
    ensure (not (count == 0)) param_value_invalid
    ensure (x.verify count (as_bytes salt) password expected_output) password_mismatch
