-- ===== src/Identity/SigningKeys.antt =====
-- The signing keys of services/identity/src/services/mod.rs and get_jwks.rs.
pub mod Soundness
use home_ryanseipp.Prelude.{
  ℕ, String, Bool, not, Option, none, some, List, [], ◌∷◌, map, take, select, count_p, Result, ok,
  err, map_err, ok_or, str_eq, ltb, if◌then◌else◌,
}
use home_ryanseipp.Prelude.Text.{as_bytes}
use home_ryanseipp.Effect.{
  Env, Bytes, DbError, Act, pure, lift, ask, ◌>>=◌, ◌>>◌, map_error, pool_get, statement, query,
}
use home_ryanseipp.Crypto.Primitives.{CryptoError, key_not_found, Algorithm, es256, Jwk, Primitives}
use home_ryanseipp.Crypto.Keys.{as_str, parse_algorithm, generate_key_pair}
use home_ryanseipp.Crypto.Encryption.{
  from_bytes, encrypt_private_key, decrypt_private_key, nonce_len,
}
use home_ryanseipp.Crypto.Jwt.{key_pair_from_pkcs8}
use home_ryanseipp.Identity.Accounts.{Db, KeyRow}
use home_ryanseipp.Identity.Tables.{select_active_key, is_active_key, insert_key_row}
use home_ryanseipp.Identity.Service.{or_fail}

pub record ActiveSigningKey : Type 0 where
  pub kid : String
  pub algorithm : Algorithm
  pub key_pair : Bytes

pub data SigningKeyError : Type 0 where
  key_db : DbError → SigningKeyError
  key_pool json : SigningKeyError
  key_crypto : CryptoError → SigningKeyError

pub data GetJwksError : Type 0 where
  jwks_db : DbError → GetJwksError
  jwks_pool serialization : GetJwksError

abbrev first_bytes : ℕ → Option Bytes → Option Bytes
first_bytes n none = none
first_bytes n (some b) = some (take n b)

-- Every text is read as a JWK, or the first that cannot be read fails.
abbrev pub read_jwks : Primitives → List String → Result GetJwksError (List Jwk)
read_jwks p [] = ok []
read_jwks p (s ∷ ss) = elim (p.jwk_of_json s) [
  | none ↦ err serialization
  | some jwk ↦ elim (read_jwks p ss) [ ok jwks ↦ ok (jwk ∷ jwks) | err e ↦ err e ]
]

-- SELECT public_jwk FROM signing_keys WHERE status != 'revoked'
abbrev pub is_not_revoked : KeyRow → Bool
is_not_revoked k = not (str_eq k.status "revoked")

unfoldable pub select_public_jwks : Db → List String
select_public_jwks d = map (λ (k : KeyRow). k.public_jwk) (select is_not_revoked d.signing_keys)

module _ (env : Env) (p : Primitives) where
  -- `get_active_signing_key`
  unfoldable pub get_active_signing_key : Bytes → Act Db CryptoError ActiveSigningKey
  get_active_signing_key kek = do
    pool_get env key_not_found
    found ← map_error (λ _. key_not_found) (query env (λ _ d. select_active_key d))
    row ← or_fail key_not_found found
    algorithm ← lift (parse_algorithm row.algorithm)
    encrypted ← lift (from_bytes row.encrypted_private_key)
    pkcs8_der ← lift (decrypt_private_key p kek encrypted (as_bytes row.kid))
    key_pair ← lift (key_pair_from_pkcs8 p algorithm pkcs8_der)
    pure (record { kid = row.kid; algorithm = algorithm; key_pair = key_pair })

  -- what `ensure_signing_key` does if there is no active key
  unfoldable pub create_signing_key : Bytes → Act Db SigningKeyError (Unit {0})
  create_signing_key kek = do
    made ← ask (λ n. generate_key_pair p es256 n (env.uuid n))
    generated ← lift (map_err key_crypto made)
    filled ← ask env.rand
    encrypted ← lift (
        map_err key_crypto (
          encrypt_private_key p kek generated.private_key_pkcs8 (as_bytes generated.kid)
            (first_bytes nonce_len filled)))
    public_jwk_json ← lift (ok_or json (p.jwk_to_json generated.public_jwk))
    map_error key_db (
        statement env (λ now. insert_key_row (record {
          kid = generated.kid;
          algorithm = as_str generated.algorithm;
          encrypted_private_key = encrypted.data_bytes;
          public_jwk = public_jwk_json;
          status = "active";
          created_at = now;
        })))

  -- `ensure_signing_key`
  unfoldable pub ensure_signing_key : Bytes → Act Db SigningKeyError (Unit {0})
  ensure_signing_key kek = do
    pool_get env key_pool
    count ← map_error key_db (query env (λ _ (d : Db). count_p is_active_key d.signing_keys))
    if ltb 0 count then pure tt else create_signing_key kek

  -- `list_public_jwks`
  unfoldable pub list_public_jwks : Act Db GetJwksError (List Jwk)
  list_public_jwks = do
    pool_get env jwks_pool
    rows ← map_error jwks_db (query env (λ _ d. select_public_jwks d))
    lift (read_jwks p rows)

  -- get_jwks.rs, `execute`
  unfoldable pub get_jwks : Act Db GetJwksError String
  get_jwks = do
    public_keys ← list_public_jwks
    lift (ok_or serialization (p.jwk_set_to_json public_keys))
