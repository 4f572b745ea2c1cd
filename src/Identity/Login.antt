-- ===== src/Identity/Login.antt =====
-- services/identity/src/services/login.rs. Timestamps are microseconds, claims count seconds.
pub mod Issues
pub mod Signing
use home_ryanseipp.Prelude.{
  ℕ, ◌+◌, ◌*◌, ◌/◌, String, Bool, true, false, Option, none, some, List, [], Result, ok, err,
  map_err, if◌then◌else◌,
}
use home_ryanseipp.Prelude.Text.{◌⧺◌}
use home_ryanseipp.Effect.{
  Env, Uuid, Bytes, Timestamp, DbError, Act, pure, fail, lift, ask, ◌>>=◌, ◌>>◌, map_error,
  pool_get, statement,
}
use home_ryanseipp.Crypto.Primitives.{CryptoError, Claims, single, Primitives}
use home_ryanseipp.Crypto.Tokens.{PasswordError}
use home_ryanseipp.Crypto.Jwt.{EncodedJwt, sign_jwt}
use home_ryanseipp.Identity.Accounts.{
  User, UserStatus, active, pending_verification, suspended, locked, deleted, Db, Externals,
}
use home_ryanseipp.Identity.Tables.{insert_refresh_row}
use home_ryanseipp.Identity.SigningKeys.{ActiveSigningKey, get_active_signing_key}
use home_ryanseipp.Identity.Service.{
  utc_now, new_token, get_user_by_email, verify_blocking, or_fail,
}

-- One second in microseconds.
abbrev pub one_second : ℕ
one_second = 1_000_000

abbrev pub access_token_lifetime : ℕ
access_token_lifetime = 900 * one_second

abbrev pub id_token_lifetime : ℕ
id_token_lifetime = 900 * one_second

abbrev pub refresh_token_lifetime : ℕ
refresh_token_lifetime = 7 * 24 * 60 * 60 * one_second

abbrev pub issuer_name : String
issuer_name = "https://home.ryanseipp.com"

pub data LoginError : Type 0 where
  login_db : DbError → LoginError
  login_pool invalid_credentials account_not_active no_signing_key : LoginError
  login_crypto : CryptoError → LoginError
  login_password : PasswordError → LoginError

pub record LoginResult : Type 0 where
  pub access_token : String
  pub refresh_token : String
  pub id_token : String
  pub expires_at : Timestamp

-- `user.status != UserStatus::Active`, negated
abbrev pub is_active_status : UserStatus → Bool
is_active_status active = true
is_active_status _ = false

-- the claims of the access token
abbrev pub access_claims : Primitives → User → Timestamp → Uuid → Claims
access_claims p user now jti = record {
  iss = some issuer_name;
  sub = some (p.uuid_to_string user.id);
  aud = some (single "https://api.home.ryanseipp.com");
  exp = some ((now + access_token_lifetime) / one_second);
  nbf = some (now / one_second);
  iat = some (now / one_second);
  jti = some (p.uuid_to_string jti);
  name = none;
  given_name = none;
  family_name = none;
  email = none;
  email_verified = none;
  preferred_username = none;
  custom = [];
}

-- the claims of the id token
abbrev pub id_claims : Primitives → User → Timestamp → Uuid → Claims
id_claims p user now jti = record {
  iss = some issuer_name;
  sub = some (p.uuid_to_string user.id);
  aud = some (single "https://api.home.ryanseipp.com");
  exp = some ((now + id_token_lifetime) / one_second);
  nbf = some (now / one_second);
  iat = some (now / one_second);
  jti = some (p.uuid_to_string jti);
  name = some (user.given_name ⧺ " " ⧺ user.family_name);
  given_name = some user.given_name;
  family_name = some user.family_name;
  email = some user.email;
  email_verified = some user.email_verified;
  preferred_username = some user.username;
  custom = [];
}

module _ (env : Env) (p : Primitives) where
  -- `crypto::jwt::sign_jwt(…)?` with the system's randomness
  unfoldable pub sign_with : ActiveSigningKey → Claims → Act Db LoginError EncodedJwt
  sign_with key claims = do
    signed ← ask (sign_jwt p key.algorithm key.kid claims key.key_pair)
    lift (map_err login_crypto signed)

  -- `insert_refresh_token`
  unfoldable pub insert_refresh_token :
      Uuid → Uuid → Bytes → Timestamp → Act Db LoginError (Unit {0})
  insert_refresh_token id user_id token_hash expires_at = do
    pool_get env login_pool
    map_error login_db (
        statement env (λ now. insert_refresh_row (record {
          id = id;
          user_id = user_id;
          token_hash = token_hash;
          expires_at = expires_at;
          revoked_at = none;
          created_at = now;
        })))

  -- the tokens of a user whose password and status were checked
  unfoldable pub issue_tokens : Bytes → User → Act Db LoginError LoginResult
  issue_tokens kek user = do
    signing_key ← map_error (λ _. no_signing_key) (get_active_signing_key env p kek)
    now ← utc_now env
    access_jti ← ask env.uuid
    access_jwt ← sign_with signing_key (access_claims p user now access_jti)
    id_jti ← ask env.uuid
    id_jwt ← sign_with signing_key (id_claims p user now id_jti)
    refresh ← new_token env p login_crypto
    refresh_token_id ← ask env.uuid
    insert_refresh_token refresh_token_id user.id refresh.1 (now + refresh_token_lifetime)
    pure (record {
      access_token = access_jwt.token;
      refresh_token = refresh.0;
      id_token = id_jwt.token;
      expires_at = now + access_token_lifetime;
    })

  unfoldable pub execute : Externals → String → String → Bytes → Act Db LoginError LoginResult
  execute x email password kek = do
    pool_get env login_pool
    found ← map_error login_db (get_user_by_email env x email)
    user ← or_fail invalid_credentials found
    verify_blocking env p login_password invalid_credentials password user.password_hash
    if is_active_status user.status then issue_tokens kek user else fail account_not_active
