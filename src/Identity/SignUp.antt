-- ===== src/Identity/SignUp.antt =====
-- services/identity/src/services/sign_up.rs
pub mod Atomicity
pub mod Registration
use home_ryanseipp.Prelude.{
  ℕ, ◌+◌, ◌*◌, String, Bool, false, Option, none, some, List, Result, ok, err, map_err, ok_or,
  str_eq, is_none, if◌then◌else◌,
}
use home_ryanseipp.Prelude.Text.{◌⧺◌}
use text.Mathlib.Text.{find?}
use home_ryanseipp.Effect.{
  Env, Uuid, Bytes, Timestamp, DbError, connection, constraint, panic, Act, pure, fail, lift, ask,
  ◌>>=◌, ◌>>◌, map_error, pool_get, statement, transaction,
}
use home_ryanseipp.Crypto.Primitives.{CryptoError, Primitives}
use home_ryanseipp.Crypto.Tokens.{PasswordError}
use home_ryanseipp.Identity.Validation.{validate_username, validate_email, validate_password}
use home_ryanseipp.Identity.Accounts.{
  UserRow, Db, Externals, as_str, pending_verification, email_verification,
}
use home_ryanseipp.Identity.Tables.{insert_user_row}
use home_ryanseipp.Identity.Service.{
  OutboxError, utc_now, new_token, extract_trace_context, insert_token, insert_event, hash_blocking,
  message,
}

abbrev pub token_expires_minutes : ℕ
token_expires_minutes = 60

-- One minute in microseconds.
abbrev pub one_minute : ℕ
one_minute = 60 * 1_000_000

pub data SignUpError : Type 0 where
  db : DbError → SignUpError
  pool : SignUpError
  password : PasswordError → SignUpError
  crypto : CryptoError → SignUpError
  outbox : OutboxError → SignUpError
  username_taken email_taken password_required password_too_short : SignUpError
  password_too_long invalid_username invalid_email : SignUpError

-- `if e.contains("at least") { PasswordTooShort } else { PasswordTooLong }`
unfoldable pub password_rule_error : String → SignUpError
password_rule_error e =
    if is_none (find? e "at least") then password_too_long else password_too_short

-- The input checks, which give the password back.
unfoldable pub validate_input : String → String → Option String → Result SignUpError String
validate_input username email given = elim (validate_username username) [
  | err _ ↦ err invalid_username
  | ok _ ↦ elim (validate_email email) [
    | err _ ↦ err invalid_email
    | ok _ ↦ elim given [
      | none ↦ err password_required
      | some pw ↦ elim (validate_password pw) [ err e ↦ err (password_rule_error e) | ok _ ↦ ok pw ]
    ]
  ]
]

-- the closure of `insert_user` on a database error
abbrev pub insert_user_error : DbError → SignUpError
insert_user_error (constraint name) =
    if str_eq name "idx_users_username"
    then username_taken
    else if str_eq name "idx_users_email"
    then email_taken
    else db (constraint name)
insert_user_error connection = db connection
insert_user_error panic = db panic

module _ (env : Env) (p : Primitives) (x : Externals) where
  -- `insert_user`; the other columns have the defaults of the migration
  unfoldable pub insert_user :
      Uuid → String → String → String → String → String → Act Db SignUpError (Unit {0})
  insert_user id username email given_name family_name password_hash = map_error insert_user_error (
      statement env (λ now. insert_user_row x.lower (record {
        id = id;
        username = username;
        email = email;
        given_name = given_name;
        family_name = family_name;
        password_hash = password_hash;
        email_verified = false;
        status = "pending_verification";
        created_at = now;
        updated_at = now;
        deleted_at = none;
      })))

  -- the statements between `client.transaction()` and `tx.commit()`
  unfoldable pub register :
      Uuid
      → Uuid
      → Uuid
      → String
      → String
      → String
      → String
      → String
      → Bytes
      → Timestamp
      → Bytes
      → Option String
      → Option String
      → Act Db SignUpError (Unit {0})
  register user_id token_id outbox_id username email given_name family_name password_hash token_hash
        expires_at payload trace_id span_id =
      do
        insert_user user_id username email given_name family_name password_hash
        map_error db (insert_token env token_id user_id token_hash expires_at)
        map_error outbox
            (insert_event env outbox_id "user" user_id "auth_email" payload trace_id span_id)

  unfoldable pub execute :
      String → String → String → String → Option String → String → Act Db SignUpError (Unit {0})
  execute username email given_name family_name password_given web_base_url = do
    pw ← lift (validate_input username email password_given)
    password_hash ← hash_blocking env p password pw
    user_id ← ask env.uuid
    token_id ← ask env.uuid
    outbox_id ← ask env.uuid
    token ← new_token env p crypto
    now ← utc_now env
    span ← extract_trace_context env
    produced_at ← utc_now env
    let verification_link = web_base_url ⧺ "/verify-email?token=" ⧺ token.0
    let event =
        message p outbox_id email (given_name ⧺ " " ⧺ family_name) span.0 span.1 produced_at
          (email_verification token.0 verification_link token_expires_minutes)
    pool_get env pool
    transaction env db (
        register user_id token_id outbox_id username email given_name family_name password_hash
          token.1 (now + token_expires_minutes * one_minute) (x.encode_to_vec event) span.0 span.1)
