-- ===== src/Identity/UpdatePassword.antt =====
-- services/identity/src/services/update_password.rs
pub mod Changes
use home_ryanseipp.Prelude.{String, Option, map_err}
use home_ryanseipp.Prelude.Text.{◌⧺◌}
use home_ryanseipp.Effect.{
  Env, Uuid, Bytes, DbError, Act, lift, ask, ◌>>=◌, ◌>>◌, map_error, pool_get, statement,
  transaction,
}
use home_ryanseipp.Crypto.Primitives.{Primitives}
use home_ryanseipp.Crypto.Tokens.{PasswordError}
use home_ryanseipp.Identity.Validation.{validate_password}
use home_ryanseipp.Identity.Accounts.{Db, Externals, password_changed}
use home_ryanseipp.Identity.Tables.{update_password_row}
use home_ryanseipp.Identity.Service.{
  OutboxError, utc_now, millis, extract_trace_context, insert_event, get_user_by_id, hash_blocking,
  verify_blocking, or_fail, message,
}

pub data UpdatePasswordError : Type 0 where
  db : DbError → UpdatePasswordError
  pool : UpdatePasswordError
  password : PasswordError → UpdatePasswordError
  outbox : OutboxError → UpdatePasswordError
  not_found invalid_current_password : UpdatePasswordError
  invalid_new_password : String → UpdatePasswordError

module _ (env : Env) where
  -- the statements between `client.transaction()` and `tx.commit()`
  unfoldable pub replace_password :
      Uuid
      → Uuid
      → String
      → Bytes
      → Option String
      → Option String
      → Act Db UpdatePasswordError (Unit {0})
  replace_password user_id outbox_id new_hash payload trace_id span_id = do
    map_error db (statement env (update_password_row user_id new_hash))
    map_error outbox
        (insert_event env outbox_id "user" user_id "auth_email" payload trace_id span_id)

  unfoldable pub execute :
      Primitives → Externals → Uuid → String → String → Act Db UpdatePasswordError (Unit {0})
  execute p x user_id current_password new_password = do
    lift (map_err invalid_new_password (validate_password new_password))
    pool_get env pool
    found ← map_error db (get_user_by_id env user_id)
    user ← or_fail not_found found
    verify_blocking env p password invalid_current_password current_password user.password_hash
    new_hash ← hash_blocking env p password new_password
    span ← extract_trace_context env
    outbox_id ← ask env.uuid
    produced_at ← utc_now env
    changed_at ← utc_now env
    let event =
        message p outbox_id user.email (user.given_name ⧺ " " ⧺ user.family_name) span.0 span.1
          produced_at (password_changed (millis changed_at) "" "")
    pool_get env pool
    transaction env db
        (replace_password user_id outbox_id new_hash (x.encode_to_vec event) span.0 span.1)
