-- ===== src/Identity/VerifyEmail.antt =====
-- services/identity/src/services/verify_email.rs
pub mod Activation
pub mod SingleUse
use home_ryanseipp.Prelude.{
  ℕ, String, Option, none, some, Result, ok, err, ok_or, ltb, ◌==◌, if◌then◌else◌,
}
use home_ryanseipp.Effect.{
  Env, Uuid, Bytes, Timestamp, DbError, Act, pure, fail, lift, ◌>>=◌, ◌>>◌, map_error, pool_get,
  statement, query, transaction,
}
use home_ryanseipp.Crypto.Primitives.{Primitives}
use home_ryanseipp.Identity.Accounts.{TokenRow, Db, as_str, active}
use home_ryanseipp.Identity.Tables.{select_token_by_hash, update_consumed_row, update_verified_row}
use home_ryanseipp.Identity.Service.{utc_now}

pub data VerifyEmailError : Type 0 where
  db : DbError → VerifyEmailError
  pool invalid_token already_consumed user_not_found already_verified : VerifyEmailError

-- `if rows_affected == 0 { return Err(e) }`
abbrev pub some_rows : VerifyEmailError → ℕ → Act Db VerifyEmailError (Unit {0})
some_rows e rows_affected = if rows_affected == 0 then fail e else pure tt

module _ (env : Env) where
  unfoldable pub get_token_by_hash : Bytes → Act Db VerifyEmailError (Option TokenRow)
  get_token_by_hash token_hash = map_error db (query env (λ _ d. select_token_by_hash token_hash d))

  unfoldable pub consume_token : Uuid → Act Db VerifyEmailError (Unit {0})
  consume_token token_id = do
    rows_affected ← map_error db (statement env (update_consumed_row token_id))
    some_rows already_consumed rows_affected

  unfoldable pub mark_email_verified : Uuid → Act Db VerifyEmailError (Unit {0})
  mark_email_verified user_id = do
    rows_affected ← map_error db (statement env (update_verified_row user_id (as_str active)))
    some_rows user_not_found rows_affected

  -- the expiry check and the two updates on the token that was found
  unfoldable pub redeem : TokenRow → Act Db VerifyEmailError (Unit {0})
  redeem token_row = do
    now ← utc_now env
    if ltb token_row.expires_at now
        then fail invalid_token
        else do consume_token token_row.id; mark_email_verified token_row.user_id

  abbrev pub redeem_found : Option TokenRow → Act Db VerifyEmailError (Unit {0})
  redeem_found none = fail invalid_token
  redeem_found (some token_row) = redeem token_row

  -- the statements between `client.transaction()` and `tx.commit()`
  unfoldable pub consume_and_verify : Bytes → Act Db VerifyEmailError (Unit {0})
  consume_and_verify token_hash = do found ← get_token_by_hash token_hash; redeem_found found

  unfoldable pub execute : Primitives → String → Act Db VerifyEmailError (Unit {0})
  execute p raw_token = do
    token_bytes ← lift (ok_or invalid_token (p.b64_decode raw_token))
    pool_get env pool
    transaction env db (consume_and_verify (p.sha256 token_bytes))
