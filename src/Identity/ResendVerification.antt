-- ===== src/Identity/ResendVerification.antt =====
-- services/identity/src/services/resend_verification.rs
pub mod Sending
pub mod Limits
use home_ryanseipp.Prelude.{
  ℕ, ◌+◌, ◌*◌, String, Bool, true, false, Option, none, some, Result, ok, err, leb, count_p,
  if◌then◌else◌,
}
use home_ryanseipp.Prelude.Text.{◌⧺◌}
use home_ryanseipp.Effect.{
  Env, Uuid, Bytes, Timestamp, DbError, panic, World, Act, pure, fail, ask, ◌>>=◌, ◌>>◌, map_error,
  pool_get, query, transaction,
}
use home_ryanseipp.Crypto.Primitives.{CryptoError, Primitives}
use home_ryanseipp.Identity.Accounts.{
  User, UserStatus, pending_verification, Db, Externals, email_verification,
}
use home_ryanseipp.Identity.Tables.{is_recent}
use home_ryanseipp.Identity.Service.{
  OutboxError, utc_now, new_token, extract_trace_context, insert_token, insert_event,
  get_user_by_email, message,
}
use home_ryanseipp.Identity.SignUp.{token_expires_minutes, one_minute}

abbrev pub max_tokens_per_hour : ℕ
max_tokens_per_hour = 3

pub data ResendVerificationError : Type 0 where
  db : DbError → ResendVerificationError
  pool : ResendVerificationError
  crypto : CryptoError → ResendVerificationError
  outbox : OutboxError → ResendVerificationError
  rate_limited : ResendVerificationError

-- `user.status != UserStatus::PendingVerification`, negated
abbrev pub is_pending : UserStatus → Bool
is_pending pending_verification = true
is_pending _ = false

module _ (env : Env) where
  unfoldable pub count_recent_tokens : Uuid → Act Db DbError ℕ
  count_recent_tokens user_id = query env (λ now d. count_p (is_recent user_id now) d.tokens)

  -- the statements between `client.transaction()` and `tx.commit()`
  unfoldable pub queue_token :
      Uuid
      → Uuid
      → Uuid
      → Bytes
      → Timestamp
      → Bytes
      → Option String
      → Option String
      → Act Db ResendVerificationError (Unit {0})
  queue_token user_id token_id outbox_id token_hash expires_at payload trace_id span_id = do
    map_error db (insert_token env token_id user_id token_hash expires_at)
    map_error outbox
        (insert_event env outbox_id "user" user_id "auth_email" payload trace_id span_id)

  module _ (p : Primitives) (x : Externals) where
    -- what follows the rate limit
    unfoldable pub send_token : User → String → Act Db ResendVerificationError (Unit {0})
    send_token user web_base_url = do
      token_id ← ask env.uuid
      outbox_id ← ask env.uuid
      token ← new_token env p crypto
      now ← utc_now env
      span ← extract_trace_context env
      produced_at ← utc_now env
      let verification_link = web_base_url ⧺ "/verify-email?token=" ⧺ token.0
      let event =
          message p outbox_id user.email (user.given_name ⧺ " " ⧺ user.family_name) span.0 span.1
            produced_at (email_verification token.0 verification_link token_expires_minutes)
      transaction env db (
          queue_token user.id token_id outbox_id token.1 (now + token_expires_minutes * one_minute)
            (x.encode_to_vec event) span.0 span.1)

    -- what follows the lookup of a user
    unfoldable pub resend_to : User → String → Act Db ResendVerificationError (Unit {0})
    resend_to user web_base_url =
        if is_pending user.status
        then (do
          recent_count ← map_error db (count_recent_tokens user.id)
          if leb max_tokens_per_hour recent_count
              then fail rate_limited
              else send_token user web_base_url)
        else pure tt

    -- `let Ok(Some(user)) = … else { return Ok(()) }`: an error of the query ends well too, but a
    -- panic goes on
    abbrev pub found_or_done :
        String
        → Result DbError (Option User) × World Db
        → Result ResendVerificationError (Unit {0}) × World Db
    found_or_done web_base_url (ok (some user), w) = resend_to user web_base_url w
    found_or_done web_base_url (ok none, w) = (ok tt, w)
    found_or_done web_base_url (err panic, w) = (err (db panic), w)
    found_or_done web_base_url (err _, w) = (ok tt, w)

    unfoldable pub lookup_and_resend : String → String → Act Db ResendVerificationError (Unit {0})
    lookup_and_resend email web_base_url w =
        found_or_done web_base_url (get_user_by_email env x email w)

    unfoldable pub execute : String → String → Act Db ResendVerificationError (Unit {0})
    execute email web_base_url = do pool_get env pool; lookup_and_resend email web_base_url
