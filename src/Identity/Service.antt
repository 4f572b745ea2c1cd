-- ===== src/Identity/Service.antt =====
-- What the handlers of services/identity/src/services share (services/mod.rs), and the insert of
-- outbox/db.rs.
pub mod Reads
pub mod Inserts
pub mod Tokens
pub mod Passwords
use home_ryanseipp.Prelude.{
  ℕ, ◌+◌, ◌*◌, ◌/◌, String, Bool, Option, none, some, List, Result, ok, err, map_err, unwrap_or,
}
use home_ryanseipp.Prelude.Text.{◌⧺◌}
use home_ryanseipp.Effect.{
  Env, Uuid, Bytes, Timestamp, DbError, connection, constraint, panic, Act, pure, fail, lift, ask,
  ◌>>=◌, ◌>>◌, map_error, pool_get, statement, query,
}
use home_ryanseipp.Crypto.Primitives.{CryptoError, Primitives}
use home_ryanseipp.Crypto.Tokens.{
  PasswordError, hashing_failed, verification_failed, generate_verification_token, hash_password,
  verify_password,
}
use home_ryanseipp.Identity.Accounts.{
  User, UserStatus, UserRow, TokenRow, OutboxRow, Db, Externals, parse_status, AuthEmailMessage,
  Payload,
}
use home_ryanseipp.Identity.Tables.{
  insert_token_row, select_user_by_id, select_user_by_email, insert_outbox_row,
}

-- outbox/error.rs, the variants that a handler can meet
pub data OutboxError : Type 0 where
  db : DbError → OutboxError
  pool : OutboxError

-- The user of a row whose status is read.
abbrev pub user_of : UserRow → UserStatus → User
user_of row status = record {
  id = row.id;
  username = row.username;
  email = row.email;
  given_name = row.given_name;
  family_name = row.family_name;
  password_hash = row.password_hash;
  email_verified = row.email_verified;
  status = status;
  created_at = row.created_at;
  updated_at = row.updated_at;
}

-- `user_from_row`
unfoldable pub user_from_row : UserRow → Result String User
user_from_row row = elim (parse_status row.status) [
  | ok status ↦ ok (user_of row status)
  | err e ↦ err e
]

-- `Some(user_from_row(&r).expect(…))`, or `None`
abbrev pub expect_user : Option UserRow → Act Db DbError (Option User)
expect_user none = pure none
expect_user (some row) = elim (user_from_row row) [
  | ok user ↦ pure (some user)
  | err e ↦ fail panic
]

-- `chrono::Utc::now()`
abbrev pub utc_now : {E : Type 0} → Env → Act Db E Timestamp
utc_now env = ask env.now

-- `timestamp_millis` of a time in microseconds
abbrev pub millis : Timestamp → ℕ
millis t = t / 1_000

-- `task::spawn_blocking(…).await`, which fails if the task does not end
abbrev pub spawn_blocking : {E : Type 0} → Env → E → Act Db E (Unit {0})
spawn_blocking env e = pool_get env e

-- crypto::token::generate_verification_token on the system's generator
unfoldable pub new_token :
    {E : Type 0} → Env → Primitives → (CryptoError → E) → Act Db E (String × Bytes)
new_token env p wrap = do
  filled ← ask env.rand
  lift (map_err wrap (generate_verification_token p filled))

module _ (env : Env) where
  -- `extract_trace_context`
  unfoldable pub extract_trace_context : {E : Type 0} → Act Db E (Option String × Option String)
  extract_trace_context = ask (λ n. elim (env.span n) [
    | none ↦ (none, none)
    | some (trace, span) ↦ (some trace, some span)
  ])

  -- `insert_token`
  unfoldable pub insert_token : Uuid → Uuid → Bytes → Timestamp → Act Db DbError (Unit {0})
  insert_token id user_id token_hash expires_at = statement env (λ now. insert_token_row (record {
    id = id;
    user_id = user_id;
    token_hash = token_hash;
    expires_at = expires_at;
    consumed_at = none;
    created_at = now;
  }))

  -- `outbox::db::insert_event`
  unfoldable pub insert_event :
      Uuid
      → String
      → Uuid
      → String
      → Bytes
      → Option String
      → Option String
      → Act Db OutboxError (Unit {0})
  insert_event id aggregate_type aggregate_id event_type payload trace_id span_id = map_error db (
      statement env (λ now. insert_outbox_row (record {
        id = id;
        aggregate_type = aggregate_type;
        aggregate_id = aggregate_id;
        event_type = event_type;
        payload = payload;
        trace_id = trace_id;
        span_id = span_id;
        created_at = now;
        published_at = none;
      })))

  -- `get_user_by_id`
  unfoldable pub get_user_by_id : Uuid → Act Db DbError (Option User)
  get_user_by_id id = do row ← query env (λ _ d. select_user_by_id id d); expect_user row

  -- `get_user_by_email`
  unfoldable pub get_user_by_email : Externals → String → Act Db DbError (Option User)
  get_user_by_email x email = do
    row ← query env (λ _ d. select_user_by_email x.lower email d)
    expect_user row

  -- `task::spawn_blocking(move || crypto::hash_password(…)).await.map_err(…)??`
  unfoldable pub hash_blocking :
      {E : Type 0} → Primitives → (PasswordError → E) → String → Act Db E String
  hash_blocking p wrap password = do
    spawn_blocking env (wrap hashing_failed)
    hashed ← ask (hash_password p password)
    lift (map_err wrap hashed)

  -- `task::spawn_blocking(move || crypto::verify_password(…)).await.map_err(…)?.map_err(…)?`
  unfoldable pub verify_blocking :
      {E : Type 0} → Primitives → (PasswordError → E) → E → String → String → Act Db E (Unit {0})
  verify_blocking p wrap refused password phc_hash = do
    spawn_blocking env (wrap verification_failed)
    lift (map_err (λ _. refused) (verify_password p password phc_hash))

-- `ok_or` on what a query found
abbrev pub or_fail : {E A : Type 0} → E → Option A → Act Db E A
or_fail e none = fail e
or_fail e (some a) = pure a

-- The event of a handler, before it is encoded.
abbrev pub message :
    Primitives
    → Uuid
    → String
    → String
    → Option String
    → Option String
    → Timestamp
    → Payload
    → AuthEmailMessage
message p outbox_id recipient_email recipient_name trace_id span_id now payload = record {
  idempotency_key = p.uuid_to_string outbox_id;
  recipient_email = recipient_email;
  recipient_name = recipient_name;
  trace_id = unwrap_or trace_id "";
  span_id = unwrap_or span_id "";
  produced_at_ms = millis now;
  payload = payload;
}
