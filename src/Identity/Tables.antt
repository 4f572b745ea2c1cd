-- ===== src/Identity/Tables.antt =====
-- The SQL statements of services/identity/src/services/*.rs and outbox/db.rs on the tables of
-- services/identity/migrations, with the primary keys, unique indexes and foreign keys that the
-- migrations declare. A unique index is checked before a row is written, in the order in which
-- the migrations create the indexes.
pub mod Inserts
pub mod Updates
pub mod Consistency
use home_ryanseipp.Prelude.{
  ℕ, suc, ◌+◌, ◌-◌, ◌*◌, String, Bool, true, false, ◌&&◌, not, Option, none, some, List, [], ◌∷◌,
  ◌++◌, ◌≡◌, find, any, count_p, modify, select, length, take, Result, ok, err, ensure, ◌>>=◌, ◌>>◌,
  is_none, unwrap_or, str_eq, ltb, ◌==◌, if◌then◌else◌, ◌↔◌, arith,
}
use home_ryanseipp.Effect.{Uuid, Bytes, Timestamp, DbError, constraint}
use home_ryanseipp.Identity.Accounts.{
  User, UserRow, TokenRow, RefreshRow, KeyRow, OutboxRow, Db, parse_status, active, as_str,
}

abbrev pub bytes_eq : Bytes → Bytes → Bool
bytes_eq [] [] = true
bytes_eq [] (b ∷ bs) = false
bytes_eq (a ∷ as') [] = false
bytes_eq (a ∷ as') (b ∷ bs) = (a == b) && bytes_eq as' bs

-- `deleted_at IS NULL`
abbrev pub is_live : UserRow → Bool
is_live u = is_none u.deleted_at

-- `WHERE id = $1 AND deleted_at IS NULL`
abbrev pub has_id : Uuid → UserRow → Bool
has_id id u = (u.id == id) && is_live u

module _ (lower : String → String) where
  -- The entries of idx_users_username and idx_users_email: live rows, by the lower-case text.
  abbrev pub has_username : String → UserRow → Bool
  has_username key u = is_live u && str_eq (lower u.username) key

  abbrev pub has_email : String → UserRow → Bool
  has_email key u = is_live u && str_eq (lower u.email) key

  -- INSERT INTO users
  unfoldable pub insert_user_row : UserRow → Db → Result DbError (Unit {0} × Db)
  insert_user_row row db = do
    ensure (not (any (λ (u : UserRow). u.id == row.id) db.users)) (constraint "users_pkey")
    ensure (not (any (has_username (lower row.username)) db.users))
        (constraint "idx_users_username")
    ensure (not (any (has_email (lower row.email)) db.users)) (constraint "idx_users_email")
    ok (tt, record db { users = db.users ++ row ∷ [] })

  -- SELECT … FROM users WHERE LOWER(email) = LOWER($1) AND deleted_at IS NULL
  unfoldable pub select_user_by_email : String → Db → Option UserRow
  select_user_by_email email db = find (has_email (lower email)) db.users

  -- the row that `UPDATE users SET given_name = COALESCE($2, given_name), …` writes
  abbrev pub with_profile :
      Option String → Option String → Option String → Timestamp → UserRow → UserRow
  with_profile given_name family_name username now u = record u {
    given_name = unwrap_or given_name u.given_name;
    family_name = unwrap_or family_name u.family_name;
    username = unwrap_or username u.username;
    updated_at = now;
  }

  -- another live row holds the new username
  abbrev pub is_username_taken : Uuid → Option String → List UserRow → Bool
  is_username_taken id none users = false
  is_username_taken id (some name) users =
      any (has_id id) users
      && any (λ (u : UserRow). not (u.id == id) && has_username (lower name) u) users

  unfoldable pub update_profile_row :
      Uuid
      → Option String
      → Option String
      → Option String
      → Timestamp
      → Db
      → Result DbError (ℕ × Db)
  update_profile_row id given_name family_name username now db = do
    ensure (not (is_username_taken id username db.users)) (constraint "idx_users_username")
    ok (
      count_p (has_id id) db.users,
      record db {
        users = modify (has_id id) (with_profile given_name family_name username now) db.users;
      },
    )

-- SELECT … FROM users WHERE id = $1 AND deleted_at IS NULL
unfoldable pub select_user_by_id : Uuid → Db → Option UserRow
select_user_by_id id db = find (has_id id) db.users

-- UPDATE users SET password_hash = $2, updated_at = NOW()
unfoldable pub update_password_row : Uuid → String → Timestamp → Db → Result DbError (ℕ × Db)
update_password_row id password_hash now db = ok (
  count_p (has_id id) db.users,
  record db {
    users =
        modify (has_id id)
          (λ (u : UserRow). record u { password_hash = password_hash; updated_at = now }) db.users;
  },
)

-- UPDATE users SET email_verified = TRUE, status = $1, updated_at = NOW()
abbrev pub verified : String → Timestamp → UserRow → UserRow
verified status now u = record u { email_verified = true; status = status; updated_at = now }

unfoldable pub update_verified_row : Uuid → String → Timestamp → Db → Result DbError (ℕ × Db)
update_verified_row id status now db = ok (
  count_p (has_id id) db.users,
  record db { users = modify (has_id id) (verified status now) db.users },
)

-- an entry of idx_verification_tokens_hash
abbrev pub is_unconsumed : Bytes → TokenRow → Bool
is_unconsumed hash t = bytes_eq t.token_hash hash && is_none t.consumed_at

-- INSERT INTO email_verification_tokens
unfoldable pub insert_token_row : TokenRow → Db → Result DbError (Unit {0} × Db)
insert_token_row row db = do
  ensure (not (any (λ (t : TokenRow). t.id == row.id) db.tokens))
      (constraint "email_verification_tokens_pkey")
  ensure (not (any (is_unconsumed row.token_hash) db.tokens))
      (constraint "idx_verification_tokens_hash")
  ensure (any (λ (u : UserRow). u.id == row.user_id) db.users)
      (constraint "email_verification_tokens_user_id_fkey")
  ok (tt, record db { tokens = db.tokens ++ row ∷ [] })

-- SELECT … WHERE token_hash = $1 AND consumed_at IS NULL
unfoldable pub select_token_by_hash : Bytes → Db → Option TokenRow
select_token_by_hash hash db = find (is_unconsumed hash) db.tokens

-- `WHERE id = $1 AND consumed_at IS NULL`
abbrev pub is_open : Uuid → TokenRow → Bool
is_open id t = (t.id == id) && is_none t.consumed_at

abbrev pub consumed : Timestamp → TokenRow → TokenRow
consumed now t = record t { consumed_at = some now }

-- UPDATE email_verification_tokens SET consumed_at = NOW()
unfoldable pub update_consumed_row : Uuid → Timestamp → Db → Result DbError (ℕ × Db)
update_consumed_row id now db = ok (
  count_p (is_open id) db.tokens,
  record db { tokens = modify (is_open id) (consumed now) db.tokens },
)

-- One hour in microseconds.
abbrev pub one_hour : ℕ
one_hour = 60 * 60 * 1_000_000

-- `user_id = $1 AND created_at > NOW() - INTERVAL '1 hour'`
abbrev pub is_recent : Uuid → Timestamp → TokenRow → Bool
is_recent user_id now t = (t.user_id == user_id) && ltb now (t.created_at + one_hour)

-- INSERT INTO refresh_tokens
unfoldable pub insert_refresh_row : RefreshRow → Db → Result DbError (Unit {0} × Db)
insert_refresh_row row db = do
  ensure (not (any (λ (t : RefreshRow). t.id == row.id) db.refresh_tokens))
      (constraint "refresh_tokens_pkey")
  ensure
      (not (
        any (λ (t : RefreshRow). bytes_eq t.token_hash row.token_hash && is_none t.revoked_at)
          db.refresh_tokens))
      (constraint "idx_refresh_tokens_hash")
  ensure (any (λ (u : UserRow). u.id == row.user_id) db.users)
      (constraint "refresh_tokens_user_id_fkey")
  ok (tt, record db { refresh_tokens = db.refresh_tokens ++ row ∷ [] })

-- INSERT INTO outbox
unfoldable pub insert_outbox_row : OutboxRow → Db → Result DbError (Unit {0} × Db)
insert_outbox_row row db = do
  ensure (not (any (λ (e : OutboxRow). e.id == row.id) db.outbox)) (constraint "outbox_pkey")
  ok (tt, record db { outbox = db.outbox ++ row ∷ [] })

-- INSERT INTO signing_keys
unfoldable pub insert_key_row : KeyRow → Db → Result DbError (Unit {0} × Db)
insert_key_row row db = do
  ensure (not (any (λ (k : KeyRow). str_eq k.kid row.kid) db.signing_keys))
      (constraint "signing_keys_pkey")
  ok (tt, record db { signing_keys = db.signing_keys ++ row ∷ [] })

abbrev pub is_active_key : KeyRow → Bool
is_active_key k = str_eq k.status "active"

-- the later of two rows by `created_at`, the first of equals
abbrev pub newest : List KeyRow → Option KeyRow
newest [] = none
newest (k ∷ ks) = elim (newest ks) [
  | none ↦ some k
  | some m ↦ if ltb k.created_at m.created_at then some m else some k
]

-- SELECT … WHERE status = 'active' ORDER BY created_at DESC LIMIT 1
unfoldable pub select_active_key : Db → Option KeyRow
select_active_key db = newest (select is_active_key db.signing_keys)
