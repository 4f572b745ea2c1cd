-- ===== src/Gateway/Sessions.antt =====
-- The session store of services/gateway/src/session.rs. The database answers or refuses a call as a
-- whole, and reads back the columns with the types that they were written with.
pub mod Refinement
pub mod Startup
pub mod Store
use home_ryanseipp.Prelude.{
  ℕ, ◌+◌, ◌*◌, ◌/◌, String, Bool, ◌&&◌, not, Option, none, some, List, [], ◌∷◌, find, select,
  Result, ok, err, ltb,
}
use home_ryanseipp.Gateway.Tokens.{SessionError, execution, generate_session_token}
use home_ryanseipp.Effect.{
  Env, Uuid, Bytes, Timestamp, DbError, Act, pure, lift, ask, ◌>>=◌, ◌>>◌, map_error, statement,
  query,
}
use home_ryanseipp.Crypto.Primitives.{Primitives}
use home_ryanseipp.Identity.Tables.{bytes_eq}

pub record Session : Type 0 where
  pub token_hash : Bytes
  pub user_id : Uuid
  pub access_token : String
  pub id_token : String
  pub refresh_token : String
  pub expires_at : Timestamp
  pub created_at : Timestamp

-- A row of the table, and when it was written.
pub record SessionRow : Type 0 where
  pub session : Session
  pub written_at : Timestamp

abbrev pub Sessions : Type 0
Sessions = List SessionRow

-- `default_time_to_live`, in microseconds
abbrev pub time_to_live : ℕ
time_to_live = 604_800 * 1_000_000

abbrev pub has_hash : Bytes → SessionRow → Bool
has_hash hash row = bytes_eq row.session.token_hash hash

abbrev pub is_alive : Timestamp → SessionRow → Bool
is_alive now row = ltb now (row.written_at + time_to_live)

-- a time as a column of type `timestamp` keeps it, in milliseconds
abbrev pub truncated : Timestamp → Timestamp
truncated t = t / 1_000 * 1_000

-- INSERT INTO sessions, which replaces a row of the same key
unfoldable pub insert_session_row : Timestamp → Session → Sessions → Sessions
insert_session_row now session table =
    record { session = session; written_at = now }
    ∷ select (λ row. not (has_hash session.token_hash row)) table

abbrev pub session_of : Option SessionRow → Option Session
session_of none = none
session_of (some row) = some row.session

-- SELECT … FROM sessions WHERE token_hash = ?
unfoldable pub select_session : Timestamp → Bytes → Sessions → Option Session
select_session now hash table =
    session_of (find (λ row. has_hash hash row && is_alive now row) table)

-- DELETE FROM sessions WHERE token_hash = ?
unfoldable pub delete_session_row : Bytes → Sessions → Sessions
delete_session_row hash table = select (λ row. not (has_hash hash row)) table

module _ (env : Env) (p : Primitives) where
  -- `create_session`
  unfoldable pub create_session :
      Uuid → String → String → String → Timestamp → Act Sessions SessionError String
  create_session user_id access_token id_token refresh_token expires_at = do
    filled ← ask env.rand
    generated ← lift (generate_session_token p filled)
    created_at ← ask env.now
    map_error execution (
        statement env (λ now table. ok (
          tt,
          insert_session_row now
              (record {
                token_hash = generated.1;
                user_id = user_id;
                access_token = access_token;
                id_token = id_token;
                refresh_token = refresh_token;
                expires_at = truncated expires_at;
                created_at = truncated created_at;
              })
              table,
        )))
    pure generated.0

  -- `get_session`
  unfoldable pub get_session : Bytes → Act Sessions SessionError (Option Session)
  get_session token_hash =
      map_error execution (query env (λ now table. select_session now token_hash table))

  -- `delete_session`
  unfoldable pub delete_session : Bytes → Act Sessions SessionError (Unit {0})
  delete_session token_hash =
      map_error execution
        (statement env (λ now table. ok (tt, delete_session_row token_hash table)))
