-- ===== src/Gateway/Sessions/Startup.antt =====
-- `connect` and `create_schema` of services/gateway/src/session.rs. The table between its removal and
-- its creation is an empty one: no store exists yet that could ask for it.
use home_ryanseipp.Prelude.{arith, [], ◌≡◌, ok}
use home_ryanseipp.Effect.{Env, World, Act, ◌>>=◌, ◌>>◌, map_error, pool_get, statement}
use home_ryanseipp.Gateway.Tokens.{SessionError, execution, new_session, prepare, use_keyspace}
use home_ryanseipp.Gateway.Sessions.{Sessions}

module _ (env : Env) where
  -- CREATE KEYSPACE IF NOT EXISTS, and CREATE TABLE IF NOT EXISTS
  unfoldable pub create_if_missing : Act Sessions SessionError (Unit {0})
  create_if_missing = map_error execution (statement env (λ _ table. ok (tt, table)))

  -- DROP TABLE IF EXISTS
  unfoldable pub drop_table : Act Sessions SessionError (Unit {0})
  drop_table = map_error execution (statement env (λ _ table. ok (tt, [])))

  -- `create_schema`
  unfoldable pub create_schema : Act Sessions SessionError (Unit {0})
  create_schema = do create_if_missing; drop_table; create_if_missing

  -- `SessionStore::connect`: each call to the database, in order
  unfoldable pub connect : Act Sessions SessionError (Unit {0})
  connect = do
    pool_get env new_session
    create_schema
    pool_get env use_keyspace
    pool_get env prepare
    pool_get env prepare
    pool_get env prepare

  -- A store that has connected begins with an empty table: the sessions of earlier runs, and of other
  -- gateways that are running, are gone.
  pub connect-empties : (w : World Sessions) → (connect w).0 ≡ ok tt → (connect w).1.db ≡ []
  unfolding connect create_schema create_if_missing drop_table pool_get statement map_error ◌>>=◌
  connect-empties w h = ground arith
