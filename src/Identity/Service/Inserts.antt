-- ===== src/Identity/Service/Inserts.antt =====
-- The inserts of services/mod.rs and outbox/db.rs, when they succeed.
use home_ryanseipp.Prelude.{String, true, false, Option, none, [], ◌∷◌, ◌++◌, ◌≡◌, any, ok, ◌==◌}
use home_ryanseipp.Effect.{Env, Uuid, Bytes, Timestamp, World}
use home_ryanseipp.Effect.Rules.{map_error-eq-ok}
use home_ryanseipp.Effect.Calls.{statement-eq-ok}
use home_ryanseipp.Identity.Accounts.{UserRow, TokenRow, OutboxRow, Db}
use home_ryanseipp.Identity.Tables.{is_unconsumed}
use home_ryanseipp.Identity.Tables.Inserts.{insert_token_row-eq-ok, insert_outbox_row-eq-ok}
use home_ryanseipp.Identity.Service.{db, insert_token, insert_event}

abbrev pub new_token_row : Uuid → Uuid → Bytes → Timestamp → Timestamp → TokenRow
new_token_row id user_id token_hash expires_at now = record {
  id = id;
  user_id = user_id;
  token_hash = token_hash;
  expires_at = expires_at;
  consumed_at = none;
  created_at = now;
}

abbrev pub new_event_row :
    Uuid → String → Uuid → String → Bytes → Option String → Option String → Timestamp → OutboxRow
new_event_row id aggregate_type aggregate_id event_type payload trace_id span_id now = record {
  id = id;
  aggregate_type = aggregate_type;
  aggregate_id = aggregate_id;
  event_type = event_type;
  payload = payload;
  trace_id = trace_id;
  span_id = span_id;
  created_at = now;
  published_at = none;
}

module _ (env : Env) (w w' : World Db) where
  pub insert_token-eq-ok :
      (id user_id : Uuid) (token_hash : Bytes) (expires_at : Timestamp) (u : Unit {0})
      → insert_token env id user_id token_hash expires_at w ≡ (ok u, w')
      → let row = new_token_row id user_id token_hash expires_at (env.now w.calls) in
        (w'.db ≡ record (w.db) { tokens = w.db.tokens ++ row ∷ [] })
        × (any (is_unconsumed token_hash) w.db.tokens ≡ false)
        × (any (λ (u : UserRow). u.id == user_id) w.db.users ≡ true)
  unfolding insert_token
  insert_token-eq-ok id user_id token_hash expires_at u h =
      let (d, _) = statement-eq-ok env _ w w' h in
      let (a, _, b, c) = insert_token_row-eq-ok _ w.db w'.db u d in (a, b, c)

  pub insert_event-eq-ok :
      (id : Uuid) (aggregate_type : String) (aggregate_id : Uuid) (event_type : String)
      (payload : Bytes) (trace_id span_id : Option String) (u : Unit {0})
      → insert_event env id aggregate_type aggregate_id event_type payload trace_id span_id w
        ≡ (ok u, w')
      → let row =
          new_event_row id aggregate_type aggregate_id event_type payload trace_id span_id
            (env.now w.calls) in
        w'.db ≡ record (w.db) { outbox = w.db.outbox ++ row ∷ [] }
  unfolding insert_event
  insert_event-eq-ok id aggregate_type aggregate_id event_type payload trace_id span_id u h =
      let (d, _) = statement-eq-ok env _ w w' (map_error-eq-ok db _ w w' h) in
      (insert_outbox_row-eq-ok _ w.db w'.db u d).0
