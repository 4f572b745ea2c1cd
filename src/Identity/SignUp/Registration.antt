-- ===== src/Identity/SignUp/Registration.antt =====
-- What a registration of services/sign_up.rs leaves in the tables.
use home_ryanseipp.Prelude.{
  String, false, Option, none, [], ◌∷◌, ◌++◌, ◌≡◌, refl, any, Result, ok, ap, ◌∙◌,
}
use home_ryanseipp.Effect.{
  Env, Uuid, Bytes, Timestamp, World, ◌>>◌, pool_get, transaction, map_error,
}
use home_ryanseipp.Effect.Rules.{bind-eq-ok, map_error-eq-ok, run_of_ok}
use home_ryanseipp.Effect.Calls.{statement-eq-ok, Reads-pool_get}
use home_ryanseipp.Effect.Ensures.{Ensures, Ensures-bind, Ensures-bind-lift, Ensures-transaction}
use home_ryanseipp.Crypto.Primitives.{Primitives}
use home_ryanseipp.Identity.Accounts.{
  UserRow, TokenRow, OutboxRow, Db, Externals, AuthEmailMessage, email_verification, as_str,
  pending_verification,
}
use home_ryanseipp.Identity.Tables.{has_username, has_email}
use home_ryanseipp.Identity.Tables.Inserts.{insert_user_row-eq-ok}
use home_ryanseipp.Identity.Service.{insert_token, insert_event}
use home_ryanseipp.Identity.Service.Inserts.{
  new_token_row, new_event_row, insert_token-eq-ok, insert_event-eq-ok,
}
use home_ryanseipp.Identity.Service.Reads.{reads_rules}
use home_ryanseipp.Identity.Service.Tokens.{Ensures-bind-new_token}
use home_ryanseipp.Prelude.Text.{◌⧺◌}
use home_ryanseipp.Identity.SignUp.{
  db, outbox, SignUpError, insert_user_error, insert_user, register, execute, token_expires_minutes,
  pool,
}

-- A new pending account with this name and this address, that nobody held, and with it one token
-- and one unpublished event of that account; nothing else changes.
pub record IsRegistered (lower : String → String) (username email : String)
    (token_hash payload : Bytes) (before after : Db) : Type 0 where
  pub row : UserRow
  pub token : TokenRow
  pub event : OutboxRow
  pub users : after.users ≡ before.users ++ row ∷ []
  pub tokens : after.tokens ≡ before.tokens ++ token ∷ []
  pub outbox : after.outbox ≡ before.outbox ++ event ∷ []
  pub refresh_tokens : after.refresh_tokens ≡ before.refresh_tokens
  pub signing_keys : after.signing_keys ≡ before.signing_keys
  pub named : row.username ≡ username
  pub addressed : row.email ≡ email
  pub pending : row.status ≡ as_str pending_verification
  pub unverified : row.email_verified ≡ false
  pub live : row.deleted_at ≡ none
  pub username_free : any (has_username lower (lower username)) before.users ≡ false
  pub email_free : any (has_email lower (lower email)) before.users ≡ false
  pub token_owner : token.user_id ≡ row.id
  pub token_open : token.consumed_at ≡ none
  pub token_stored : token.token_hash ≡ token_hash
  pub event_stored : event.payload ≡ payload
  pub event_owner : event.aggregate_id ≡ row.id
  pub event_kind : event.event_type ≡ "auth_email"
  pub event_open : event.published_at ≡ none

abbrev new_user_row : Uuid → String → String → String → String → String → Timestamp → UserRow
new_user_row id username email given_name family_name password_hash now = record {
  id = id;
  username = username;
  email = email;
  given_name = given_name;
  family_name = family_name;
  password_hash = password_hash;
  email_verified = false;
  status = "pending_verification";
  created_at = now;
  updated_at = now;
  deleted_at = none;
}

module _ (env : Env) (p : Primitives) (x : Externals) where
  insert_user-eq-ok :
      (id : Uuid) (username email given_name family_name password_hash : String) (u : Unit {0})
      (w w' : World Db)
      → insert_user env p x id username email given_name family_name password_hash w ≡ (ok u, w')
      → let row =
          new_user_row id username email given_name family_name password_hash (env.now w.calls) in
        (w'.db ≡ record (w.db) { users = w.db.users ++ row ∷ [] })
        × (any (has_username x.lower (x.lower username)) w.db.users ≡ false)
        × (any (has_email x.lower (x.lower email)) w.db.users ≡ false)
  unfolding insert_user
  insert_user-eq-ok id username email given_name family_name password_hash u w w' h =
      let (d, _) = statement-eq-ok env _ w w' (map_error-eq-ok insert_user_error _ w w' h) in
      let (a, _, b, c) = insert_user_row-eq-ok x.lower _ w.db w'.db u d in (a, b, c)

  register-Ensures :
      (user_id token_id outbox_id : Uuid)
      (username email given_name family_name password_hash : String) (token_hash : Bytes)
      (expires_at : Timestamp) (payload : Bytes) (trace_id span_id : Option String)
      → Ensures
          (λ before after (_ : Unit {0}).
            IsRegistered x.lower username email token_hash payload before after)
          (register env p x user_id token_id outbox_id username email given_name family_name
            password_hash token_hash expires_at payload trace_id span_id)
  unfolding register as_str
  register-Ensures user_id token_id outbox_id username email given_name family_name password_hash
        token_hash expires_at payload trace_id span_id =
      record {
        after = λ w u h.
            let last =
              map_error outbox
                (insert_event env outbox_id "user" user_id "auth_email" payload trace_id span_id) in
            let (_, w1, e1, h1, s1) =
              bind-eq-ok
                (insert_user env p x user_id username email given_name family_name password_hash) _
                w h in
            let (_, w2, e2, h2, s2) =
              bind-eq-ok (map_error db (insert_token env token_id user_id token_hash expires_at)) _
                w1 h1 in
            let w3 : World Db = (last w2).1 in
            let (a1, b1, c1) =
              insert_user-eq-ok user_id username email given_name family_name password_hash _ w w1
                e1 in
            let (a2, b2, c2) =
              insert_token-eq-ok env w1 w2 token_id user_id token_hash expires_at _
                (map_error-eq-ok db _ w1 w2 e2) in
            let a3 =
              insert_event-eq-ok env w2 w3 outbox_id "user" user_id "auth_email" payload trace_id
                span_id u (map_error-eq-ok outbox _ w2 w3 (run_of_ok last w2 h2)) in
            let same : (register env p x user_id token_id outbox_id username email given_name
                  family_name password_hash token_hash expires_at payload trace_id span_id w).1.db
                ≡ w3.db =
              ap (λ (r : Result SignUpError (Unit {0}) × World Db). r.1.db) (s1 ∙ s2) in
            rw same (record {
              row =
                  new_user_row user_id username email given_name family_name password_hash
                    (env.now w.calls);
              token = new_token_row token_id user_id token_hash expires_at (env.now w1.calls);
              event =
                  new_event_row outbox_id "user" user_id "auth_email" payload trace_id span_id
                    (env.now w2.calls);
              users = rw (a3, a2, a1) refl;
              tokens = rw (a3, a2, a1) refl;
              outbox = rw (a3, a2, a1) refl;
              refresh_tokens = rw (a3, a2, a1) refl;
              signing_keys = rw (a3, a2, a1) refl;
              named = refl;
              addressed = refl;
              pending = refl;
              unverified = refl;
              live = refl;
              username_free = b1;
              email_free = c1;
              token_owner = refl;
              token_open = refl;
              token_stored = refl;
              event_stored = refl;
              event_owner = refl;
              event_kind = refl;
              event_open = refl;
            });
      }

  -- The message of a registration: it goes to the address, and its code is the text of `raw`.
  pub record IsMailed (email web_base_url : String) (raw : Bytes) (mail : AuthEmailMessage)
      : Type 0 where
    pub recipient : mail.recipient_email ≡ email
    pub code :
        mail.payload
        ≡ email_verification
            (p.b64_encode raw)
            (web_base_url ⧺ "/verify-email?token=" ⧺ p.b64_encode raw)
            token_expires_minutes

  abbrev pub Registers : String → String → String → Db → Db → Unit {0} → Type 0
  Registers username email web_base_url before after u =
      (raw : Bytes) × (mail : AuthEmailMessage) × IsMailed email web_base_url raw mail
      × IsRegistered x.lower username email (p.sha256 raw) (x.encode_to_vec mail) before after

  -- the last steps of `execute`, from the pool on
  commit-Ensures :
      (user_id token_id outbox_id : Uuid)
      (username email given_name family_name password_hash web_base_url : String) (raw : Bytes)
      (expires_at : Timestamp) (mail : AuthEmailMessage) (trace_id span_id : Option String)
      → IsMailed email web_base_url raw mail
      → Ensures (Registers username email web_base_url) (
          pool_get env pool
          >> transaction env db (
              register env p x user_id token_id outbox_id username email given_name family_name
                password_hash
                (p.sha256 raw)
                expires_at
                (x.encode_to_vec mail)
                trace_id
                span_id))
  commit-Ensures user_id token_id outbox_id username email given_name family_name password_hash
        web_base_url raw expires_at mail trace_id span_id mailed =
      Ensures-bind _ _ _ (Reads-pool_get env pool) λ _. Ensures-transaction env _ db _ (record {
        after = λ w u h. (
          raw,
          mail,
          mailed,
          (register-Ensures user_id token_id outbox_id username email given_name family_name
                password_hash (p.sha256 raw) expires_at (x.encode_to_vec mail) trace_id
                span_id).after
              w u h,
        );
      })

  execute-Ensures :
      (username email given_name family_name : String) (given : Option String)
      (web_base_url : String)
      → Ensures
          (Registers username email web_base_url)
          (execute env p x username email given_name family_name given web_base_url)
  unfolding execute
  execute-Ensures username email given_name family_name given web_base_url =
      Ensures-bind-lift _ _ _ λ pw valid. Ensures-bind _ _ _ (search reads_rules) λ password_hash.
        Ensures-bind _ _ _ (search reads_rules) λ user_id.
          Ensures-bind _ _ _ (search reads_rules) λ token_id.
            Ensures-bind _ _ _ (search reads_rules) λ outbox_id.
              Ensures-bind-new_token env p _ _ _ λ raw.
                Ensures-bind _ _ _ (search reads_rules) λ now.
                  Ensures-bind _ _ _ (search reads_rules) λ span.
                    Ensures-bind _ _ _ (search reads_rules) λ produced_at.
                      commit-Ensures user_id token_id outbox_id username email given_name
                        family_name password_hash web_base_url raw _ _ span.0 span.1
                        (record { recipient = refl; code = refl })

  -- A registration that returns `Ok` adds to the tables exactly one live, pending, unverified
  -- account with this name and address, which no live account held in any case of letters, one
  -- open token of that account and one unpublished event for it. The message of the event goes to
  -- the address, and the token in the table is the SHA-256 hash of the bytes that the code in the
  -- message encodes. All other tables are unchanged.
  pub execute-Registers :
      (username email given_name family_name : String) (given : Option String)
      (web_base_url : String) (w : World Db)
      → (execute env p x username email given_name family_name given web_base_url w).0 ≡ ok tt
      → (raw : Bytes) × (mail : AuthEmailMessage) × IsMailed email web_base_url raw mail
        × IsRegistered x.lower username email
            (p.sha256 raw)
            (x.encode_to_vec mail)
            w.db
            (execute env p x username email given_name family_name given web_base_url w).1.db
  execute-Registers username email given_name family_name given web_base_url w h =
      (execute-Ensures username email given_name family_name given web_base_url).after w tt h
