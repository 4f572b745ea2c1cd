-- ===== src/Identity/ResendVerification/Sending.antt =====
-- What services/resend_verification.rs adds to the tables.
use home_ryanseipp.Prelude.{String, Option, none, [], ◌∷◌, ◌++◌, ◌≡◌, refl, ap, Result}
use home_ryanseipp.Prelude.Text.{◌⧺◌}
use home_ryanseipp.Effect.{Env, Uuid, Bytes, Timestamp, World, map_error}
use home_ryanseipp.Effect.Rules.{bind-eq-ok, map_error-eq-ok, run_of_ok}
use home_ryanseipp.Effect.Ensures.{Ensures, Ensures-bind, Ensures-transaction}
use home_ryanseipp.Crypto.Primitives.{Primitives}
use home_ryanseipp.Identity.Accounts.{
  User, TokenRow, OutboxRow, Db, Externals, AuthEmailMessage, email_verification,
}
use home_ryanseipp.Identity.Service.{insert_token, insert_event, message}
use home_ryanseipp.Identity.Service.Inserts.{
  new_token_row, new_event_row, insert_token-eq-ok, insert_event-eq-ok,
}
use home_ryanseipp.Identity.Service.Reads.{reads_rules}
use home_ryanseipp.Identity.Service.Tokens.{Ensures-bind-new_token}
use home_ryanseipp.Identity.SignUp.{token_expires_minutes}
use home_ryanseipp.Identity.ResendVerification.{
  ResendVerificationError, db, outbox, queue_token, send_token,
}

-- One open token of the user and one unpublished event of it were added, and nothing else changed.
pub record IsQueued (user_id : Uuid) (token_hash payload : Bytes) (before after : Db) : Type 0 where
  pub token : TokenRow
  pub event : OutboxRow
  pub stored :
      after
      ≡ record before { tokens = before.tokens ++ token ∷ []; outbox = before.outbox ++ event ∷ [] }
  pub owner : token.user_id ≡ user_id
  pub hashed : token.token_hash ≡ token_hash
  pub unconsumed : token.consumed_at ≡ none
  pub event_owner : event.aggregate_id ≡ user_id
  pub event_type : event.event_type ≡ "auth_email"
  pub event_open : event.published_at ≡ none
  pub carried : event.payload ≡ payload

module _ (env : Env) where
  queue_token-Ensures :
      (user_id token_id outbox_id : Uuid) (token_hash : Bytes) (expires_at : Timestamp)
      (payload : Bytes) (trace_id span_id : Option String)
      → Ensures
          (λ before after (_ : Unit {0}). IsQueued user_id token_hash payload before after)
          (queue_token env user_id token_id outbox_id token_hash expires_at payload trace_id
            span_id)
  unfolding queue_token
  queue_token-Ensures user_id token_id outbox_id token_hash expires_at payload trace_id span_id =
      record {
        after = λ w u h.
            let last =
              map_error outbox
                (insert_event env outbox_id "user" user_id "auth_email" payload trace_id span_id) in
            let (_, w1, e1, h1, s1) =
              bind-eq-ok (map_error db (insert_token env token_id user_id token_hash expires_at))
                (λ _. last) w h in
            let w2 : World Db = (last w1).1 in
            let (a1, _, _) =
              insert_token-eq-ok env w w1 token_id user_id token_hash expires_at _
                (map_error-eq-ok db _ w w1 e1) in
            let a2 =
              insert_event-eq-ok env w1 w2 outbox_id "user" user_id "auth_email" payload trace_id
                span_id u (map_error-eq-ok outbox _ w1 w2 (run_of_ok last w1 h1)) in
            let left =
              ap (λ (r : Result ResendVerificationError (Unit {0}) × World Db). r.1.db) s1 in
            rw left (record {
              token = new_token_row token_id user_id token_hash expires_at (env.now w.calls);
              event =
                  new_event_row outbox_id "user" user_id "auth_email" payload trace_id span_id
                    (env.now w1.calls);
              stored = rw (a2, a1) refl;
              owner = refl;
              hashed = refl;
              unconsumed = refl;
              event_owner = refl;
              event_type = refl;
              event_open = refl;
              carried = refl;
            });
      }

  module _ (p : Primitives) (x : Externals) (web_base_url : String) where
    -- The event carries a message to the user with a code, and the hash of what the code encodes is
    -- in the table.
    pub record IsSent (user : User) (before after : Db) : Type 0 where
      pub raw : Bytes
      pub mail : AuthEmailMessage
      pub recipient : mail.recipient_email ≡ user.email
      pub code :
          mail.payload
          ≡ email_verification
              (p.b64_encode raw)
              (web_base_url ⧺ "/verify-email?token=" ⧺ p.b64_encode raw)
              token_expires_minutes
      pub queued : IsQueued user.id (p.sha256 raw) (x.encode_to_vec mail) before after

    pub send_token-Ensures :
        (user : User)
        → Ensures
            (λ before after (_ : Unit {0}). IsSent user before after)
            (send_token env p x user web_base_url)
    unfolding send_token
    send_token-Ensures user = Ensures-bind _ _ _ (search reads_rules) λ token_id.
        Ensures-bind _ _ _ (search reads_rules) λ outbox_id.
          Ensures-bind-new_token env p _ _ _ λ raw. Ensures-bind _ _ _ (search reads_rules) λ now.
            Ensures-bind _ _ _ (search reads_rules) λ span.
              Ensures-bind _ _ _ (search reads_rules) λ produced_at.
                Ensures-transaction env _ db _ (record {
                  after = λ w u h. record {
                    raw = raw;
                    mail =
                        message p outbox_id user.email (user.given_name ⧺ " " ⧺ user.family_name)
                          span.0 span.1 produced_at
                          (email_verification (p.b64_encode raw)
                            (web_base_url ⧺ "/verify-email?token=" ⧺ p.b64_encode raw)
                            token_expires_minutes);
                    recipient = refl;
                    code = refl;
                    queued =
                        (queue_token-Ensures user.id token_id outbox_id (p.sha256 raw) _ _ span.0
                            span.1).after
                          w u h;
                  };
                })
