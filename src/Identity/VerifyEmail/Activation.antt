-- ===== src/Identity/VerifyEmail/Activation.antt =====
-- What a verification of services/verify_email.rs does to the tables.
use home_ryanseipp.Prelude.{
  ℕ, String, Option, none, some, ◌≡◌, ◌≢◌, refl, ap, ◌∙◌, sym, find, count_p, modify, Result, ok,
  err, ltb, arith, ok_or-eq-ok,
}
use home_ryanseipp.Effect.{Env, Uuid, Bytes, Timestamp, World, fail, ◌>>◌, map_error, statement}
use home_ryanseipp.Effect.Rules.{IsAtomic, IsAtomic-bind, bind-eq-ok, map_error-eq-ok, run_of_ok}
use home_ryanseipp.Effect.Calls.{IsAtomic-transaction, Reads-pool_get, statement-eq-ok, query-eq-ok}
use home_ryanseipp.Effect.Ensures.{
  Ensures, Ensures-bind, Ensures-bind-lift, Ensures-transaction, Ensures-if, Ensures-fail,
}
use home_ryanseipp.Crypto.Primitives.{Primitives}
use home_ryanseipp.Identity.Accounts.{TokenRow, Db, as_str, active}
use home_ryanseipp.Identity.Tables.{
  has_id, is_open, is_unconsumed, consumed, verified, update_consumed_row, update_verified_row,
  select_token_by_hash,
}
use home_ryanseipp.Identity.Service.Reads.{reads_rules}
use home_ryanseipp.Identity.VerifyEmail.{
  VerifyEmailError, db, pool, invalid_token, already_consumed, user_not_found, some_rows,
  get_token_by_hash, consume_token, mark_email_verified, redeem, redeem_found, consume_and_verify,
  execute,
}

-- One open token with the hash was consumed, and the live account that it belongs to is verified
-- and active, whatever its status was. Nothing else changes.
pub record IsVerified (hash : Bytes) (before after : Db) : Type 0 where
  pub token : TokenRow
  pub consumed_at : Timestamp
  pub updated_at : Timestamp
  pub found : find (is_unconsumed hash) before.tokens ≡ some token
  pub owner : count_p (has_id token.user_id) before.users ≢ 0
  pub tokens : after.tokens ≡ modify (is_open token.id) (consumed consumed_at) before.tokens
  pub users :
      after.users ≡ modify (has_id token.user_id) (verified "active" updated_at) before.users
  pub refresh_tokens : after.refresh_tokens ≡ before.refresh_tokens
  pub signing_keys : after.signing_keys ≡ before.signing_keys
  pub outbox : after.outbox ≡ before.outbox

some_rows-eq-ok :
    (e : VerifyEmailError) (n : ℕ) (w : World Db) (u : Unit {0})
    → (some_rows e n w).0 ≡ ok u
    → (n ≢ 0) × ((some_rows e n w).1 ≡ w)
some_rows-eq-ok e n w u h = ground arith

module _ (env : Env) where
  consume_token-eq-ok :
      (id : Uuid) (w w' : World Db) (u : Unit {0})
      → consume_token env id w ≡ (ok u, w')
      → (t : Timestamp) × (w'.db
          ≡ record (w.db) { tokens = modify (is_open id) (consumed t) w.db.tokens })
  unfolding consume_token update_consumed_row
  consume_token-eq-ok id w w' u h =
      let r = ap (λ (r : Result VerifyEmailError (Unit {0}) × World Db). r.0) h in
      let (n, w1, e1, h1, s1) =
        bind-eq-ok (map_error db (statement env (update_consumed_row id))) _ w r in
      let (d, _) = statement-eq-ok env _ w w1 (map_error-eq-ok db _ w w1 e1) in
      let (_, same) = some_rows-eq-ok already_consumed n w1 u h1 in
      let last =
        ap (λ (r : Result VerifyEmailError (Unit {0}) × World Db). r.1.db) (sym h ∙ s1)
        ∙ ap (λ (v : World Db). v.db) same in
      (env.now w.calls, last ∙ ground arith)

  mark_email_verified-eq-ok :
      (id : Uuid) (w w' : World Db) (u : Unit {0})
      → mark_email_verified env id w ≡ (ok u, w')
      → (count_p (has_id id) w.db.users ≢ 0)
        × (t : Timestamp) × (w'.db
            ≡ record (w.db) { users = modify (has_id id) (verified "active" t) w.db.users })
  unfolding mark_email_verified update_verified_row as_str
  mark_email_verified-eq-ok id w w' u h =
      let r = ap (λ (r : Result VerifyEmailError (Unit {0}) × World Db). r.0) h in
      let (n, w1, e1, h1, s1) =
        bind-eq-ok (map_error db (statement env (update_verified_row id (as_str active)))) _ w r in
      let (d, _) = statement-eq-ok env _ w w1 (map_error-eq-ok db _ w w1 e1) in
      let (pos, same) = some_rows-eq-ok user_not_found n w1 u h1 in
      let last =
        ap (λ (r : Result VerifyEmailError (Unit {0}) × World Db). r.1.db) (sym h ∙ s1)
        ∙ ap (λ (v : World Db). v.db) same in
      (ground arith, env.now w.calls, last ∙ ground arith)

  -- the content after the two updates
  abbrev Redeemed : TokenRow → Db → Db → Unit {0} → Type 0
  Redeemed t before after u =
      (consumed_at : Timestamp) × (updated_at : Timestamp) × (count_p (has_id t.user_id)
          before.users
        ≢ 0)
      × (after ≡ record before {
        tokens = modify (is_open t.id) (consumed consumed_at) before.tokens;
        users = modify (has_id t.user_id) (verified "active" updated_at) before.users;
      })

  updates-Ensures :
      (t : TokenRow)
      → Ensures (Redeemed t) (consume_token env t.id >> mark_email_verified env t.user_id)
  updates-Ensures t = record {
    after = λ w u h.
        let last = mark_email_verified env t.user_id in
        let (_, w1, e1, h1, s1) = bind-eq-ok (consume_token env t.id) (λ _. last) w h in
        let w2 : World Db = (last w1).1 in
        let (t1, a1) = consume_token-eq-ok t.id w w1 _ e1 in
        let (pos, t2, a2) = mark_email_verified-eq-ok t.user_id w1 w2 u (run_of_ok last w1 h1) in
        (
          t1,
          t2,
          rw a1 at pos,
          ap (λ (r : Result VerifyEmailError (Unit {0}) × World Db). r.1.db) s1 ∙ a2 ∙ rw a1 refl,
        );
  }

  redeem-Ensures : (t : TokenRow) → Ensures (Redeemed t) (redeem env t)
  unfolding redeem
  redeem-Ensures t = Ensures-bind _ _ _ (search reads_rules) λ now.
      Ensures-if _ (ltb t.expires_at now) (fail invalid_token) _ (λ _. Ensures-fail _ invalid_token)
        (λ _. updates-Ensures t)

  redeem_found-eq-ok :
      (o : Option TokenRow) (w : World Db) (u : Unit {0})
      → (redeem_found env o w).0 ≡ ok u
      → (t : TokenRow) × (o ≡ some t) × Redeemed t w.db (redeem_found env o w).1.db u
  redeem_found-eq-ok none w u h = cc
  redeem_found-eq-ok (some t) w u h = (t, refl, (redeem-Ensures t).after w u h)

  consume_and_verify-Ensures :
      (hash : Bytes)
      → Ensures
          (λ before after (_ : Unit {0}). IsVerified hash before after)
          (consume_and_verify env hash)
  unfolding consume_and_verify get_token_by_hash select_token_by_hash
  consume_and_verify-Ensures hash = record {
    after = λ w u h.
        let (found, w1, e1, h1, s1) =
          bind-eq-ok (get_token_by_hash env hash) (redeem_found env) w h in
        let (a, b, _) = query-eq-ok env _ w w1 (map_error-eq-ok db _ w w1 e1) in
        let (t, some_t, (consumed_at, updated_at, owner, left)) =
          redeem_found-eq-ok found w1 u h1 in
        let same_db : w1.db ≡ w.db = ap (λ (v : World Db). v.db) b in
        let left' = ap (λ (r : Result VerifyEmailError (Unit {0}) × World Db). r.1.db) s1 ∙ left in
        rw left' (record {
          token = t;
          consumed_at = consumed_at;
          updated_at = updated_at;
          found = sym a ∙ some_t;
          owner = rw same_db at owner;
          tokens = rw same_db refl;
          users = rw same_db refl;
          refresh_tokens = rw same_db refl;
          signing_keys = rw same_db refl;
          outbox = rw same_db refl;
        });
  }

  module _ (p : Primitives) (raw_token : String) (w : World Db) where
    -- If `verify_email::execute` returns an error, the database has the content that it had before.
    pub execute-atomic :
        (e : VerifyEmailError)
        → (execute env p raw_token w).0 ≡ err e
        → (execute env p raw_token w).1.db ≡ w.db
    execute-atomic e h = execute-IsAtomic.undone w e h
      where
        execute-IsAtomic : IsAtomic (execute env p raw_token)
        execute-IsAtomic =
            unfold execute in search (IsAtomic-bind, IsAtomic-transaction, reads_rules) depth 12

    -- If `verify_email::execute` returns `Ok`, the text encodes some bytes, and under their SHA-256
    -- hash one open token was consumed and the live account that it belongs to became verified and
    -- active, whatever its status was before. Nothing else changed.
    pub execute-IsVerified :
        (execute env p raw_token w).0 ≡ ok tt
        → (bytes : Bytes) × (p.b64_decode raw_token ≡ some bytes)
          × IsVerified (p.sha256 bytes) w.db (execute env p raw_token w).1.db
    execute-IsVerified h = ensured.after w tt h
      where
        ensured :
            Ensures
              (λ before after (_ : Unit {0}).
                (bytes : Bytes) × (p.b64_decode raw_token ≡ some bytes)
                × IsVerified (p.sha256 bytes) before after)
              (execute env p raw_token)
        ensured =
            unfold execute in
            Ensures-bind-lift _ _ _ λ bytes decoded.
              Ensures-bind _ _ _ (Reads-pool_get env pool) λ _.
                Ensures-transaction env _ db _ (record {
                  after = λ w u h. (
                    bytes,
                    ok_or-eq-ok _ _ decoded,
                    (consume_and_verify-Ensures (p.sha256 bytes)).after w u h,
                  );
                })
