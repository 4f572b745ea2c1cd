-- ===== src/Identity/UpdatePassword/Changes.antt =====
-- What a change of password of services/update_password.rs does to the tables.
use home_ryanseipp.Prelude.{
  ℕ, String, Option, none, some, [], ◌∷◌, ◌++◌, ◌≡◌, refl, ap, modify, Result, ok, err, arith,
  map_err-eq-ok,
}
use home_ryanseipp.Effect.{Env, Uuid, Bytes, Timestamp, World, map_error, statement}
use home_ryanseipp.Effect.Rules.{IsAtomic, IsAtomic-bind, bind-eq-ok, map_error-eq-ok, run_of_ok}
use home_ryanseipp.Effect.Calls.{IsAtomic-transaction, Reads-pool_get, statement-eq-ok}
use home_ryanseipp.Effect.Ensures.{
  Ensures, Ensures-bind, Ensures-bind-eq, Ensures-bind-lift, Ensures-transaction,
}
use home_ryanseipp.Crypto.Primitives.{Primitives}
use home_ryanseipp.Crypto.Tokens.{hash_password, verify_password}
use home_ryanseipp.Identity.Accounts.{User, UserRow, OutboxRow, Db, Externals}
use home_ryanseipp.Identity.Tables.{has_id, update_password_row, select_user_by_id}
use home_ryanseipp.Identity.Service.{insert_event, user_from_row, get_user_by_id}
use home_ryanseipp.Identity.Service.Passwords.{
  verify_blocking-eq-ok, hash_blocking-eq-ok, get_user_by_id-eq-ok, Ensures-bind-or_fail,
}
use home_ryanseipp.Identity.Validation.{validate_password}
use home_ryanseipp.Identity.Service.Inserts.{new_event_row, insert_event-eq-ok}
use home_ryanseipp.Identity.Service.Reads.{reads_rules}
use home_ryanseipp.Identity.UpdatePassword.{
  pool, password, not_found, invalid_current_password, UpdatePasswordError, db, outbox,
  replace_password, execute,
}

abbrev with_hash : String → Timestamp → UserRow → UserRow
with_hash hash now u = record u { password_hash = hash; updated_at = now }

-- The live account with the id has a new hash, and one unpublished event of it was added; nothing
-- else changed.
pub record IsReplaced (user_id : Uuid) (hash : String) (before after : Db) : Type 0 where
  pub now : Timestamp
  pub event : OutboxRow
  pub users : after.users ≡ modify (has_id user_id) (with_hash hash now) before.users
  pub outbox : after.outbox ≡ before.outbox ++ event ∷ []
  pub event_owner : event.aggregate_id ≡ user_id
  pub event_open : event.published_at ≡ none
  pub tokens : after.tokens ≡ before.tokens
  pub refresh_tokens : after.refresh_tokens ≡ before.refresh_tokens
  pub signing_keys : after.signing_keys ≡ before.signing_keys

module _ (env : Env) where
  replace_password-Ensures :
      (user_id outbox_id : Uuid) (hash : String) (payload : Bytes)
      (trace_id span_id : Option String)
      → Ensures
          (λ before after (_ : Unit {0}). IsReplaced user_id hash before after)
          (replace_password env user_id outbox_id hash payload trace_id span_id)
  unfolding replace_password update_password_row
  replace_password-Ensures user_id outbox_id hash payload trace_id span_id = record {
    after = λ w u h.
        let update = statement env (update_password_row user_id hash) in
        let last =
          map_error outbox
            (insert_event env outbox_id "user" user_id "auth_email" payload trace_id span_id) in
        let (n, w1, e1, h1, s1) = bind-eq-ok (map_error db update) (λ _. last) w h in
        let w2 : World Db = (last w1).1 in
        let (a1, _) =
          statement-eq-ok env (update_password_row user_id hash) w w1
            (map_error-eq-ok db update w w1 e1) in
        let a2 =
          insert_event-eq-ok env w1 w2 outbox_id "user" user_id "auth_email" payload trace_id
            span_id u (map_error-eq-ok outbox _ w1 w2 (run_of_ok last w1 h1)) in
        let left = ap (λ (r : Result UpdatePasswordError (Unit {0}) × World Db). r.1.db) s1 in
        let changed : w1.db ≡ record (w.db) {
          users = modify (has_id user_id) (with_hash hash (env.now w.calls)) w.db.users;
        } =
          ground arith in
        rw (left, a2, changed)
          (record {
            now = env.now w.calls;
            event =
                new_event_row outbox_id "user" user_id "auth_email" payload trace_id span_id
                  (env.now w1.calls);
            users = refl;
            outbox = refl;
            event_owner = refl;
            event_open = refl;
            tokens = refl;
            refresh_tokens = refl;
            signing_keys = refl;
          });
  }

  module _ (p : Primitives) (x : Externals) where
    execute-IsAtomic :
        (user_id : Uuid) (current_password new_password : String)
        → IsAtomic (execute env p x user_id current_password new_password)
    unfolding execute
    execute-IsAtomic user_id current_password new_password =
        search (IsAtomic-bind, IsAtomic-transaction, reads_rules) depth 24

    -- A live account has the id, its password was the current one, and now it has a hash of the new
    -- one.
    pub record IsChanged (user_id : Uuid) (current_password new_password : String)
        (before after : Db) : Type 0 where
      pub row : UserRow
      pub user : User
      pub hash : String
      pub salt : ℕ
      pub valid : validate_password new_password ≡ ok tt
      pub found : select_user_by_id user_id before ≡ some row
      pub read : user_from_row row ≡ ok user
      pub matched : verify_password p current_password user.password_hash ≡ ok tt
      pub hashed : hash_password p new_password salt ≡ ok hash
      pub replaced : IsReplaced user_id hash before after

    execute-Ensures :
        (user_id : Uuid) (current_password new_password : String)
        → Ensures
            (λ before after (_ : Unit {0}).
              IsChanged user_id current_password new_password before after)
            (execute env p x user_id current_password new_password)
    unfolding execute
    execute-Ensures user_id current_password new_password = Ensures-bind-lift _ _ _ λ _ valid.
        Ensures-bind _ _ _ (Reads-pool_get env pool) λ _.
          Ensures-bind-eq _ (map_error db (get_user_by_id env user_id)) _ (search reads_rules)
            λ o w w' ran. Ensures-bind-or_fail _ not_found o _ λ user some_user.
              Ensures-bind-eq _ _ _ (search reads_rules) λ u1 v v' verified.
                Ensures-bind-eq _ _ _ (search reads_rules) λ hash v1 v1' hashed.
                  Ensures-bind _ _ _ (search reads_rules) λ span.
                    Ensures-bind _ _ _ (search reads_rules) λ outbox_id.
                      Ensures-bind _ _ _ (search reads_rules) λ produced_at.
                        Ensures-bind _ _ _ (search reads_rules) λ changed_at.
                          Ensures-bind _ _ _ (search reads_rules) λ _.
                            Ensures-transaction env _ db _ (record {
                              after = λ t u h same1 same2 same3.
                                  let (row, found, read) =
                                    get_user_by_id-eq-ok env user_id w w' user (
                                      map_error-eq-ok db (get_user_by_id env user_id) w w'
                                        (rw some_user at ran)) in
                                  let (salt, salted) =
                                    hash_blocking-eq-ok env p password new_password hash v1 v1'
                                      hashed in
                                  record {
                                    row = row;
                                    user = user;
                                    hash = hash;
                                    salt = salt;
                                    valid = map_err-eq-ok _ _ valid;
                                    found = rw same3 found;
                                    read = read;
                                    matched =
                                        verify_blocking-eq-ok env p password
                                          invalid_current_password current_password
                                          user.password_hash v v' u1 verified;
                                    hashed = salted;
                                    replaced =
                                        (replace_password-Ensures user_id outbox_id hash _ span.0
                                            span.1).after
                                          t u h;
                                  };
                            })

    -- If `update_password::execute` returns `Ok`, the new password has an allowed length, a live
    -- account has the id and the current password matched its hash; the account now has a hash of
    -- the new password, one unpublished event of it was added, and nothing else changed.
    pub update_password-IsChanged :
        (user_id : Uuid) (current_password new_password : String) (w : World Db)
        → (execute env p x user_id current_password new_password w).0 ≡ ok tt
        → IsChanged user_id current_password new_password w.db
            (execute env p x user_id current_password new_password w).1.db
    update_password-IsChanged user_id current_password new_password w h =
        (execute-Ensures user_id current_password new_password).after w tt h

    -- If `update_password::execute` returns an error, the database has the content that it had
    -- before.
    pub update_password-undone :
        (user_id : Uuid) (current_password new_password : String) (w : World Db)
        (e : UpdatePasswordError)
        → (execute env p x user_id current_password new_password w).0 ≡ err e
        → (execute env p x user_id current_password new_password w).1.db ≡ w.db
    update_password-undone user_id current_password new_password w e h =
        (execute-IsAtomic user_id current_password new_password).undone w e h
