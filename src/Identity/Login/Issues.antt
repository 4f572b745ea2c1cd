-- ===== src/Identity/Login/Issues.antt =====
-- What a login of services/login.rs leaves in the tables.
use home_ryanseipp.Prelude.{
  String, true, Option, none, some, [], ◌∷◌, ◌++◌, ◌≡◌, refl, sym, ap, ◌∙◌, Result, ok,
  ok-injective, if◌then◌else◌,
}
use home_ryanseipp.Effect.{
  Env, Uuid, Bytes, Timestamp, World, Act, fail, ◌>>◌, DbError, map_error, query, statement,
}
use home_ryanseipp.Effect.Rules.{Reads, bind-eq-ok, map_error-eq-ok, run_of_ok}
use home_ryanseipp.Effect.Calls.{Reads-pool_get, query-eq-ok, statement-eq-ok}
use home_ryanseipp.Effect.Ensures.{Ensures, Ensures-bind, Ensures-bind-eq, Ensures-if, Ensures-fail}
use home_ryanseipp.Crypto.Primitives.{Claims, Primitives}
use home_ryanseipp.Crypto.Tokens.{verify_password}
use home_ryanseipp.Identity.Accounts.{
  User, UserRow, RefreshRow, UserStatus, active, pending_verification, suspended, locked, deleted,
  Db, Externals,
}
use home_ryanseipp.Identity.Tables.{select_user_by_email, insert_refresh_row}
use home_ryanseipp.Identity.Tables.Inserts.{insert_refresh_row-eq-ok}
use home_ryanseipp.Identity.SigningKeys.{ActiveSigningKey, get_active_signing_key}
use home_ryanseipp.Identity.Service.{user_from_row, expect_user, get_user_by_email, verify_blocking}
use home_ryanseipp.Identity.Service.Reads.{
  reads_rules, Reads-verify_blocking, Reads-get_user_by_email,
}
use home_ryanseipp.Identity.Service.Passwords.{
  expect_user-eq-ok, verify_blocking-eq-ok, Ensures-bind-or_fail,
}
use home_ryanseipp.Identity.Service.Tokens.{Ensures-bind-new_token}
use home_ryanseipp.Identity.Login.{
  login_password, LoginError, LoginResult, login_db, login_pool, invalid_credentials,
  account_not_active, is_active_status, sign_with, insert_refresh_token, issue_tokens, execute,
}

-- One open refresh token of the user was added, and it is the hash of the bytes that the answer
-- encodes. Nothing else changed.
pub record IsIssued (p : Primitives) (user : User) (before after : Db) (answer : LoginResult)
    : Type 0 where
  pub row : RefreshRow
  pub raw : Bytes
  pub stored : after ≡ record before { refresh_tokens = before.refresh_tokens ++ row ∷ [] }
  pub hashed : row.token_hash ≡ p.sha256 raw
  pub given : answer.refresh_token ≡ p.b64_encode raw
  pub owner : row.user_id ≡ user.id
  pub unrevoked : row.revoked_at ≡ none

-- A live account has the address, the password matches its hash, it is active, and tokens were
-- issued for it.
pub record IsLoggedIn (p : Primitives) (x : Externals) (email password : String) (before after : Db)
    (answer : LoginResult) : Type 0 where
  pub row : UserRow
  pub user : User
  pub found : select_user_by_email x.lower email before ≡ some row
  pub read : user_from_row row ≡ ok user
  pub matched : verify_password p password user.password_hash ≡ ok tt
  pub is_active : user.status ≡ active
  pub issued : IsIssued p user before after answer

is_active_status-active : (s : UserStatus) → is_active_status s ≡ true → s ≡ active
is_active_status-active active h = refl
is_active_status-active pending_verification h = cc
is_active_status-active suspended h = cc
is_active_status-active locked h = cc
is_active_status-active deleted h = cc

module _ (env : Env) (p : Primitives) where
  pub Reads-get_active_signing_key : (kek : Bytes) → Reads (get_active_signing_key env p kek)
  unfolding get_active_signing_key
  Reads-get_active_signing_key kek = search reads_rules depth 20

  pub Reads-sign_with : (key : ActiveSigningKey) (c : Claims) → Reads (sign_with env p key c)
  unfolding sign_with
  Reads-sign_with key c = search reads_rules

  insert_refresh_token-Ensures :
      (id user_id : Uuid) (hash : Bytes) (expires_at : Timestamp)
      → Ensures
          (λ before after (_ : Unit {0}).
            (row : RefreshRow) × (after
              ≡ record before { refresh_tokens = before.refresh_tokens ++ row ∷ [] })
            × (row.token_hash ≡ hash)
            × (row.user_id ≡ user_id)
            × (row.revoked_at ≡ none))
          (insert_refresh_token env p id user_id hash expires_at)
  unfolding insert_refresh_token
  insert_refresh_token-Ensures id user_id hash expires_at =
      Ensures-bind _ _ _ (Reads-pool_get env login_pool) λ _. record {
        after = λ w u h.
            let row : Timestamp → RefreshRow = λ now. record {
              id = id;
              user_id = user_id;
              token_hash = hash;
              expires_at = expires_at;
              revoked_at = none;
              created_at = now;
            } in
            let insert : Act Db DbError (Unit {0}) =
              statement env (λ now. insert_refresh_row (row now)) in
            let m : Act Db LoginError (Unit {0}) = map_error login_db insert in
            let ran = map_error-eq-ok login_db insert w (m w).1 (run_of_ok m w h) in
            let (d, _) = statement-eq-ok env (λ now. insert_refresh_row (row now)) w (m w).1 ran in
            let made : RefreshRow = row (env.now w.calls) in
            (made, (insert_refresh_row-eq-ok made w.db (m w).1.db u d).0, refl, refl, refl);
      }

  issue_tokens-Ensures :
      (kek : Bytes) (user : User) → Ensures (IsIssued p user) (issue_tokens env p kek user)
  unfolding issue_tokens
  issue_tokens-Ensures kek user =
      Ensures-bind _ _ _ (search (reads_rules, Reads-get_active_signing_key)) λ key.
        Ensures-bind _ _ _ (search reads_rules) λ now.
          Ensures-bind _ _ _ (search reads_rules) λ access_jti.
            Ensures-bind _ _ _ (Reads-sign_with key _) λ access_jwt.
              Ensures-bind _ _ _ (search reads_rules) λ id_jti.
                Ensures-bind _ _ _ (Reads-sign_with key _) λ id_jwt.
                  Ensures-bind-new_token env p _ _ _ λ raw.
                    Ensures-bind _ _ _ (search reads_rules) λ id. record {
                      after = λ w r h.
                          let (u, w1, e1, h1, s1) =
                            bind-eq-ok (insert_refresh_token env p id user.id (p.sha256 raw) _) _ w
                              h in
                          let (row, stored, hashed, owner, unrevoked) =
                            (insert_refresh_token-Ensures id user.id (p.sha256 raw) _).after w u
                              (ap (λ (r : Result LoginError (Unit {0}) × World Db). r.0) e1) in
                          record {
                            row = row;
                            raw = raw;
                            stored =
                                ap (λ (r : Result LoginError LoginResult × World Db). r.1.db) s1
                                ∙ ap (λ (r : Result LoginError (Unit {0}) × World Db). r.1.db)
                                    (sym e1)
                                ∙ stored;
                            hashed = hashed;
                            given =
                                ap (λ (a : LoginResult). a.refresh_token) (sym (ok-injective h1));
                            owner = owner;
                            unrevoked = unrevoked;
                          };
                    }

  -- what follows the lookup of the user
  checked-Ensures :
      (x : Externals) (email password : String) (kek : Bytes) (row : UserRow) (user : User)
      → user_from_row row ≡ ok user
      → Ensures
          (λ before after answer.
            select_user_by_email x.lower email before ≡ some row
            → IsLoggedIn p x email password before after answer)
          (verify_blocking env p login_password invalid_credentials password user.password_hash
            >> (if is_active_status user.status
                then issue_tokens env p kek user
                else fail account_not_active))
  checked-Ensures x email password kek row user read =
      let verify =
        verify_blocking env p login_password invalid_credentials password user.password_hash in
      Ensures-bind-eq _ verify _
        (Reads-verify_blocking env p login_password invalid_credentials password user.password_hash)
        λ u w w' ran.
          Ensures-if _ (is_active_status user.status) (issue_tokens env p kek user) _
            (λ act. record {
              after = λ v r g same found. record {
                row = row;
                user = user;
                found = found;
                read = read;
                matched =
                    verify_blocking-eq-ok env p login_password invalid_credentials password
                      user.password_hash w w' u ran;
                is_active = is_active_status-active user.status act;
                issued = (issue_tokens-Ensures kek user).after v r g;
              };
            })
            (λ _. Ensures-fail _ account_not_active)

  pub get_user_by_email-eq-ok :
      (x : Externals) (email : String) (w w' : World Db) (user : User)
      → get_user_by_email env x email w ≡ (ok (some user), w')
      → (row : UserRow) × (select_user_by_email x.lower email w.db ≡ some row)
        × (user_from_row row ≡ ok user)
  unfolding get_user_by_email
  get_user_by_email-eq-ok x email w w' user h =
      let r = ap (λ (r : Result DbError (Option User) × World Db). r.0) h in
      let (found, w1, e1, h1, _) =
        bind-eq-ok (query env (λ _ d. select_user_by_email x.lower email d)) expect_user w r in
      let (a, _, _) = query-eq-ok env _ w w1 e1 in
      let (row, some_row, read) = expect_user-eq-ok found w1 user h1 in
      (row, sym a ∙ some_row, read)

  login-Ensures :
      (x : Externals) (email password : String) (kek : Bytes)
      → Ensures (IsLoggedIn p x email password) (execute env p x email password kek)
  unfolding execute
  login-Ensures x email password kek = Ensures-bind _ _ _ (Reads-pool_get env login_pool) λ _.
      Ensures-bind-eq _ (map_error login_db (get_user_by_email env x email)) _
        (search (reads_rules, Reads-get_user_by_email))
        λ o w w' ran. Ensures-bind-or_fail _ invalid_credentials o _ λ user some_user. record {
          after = λ v a h same.
              let (row, sel, read) = get_user_by_email-eq-ok x email w w' user (
                map_error-eq-ok login_db (get_user_by_email env x email) w w'
                  (rw some_user at ran)) in
              (checked-Ensures x email password kek row user read).after v a h (rw same sel);
        }

  -- If `login::execute` returns tokens, a live account has the address, in any case of letters, the
  -- password matches its hash and the account is active; one open refresh token of that account was
  -- added, the SHA-256 hash of the bytes that the returned refresh token encodes, and nothing else
  -- changed.
  pub execute-IsLoggedIn :
      (x : Externals) (email password : String) (kek : Bytes) (w : World Db) (answer : LoginResult)
      → (execute env p x email password kek w).0 ≡ ok answer
      → IsLoggedIn p x email password w.db (execute env p x email password kek w).1.db answer
  execute-IsLoggedIn x email password kek w answer h =
      (login-Ensures x email password kek).after w answer h
