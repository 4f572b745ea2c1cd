-- ===== src/Identity/Login/Signing.antt =====
-- Which key signs the access token of services/login.rs, and over which claims.
use mathlib.Core.Path.{subst}
use home_ryanseipp.Prelude.{
  ℕ, ◌+◌, String, some, ◌≡◌, sym, ap, Result, ok, map_err-eq-ok, ok-injective,
}
use home_ryanseipp.Effect.{Env, Uuid, Bytes, Timestamp, World, ask, ◌>>=◌, map_error}
use home_ryanseipp.Effect.Rules.{bind-eq-ok, map_error-eq-ok}
use home_ryanseipp.Effect.Calls.{Reads-pool_get}
use home_ryanseipp.Effect.Ensures.{Ensures, Ensures-bind, Ensures-bind-eq, Ensures-if, Ensures-fail}
use home_ryanseipp.Crypto.Primitives.{CryptoError, Claims, Primitives}
use home_ryanseipp.Crypto.Jwt.{EncodedJwt, sign_jwt}
use home_ryanseipp.Identity.Accounts.{User, UserRow, Db, Externals}
use home_ryanseipp.Identity.Tables.{select_user_by_email}
use home_ryanseipp.Identity.SigningKeys.{ActiveSigningKey, get_active_signing_key}
use home_ryanseipp.Identity.SigningKeys.Soundness.{
  AreSound, IsPublished, Published, get_active_signing_key-Ensures,
}
use home_ryanseipp.Identity.Service.{user_from_row, get_user_by_email}
use home_ryanseipp.Identity.Service.Reads.{
  reads_rules, Reads-verify_blocking, Reads-get_user_by_email,
}
use home_ryanseipp.Identity.Service.Passwords.{Ensures-bind-or_fail}
use home_ryanseipp.Identity.Service.Tokens.{Ensures-bind-new_token}
use home_ryanseipp.Identity.Login.{
  login_password, LoginError, LoginResult, login_db, login_pool, login_crypto, invalid_credentials,
  account_not_active, no_signing_key, is_active_status, access_claims, access_token_lifetime,
  sign_with, insert_refresh_token, issue_tokens, execute,
}
use home_ryanseipp.Identity.Login.Issues.{
  Reads-get_active_signing_key, Reads-sign_with, get_user_by_email-eq-ok,
}

-- The access token of an answer is signed for the user with a key that is published.
pub record IsSigned (p : Primitives) (kek : Bytes) (user : User) (before : Db)
    (answer : LoginResult) : Type 0 where
  pub key : ActiveSigningKey
  pub now : Timestamp
  pub jti : Uuid
  pub seed : ℕ
  pub encoded : EncodedJwt
  pub published : AreSound p kek before.signing_keys → IsPublished p kek before key
  pub signed :
      sign_jwt p key.algorithm key.kid (access_claims p user now jti) key.key_pair seed ≡ ok encoded
  pub token : answer.access_token ≡ encoded.token
  pub expires : answer.expires_at ≡ now + access_token_lifetime

module _ (env : Env) (p : Primitives) where
  sign_with-eq-ok :
      (key : ActiveSigningKey) (c : Claims) (w : World Db) (e : EncodedJwt)
      → (sign_with env p key c w).0 ≡ ok e
      → sign_jwt p key.algorithm key.kid c key.key_pair w.calls ≡ ok e
  unfolding sign_with ask ◌>>=◌
  sign_with-eq-ok key c w e h = map_err-eq-ok login_crypto _ h

  issue_tokens-IsSigned :
      (kek : Bytes) (user : User)
      → Ensures
          (λ before after answer. IsSigned p kek user before answer)
          (issue_tokens env p kek user)
  unfolding issue_tokens
  issue_tokens-IsSigned kek user =
      Ensures-bind-eq _ (map_error (λ _. no_signing_key) (get_active_signing_key env p kek)) _
        (search (reads_rules, Reads-get_active_signing_key))
        λ key w w' got. Ensures-bind _ _ _ (search reads_rules) λ now.
          Ensures-bind _ _ _ (search reads_rules) λ access_jti.
            Ensures-bind-eq _ (sign_with env p key (access_claims p user now access_jti)) _
              (Reads-sign_with env p key _)
              λ access_jwt v v' ran. Ensures-bind _ _ _ (search reads_rules) λ id_jti.
                Ensures-bind _ _ _ (Reads-sign_with env p key _) λ id_jwt.
                  Ensures-bind-new_token env p _ _ _ λ raw.
                    Ensures-bind _ _ _ (search reads_rules) λ id. record {
                      after = λ u r h same_v same_w.
                          let (_, u1, e1, h1, _) =
                            bind-eq-ok (insert_refresh_token env p id user.id (p.sha256 raw) _) _ u
                              h in
                          let answer = ok-injective h1 in
                          record {
                            key = key;
                            now = now;
                            jti = access_jti;
                            seed = v.calls;
                            encoded = access_jwt;
                            published =
                                subst (λ d. Published p kek d d key) (sym same_w)
                                  ((get_active_signing_key-Ensures p kek env).after w key (
                                    ap (λ (r : Result CryptoError ActiveSigningKey × World Db). r.0)
                                      (map_error-eq-ok (λ _. no_signing_key)
                                        (get_active_signing_key env p kek) w w' got)));
                            signed =
                                sign_with-eq-ok key (access_claims p user now access_jti) v
                                  access_jwt
                                  (ap (λ (r : Result LoginError EncodedJwt × World Db). r.0) ran);
                            token = ap (λ (a : LoginResult). a.access_token) (sym answer);
                            expires = ap (λ (a : LoginResult). a.expires_at) (sym answer);
                          };
                    }

  -- The account of an address, and the token that is signed for it.
  pub record IsSignedFor (x : Externals) (email : String) (kek : Bytes) (before : Db)
      (answer : LoginResult) : Type 0 where
    pub row : UserRow
    pub user : User
    pub found : select_user_by_email x.lower email before ≡ some row
    pub read : user_from_row row ≡ ok user
    pub issued : IsSigned p kek user before answer

  pub login-IsSignedFor :
      (x : Externals) (email password : String) (kek : Bytes)
      → Ensures
          (λ before after answer. IsSignedFor x email kek before answer)
          (execute env p x email password kek)
  unfolding execute
  login-IsSignedFor x email password kek = Ensures-bind _ _ _ (Reads-pool_get env login_pool) λ _.
      Ensures-bind-eq _ (map_error login_db (get_user_by_email env x email)) _
        (search (reads_rules, Reads-get_user_by_email))
        λ o w w' ran. Ensures-bind-or_fail _ invalid_credentials o _ λ user some_user.
          Ensures-bind _ _ _
            (Reads-verify_blocking env p login_password invalid_credentials password
              user.password_hash)
            λ _.
              Ensures-if _ (is_active_status user.status) (issue_tokens env p kek user) _
                (λ act. record {
                  after = λ v a h same.
                      let (row, sel, read) = get_user_by_email-eq-ok env p x email w w' user (
                        map_error-eq-ok login_db (get_user_by_email env x email) w w'
                          (rw some_user at ran)) in
                      record {
                        row = row;
                        user = user;
                        found = rw same sel;
                        read = read;
                        issued = (issue_tokens-IsSigned kek user).after v a h;
                      };
                })
                (λ _. Ensures-fail _ account_not_active)
