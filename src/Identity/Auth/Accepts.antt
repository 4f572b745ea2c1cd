-- ===== src/Identity/Auth/Accepts.antt =====
-- Which requests services/auth.rs accepts.
use home_ryanseipp.Prelude.{
  ℕ, String, some, List, ◌≡◌, ap, find, Result, ok, str_eq, ok-injective, map_err-eq-ok,
  ok_or-eq-ok,
}
use home_ryanseipp.Effect.{Env, Uuid, World, ask, map_error, query}
use home_ryanseipp.Effect.Rules.{bind-eq-ok, map_error-eq-ok}
use home_ryanseipp.Effect.Calls.{Reads-pool_get, query-eq-ok}
use home_ryanseipp.Effect.Ensures.{Ensures, Ensures-bind, Ensures-bind-lift}
use home_ryanseipp.Crypto.Primitives.{Jwk, JwtHeader, Claims, Primitives}
use home_ryanseipp.Crypto.Jwt.Acceptance.{IsAccepted, verify_jwt-IsAccepted}
use home_ryanseipp.Identity.Accounts.{Db}
use home_ryanseipp.Identity.SigningKeys.{
  GetJwksError, jwks_db, jwks_pool, list_public_jwks, read_jwks, select_public_jwks,
}
use home_ryanseipp.Identity.Auth.{
  Authorization, options_at, seconds, Status, extract_bearer_token, decode_jwt_header, check_token,
  authenticate,
}

-- The token verifies, at some reading of the clock, under the key, and its subject is the id.
pub record IsVerifiedFor (env : Env) (p : Primitives) (token : String) (jwk : Jwk) (id : Uuid)
    : Type 0 where
  pub claims : Claims
  pub sub : String
  pub clock : ℕ
  pub verified : IsAccepted p token jwk (options_at (seconds (env.now clock))) claims
  pub subject : claims.sub ≡ some sub
  pub parsed : p.uuid_of_string sub ≡ some id

-- The request carries a token that verifies under the key of the table that its header names, a key
-- that is not revoked.
pub record IsAuthenticated (env : Env) (p : Primitives) (request : Authorization) (before : Db)
    (id : Uuid) : Type 0 where
  pub token : String
  pub header : JwtHeader
  pub jwks : List Jwk
  pub jwk : Jwk
  pub bearer : extract_bearer_token request ≡ ok token
  pub read : decode_jwt_header p token ≡ ok header
  pub keys : read_jwks p (select_public_jwks before) ≡ ok jwks
  pub key : find (λ (k : Jwk). str_eq k.kid header.kid) jwks ≡ some jwk
  pub accepted : IsVerifiedFor env p token jwk id

module _ (env : Env) (p : Primitives) where
  check_token-Ensures :
      (token : String) (jwk : Jwk)
      → Ensures
          (λ (before after : Db) id. IsVerifiedFor env p token jwk id)
          (check_token env p token jwk)
  unfolding check_token ask
  check_token-Ensures token jwk = record {
    after = λ w0 id0 h0.
        let (now, w1, e1, h1, _) = bind-eq-ok (ask env.now) _ w0 h0 in
        let read_clock : env.now w0.calls ≡ now =
          ok-injective (ap (λ (r : Result Status ℕ × World Db). r.0) e1) in
        (Ensures-bind-lift (λ (before after : Db) id. IsVerifiedFor env p token jwk id) _ _
            λ claims ok_claims. Ensures-bind-lift _ _ _ λ sub ok_sub. record {
              after = λ w id h. record {
                claims = claims;
                sub = sub;
                clock = w0.calls;
                verified =
                    verify_jwt-IsAccepted p token jwk _ claims
                      (rw read_clock (map_err-eq-ok _ _ ok_claims));
                subject = ok_or-eq-ok _ _ ok_sub;
                parsed = ok_or-eq-ok _ _ h;
              };
            }).after
          w1 id0 h1;
  }

  list_public_jwks-Ensures :
      Ensures
        (λ (before after : Db) jwks. read_jwks p (select_public_jwks before) ≡ ok jwks)
        (list_public_jwks env p)
  unfolding list_public_jwks
  list_public_jwks-Ensures = Ensures-bind _ _ _ (Reads-pool_get env jwks_pool) λ _. record {
    after = λ w jwks h.
        let (rows, w1, e, h1, _) =
          bind-eq-ok (map_error jwks_db (query env (λ _ d. select_public_jwks d))) _ w h in
        let (a, _, _) = query-eq-ok env _ w w1 (map_error-eq-ok _ _ w w1 e) in rw (← a) h1;
  }

  authenticate-Ensures :
      (request : Authorization)
      → Ensures
          (λ before (after : Db) id. IsAuthenticated env p request before id)
          (authenticate env p request)
  unfolding authenticate
  authenticate-Ensures request = Ensures-bind-lift _ _ _ λ token bearer.
      Ensures-bind-lift _ _ _ λ header read. record {
        after = λ w id h.
            let (jwks, w1, e, h1, _) = bind-eq-ok (map_error _ (list_public_jwks env p)) _ w h in
            let keys = list_public_jwks-Ensures.after w jwks (
              ap (λ (r : Result GetJwksError (List Jwk) × World Db). r.0)
                (map_error-eq-ok _ _ w w1 e)) in
            (Ensures-bind-lift (λ (before after : Db) id. IsAuthenticated env p request w.db id) _ _
                λ jwk found. record {
                  after = λ v i g. record {
                    token = token;
                    header = header;
                    jwks = jwks;
                    jwk = jwk;
                    bearer = bearer;
                    read = read;
                    keys = keys;
                    key = ok_or-eq-ok _ _ found;
                    accepted = (check_token-Ensures token jwk).after v i g;
                  };
                }).after
              w1 id h1;
      }

  -- If `authenticate` gives an id, the request has a bearer token whose header names a key of the
  -- table that is not revoked, the token is accepted under that key, for the issuer and the audience
  -- of the service and a reading of the clock, and its subject is the text of the id.
  pub authenticate-IsAuthenticated :
      (request : Authorization) (w : World Db) (id : Uuid)
      → (authenticate env p request w).0 ≡ ok id
      → IsAuthenticated env p request w.db id
  authenticate-IsAuthenticated request w id h = (authenticate-Ensures request).after w id h
