-- ===== src/Gateway/Routes.antt =====
-- The routes of services/gateway/src/routes/auth.rs and the session of a request in
-- services/gateway/src/routes/session.rs. The identity service is a client that each method of it
-- calls; its state lies beside the table of sessions.
pub mod Access
pub mod Login
pub mod Logout
use home_ryanseipp.Prelude.{
  ℕ, String, Bool, Option, none, some, Result, ok, err, map_err, ok_or, ◌&&◌, leb, if◌then◌else◌,
}
use home_ryanseipp.Prelude.Text.{◌⧺◌, all_chars}
use home_ryanseipp.Effect.{
  Env, Bytes, World, Act, pure, fail, lift, ◌>>=◌, ◌>>◌, map_error, pool_get,
}
use home_ryanseipp.Crypto.Primitives.{Primitives}
use home_ryanseipp.Identity.Auth.{
  Status, status_of, Code.unavailable, Authorization, Authorization.present,
}
use home_ryanseipp.Identity.Grpc.{LoginResponse, UserInfoResponse, ProtoTimestamp}
use home_ryanseipp.Gateway.Cookies.{
  CookieHeader, Unauthorized, extract_session_cookie, set_session_cookie, clear_session_cookie,
}
use home_ryanseipp.Gateway.Sessions.{Session, Sessions, create_session, get_session, delete_session}
use home_ryanseipp.Gateway.Tokens.{
  SessionError, jwt_decode, Formats, hash_session_token, decode_sub_from_jwt,
}
use home_ryanseipp.Gateway.Errors.{
  AppError, grpc, channel, session, unauthorized, ChannelError, transport, Response, Body, nothing,
  expires, user_info as user_info_body, into_response,
}

-- The methods of `IdentityServiceClient` that the routes call, over the state of the service.
pub record Client (I : Type 0) : Type 0 where
  pub sign_up : String → String → String → String → Option String → Act I Status (Unit {0})
  pub login : String → String → Act I Status LoginResponse
  pub user_info : Authorization → Act I Status UserInfoResponse
  pub verify_email : String → Act I Status (Unit {0})
  pub resend_verification : String → Act I Status (Unit {0})
  pub update_profile :
      Authorization → Option String → Option String → Option String → Act I Status (Unit {0})
  pub update_password : Authorization → String → String → Act I Status (Unit {0})

pub record Stores (I : Type 0) : Type 0 where
  pub identity : I
  pub sessions : Sessions

-- How a handler ends without a response of its own: with an error, or with a panic.
pub data Stop : Type 0 where
  rejected : AppError → Stop
  panicked : Stop

module _ {I E A : Type 0} where
  -- A call that only the identity service sees, or only the table of sessions.
  abbrev pub in_identity : Act I E A → Act (Stores I) E A
  in_identity m w =
      let r = m (record { db = w.db.identity; calls = w.calls }) in
      (r.0, record { db = record w.db { identity = r.1.db }; calls = r.1.calls })

  abbrev pub in_sessions : Act Sessions E A → Act (Stores I) E A
  in_sessions m w =
      let r = m (record { db = w.db.sessions; calls = w.calls }) in
      (r.0, record { db = record w.db { sessions = r.1.db }; calls = r.1.calls })

abbrev pub stopped_session : SessionError → Stop
stopped_session e = rejected (session e)

abbrev pub stopped_grpc : Status → Stop
stopped_grpc s = rejected (grpc s)

abbrev pub stopped_cookie : Unauthorized → Stop
stopped_cookie e = rejected unauthorized

-- `with_auth`: its metadata, or the panic of `expect`
unfoldable pub with_auth : Formats → Session → Result Stop Authorization
with_auth f s =
    let value = "Bearer " ⧺ s.access_token in
    if f.is_metadata value then ok (present value) else err panicked

abbrev pub respond : ℕ → Option String → Body → Response
respond status set_cookie body = record { status = status; set_cookie = set_cookie; body = body }

abbrev pub no_content : Response
no_content = respond 204 none nothing

module _ {I : Type 0} (env : Env) where
  -- `state.identity.client()`
  unfoldable pub connect : Act (Stores I) Stop (Unit {0})
  connect = pool_get env (rejected (channel transport))

  -- A call of a method of the client: the request and the answer can each be lost.
  unfoldable pub call : {A : Type 0} → Act I Status A → Act (Stores I) Stop A
  call m = do
    pool_get env (stopped_grpc (status_of unavailable "request lost"))
    answer ← in_identity (map_error stopped_grpc m)
    pool_get env (stopped_grpc (status_of unavailable "answer lost"))
    pure answer

module _ {I : Type 0} (env : Env) (p : Primitives) where
  -- `AuthSession::from_request_parts`
  unfoldable pub auth_session : CookieHeader → Act (Stores I) Stop Session
  auth_session header = do
    token ← lift (map_err stopped_cookie (extract_session_cookie header))
    token_hash ← lift (map_err (λ _. rejected unauthorized) (hash_session_token p token))
    found ← in_sessions (map_error stopped_session (get_session env p token_hash))
    lift (ok_or (rejected unauthorized) found)

module _ {I : Type 0} (env : Env) (p : Primitives) (f : Formats) (c : Client I) where
  unfoldable pub sign_up :
      (username given_name family_name email password : String) → Act (Stores I) Stop Response
  sign_up username given_name family_name email password = do
    connect env
    call env (c.sign_up username email given_name family_name (some password))
    pure no_content

  unfoldable pub verify_email : (token : String) → Act (Stores I) Stop Response
  verify_email token = do connect env; call env (c.verify_email token); pure no_content

  -- what `login` does with the answer of the service
  unfoldable pub open_session : LoginResponse → Act (Stores I) Stop Response
  open_session resp = do
    user_id ← lift (map_err stopped_session (decode_sub_from_jwt p f resp.access_token))
    expires_at_ts ← lift (
        ok_or (stopped_session (jwt_decode "missing expires_at in login response")) resp.expires_at)
    expires_at ← lift (
        ok_or (stopped_session (jwt_decode "invalid expires_at timestamp"))
          (f.from_timestamp expires_at_ts.secs expires_at_ts.nanos))
    session_token ← in_sessions (
        map_error stopped_session (
          create_session env p user_id resp.access_token resp.id_token resp.refresh_token
            expires_at))
    pure (respond 200 (some (set_session_cookie session_token)) (expires expires_at_ts.secs))

  unfoldable pub login : (email password : String) → Act (Stores I) Stop Response
  login email password = do connect env; resp ← call env (c.login email password); open_session resp

  unfoldable pub logout : CookieHeader → Act (Stores I) Stop Response
  logout header = do
    s ← auth_session env p header
    in_sessions (map_error stopped_session (delete_session env p s.token_hash))
    pure (respond 204 (some clear_session_cookie) nothing)

  unfoldable pub user_info : CookieHeader → Act (Stores I) Stop Response
  user_info header = do
    s ← auth_session env p header
    connect env
    authorization ← lift (with_auth f s)
    resp ← call env (c.user_info authorization)
    pure (
        respond 200 none (
          user_info_body resp.sub resp.name resp.given_name resp.family_name resp.username
            resp.email resp.email_verified))

  unfoldable pub update_profile :
      CookieHeader
      → (given_name family_name username : Option String) → Act (Stores I) Stop Response
  update_profile header given_name family_name username = do
    s ← auth_session env p header
    connect env
    authorization ← lift (with_auth f s)
    call env (c.update_profile authorization given_name family_name username)
    pure no_content

  unfoldable pub update_password :
      CookieHeader → (current_password new_password : String) → Act (Stores I) Stop Response
  update_password header current_password new_password = do
    s ← auth_session env p header
    connect env
    authorization ← lift (with_auth f s)
    call env (c.update_password authorization current_password new_password)
    pure no_content

  unfoldable pub resend_verification : (email : String) → Act (Stores I) Stop Response
  resend_verification email = do
    connect env
    call env (c.resend_verification email)
    pure no_content
