-- ===== src/Gateway/Routes/Login.antt =====
-- What the route `login` of services/gateway/src/routes/auth.rs leaves in the table of sessions.
use home_ryanseipp.Prelude.{
  ℕ, String, some, ◌≡◌, sym, ap, ◌∙◌, Result, ok, map_err-eq-ok, ok-injective,
}
use mathlib.Core.Path.{subst}
use home_ryanseipp.Effect.{Env, Uuid, Timestamp, World, Act, pure, ◌>>=◌, map_error, pool_get}
use home_ryanseipp.Effect.Rules.{Reads, Keeps, Keeps-bind, Reads-Keeps, Reads-pure, bind-eq-ok}
use home_ryanseipp.Effect.Calls.{Reads-pool_get}
use home_ryanseipp.Effect.Ensures.{Ensures, Ensures-bind-lift}
use home_ryanseipp.Crypto.Primitives.{Primitives}
use home_ryanseipp.Identity.Auth.{Status}
use home_ryanseipp.Identity.Grpc.{LoginResponse}
use home_ryanseipp.Gateway.Cookies.{set_session_cookie}
use home_ryanseipp.Gateway.Tokens.{Formats, decode_sub_from_jwt}
use home_ryanseipp.Gateway.Sessions.{Sessions, create_session}
use home_ryanseipp.Gateway.Sessions.Refinement.{IsCreated, create_session-IsCreated}
use home_ryanseipp.Gateway.Errors.{Response, expires}
use home_ryanseipp.Gateway.Routes.{
  Client, Stores, in_identity, in_sessions, respond, stopped_session, stopped_grpc, connect, call,
  open_session, login,
}

-- The session of an answer is in the table, and its token in the cookie of the response.
pub record IsOpened (p : Primitives) (f : Formats) (resp : LoginResponse) (before after : Sessions)
    (r : Response) : Type 0 where
  pub user_id : Uuid
  pub token : String
  pub subject : decode_sub_from_jwt p f resp.access_token ≡ ok user_id
  pub cookie : r.set_cookie ≡ some (set_session_cookie token)
  pub stored :
      IsCreated p user_id resp.access_token resp.id_token resp.refresh_token before after token

abbrev pub result_of : {E A D : Type 0} → Result E A × World D → Result E A
result_of r = r.0

abbrev pub sessions_of : {E A I : Type 0} → Result E A × World (Stores I) → Sessions
sessions_of r = r.1.db.sessions

module _ {I : Type 0} where
  -- A call of the client leaves the sessions alone.
  Keeps-call :
      {A : Type 0} (env : Env) (m : Act I Status A) (table : Sessions)
      → Keeps (λ (d : Stores I). d.sessions ≡ table) (call env m)
  unfolding call
  Keeps-call env m table = Keeps-bind _ _ _ (Reads-Keeps _ (Reads-pool_get env _)) (λ u.
      Keeps-bind _ _ _ (record { kept = λ w h. h })
        (λ answer.
          Keeps-bind _ _ _ (Reads-Keeps _ (Reads-pool_get env _))
            (λ v. Reads-Keeps _ (Reads-pure answer))))

  Reads-connect : (env : Env) → Reads (connect {I = I} env)
  unfolding connect
  Reads-connect env = Reads-pool_get env _

  call-eq-ok :
      {A : Type 0} (env : Env) (m : Act I Status A) (w : World (Stores I)) {a : A}
      → (call env m w).0 ≡ ok a
      → (v : World I) × ((m v).0 ≡ ok a)
  unfolding call map_error
  call-eq-ok env m w h =
      let (u, w1, e1, h1, s1) = bind-eq-ok (pool_get env _) _ w h in
      let (answer, w2, e2, h2, s2) = bind-eq-ok (in_identity (map_error stopped_grpc m)) _ w1 h1 in
      let (u', w3, e3, h3, s3) = bind-eq-ok (pool_get env _) _ w2 h2 in
      (
        record { db = w1.db.identity; calls = w1.calls },
        map_err-eq-ok stopped_grpc _ (ap result_of e2) ∙ ap ok (ok-injective h3),
      )

module _ {I : Type 0} (env : Env) (p : Primitives) (f : Formats) (c : Client I) where
  -- the end of `open_session`
  create-IsOpened :
      (resp : LoginResponse) (user_id : Uuid) (expires_at : Timestamp) (secs : ℕ)
      → decode_sub_from_jwt p f resp.access_token ≡ ok user_id
      → Ensures
          (λ (before after : Stores I) r. IsOpened p f resp before.sessions after.sessions r)
          (in_sessions (
              map_error stopped_session (
                create_session env p user_id resp.access_token resp.id_token resp.refresh_token
                  expires_at))
            >>= λ token. pure (respond 200 (some (set_session_cookie token)) (expires secs)))
  unfolding map_error
  create-IsOpened resp user_id expires_at secs subject = record {
    after = λ w r h.
        let make =
          create_session env p user_id resp.access_token resp.id_token resp.refresh_token
            expires_at in
        let (token, w', e, h', s) =
          bind-eq-ok (in_sessions (map_error stopped_session make)) _ w h in
        let created =
          create_session-IsCreated env p user_id resp.access_token resp.id_token resp.refresh_token
            expires_at in
        record {
          user_id = user_id;
          token = token;
          subject = subject;
          cookie = ap (λ (r : Response). r.set_cookie) (sym (ok-injective h'));
          stored =
              subst
                (λ after.
                  IsCreated p user_id resp.access_token resp.id_token resp.refresh_token
                    w.db.sessions after token)
                (ap sessions_of e ∙ sym (ap sessions_of s))
                (created.after (record { db = w.db.sessions; calls = w.calls }) token
                  (map_err-eq-ok stopped_session _ (ap result_of e)));
        };
  }

  open_session-IsOpened :
      (resp : LoginResponse)
      → Ensures
          (λ (before after : Stores I) r. IsOpened p f resp before.sessions after.sessions r)
          (open_session env p f c resp)
  unfolding open_session
  open_session-IsOpened resp = Ensures-bind-lift _ _ _ (λ user_id subject.
      Ensures-bind-lift _ _ _ (λ ts e. Ensures-bind-lift _ _ _ (λ expires_at e'.
        create-IsOpened resp user_id expires_at ts.secs (map_err-eq-ok stopped_session _ subject))))

  pub login-IsOpened :
      (email password : String) (w : World (Stores I)) (r : Response)
      → (login env p f c email password w).0 ≡ ok r
      → (v : World I) × (resp : LoginResponse) × ((c.login email password v).0 ≡ ok resp)
        × IsOpened p f resp w.db.sessions (login env p f c email password w).1.db.sessions r
  unfolding login
  login-IsOpened email password w r h =
      let (u, w1, e1, h1, s1) = bind-eq-ok (connect env) _ w h in
      let (resp, w2, e2, h2, s2) = bind-eq-ok (call env (c.login email password)) _ w1 h1 in
      let (v, came) = call-eq-ok env (c.login email password) w1 (ap (λ r. r.0) e2) in
      let kept =
        sym (ap sessions_of e2)
        ∙ (Keeps-call env (c.login email password) w.db.sessions).kept w1 (
            sym (ap sessions_of e1)
            ∙ ap (λ (d : Stores I). d.sessions) ((Reads-connect env).same w)) in
      (
        v,
        resp,
        came,
        subst
            (λ before. IsOpened p f resp before (login env p f c email password w).1.db.sessions r)
            kept
            (subst (λ after. IsOpened p f resp w2.db.sessions after r)
              (sym (ap sessions_of s1 ∙ ap sessions_of s2))
              ((open_session-IsOpened resp).after w2 r h2)),
      )
