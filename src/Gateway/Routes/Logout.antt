-- ===== src/Gateway/Routes/Logout.antt =====
-- What is left of a session after the route `logout` of services/gateway/src/routes/auth.rs.
use home_ryanseipp.Prelude.{
  String, true, Option, some, [], ◌∷◌, ◌≡◌, ◌≢◌, refl, sym, ap, ◌∙◌, ok, map_err, map_err-eq-ok,
  ok_or-eq-ok, ok-injective, Bool-cases, inl, inr, arith,
}
use home_ryanseipp.Effect.{Env, Bytes, Timestamp, World, lift, map_error, statement, query}
use home_ryanseipp.Effect.Rules.{bind-eq-ok}
use home_ryanseipp.Crypto.Primitives.{Primitives}
use home_ryanseipp.Identity.Tables.{bytes_eq}
use home_ryanseipp.Gateway.Cookies.{CookieHeader, extract_session_cookie}
use home_ryanseipp.Gateway.Tokens.{Formats, hash_session_token}
use home_ryanseipp.Gateway.Sessions.{
  Session, Sessions, select_session, delete_session_row, get_session, delete_session,
}
use home_ryanseipp.Gateway.Sessions.Refinement.{select_session-delete}
use home_ryanseipp.Gateway.Errors.{Response}
use home_ryanseipp.Gateway.Routes.Login.{result_of, sessions_of}
use home_ryanseipp.Gateway.Routes.{
  Client, Stores, stopped_session, in_sessions, auth_session, logout,
}

-- A session that is found has the hash that was asked for.
select_session-hash :
    (now : Timestamp) (hash : Bytes) (table : Sessions) (s : Session)
    → select_session now hash table ≡ some s
    → bytes_eq s.token_hash hash ≡ true
unfolding select_session
select_session-hash now hash [] s h = cc
select_session-hash now hash (row ∷ rows) s h = ground (arith, select_session-hash now hash rows s)

-- What the session of a request was found by.
record IsFound (p : Primitives) (header : CookieHeader) (table : Sessions) (s : Session)
    : Type 0 where
  token : String
  hash : Bytes
  now : Timestamp
  extracted : extract_session_cookie header ≡ ok token
  hashed : hash_session_token p token ≡ ok hash
  found : select_session now hash table ≡ some s

module _ (env : Env) (p : Primitives) where
  get_session-run :
      (hash : Bytes) (w : World Sessions) (o : Option Session)
      → (get_session env p hash w).0 ≡ ok o
      → (o ≡ select_session (env.now w.calls) hash w.db) × ((get_session env p hash w).1.db ≡ w.db)
  unfolding get_session query map_error
  get_session-run hash w o h = elim (Bool-cases (env.fails w.calls)) [
    | inl q ↦ cc (rw q at h)
    | inr q ↦ rw q (sym (ok-injective (rw q at h)), refl)
  ]

  delete_session-run :
      (hash : Bytes) (w : World Sessions) {u : Unit {0}}
      → (delete_session env p hash w).0 ≡ ok u
      → (delete_session env p hash w).1.db ≡ delete_session_row hash w.db
  unfolding delete_session statement map_error
  delete_session-run hash w h = elim (Bool-cases (env.fails w.calls)) [
    | inl q ↦ cc (rw q at h)
    | inr q ↦ rw q refl
  ]

module _ {I : Type 0} (env : Env) (p : Primitives) where
  auth_session-IsFound :
      (header : CookieHeader) (w : World (Stores I)) (s : Session)
      → (auth_session env p header w).0 ≡ ok s
      → IsFound p header w.db.sessions s
        × ((auth_session env p header w).1.db.sessions ≡ w.db.sessions)
  unfolding auth_session map_error
  auth_session-IsFound header w s h =
      let (token, w1, e1, h1, s1) =
        bind-eq-ok (lift (map_err _ (extract_session_cookie header))) _ w h in
      let (hash, w2, e2, h2, s2) =
        bind-eq-ok (lift (map_err _ (hash_session_token p token))) _ w1 h1 in
      let (found, w3, e3, h3, s3) =
        bind-eq-ok (in_sessions (map_error stopped_session (get_session env p hash))) _ w2 h2 in
      let (shown, same) =
        get_session-run env p hash (record { db = w2.db.sessions; calls = w2.calls }) found
          (map_err-eq-ok stopped_session _ (ap result_of e3)) in
      let kept = ap sessions_of e1 ∙ ap sessions_of e2 in
      (
        record {
          token = token;
          hash = hash;
          now = env.now w2.calls;
          extracted = map_err-eq-ok _ (extract_session_cookie header) (ap result_of e1);
          hashed = map_err-eq-ok _ (hash_session_token p token) (ap result_of e2);
          found =
              ap (select_session (env.now w2.calls) hash) kept ∙ sym shown ∙ ok_or-eq-ok _ found h3;
        },
        ap sessions_of s1
            ∙ ap sessions_of s2
            ∙ ap sessions_of s3
            ∙ sym (ap sessions_of e3)
            ∙ same
            ∙ sym kept,
      )

module _ {I : Type 0} (env : Env) (p : Primitives) (f : Formats) (c : Client I) where
  -- A logout takes the row of its session away.
  logout-deletes :
      (header : CookieHeader) (w : World (Stores I)) (r : Response)
      → (logout env p f c header w).0 ≡ ok r
      → (s : Session) × IsFound p header w.db.sessions s
        × ((logout env p f c header w).1.db.sessions
            ≡ delete_session_row s.token_hash w.db.sessions)
  unfolding logout map_error
  logout-deletes header w r h =
      let (s, w1, e1, h1, s1) = bind-eq-ok (auth_session env p header) _ w h in
      let (u, w2, e2, h2, s2) =
        bind-eq-ok (in_sessions (map_error stopped_session (delete_session env p s.token_hash))) _
          w1 h1 in
      let (found, kept) = auth_session-IsFound env p header w s (ap result_of e1) in
      let gone =
        delete_session-run env p s.token_hash (record { db = w1.db.sessions; calls = w1.calls })
          (map_err-eq-ok stopped_session _ (ap result_of e2)) in
      (
        s,
        found,
        ap sessions_of s1
            ∙ ap sessions_of s2
            ∙ sym (ap sessions_of e2)
            ∙ gone
            ∙ ap (delete_session_row s.token_hash) (sym (ap sessions_of e1) ∙ kept),
      )

  -- After a logout the cookie of its request opens no session: no request that brings the same
  -- `Cookie` header gets one, at any time, as long as no other call changes the table.
  pub logout-ends :
      (later : Env) (header : CookieHeader) (w w' : World (Stores I)) (r : Response) (s' : Session)
      → (logout env p f c header w).0 ≡ ok r
      → w'.db.sessions ≡ (logout env p f c header w).1.db.sessions
      → (auth_session later p header w').0 ≢ ok s'
  logout-ends later header w w' r s' h same h' =
      let (s, first, gone) = logout-deletes header w r h in
      let (again, kept) = auth_session-IsFound later p header w' s' h' in
      let one_token = ok-injective (sym first.extracted ∙ again.extracted) in
      let one_hash =
        ok-injective (sym first.hashed ∙ ap (hash_session_token p) one_token ∙ again.hashed) in
      let mine =
        ap (bytes_eq s.token_hash) (sym one_hash)
        ∙ select_session-hash first.now first.hash w.db.sessions s first.found in
      let shown =
        sym again.found
        ∙ ap (select_session again.now again.hash) (same ∙ gone)
        ∙ select_session-delete again.now s.token_hash again.hash w.db.sessions in
      cc (rw mine at shown)
