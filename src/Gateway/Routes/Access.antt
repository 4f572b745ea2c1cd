-- ===== src/Gateway/Routes/Access.antt =====
-- The session that `login` opens and `AuthSession` finds again, in services/gateway/src/routes.
use home_ryanseipp.Prelude.{
  ◌+◌, ◌<◌, String, true, false, some, List, ◌∷◌, ◌++◌, ◌≡◌, refl, sym, ok, All, arith,
}
use home_ryanseipp.Prelude.Text.{◌⧺◌, all_chars, is_white}
use home_ryanseipp.Effect.{Env, Bytes, Timestamp, World, ◌>>=◌, map_error, query}
use home_ryanseipp.Crypto.Primitives.{Primitives, Base64Laws}
use home_ryanseipp.Identity.Tables.Consistency.{bytes_eq_refl}
use home_ryanseipp.Gateway.Cookies.{CookieHeader, present, session_cookie}
use home_ryanseipp.Gateway.Cookies.Extraction.{
  is_base64url, header_text, IsPair, IsOther, extract-present,
}
use home_ryanseipp.Gateway.Tokens.{hash_session_token}
use home_ryanseipp.Gateway.Sessions.{
  Session, Sessions, time_to_live, insert_session_row, select_session, get_session,
}
use home_ryanseipp.Gateway.Routes.{Stores, auth_session}

-- Base64UrlUnpadded writes letters, digits, `-` and `_`.
pub record AlphabetLaws (p : Primitives) : Type 0 where
  pub alphabet : (b : Bytes) → all_chars is_base64url (p.b64_encode b) ≡ true

-- A `Cookie` header with a session token and the cookies around it.
abbrev pub cookies_with : (earlier later : List String) → (lead token : String) → CookieHeader
cookies_with earlier later lead token =
    present (header_text (earlier ++ ((lead ⧺ (session_cookie ⧺ ("=" ⧺ token))) ∷ later)))

select_session-insert :
    (written_at now : Timestamp) (s : Session) (table : Sessions)
    → now < written_at + time_to_live
    → select_session now s.token_hash (insert_session_row written_at s table) ≡ some s
unfolding select_session insert_session_row
select_session-insert written_at now s table h = ground (arith, bytes_eq_refl s.token_hash)

-- A browser that sends the cookie of a session back gets the session: the header may have other
-- cookies around it, of names that do not start with `__Host-sid` if they come first; the session
-- was the last to be written, less than seven days before; and the database answers.
pub auth_session-finds :
    {I : Type 0} (env : Env) (p : Primitives)
    → Base64Laws p
    → AlphabetLaws p
    → (raw : Bytes) (s : Session) (written_at : Timestamp) (table : Sessions) (w : World (Stores I))
      (earlier later : List String) (lead : String)
    → s.token_hash ≡ p.sha256 raw
    → w.db.sessions ≡ insert_session_row written_at s table
    → env.now w.calls < written_at + time_to_live
    → env.fails w.calls ≡ false
    → All IsOther earlier
    → All IsPair later
    → all_chars is_white lead ≡ true
    → (auth_session env p (cookies_with earlier later lead (p.b64_encode raw)) w).0 ≡ ok s
unfolding auth_session ◌>>=◌ map_error get_session query hash_session_token
auth_session-finds env p b64 abc raw s written_at table w earlier later lead hash here young answers
      h k blank =
    rw
      (
        extract-present earlier later lead (p.b64_encode raw) h k blank (abc.alphabet raw),
        b64.decode-encode raw,
        answers,
        here,
        sym hash,
        select_session-insert written_at (env.now w.calls) s table young,
      )
      refl
