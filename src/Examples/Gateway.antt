-- ===== src/Examples/Gateway.antt =====
-- Runs of the gateway's cookies, session store and login (services/gateway/src).
use home_ryanseipp.Prelude.{
  ℕ, zero, suc, String, true, none, some, [], ◌∷◌, ◌≡◌, refl, Result, ok, err, arith, ◌≢◌,
}
use home_ryanseipp.Prelude.Text.{all_chars, trim, is_white, split}
use home_ryanseipp.Prelude.Text.Trimming.{is_visible}
use home_ryanseipp.Effect.{
  Bytes, World, Act, pure, fail, ask, ◌>>=◌, map_error, pool_get, statement, query,
}
use home_ryanseipp.Identity.Auth.{Status, status_of, Code}
use home_ryanseipp.Identity.Grpc.{LoginResponse}
use home_ryanseipp.Gateway.Cookies.{
  present, unauthorized, extract_session_cookie, set_session_cookie, CookieHeader, find_cookie,
  clear_session_cookie,
}
use home_ryanseipp.Gateway.Cookies.Extraction.{
  is_base64url, IsOther, extract-present, extract-shadowed,
}
use home_ryanseipp.Gateway.Tokens.{
  SessionError, Formats, decode_sub_from_jwt, generate_session_token, hash_session_token,
}
use home_ryanseipp.Gateway.Sessions.{
  Session, Sessions, insert_session_row, select_session, create_session, get_session,
  delete_session,
}
use home_ryanseipp.Gateway.Sessions.Refinement.{Map, put, Represents, insert-Represents}
use home_ryanseipp.Gateway.Sessions.Store.{Answer, get, perform, Allowed, perform-refines}
use home_ryanseipp.Gateway.Errors.{Response, expires, nothing}
use home_ryanseipp.Gateway.Routes.{
  Client, Stores, Stop, respond, auth_session, connect, call, open_session, login, logout,
}
use home_ryanseipp.Gateway.Routes.Access.{cookies_with, auth_session-finds}
use home_ryanseipp.Gateway.Routes.Login.{IsOpened, login-IsOpened}
use home_ryanseipp.Gateway.Routes.Logout.{logout-ends}
use home_ryanseipp.Examples.Toys.{toy_primitives, toy_base64, toy_env, letters, encode}

IsOther-cookie : IsOther "a=1"
unfolding trim is_white
IsOther-cookie = record { whole = refl; name = refl }

blank : all_chars is_white " " ≡ true
unfolding is_white
blank = refl

token_chars : all_chars is_base64url "abc-1" ≡ true
unfolding is_base64url
token_chars = refl

extract-present_example : extract_session_cookie (present "a=1; __Host-sid=abc-1;b=2") ≡ ok "abc-1"
extract-present_example =
    extract-present ("a=1" ∷ []) ("b=2" ∷ []) " " "abc-1" (IsOther-cookie, tt) (refl, tt) blank
      token_chars

two_visible : all_chars is_visible "2=x" ≡ true
unfolding is_white
two_visible = refl

extract-shadowed_example :
    extract_session_cookie (present "a=1; __Host-sid2=x; __Host-sid=abc-1") ≡ err unauthorized
extract-shadowed_example =
    extract-shadowed ("a=1" ∷ []) (" __Host-sid=abc-1" ∷ []) " " "2=x" (IsOther-cookie, tt)
      (refl, tt) blank two_visible refl refl

alphabet_letters :
    (n : ℕ) (s : String)
    → all_chars is_base64url s ≡ true
    → all_chars is_base64url (letters n s) ≡ true
unfolding is_base64url
alphabet_letters zero s h = h
alphabet_letters (suc n) s h = alphabet_letters n s h

alphabet : (b : Bytes) → all_chars is_base64url (encode b) ≡ true
alphabet [] = refl
alphabet (n ∷ bs) = alphabet_letters n (encode bs) (alphabet bs)

abbrev anna : Session
anna = record {
  token_hash = 7 ∷ 3 ∷ [];
  user_id = 2;
  access_token = "ab.ab.abaab";
  id_token = "id";
  refresh_token = "refresh";
  expires_at = 900;
  created_at = 1;
}

abbrev one_session : World (Stores Unit)
one_session = record {
  db = record { identity = tt; sessions = insert_session_row 5 anna [] };
  calls = 9;
}

auth_session-finds_example :
    (auth_session toy_env toy_primitives
      (cookies_with ("a=1" ∷ []) ("b=2" ∷ []) " " (encode (7 ∷ 3 ∷ [])))
      one_session).0
    ≡ ok anna
auth_session-finds_example =
    auth_session-finds toy_env toy_primitives toy_base64 (record { alphabet = alphabet })
      (7 ∷ 3 ∷ []) anna 5 [] one_session ("a=1" ∷ []) ("b=2" ∷ []) " " refl refl (omega arith) refl
      (IsOther-cookie, tt) (refl, tt) blank

nothing_stored : Represents [] (λ hash. none)
unfolding select_session
nothing_stored = record { shows = λ now hash. refl }

abbrev one_stored : World Sessions
one_stored = record { db = insert_session_row 5 anna []; calls = 9 }

abbrev looked_up : Result SessionError Answer × World Sessions
looked_up = perform toy_env toy_primitives (get anna.token_hash) one_stored

perform-refines_example :
    (m' : Map) × Allowed toy_env toy_primitives 9
      (put 5 anna (λ hash. none))
      (get anna.token_hash)
      looked_up.0
      m'
    × Represents looked_up.1.db m'
perform-refines_example =
    perform-refines toy_env toy_primitives (get anna.token_hash) one_stored
      (put 5 anna (λ hash. none)) (insert-Represents 5 anna [] (λ hash. none) nothing_stored)

abbrev toy_response : LoginResponse
toy_response = record {
  access_token = "ab.ab.abaab";
  refresh_token = "refresh";
  id_token = "id";
  expires_at = some (record { secs = 900; nanos = 0 });
}

abbrev refusal : {A : Type 0} → Act Unit Status A
refusal = fail (status_of Code.internal "internal error")

abbrev toy_client : Client Unit
toy_client = record {
  sign_up = λ username email given_name family_name password. refusal;
  login = λ email password. pure toy_response;
  user_info = λ authorization. refusal;
  verify_email = λ token. refusal;
  resend_verification = λ email. refusal;
  update_profile = λ authorization given_name family_name username. refusal;
  update_password = λ authorization current_password new_password. refusal;
}

abbrev toy_formats : Formats
toy_formats = record {
  value_sub = λ b. ok (some "id");
  base64_error = λ s. "error";
  uuid_error = λ s. "error";
  from_timestamp = λ secs nanos. some secs;
  is_metadata = λ s. true;
}

abbrev no_sessions : World (Stores Unit)
no_sessions = record { db = record { identity = tt; sessions = [] }; calls = 0 }

abbrev logged_in : Result Stop Response × World (Stores Unit)
logged_in = login toy_env toy_primitives toy_formats toy_client "a@b.org" "12345678" no_sessions

abbrev cookie_response : Response
cookie_response = respond 200 (some (set_session_cookie "aaaaaaabaaab")) (expires 900)

toy_cookie : logged_in.0 ≡ ok cookie_response
unfolding login connect call open_session decode_sub_from_jwt split create_session
    generate_session_token ask ◌>>=◌ map_error pool_get statement
toy_cookie = refl

login-IsOpened_example :
    (v : World Unit) × (resp : LoginResponse) × ((toy_client.login "a@b.org" "12345678" v).0
      ≡ ok resp)
    × IsOpened toy_primitives toy_formats resp [] logged_in.1.db.sessions cookie_response
login-IsOpened_example =
    login-IsOpened toy_env toy_primitives toy_formats toy_client "a@b.org" "12345678" no_sessions
      cookie_response toy_cookie

abbrev own_cookie : CookieHeader
own_cookie = cookies_with [] [] "" "aaaaaaabaaab"

abbrev logged_out : Result Stop Response × World (Stores Unit)
logged_out = logout toy_env toy_primitives toy_formats toy_client own_cookie one_session

toy_logged_out : logged_out.0 ≡ ok (respond 204 (some clear_session_cookie) nothing)
unfolding logout auth_session extract_session_cookie find_cookie hash_session_token get_session
    delete_session select_session insert_session_row split trim is_white ◌>>=◌ map_error query
    statement
toy_logged_out = refl

logout-ends_example : (auth_session toy_env toy_primitives own_cookie logged_out.1).0 ≢ ok anna
logout-ends_example =
    logout-ends toy_env toy_primitives toy_formats toy_client toy_env own_cookie one_session
      logged_out.1 (respond 204 (some clear_session_cookie) nothing) anna toy_logged_out refl
