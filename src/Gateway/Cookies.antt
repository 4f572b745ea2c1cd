-- ===== src/Gateway/Cookies.antt =====
-- The session cookie of services/gateway/src/routes/session.rs.
pub mod Extraction
use home_ryanseipp.Prelude.{String, Option, none, some, List, [], ◌∷◌, Result, ok, err}
use home_ryanseipp.Prelude.Text.{◌⧺◌, split, trim, strip_prefix}

abbrev pub session_cookie : String
session_cookie = "__Host-sid"

-- seven days in seconds
abbrev pub session_max_age_secs : String
session_max_age_secs = "604800"

-- The `Cookie` header: absent, not readable as text, or a text.
pub data CookieHeader : Type 0 where
  missing unreadable : CookieHeader
  present : String → CookieHeader

-- The only refusal of the extraction is `AppError::Unauthorized`.
pub data Unauthorized : Type 0 where
  unauthorized : Unauthorized

-- what follows the name of the cookie
abbrev pub cookie_value : String → Result Unauthorized String
cookie_value rest = elim (strip_prefix "=" rest) [ none ↦ err unauthorized | some value ↦ ok value ]

-- the loop over the pairs
unfoldable pub find_cookie : List String → Result Unauthorized String
find_cookie [] = err unauthorized
find_cookie (pair ∷ pairs) = elim (strip_prefix session_cookie (trim pair)) [
  | none ↦ find_cookie pairs
  | some rest ↦ cookie_value rest
]

-- `extract_session_cookie`
unfoldable pub extract_session_cookie : CookieHeader → Result Unauthorized String
extract_session_cookie missing = err unauthorized
extract_session_cookie unreadable = err unauthorized
extract_session_cookie (present text) = find_cookie (split b';' text)

-- `set_session_cookie`
unfoldable pub set_session_cookie : String → String
set_session_cookie token =
    session_cookie ⧺ "=" ⧺ token ⧺ "; HttpOnly; Secure; SameSite=Lax; Path=/; Max-Age="
    ⧺ session_max_age_secs

-- `clear_session_cookie`
unfoldable pub clear_session_cookie : String
clear_session_cookie = session_cookie ⧺ "=; HttpOnly; Secure; SameSite=Lax; Path=/; Max-Age=0"
