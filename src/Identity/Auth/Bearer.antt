-- ===== src/Identity/Auth/Bearer.antt =====
-- services/identity/src/services/auth.rs, the request's token and its header
use home_ryanseipp.Prelude.{String, Option, none, some, List, [], ◌∷◌, Result, err, ok_or, ◌>>=◌}
use home_ryanseipp.Prelude.Text.{split, strip_prefix}
use home_ryanseipp.Crypto.Primitives.{JwtHeader, Primitives}

-- The gRPC codes that the service answers with, and those that a client of it can meet besides.
pub data Code : Type 0 where
  invalid_argument not_found already_exists permission_denied : Code
  resource_exhausted internal unauthenticated unavailable other : Code

pub record Status : Type 0 where
  pub code : Code
  pub message : String

abbrev pub status_of : Code → String → Status
status_of code message = record { code = code; message = message }

-- The `authorization` entry of the metadata: absent, not readable as text, or a text.
pub data Authorization : Type 0 where
  missing unreadable : Authorization
  present : String → Authorization

-- `extract_bearer_token`
unfoldable pub extract_bearer_token : Authorization → Result Status String
extract_bearer_token missing = err (status_of unauthenticated "missing authorization header")
extract_bearer_token unreadable = err (status_of unauthenticated "invalid authorization header")
extract_bearer_token (present value) =
    ok_or (status_of unauthenticated "invalid authorization scheme") (strip_prefix "Bearer " value)

abbrev pub first : List String → Option String
first [] = none
first (s ∷ ss) = some s

abbrev pub malformed : Status
malformed = status_of unauthenticated "malformed token"

-- `decode_jwt_header`
unfoldable pub decode_jwt_header : Primitives → String → Result Status JwtHeader
decode_jwt_header p token = do
  header_b64 ← ok_or malformed (first (split b'.' token))
  header_bytes ← ok_or malformed (p.b64_decode header_b64)
  ok_or malformed (p.header_of_json header_bytes)
