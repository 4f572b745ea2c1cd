-- ===== src/Gateway/Errors.antt =====
-- The errors of services/gateway/src/routes/error.rs and the HTTP responses that they become.
use home_ryanseipp.Prelude.{ℕ, String, Option, none, Bool}
use home_ryanseipp.Identity.Auth.{Code, Status}
use home_ryanseipp.Gateway.Tokens.{SessionError}

-- services/gateway/src/pool.rs
pub data ChannelError : Type 0 where
  source tls transport : ChannelError

pub data AppError : Type 0 where
  grpc : Status → AppError
  channel : ChannelError → AppError
  session : SessionError → AppError
  unauthorized : AppError

-- The JSON bodies that the routes answer with.
pub data Body : Type 0 where
  nothing : Body
  error : String → Body
  expires : ℕ → Body
  user_info :
      (sub name given_name family_name username email : String) (email_verified : Bool) → Body

pub record Response : Type 0 where
  pub status : ℕ
  pub set_cookie : Option String
  pub body : Body

abbrev pub failure : ℕ → String → Response
failure status message = record { status = status; set_cookie = none; body = error message }

abbrev pub internal_server_error : Response
internal_server_error = failure 500 "internal server error"

abbrev pub grpc_response : Code → String → Response
grpc_response Code.invalid_argument message = failure 400 message
grpc_response Code.already_exists message = failure 409 message
grpc_response Code.not_found message = failure 404 message
grpc_response Code.unauthenticated message = failure 401 message
grpc_response Code.permission_denied message = failure 403 message
grpc_response Code.unavailable message = failure 503 message
grpc_response Code.resource_exhausted message = internal_server_error
grpc_response Code.internal message = internal_server_error
grpc_response Code.other message = internal_server_error

-- `into_response`
unfoldable pub into_response : AppError → Response
into_response unauthorized = failure 401 "unauthorized"
into_response (session e) = internal_server_error
into_response (channel e) = failure 503 "service temporarily unavailable"
into_response (grpc s) = grpc_response s.code s.message
