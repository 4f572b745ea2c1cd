-- ===== src/Identity/Grpc.antt =====
-- The gRPC service of services/identity/src/services/mod.rs (`IdentityServiceImpl`). The writer and
-- the reader pool lead to one database. A panic ends a handler; here it is a database error.
pub mod Statuses
pub mod Serving
use home_ryanseipp.Prelude.{ℕ, ◌/◌, ◌%◌, ◌*◌, String, Bool, Option, some}
use home_ryanseipp.Prelude.Text.{◌⧺◌}
use home_ryanseipp.Effect.{Env, Bytes, Timestamp, Act, pure, ◌>>=◌, ◌>>◌, map_error}
use home_ryanseipp.Crypto.Primitives.{Primitives}
use home_ryanseipp.Identity.Accounts.{User, Db, Externals}
use home_ryanseipp.Identity.Auth.{Status, Authorization, authenticate}
use home_ryanseipp.Identity.SignUp as SignUp
use home_ryanseipp.Identity.Login as Login
use home_ryanseipp.Identity.VerifyEmail as VerifyEmail
use home_ryanseipp.Identity.ResendVerification as ResendVerification
use home_ryanseipp.Identity.UpdateProfile as UpdateProfile
use home_ryanseipp.Identity.UpdatePassword as UpdatePassword
use home_ryanseipp.Identity.SigningKeys as SigningKeys
use Statuses.{
  sign_up_status, login_status, user_info_status, verify_email_status, resend_status,
  get_jwks_status, update_profile_status, update_password_status,
}

-- prost_types::Timestamp
pub record ProtoTimestamp : Type 0 where
  pub secs : ℕ
  pub nanos : ℕ

-- `timestamp()` and `timestamp_subsec_nanos()` of a time, which is kept to the microsecond here
abbrev pub proto_timestamp : Timestamp → ProtoTimestamp
proto_timestamp t = record { secs = t / 1_000_000; nanos = t % 1_000_000 * 1_000 }

pub record LoginResponse : Type 0 where
  pub access_token : String
  pub refresh_token : String
  pub id_token : String
  pub expires_at : Option ProtoTimestamp

pub record UserInfoResponse : Type 0 where
  pub sub : String
  pub name : String
  pub given_name : String
  pub family_name : String
  pub username : String
  pub email : String
  pub email_verified : Bool
  pub updated_at : Option ProtoTimestamp

abbrev pub login_response : Login.LoginResult → LoginResponse
login_response result = record {
  access_token = result.access_token;
  refresh_token = result.refresh_token;
  id_token = result.id_token;
  expires_at = some (proto_timestamp result.expires_at);
}

abbrev pub info_response : Primitives → User → UserInfoResponse
info_response p user = record {
  sub = p.uuid_to_string user.id;
  name = user.given_name ⧺ " " ⧺ user.family_name;
  given_name = user.given_name;
  family_name = user.family_name;
  username = user.username;
  email = user.email;
  email_verified = user.email_verified;
  updated_at = some (proto_timestamp user.updated_at);
}

-- What the service was started with.
pub record Service : Type 0 where
  pub primitives : Primitives
  pub externals : Externals
  pub web_base_url : String
  pub kek : Bytes

-- The methods of `IdentityServiceImpl`.
module _ (env : Env) (s : Service) where
  unfoldable pub sign_up :
      String → String → String → String → Option String → Act Db Status (Unit {0})
  sign_up username email given_name family_name password = map_error sign_up_status (
      SignUp.execute env s.primitives s.externals username email given_name family_name password
        s.web_base_url)

  unfoldable pub login : String → String → Act Db Status LoginResponse
  login email password = do
    result ←
        map_error login_status (Login.execute env s.primitives s.externals email password s.kek)
    pure (login_response result)

  unfoldable pub user_info : Authorization → Act Db Status UserInfoResponse
  user_info authorization = do
    user_id ← authenticate env s.primitives authorization
    user ← map_error user_info_status (UpdateProfile.user_info env user_id)
    pure (info_response s.primitives user)

  unfoldable pub verify_email : String → Act Db Status (Unit {0})
  verify_email token = map_error verify_email_status (VerifyEmail.execute env s.primitives token)

  unfoldable pub resend_verification : String → Act Db Status (Unit {0})
  resend_verification email =
      map_error resend_status
        (ResendVerification.execute env s.primitives s.externals email s.web_base_url)

  unfoldable pub get_jwks : Act Db Status String
  get_jwks = map_error get_jwks_status (SigningKeys.get_jwks env s.primitives)

  unfoldable pub update_profile :
      Authorization → Option String → Option String → Option String → Act Db Status (Unit {0})
  update_profile authorization given_name family_name username = do
    user_id ← authenticate env s.primitives authorization
    map_error update_profile_status
        (UpdateProfile.execute env s.externals user_id given_name family_name username)

  unfoldable pub update_password : Authorization → String → String → Act Db Status (Unit {0})
  update_password authorization current_password new_password = do
    user_id ← authenticate env s.primitives authorization
    map_error update_password_status
        (UpdatePassword.execute env s.primitives s.externals user_id current_password new_password)
