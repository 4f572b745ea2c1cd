-- ===== src/Identity/Grpc/Statuses.antt =====
-- What the methods of services/identity/src/services/mod.rs answer to an error of their handler.
use home_ryanseipp.Prelude.Text.{◌⧺◌}
use home_ryanseipp.Identity.Auth.{Code, Status, status_of}
use home_ryanseipp.Identity.SignUp as SignUp
use home_ryanseipp.Identity.Login as Login
use home_ryanseipp.Identity.VerifyEmail as VerifyEmail
use home_ryanseipp.Identity.ResendVerification as ResendVerification
use home_ryanseipp.Identity.UpdateProfile as UpdateProfile
use home_ryanseipp.Identity.UpdatePassword as UpdatePassword
use home_ryanseipp.Identity.SigningKeys as SigningKeys

abbrev pub internal_error : Status
internal_error = status_of Code.internal "internal error"

-- the closure of `sign_up` on an error, with the texts of `SignUpError`
unfoldable pub sign_up_status : SignUp.SignUpError → Status
sign_up_status SignUp.username_taken = status_of Code.already_exists "username already taken"
sign_up_status SignUp.email_taken = status_of Code.already_exists "email already taken"
sign_up_status SignUp.password_required = status_of Code.invalid_argument "password is required"
sign_up_status SignUp.password_too_short =
    status_of Code.invalid_argument "password must be at least 8 characters"
sign_up_status SignUp.password_too_long =
    status_of Code.invalid_argument "password must be at most 128 characters"
sign_up_status SignUp.invalid_username =
    status_of Code.invalid_argument
      "invalid username: must be 1-64 characters, alphanumeric, underscore, or hyphen"
sign_up_status SignUp.invalid_email = status_of Code.invalid_argument "invalid email address"
sign_up_status (SignUp.db e) = internal_error
sign_up_status SignUp.pool = internal_error
sign_up_status (SignUp.password e) = internal_error
sign_up_status (SignUp.crypto e) = internal_error
sign_up_status (SignUp.outbox e) = internal_error

-- the closure of `login`
unfoldable pub login_status : Login.LoginError → Status
login_status Login.invalid_credentials = status_of Code.unauthenticated "invalid credentials"
login_status Login.account_not_active = status_of Code.permission_denied "account not active"
login_status (Login.login_db e) = internal_error
login_status Login.login_pool = internal_error
login_status Login.no_signing_key = internal_error
login_status (Login.login_crypto e) = internal_error
login_status (Login.login_password e) = internal_error

-- the closure of `user_info`
unfoldable pub user_info_status : UpdateProfile.UserInfoError → Status
user_info_status UpdateProfile.not_found = status_of Code.not_found "user not found"
user_info_status (UpdateProfile.info_db e) = internal_error
user_info_status UpdateProfile.info_pool = internal_error

-- the closure of `verify_email`
unfoldable pub verify_email_status : VerifyEmail.VerifyEmailError → Status
verify_email_status VerifyEmail.invalid_token =
    status_of Code.not_found "invalid or expired verification token"
verify_email_status VerifyEmail.already_consumed =
    status_of Code.already_exists "token already consumed"
verify_email_status VerifyEmail.user_not_found = status_of Code.not_found "user not found"
verify_email_status VerifyEmail.already_verified =
    status_of Code.already_exists "email already verified"
verify_email_status (VerifyEmail.db e) = internal_error
verify_email_status VerifyEmail.pool = internal_error

-- the closure of `resend_verification`
unfoldable pub resend_status : ResendVerification.ResendVerificationError → Status
resend_status ResendVerification.rate_limited =
    status_of Code.resource_exhausted "too many verification requests, try again later"
resend_status (ResendVerification.db e) = internal_error
resend_status ResendVerification.pool = internal_error
resend_status (ResendVerification.crypto e) = internal_error
resend_status (ResendVerification.outbox e) = internal_error

-- `Status::internal(e.to_string())` on a `GetJwksError`
unfoldable pub get_jwks_status : SigningKeys.GetJwksError → Status
get_jwks_status (SigningKeys.jwks_db e) = status_of Code.internal "database error"
get_jwks_status SigningKeys.jwks_pool = status_of Code.internal "pool error"
get_jwks_status SigningKeys.serialization = status_of Code.internal "serialization failed"

-- the closure of `update_profile`
unfoldable pub update_profile_status : UpdateProfile.UpdateProfileError → Status
update_profile_status UpdateProfile.no_fields_provided =
    status_of Code.invalid_argument "no fields provided"
update_profile_status (UpdateProfile.invalid_username rule) =
    status_of Code.invalid_argument ("invalid username: " ⧺ rule)
update_profile_status UpdateProfile.username_taken =
    status_of Code.already_exists "username already taken"
update_profile_status (UpdateProfile.db e) = internal_error
update_profile_status UpdateProfile.pool = internal_error

-- the closure of `update_password`
unfoldable pub update_password_status : UpdatePassword.UpdatePasswordError → Status
update_password_status UpdatePassword.invalid_current_password =
    status_of Code.unauthenticated "invalid current password"
update_password_status (UpdatePassword.invalid_new_password rule) =
    status_of Code.invalid_argument ("invalid new password: " ⧺ rule)
update_password_status UpdatePassword.not_found = status_of Code.not_found "user not found"
update_password_status (UpdatePassword.db e) = internal_error
update_password_status UpdatePassword.pool = internal_error
update_password_status (UpdatePassword.password e) = internal_error
update_password_status (UpdatePassword.outbox e) = internal_error
