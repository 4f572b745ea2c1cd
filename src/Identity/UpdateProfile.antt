-- ===== src/Identity/UpdateProfile.antt =====
-- services/identity/src/services/update_profile.rs and user_info.rs
use home_ryanseipp.Prelude.{
  String, ◌&&◌, Option, none, some, Result, ok, map_err, str_eq, is_none, if◌then◌else◌,
}
use home_ryanseipp.Effect.{
  Env, Uuid, DbError, connection, constraint, panic, Act, pure, fail, lift, ◌>>=◌, ◌>>◌, map_error,
  pool_get, statement,
}
use home_ryanseipp.Identity.Validation.{validate_username}
use home_ryanseipp.Identity.Accounts.{User, Db, Externals}
use home_ryanseipp.Identity.Tables.{update_profile_row}
use home_ryanseipp.Identity.Service.{get_user_by_id, or_fail}

pub data UpdateProfileError : Type 0 where
  db : DbError → UpdateProfileError
  pool no_fields_provided username_taken : UpdateProfileError
  invalid_username : String → UpdateProfileError

-- the closure on a database error
abbrev pub update_error : DbError → UpdateProfileError
update_error (constraint name) =
    if str_eq name "idx_users_username" then username_taken else db (constraint name)
update_error connection = db connection
update_error panic = db panic

-- `if let Some(u) = username { validate_username(u)…? }`
abbrev pub validate_new_username : Option String → Result UpdateProfileError (Unit {0})
validate_new_username none = ok tt
validate_new_username (some u) = map_err invalid_username (validate_username u)

-- what follows the check that some field is there
unfoldable pub write_profile :
    Env
    → Externals
    → Uuid
    → Option String
    → Option String
    → Option String
    → Act Db UpdateProfileError (Unit {0})
write_profile env x user_id given_name family_name username = do
  lift (validate_new_username username)
  pool_get env pool
  map_error update_error
      (statement env (update_profile_row x.lower user_id given_name family_name username))
  pure tt

unfoldable pub execute :
    Env
    → Externals
    → Uuid
    → Option String
    → Option String
    → Option String
    → Act Db UpdateProfileError (Unit {0})
execute env x user_id given_name family_name username =
    if is_none given_name && is_none family_name && is_none username
    then fail no_fields_provided
    else write_profile env x user_id given_name family_name username

-- user_info.rs
pub data UserInfoError : Type 0 where
  info_db : DbError → UserInfoError
  info_pool not_found : UserInfoError

unfoldable pub user_info : Env → Uuid → Act Db UserInfoError User
user_info env user_id = do
  pool_get env info_pool
  found ← map_error info_db (get_user_by_id env user_id)
  or_fail not_found found
