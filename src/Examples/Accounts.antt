-- ===== src/Examples/Accounts.antt =====
-- Runs of the account handlers (services/sign_up.rs and services/verify_email.rs).
use home_ryanseipp.Prelude.{
  ◌≢◌, String, true, false, none, some, [], ◌∷◌, ◌≡◌, refl, Result, ok, err, find, modify, ◌++◌,
  arith,
}
use home_ryanseipp.Effect.{
  World, Bytes, ask, ◌>>=◌, map_error, pool_get, statement, query, transaction,
}
use home_ryanseipp.Crypto.Tokens.{generate_verification_token, hash_password}
use home_ryanseipp.Identity.Accounts.{UserRow, TokenRow, Db, AuthEmailMessage, as_str}
use home_ryanseipp.Identity.Validation.{validate_username, validate_password, validate_email}
use home_ryanseipp.Identity.Tables.{
  insert_user_row, insert_token_row, insert_outbox_row, select_token_by_hash, update_consumed_row,
  update_verified_row, has_id, is_open, is_unconsumed, consumed,
}
use home_ryanseipp.Identity.Service.{
  hash_blocking, new_token, extract_trace_context, insert_token, insert_event,
}
use home_ryanseipp.Identity.SignUp as SignUp
use home_ryanseipp.Identity.SignUp.Atomicity.{sign_up-undone}
use home_ryanseipp.Identity.SignUp.Registration.{IsRegistered, IsMailed, execute-Registers}
use home_ryanseipp.Identity.VerifyEmail as VerifyEmail
use home_ryanseipp.Identity.VerifyEmail.{
  get_token_by_hash, consume_token, mark_email_verified, redeem, consume_and_verify, invalid_token,
}
use home_ryanseipp.Identity.VerifyEmail.Activation.{IsVerified, execute-atomic, execute-IsVerified}
use home_ryanseipp.Identity.VerifyEmail.SingleUse.{
  HasUniqueHashes, same, consumes, adds, execute_once, execute-activates,
}
use home_ryanseipp.Examples.Toys.{toy_primitives, toy_env, toy_externals, start}

abbrev signed_up : Result SignUp.SignUpError (Unit {0}) × World Db
signed_up =
    SignUp.execute toy_env toy_primitives toy_externals "anna" "a@b.org" "Anna" "B"
      (some "12345678") "https://h" start

toy_registered : signed_up.0 ≡ ok tt
unfolding SignUp.execute SignUp.validate_input validate_username validate_email validate_password
    hash_blocking hash_password new_token generate_verification_token extract_trace_context
    SignUp.register SignUp.insert_user insert_token insert_event insert_user_row insert_token_row
    insert_outbox_row ask ◌>>=◌ map_error pool_get statement transaction
toy_registered = refl

execute-Registers_example :
    (raw : Bytes) × (mail : AuthEmailMessage) × IsMailed toy_env toy_primitives toy_externals
      "a@b.org" "https://h" raw mail
    × IsRegistered (λ s. s) "anna" "a@b.org" raw (1 ∷ []) start.db signed_up.1.db
execute-Registers_example =
    execute-Registers toy_env toy_primitives toy_externals "anna" "a@b.org" "Anna" "B"
      (some "12345678") "https://h" start toy_registered

-- one suspended account with one open token
abbrev pub suspended_user : UserRow
suspended_user = record {
  id = 2;
  username = "anna";
  email = "a@b.org";
  given_name = "Anna";
  family_name = "B";
  password_hash = "phc";
  email_verified = false;
  status = "suspended";
  created_at = 1;
  updated_at = 1;
  deleted_at = none;
}

abbrev open_token : TokenRow
open_token = record {
  id = 3;
  user_id = 2;
  token_hash = 7 ∷ 3 ∷ [];
  expires_at = 1_000;
  consumed_at = none;
  created_at = 1;
}

abbrev one_account : World Db
one_account = record {
  db = record {
    users = suspended_user ∷ [];
    tokens = open_token ∷ [];
    refresh_tokens = [];
    signing_keys = [];
    outbox = [];
  };
  calls = 20;
}

abbrev late : World Db
late = record { db = one_account.db; calls = 2_000 }

abbrev code : String
code = "aaaaaaabaaab"

abbrev verified_run : Result VerifyEmail.VerifyEmailError (Unit {0}) × World Db
verified_run = VerifyEmail.execute toy_env toy_primitives code one_account

toy_verified : verified_run.0 ≡ ok tt
unfolding VerifyEmail.execute consume_and_verify get_token_by_hash redeem consume_token
    mark_email_verified select_token_by_hash update_consumed_row update_verified_row as_str ask
    ◌>>=◌ map_error pool_get statement query transaction
toy_verified = refl

toy_expired : (VerifyEmail.execute toy_env toy_primitives code late).0 ≡ err invalid_token
unfolding VerifyEmail.execute consume_and_verify get_token_by_hash redeem consume_token
    mark_email_verified select_token_by_hash update_consumed_row update_verified_row as_str ask
    ◌>>=◌ map_error pool_get statement query transaction
toy_expired = refl

toy_unique : HasUniqueHashes one_account.db
toy_unique hash = ground arith

execute-atomic_example : (VerifyEmail.execute toy_env toy_primitives code late).1.db ≡ late.db
execute-atomic_example = execute-atomic toy_env toy_primitives code late invalid_token toy_expired

execute-IsVerified_example :
    (bytes : Bytes) × (toy_primitives.b64_decode code ≡ some bytes)
    × IsVerified bytes one_account.db verified_run.1.db
execute-IsVerified_example = execute-IsVerified toy_env toy_primitives code one_account toy_verified

-- Another token of the account is added and consumed, and then the first one comes again.
abbrev other_token : TokenRow
other_token = record open_token { id = 4; token_hash = 9 ∷ [] }

abbrev afterwards : World Db
afterwards = record {
  db = record verified_run.1.db {
    tokens = modify (is_open 4) (consumed 40) (verified_run.1.db.tokens ++ other_token ∷ []);
  };
  calls = 50;
}

execute_once_example : (VerifyEmail.execute toy_env toy_primitives code afterwards).0 ≢ ok tt
execute_once_example =
    execute_once toy_env toy_env toy_primitives code (7 ∷ 3 ∷ []) one_account afterwards refl
      toy_unique toy_verified (consumes 4 40 (adds other_token same refl))

execute-activates_example :
    (bytes : Bytes) × (t : TokenRow) × (u : UserRow) × (v : UserRow) × (toy_primitives.b64_decode
        code
      ≡ some bytes)
    × (find (is_unconsumed bytes) one_account.db.tokens ≡ some t)
    × (find (has_id t.user_id) one_account.db.users ≡ some u)
    × (find (has_id t.user_id) verified_run.1.db.users ≡ some v)
    × (v.status ≡ "active")
    × (v.email_verified ≡ true)
    × (v.email ≡ u.email)
execute-activates_example = execute-activates toy_env toy_primitives code one_account toy_verified

-- a registration with a name that is not allowed
toy_refused :
    (SignUp.execute toy_env toy_primitives toy_externals "an na" "a@b.org" "A" "B"
      (some "12345678")
      "https://h"
      one_account).0
    ≡ err SignUp.invalid_username
unfolding SignUp.execute SignUp.validate_input validate_username ◌>>=◌
toy_refused = refl

sign_up-undone_example :
    (SignUp.execute toy_env toy_primitives toy_externals "an na" "a@b.org" "A" "B"
      (some "12345678")
      "https://h"
      one_account).1.db
    ≡ one_account.db
sign_up-undone_example =
    sign_up-undone toy_env toy_primitives toy_externals "an na" "a@b.org" "A" "B" (some "12345678")
      "https://h" one_account SignUp.invalid_username toy_refused
