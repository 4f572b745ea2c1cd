-- ===== src/Examples/Sessions.antt =====
-- Runs of login and authentication (services/login.rs, services/auth.rs) and of the encryption of
-- keys (crypto/encryption.rs).
use home_ryanseipp.Prelude.{err, ℕ, zero, suc, true, some, [], ◌∷◌, ◌≡◌, refl, sym, Result, ok}
use home_ryanseipp.Prelude.Text.{split, as_bytes}
use home_ryanseipp.Effect.{Bytes, World, ask, ◌>>=◌, map_error, pool_get, statement, query}
use home_ryanseipp.Crypto.Primitives.{single, Claims, Primitives, AeadLaws}
use home_ryanseipp.Crypto.Keys.{as_str, parse_algorithm}
use home_ryanseipp.Crypto.Tokens.{generate_verification_token, verify_password}
use home_ryanseipp.Crypto.Jwt.{
  contains, sign_jwt, verify_jwt, verify_parts, public_key_bytes, check_claims, is_expired,
  is_early, has_issuer, has_audience, key_pair_from_pkcs8,
}
use home_ryanseipp.Crypto.Encryption.{from_bytes, encrypt_private_key, decrypt_private_key}
use home_ryanseipp.Crypto.Encryption.RoundTrip.{decrypt_private_key-encrypt_private_key}
use home_ryanseipp.Identity.Accounts.{Db, KeyRow, parse_status}
use home_ryanseipp.Identity.Tables.{select_user_by_email, select_active_key, insert_refresh_row}
use home_ryanseipp.Identity.Service.{user_from_row, get_user_by_email, verify_blocking, new_token}
use home_ryanseipp.Identity.SigningKeys.{
  get_active_signing_key, list_public_jwks, select_public_jwks,
}
use home_ryanseipp.Identity.Auth.{
  Authorization, present, extract_bearer_token, decode_jwt_header, check_token, authenticate,
}
use home_ryanseipp.Identity.Auth.Accepts.{IsAuthenticated, authenticate-IsAuthenticated}
use home_ryanseipp.Identity.Login as Login
use home_ryanseipp.Identity.UpdatePassword as UpdatePassword
use home_ryanseipp.Identity.UpdatePassword.Changes.{
  IsChanged, update_password-IsChanged, update_password-undone,
}
use home_ryanseipp.Identity.Validation.{validate_password}
use home_ryanseipp.Effect.{transaction}
use home_ryanseipp.Crypto.Tokens.{hash_password}
use home_ryanseipp.Identity.Tables.{select_user_by_id, update_password_row, insert_outbox_row}
use home_ryanseipp.Identity.Service.{
  get_user_by_id, hash_blocking, extract_trace_context, insert_event,
}
use home_ryanseipp.Identity.Login.{
  LoginError, LoginResult, sign_with, insert_refresh_token, issue_tokens,
}
use home_ryanseipp.Identity.Login.Issues.{IsLoggedIn, execute-IsLoggedIn}
use home_ryanseipp.Examples.Toys.{toy_primitives, toy_env, toy_externals, claims_until}
use home_ryanseipp.Examples.Tokens.{toy_jwk}
use home_ryanseipp.Examples.Accounts.{suspended_user}

abbrev pub ones : ℕ → Bytes
ones zero = []
ones (suc n) = 1 ∷ ones n

toy_aead : AeadLaws toy_primitives
toy_aead = record { unseal-seal = λ k n a t c e. sym e }

toy_encrypted :
    encrypt_private_key toy_primitives (ones 32) (5 ∷ 6 ∷ []) (9 ∷ []) (some (ones 12))
    ≡ ok (record { data_bytes = 1 ∷ 1 ∷ 1 ∷ 1 ∷ 1 ∷ 1 ∷ 1 ∷ 1 ∷ 1 ∷ 1 ∷ 1 ∷ 1 ∷ 5 ∷ 6 ∷ [] })
unfolding encrypt_private_key
toy_encrypted = refl

decrypt_private_key-encrypt_private_key_example :
    decrypt_private_key toy_primitives
      (ones 32)
      (record { data_bytes = 1 ∷ 1 ∷ 1 ∷ 1 ∷ 1 ∷ 1 ∷ 1 ∷ 1 ∷ 1 ∷ 1 ∷ 1 ∷ 1 ∷ 5 ∷ 6 ∷ [] })
      (9 ∷ [])
    ≡ ok (5 ∷ 6 ∷ [])
decrypt_private_key-encrypt_private_key_example =
    decrypt_private_key-encrypt_private_key toy_primitives toy_aead (ones 32) (5 ∷ 6 ∷ []) (9 ∷ [])
      (ones 12) (record { data_bytes = 1 ∷ 1 ∷ 1 ∷ 1 ∷ 1 ∷ 1 ∷ 1 ∷ 1 ∷ 1 ∷ 1 ∷ 1 ∷ 1 ∷ 5 ∷ 6 ∷ [] })
      refl toy_encrypted

abbrev service_claims : Claims
service_claims = record (claims_until 5) {
  iss = some "https://home.ryanseipp.com";
  aud = some (single "https://api.home.ryanseipp.com");
  sub = some "id";
}

-- Every token says the same, and every stored key is the one key.
abbrev pub service_primitives : Primitives
service_primitives = record toy_primitives {
  claims_of_json = λ b. some service_claims;
  claims_to_json = λ c. some (1 ∷ []);
  jwk_of_json = λ s. some toy_jwk;
}

abbrev key_row : KeyRow
key_row = record {
  kid = "key-1";
  algorithm = "ES256";
  encrypted_private_key = ones 40;
  public_jwk = "jwk";
  status = "active";
  created_at = 1;
}

abbrev pub running : World Db
running = record {
  db = record {
    users = (record suspended_user { status = "active"; email_verified = true }) ∷ [];
    tokens = [];
    refresh_tokens = [];
    signing_keys = key_row ∷ [];
    outbox = [];
  };
  calls = 20;
}

abbrev request : Authorization
request = present "Bearer ab.aaaaab.abaab"

toy_authenticated : (authenticate toy_env service_primitives request running).0 ≡ ok 0
unfolding authenticate extract_bearer_token decode_jwt_header check_token list_public_jwks
    select_public_jwks verify_jwt verify_parts public_key_bytes check_claims is_expired is_early
    has_issuer has_audience contains parse_algorithm as_str split ask ◌>>=◌ map_error pool_get query
toy_authenticated = refl

authenticate-IsAuthenticated_example :
    IsAuthenticated toy_env service_primitives request running.db 0
authenticate-IsAuthenticated_example =
    authenticate-IsAuthenticated toy_env service_primitives request running 0 toy_authenticated

abbrev logged_in : Result LoginError LoginResult × World Db
logged_in =
    Login.execute toy_env service_primitives toy_externals "a@b.org" "12345678" (ones 32) running

abbrev answer : LoginResult
answer = record {
  access_token = "ab.ab.abaab";
  refresh_token = "aaaaaaabaaab";
  id_token = "ab.ab.abaab";
  expires_at = 900_000_025;
}

toy_logged_in : logged_in.0 ≡ ok answer
unfolding Login.execute get_user_by_email select_user_by_email user_from_row parse_status
    verify_blocking verify_password issue_tokens get_active_signing_key select_active_key
    parse_algorithm from_bytes decrypt_private_key as_bytes key_pair_from_pkcs8 sign_with sign_jwt
    as_str new_token generate_verification_token insert_refresh_token insert_refresh_row ask ◌>>=◌
    map_error pool_get query statement
toy_logged_in = refl

execute-IsLoggedIn_example :
    IsLoggedIn service_primitives toy_externals "a@b.org" "12345678" running.db logged_in.1.db
      answer
execute-IsLoggedIn_example =
    execute-IsLoggedIn toy_env service_primitives toy_externals "a@b.org" "12345678" (ones 32)
      running answer toy_logged_in

abbrev changed : Result UpdatePassword.UpdatePasswordError (Unit {0}) × World Db
changed = UpdatePassword.execute toy_env toy_primitives toy_externals 2 "old" "12345678" running

toy_changed : changed.0 ≡ ok tt
unfolding UpdatePassword.execute UpdatePassword.replace_password validate_password get_user_by_id
    select_user_by_id user_from_row parse_status verify_blocking verify_password hash_blocking
    hash_password extract_trace_context update_password_row insert_event insert_outbox_row ask ◌>>=◌
    map_error pool_get query statement transaction
toy_changed = refl

update_password-IsChanged_example :
    IsChanged toy_env toy_primitives toy_externals 2 "old" "12345678" running.db changed.1.db
update_password-IsChanged_example =
    update_password-IsChanged toy_env toy_primitives toy_externals 2 "old" "12345678" running
      toy_changed

abbrev unknown : Result UpdatePassword.UpdatePasswordError (Unit {0}) × World Db
unknown = UpdatePassword.execute toy_env toy_primitives toy_externals 9 "old" "12345678" running

toy_unknown : unknown.0 ≡ err UpdatePassword.not_found
unfolding UpdatePassword.execute validate_password get_user_by_id select_user_by_id ask ◌>>=◌
    map_error pool_get query
toy_unknown = refl

update_password-undone_example : unknown.1.db ≡ running.db
update_password-undone_example =
    update_password-undone toy_env toy_primitives toy_externals 9 "old" "12345678" running
      UpdatePassword.not_found toy_unknown
