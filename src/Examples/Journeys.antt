-- ===== src/Examples/Journeys.antt =====
-- A run of services/login.rs followed by one of services/auth.rs, where tokens carry their claims.
use home_ryanseipp.Prelude.{
  ℕ, String, true, Option, none, some, [], ◌∷◌, ◌≡◌, refl, ap, ◌∙◌, Result, ok, str_eq, arith,
  Bool-cases, inl, inr,
}
use home_ryanseipp.Prelude.Text.{as_bytes, ◌⧺◌}
use home_ryanseipp.Effect.{Bytes, World, ask, ◌>>=◌, map_error, pool_get, statement, query}
use home_ryanseipp.Crypto.Primitives.{es256, Primitives, Base64Laws, JsonLaws, SignatureLaws}
use home_ryanseipp.Crypto.Keys.{
  curve_name, coordinate_size, as_str, parse_algorithm, public_jwk_from_pkcs8,
}
use home_ryanseipp.Crypto.Tokens.{generate_verification_token, verify_password}
use home_ryanseipp.Crypto.Jwt.{sign_jwt, key_pair_from_pkcs8}
use home_ryanseipp.Crypto.Encryption.{from_bytes, decrypt_private_key}
use home_ryanseipp.Identity.Tables.{select_active_key, insert_refresh_row}
use home_ryanseipp.Identity.Service.{user_from_row, get_user_by_email, verify_blocking, new_token}
use home_ryanseipp.Identity.SigningKeys.{get_active_signing_key}
use home_ryanseipp.Identity.SigningKeys.Soundness.{AreSound}
use home_ryanseipp.Identity.Login as Login
use home_ryanseipp.Identity.Accounts.{active, parse_status, Db, User, UserRow}
use home_ryanseipp.Identity.Tables.{select_user_by_email}
use home_ryanseipp.Identity.Auth.{present, authenticate}
use home_ryanseipp.Identity.Auth.LoggedIn.{UuidLaws, login-authenticate}
use home_ryanseipp.Identity.Login.{
  LoginError, LoginResult, sign_with, insert_refresh_token, issue_tokens, access_claims, id_claims,
}
use home_ryanseipp.Examples.Toys.{
  toy_primitives, toy_base64, toy_json, toy_env, toy_externals, letters, decode_from,
  decode-letters,
}
use home_ryanseipp.Examples.Tokens.{toy_jwk}
use home_ryanseipp.Examples.Sessions.{running, ones}
use home_ryanseipp.Examples.ClaimTexts.{of_byte, to_byte, byte_round}

abbrev first_of : Option Bytes → Option ℕ
first_of none = none
first_of (some []) = none
first_of (some (n ∷ bs)) = some n

abbrev spelt : ℕ → String
spelt n = letters n ""

abbrev reader : Primitives
reader = record toy_primitives {
  uuid_to_string = spelt;
  uuid_of_string = λ s. first_of (decode_from 0 s);
}

abbrev anna : User
anna = record {
  id = 2;
  username = "anna";
  email = "a@b.org";
  given_name = "Anna";
  family_name = "B";
  password_hash = "phc";
  email_verified = true;
  status = active;
  created_at = 1;
  updated_at = 1;
}

-- The claims of the two tokens of the run, and nothing else, have a JSON.
abbrev journey_primitives : Primitives
journey_primitives = record reader {
  jwk_of_json = λ s. some toy_jwk;
  claims_to_json = to_byte (access_claims reader anna 25 26) (id_claims reader anna 25 28);
  claims_of_json = of_byte (access_claims reader anna 25 26) (id_claims reader anna 25 28);
}

journey_base64 : Base64Laws journey_primitives
journey_base64 = record { decode-encode = toy_base64.decode-encode; no_dot = toy_base64.no_dot }

journey_json : JsonLaws journey_primitives
journey_json = record {
  header_round = toy_json.header_round;
  claims_round = λ c b plain e.
      byte_round (access_claims reader anna 25 26) (id_claims reader anna 25 28) c b e;
}

journey_signatures : SignatureLaws journey_primitives
journey_signatures = record { verify-sign = λ a der r m s e. refl }

journey_ids : UuidLaws journey_primitives
journey_ids = record {
  parse-to_string = λ n. ap first_of (decode-letters 0 n "") ∙ ap some (ground arith);
}

abbrev journey : Result LoginError LoginResult × World Db
journey =
    Login.execute toy_env journey_primitives toy_externals "a@b.org" "12345678" (ones 32) running

abbrev travelled : LoginResult
travelled = record {
  access_token = "ab.ab.abaab";
  refresh_token = "aaaaaaabaaab";
  id_token = "ab.aab.abaab";
  expires_at = 900_000_025;
}

toy_travelled : journey.0 ≡ ok travelled
unfolding Login.execute get_user_by_email select_user_by_email user_from_row parse_status
    verify_blocking verify_password issue_tokens get_active_signing_key select_active_key
    parse_algorithm from_bytes decrypt_private_key as_bytes key_pair_from_pkcs8 sign_with sign_jwt
    as_str new_token generate_verification_token insert_refresh_token insert_refresh_row ask ◌>>=◌
    map_error pool_get query statement
toy_travelled = refl

-- The key of the run.
running_sound : AreSound journey_primitives (ones 32) running.db.signing_keys
unfolding parse_algorithm from_bytes decrypt_private_key as_bytes key_pair_from_pkcs8
    public_jwk_from_pkcs8 as_str curve_name coordinate_size
running_sound = record {
  each = (
    record {
      algorithm = es256;
      encrypted = record { data_bytes = ones 40 };
      der = ones 28;
      jwk = toy_jwk;
      named = refl;
      sealed = refl;
      opened = refl;
      stored = refl;
      shown = refl;
      same_kid = refl;
    },
    tt,
  );
  unique = λ kid. elim (Bool-cases (str_eq "key-1" kid)) [
    | inl same ↦ rw same (ground arith)
    | inr other ↦ rw other (ground arith)
  ];
}

abbrev next_morning : World Db
next_morning = record running { calls = 100 }

login-authenticate_example :
    (row : UserRow) × (select_user_by_email toy_externals.lower "a@b.org" running.db ≡ some row)
    × ((authenticate toy_env journey_primitives
          (present ("Bearer " ⧺ "ab.ab.abaab"))
          next_morning).0
        ≡ ok row.id)
login-authenticate_example =
    login-authenticate toy_env journey_primitives journey_base64 journey_json journey_signatures
      journey_ids toy_env toy_externals "a@b.org" "12345678" (ones 32) running next_morning
      travelled running_sound toy_travelled refl refl refl (ground arith) (ground arith)
      (ground arith)
