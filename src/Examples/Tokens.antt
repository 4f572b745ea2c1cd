-- ===== src/Examples/Tokens.antt =====
-- Runs of the token code (crypto/jwt.rs) and of the validators on concrete inputs.
use home_ryanseipp.Prelude.{
  true, ◌≤◌, ◌≢◌, len, String, none, [], ◌∷◌, ◌≡◌, refl, ok, ◌↔◌, inl, inr, arith,
}
use home_ryanseipp.Prelude.Text.{split, AllChars, contains_char}
use home_ryanseipp.Crypto.Primitives.{es256, es384, Jwk}
use home_ryanseipp.Crypto.Keys.{
  as_str, curve_name, coordinate_size, parse_algorithm, public_jwk_from_pkcs8,
}
use home_ryanseipp.Crypto.Jwt.{
  VerificationOptions, sign_jwt, verify_jwt, verify_parts, public_key_bytes, check_claims,
  is_expired, is_early, has_issuer, has_audience, contains,
}
use home_ryanseipp.Crypto.Jwt.Acceptance.{
  IsAccepted, verify_jwt-IsAccepted, verify_jwt_of_IsAccepted,
}
use home_ryanseipp.Crypto.Jwt.RoundTrip.{verify_jwt-sign_jwt}
use home_ryanseipp.Identity.Validation.{validate_username, validate_password, validate_email}
use home_ryanseipp.Identity.Validation.Bounds.{
  IsWordChar, validate_username_iff, validate_password_iff, validate_email_iff,
}
use home_ryanseipp.Examples.Toys.{
  claims_until, toy_primitives, toy_base64, toy_json, toy_signatures,
}

abbrev pub toy_token : String
toy_token = "ab.aaaaab.abaab"

abbrev pub toy_jwk : Jwk
toy_jwk = record {
  kty = "EC";
  key_use = "sig";
  kid = "key-1";
  alg = "ES256";
  crv = "P-256";
  x = "abababababababababababababababababababababababababababababababab";
  y = "abababababababababababababababababababababababababababababababab";
}

abbrev toy_options : VerificationOptions
toy_options = record {
  allowed_algorithms = es384 ∷ es256 ∷ [];
  issuer = none;
  audience = none;
  current_time = 6;
  leeway = 2;
}

toy_signed :
    sign_jwt toy_primitives es256 "key-1" (claims_until 5) [] 0
    ≡ ok (record { token = toy_token; kid = "key-1" })
unfolding sign_jwt as_str
toy_signed = refl

toy_shown : public_jwk_from_pkcs8 toy_primitives "key-1" es256 [] ≡ ok toy_jwk
unfolding public_jwk_from_pkcs8 as_str curve_name coordinate_size
toy_shown = refl

verify_jwt-sign_jwt_example :
    verify_jwt toy_primitives toy_token toy_jwk toy_options ≡ ok (claims_until 5)
verify_jwt-sign_jwt_example =
    verify_jwt-sign_jwt toy_primitives toy_base64 toy_json toy_signatures es256 "key-1"
      (claims_until 5) [] 0 (record { token = toy_token; kid = "key-1" }) toy_jwk toy_options refl
      toy_signed toy_shown (inr (inl refl))
      (record { not_expired = ground arith; not_early = tt; issued = tt; addressed = tt })

toy_accepted : verify_jwt toy_primitives toy_token toy_jwk toy_options ≡ ok (claims_until 5)
unfolding verify_jwt verify_parts public_key_bytes check_claims is_expired is_early has_issuer
    has_audience parse_algorithm as_str split contains
toy_accepted = refl

verify_jwt-IsAccepted_example :
    IsAccepted toy_primitives toy_token toy_jwk toy_options (claims_until 5)
verify_jwt-IsAccepted_example =
    verify_jwt-IsAccepted toy_primitives toy_token toy_jwk toy_options (claims_until 5) toy_accepted

verify_jwt_of_IsAccepted_example :
    verify_jwt toy_primitives toy_token toy_jwk toy_options ≡ ok (claims_until 5)
verify_jwt_of_IsAccepted_example =
    verify_jwt_of_IsAccepted toy_primitives toy_token toy_jwk toy_options (claims_until 5) (
      verify_jwt-IsAccepted toy_primitives toy_token toy_jwk toy_options (claims_until 5)
        toy_accepted)

validate_username_iff_example :
    (validate_username "ab" ≡ ok tt)
    ↔ ((◌≢◌ {A = String} "ab" "") × (len "ab" ≤ 64) × AllChars IsWordChar "ab")
validate_username_iff_example = validate_username_iff "ab"

validate_password_iff_example :
    (validate_password "12345678" ≡ ok tt) ↔ ((8 ≤ len "12345678") × (len "12345678" ≤ 128))
validate_password_iff_example = validate_password_iff "12345678"

validate_email_iff_example :
    (validate_email "a@b" ≡ ok tt)
    ↔ ((3 ≤ len "a@b") × (len "a@b" ≤ 254) × (contains_char b'@' "a@b" ≡ true))
validate_email_iff_example = validate_email_iff "a@b"
