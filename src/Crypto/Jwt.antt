-- ===== src/Crypto/Jwt.antt =====
-- services/identity/src/crypto/jwt.rs. A key pair is the PKCS#8 document that it was read from.
pub mod Acceptance
pub mod RoundTrip
use home_ryanseipp.Prelude.{
  ℕ, ◌+◌, ◌%◌, ◌^◌, String, Bool, true, false, not, Option, none, some, List, [], ◌∷◌, ◌++◌, ◌≡◌,
  any, Result, ok, err, ok_or, ensure, ◌>>=◌, ◌>>◌, str_eq, ltb, if◌then◌else◌,
}
use home_ryanseipp.Prelude.Text.{◌⧺◌, split}
use home_ryanseipp.Effect.{Bytes}
use home_ryanseipp.Crypto.Primitives.{
  CryptoError, signing, verification, invalid_key_material, serialization, invalid_token,
  token_expired, algorithm_mismatch, Algorithm, Jwk, JwtHeader, Audience, single, multiple, Claims,
  Primitives,
}
use home_ryanseipp.Crypto.Keys.{as_str, parse_algorithm, same_algorithm}

-- `Audience::contains`
unfoldable pub contains : Audience → String → Bool
contains (single s) value = str_eq s value
contains (multiple v) value = any (λ s. str_eq s value) v

pub record EncodedJwt : Type 0 where
  pub token : String
  pub kid : String

pub record VerificationOptions : Type 0 where
  pub allowed_algorithms : List Algorithm
  pub issuer : Option String
  pub audience : Option String
  pub current_time : ℕ
  pub leeway : ℕ

-- `u64` sums wrap around in a release build.
abbrev pub add_u64 : ℕ → ℕ → ℕ
add_u64 a b = (a + b) % 2 ^ 64

-- `if let Some(exp) = claims.exp && options.current_time > exp + options.leeway`
unfoldable pub is_expired : VerificationOptions → Claims → Bool
is_expired o c = elim c.exp [ none ↦ false | some exp ↦ ltb (add_u64 exp o.leeway) o.current_time ]

-- `if let Some(nbf) = claims.nbf && options.current_time + options.leeway < nbf`
unfoldable pub is_early : VerificationOptions → Claims → Bool
is_early o c = elim c.nbf [ none ↦ false | some nbf ↦ ltb (add_u64 o.current_time o.leeway) nbf ]

abbrev matches_issuer : Option String → Option String → Bool
matches_issuer none iss = true
matches_issuer (some expected) none = false
matches_issuer (some expected) (some iss) = str_eq iss expected

abbrev matches_audience : Option String → Option Audience → Bool
matches_audience none aud = true
matches_audience (some expected) none = false
matches_audience (some expected) (some aud) = contains aud expected

-- `match &claims.iss`, where an issuer is expected
unfoldable pub has_issuer : VerificationOptions → Claims → Bool
has_issuer o c = matches_issuer o.issuer c.iss

-- `match &claims.aud`, where an audience is expected
unfoldable pub has_audience : VerificationOptions → Claims → Bool
has_audience o c = matches_audience o.audience c.aud

-- `parts[0]`, `parts[1]` and `parts[2]`, if `parts.len()` is 3
abbrev pub three_parts : List String → Option (String × String × String)
three_parts (a ∷ b ∷ c ∷ []) = some (a, b, c)
three_parts (a ∷ b ∷ c ∷ d ∷ r) = none
three_parts (a ∷ b ∷ []) = none
three_parts (a ∷ []) = none
three_parts [] = none

-- The checks on the claims, in the order of the code.
unfoldable pub check_claims : VerificationOptions → Claims → Result CryptoError Claims
check_claims o claims = do
  ensure (not (is_expired o claims)) token_expired
  ensure (not (is_early o claims)) invalid_token
  ensure (has_issuer o claims) invalid_token
  ensure (has_audience o claims) invalid_token
  ok claims

module _ (p : Primitives) where
  -- The random source of the signature is an argument.
  unfoldable pub sign_jwt : Algorithm → String → Claims → Bytes → ℕ → Result CryptoError EncodedJwt
  sign_jwt algorithm kid claims key_pair seed = do
    let header : JwtHeader = record { alg = as_str algorithm; typ = "JWT"; kid = kid }
    header_json ← ok_or serialization (p.header_to_json header)
    claims_json ← ok_or serialization (p.claims_to_json claims)
    let signing_input = p.b64_encode header_json ⧺ "." ⧺ p.b64_encode claims_json
    signature ← ok_or signing (p.ecdsa_sign algorithm key_pair seed signing_input)
    ok (record { token = signing_input ⧺ "." ⧺ p.b64_encode signature; kid = kid })

  -- The uncompressed point of a JWK: 0x04 || x || y.
  unfoldable pub public_key_bytes : Jwk → Result CryptoError Bytes
  public_key_bytes jwk = do
    x_bytes ← ok_or invalid_key_material (p.b64_decode jwk.x)
    y_bytes ← ok_or invalid_key_material (p.b64_decode jwk.y)
    ok (0x04 ∷ (x_bytes ++ y_bytes))

  unfoldable pub verify_parts :
      String → String → String → Jwk → VerificationOptions → Result CryptoError Claims
  verify_parts header_b64 claims_b64 sig_b64 public_jwk o = do
    header_bytes ← ok_or invalid_token (p.b64_decode header_b64)
    header ← ok_or invalid_token (p.header_of_json header_bytes)
    algorithm ← parse_algorithm header.alg
    ensure (any (same_algorithm algorithm) o.allowed_algorithms) algorithm_mismatch
    ensure (str_eq header.kid public_jwk.kid) verification
    public_key ← public_key_bytes public_jwk
    signature_bytes ← ok_or invalid_token (p.b64_decode sig_b64)
    ensure (p.ecdsa_verify algorithm public_key (header_b64 ⧺ "." ⧺ claims_b64) signature_bytes)
        verification
    claims_bytes ← ok_or invalid_token (p.b64_decode claims_b64)
    claims ← ok_or invalid_token (p.claims_of_json claims_bytes)
    check_claims o claims

  unfoldable pub verify_jwt : String → Jwk → VerificationOptions → Result CryptoError Claims
  verify_jwt token public_jwk o = do
    parts ← ok_or invalid_token (three_parts (split b'.' token))
    verify_parts parts.0 parts.1 parts.2 public_jwk o

  -- `key_pair_from_pkcs8`: the document itself, if it is accepted
  unfoldable pub key_pair_from_pkcs8 : Algorithm → Bytes → Result CryptoError Bytes
  key_pair_from_pkcs8 algorithm pkcs8_der = do
    ensure (p.accepts_pkcs8 algorithm pkcs8_der) invalid_key_material
    ok pkcs8_der
