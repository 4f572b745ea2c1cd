-- ===== src/Crypto/Keys.antt =====
-- services/identity/src/crypto/jwk.rs
pub mod Points
use home_ryanseipp.Prelude.{
  ℕ, suc, ◌+◌, ◌*◌, String, Bool, true, false, ◌||◌, not, Option, none, some, List, [], ◌∷◌, ◌≡◌,
  length, take, drop, Result, ok, err, ok_or, ensure, ◌>>=◌, ◌>>◌, str_eq, ◌==◌, if◌then◌else◌,
}
use home_ryanseipp.Effect.{Bytes, Uuid}
use home_ryanseipp.Crypto.Primitives.{
  CryptoError, key_generation, invalid_key_material, algorithm_mismatch, Algorithm, es256, es384,
  Jwk, Primitives,
}

-- `Algorithm::as_str`
unfoldable pub as_str : Algorithm → String
as_str es256 = "ES256"
as_str es384 = "ES384"

unfoldable pub curve_name : Algorithm → String
curve_name es256 = "P-256"
curve_name es384 = "P-384"

unfoldable pub coordinate_size : Algorithm → ℕ
coordinate_size es256 = 32
coordinate_size es384 = 48

-- `Algorithm::from_str`
unfoldable pub parse_algorithm : String → Result CryptoError Algorithm
parse_algorithm s =
    if str_eq s "ES256"
    then ok es256
    else if str_eq s "ES384"
    then ok es384
    else err algorithm_mismatch

-- `allowed.contains(&algorithm)`, by the derived equality.
abbrev pub same_algorithm : Algorithm → Algorithm → Bool
same_algorithm es256 es256 = true
same_algorithm es384 es384 = true
same_algorithm _ _ = false

pub record GeneratedKeyPair : Type 0 where
  pub kid : String
  pub algorithm : Algorithm
  pub private_key_pkcs8 : Bytes
  pub public_jwk : Jwk

-- `public_key_bytes[0]` is read only after the length was checked.
abbrev first_byte : Bytes → ℕ
first_byte [] = 0
first_byte (b ∷ _) = b

module _ (p : Primitives) where
  unfoldable pub public_jwk_from_pkcs8 : String → Algorithm → Bytes → Result CryptoError Jwk
  public_jwk_from_pkcs8 kid algorithm pkcs8_der = do
    ensure (p.accepts_pkcs8 algorithm pkcs8_der) invalid_key_material
    let point = p.public_key algorithm pkcs8_der
    let coord_size = coordinate_size algorithm
    ensure (not (not (length point == 1 + 2 * coord_size) || not (first_byte point == 0x04)))
        invalid_key_material
    ok (record {
      kty = "EC";
      key_use = "sig";
      kid = kid;
      alg = as_str algorithm;
      crv = curve_name algorithm;
      x = p.b64_encode (take coord_size (drop 1 point));
      y = p.b64_encode (drop (1 + coord_size) point);
    })

  -- The random source and the fresh UUID v4 are the arguments.
  unfoldable pub generate_key_pair : Algorithm → ℕ → Uuid → Result CryptoError GeneratedKeyPair
  generate_key_pair algorithm seed id = do
    pkcs8 ← ok_or key_generation (p.generate_pkcs8 algorithm seed)
    let kid = p.uuid_to_string id
    public_jwk ← public_jwk_from_pkcs8 kid algorithm pkcs8
    ok (record {
      kid = kid;
      algorithm = algorithm;
      private_key_pkcs8 = pkcs8;
      public_jwk = public_jwk;
    })
