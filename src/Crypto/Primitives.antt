-- ===== src/Crypto/Primitives.antt =====
-- The types that cross into other crates (crypto/error.rs, crypto/jwk.rs, crypto/jwt.rs) and the
-- operations of those crates, which are parameters of all that follows.
use home_ryanseipp.Prelude.{ℕ, String, Bool, true, false, Option, some, List, [], ◌≡◌}
use home_ryanseipp.Prelude.Text.{contains_char}
use home_ryanseipp.Effect.{Bytes, Uuid}

-- crypto/error.rs
pub data CryptoError : Type 0 where
  key_generation signing verification encryption decryption invalid_key_material : CryptoError
  invalid_kek key_not_found serialization invalid_token token_expired : CryptoError
  algorithm_mismatch rng_failure : CryptoError
  kek_load : String → CryptoError

-- crypto/jwk.rs
pub data Algorithm : Type 0 where
  es256 es384 : Algorithm

pub record Jwk : Type 0 where
  pub kty : String
  pub key_use : String
  pub kid : String
  pub alg : String
  pub crv : String
  pub x : String
  pub y : String

-- crypto/jwt.rs
pub record JwtHeader : Type 0 where
  pub alg : String
  pub typ : String
  pub kid : String

pub data Audience : Type 0 where
  single : String → Audience
  multiple : List String → Audience

-- A custom claim's value is the text of its JSON.
pub record Claims : Type 0 where
  pub iss : Option String
  pub sub : Option String
  pub aud : Option Audience
  pub exp : Option ℕ
  pub nbf : Option ℕ
  pub iat : Option ℕ
  pub jti : Option String
  pub name : Option String
  pub given_name : Option String
  pub family_name : Option String
  pub email : Option String
  pub email_verified : Option Bool
  pub preferred_username : Option String
  pub custom : List (String × String)

-- The crates `base64ct`, `aws-lc-rs`, `serde_json`, `password-hash` and `uuid`, as the code uses
-- them. A random choice is an argument of the operation that makes it.
pub record Primitives : Type 0 where
  -- Base64UrlUnpadded and Base64
  pub b64_encode : Bytes → String
  pub b64_decode : String → Option Bytes
  pub b64_std_decode : String → Option Bytes
  pub sha256 : Bytes → Bytes
  -- serde_json
  pub header_to_json : JwtHeader → Option Bytes
  pub header_of_json : Bytes → Option JwtHeader
  pub claims_to_json : Claims → Option Bytes
  pub claims_of_json : Bytes → Option Claims
  pub jwk_to_json : Jwk → Option String
  pub jwk_of_json : String → Option Jwk
  pub jwk_set_to_json : List Jwk → Option String
  -- EcdsaKeyPair::generate_pkcs8, from_pkcs8 (whether it accepts), public_key, sign, and verify
  pub generate_pkcs8 : Algorithm → ℕ → Option Bytes
  pub accepts_pkcs8 : Algorithm → Bytes → Bool
  pub public_key : Algorithm → Bytes → Bytes
  pub ecdsa_sign : Algorithm → Bytes → ℕ → String → Option Bytes
  pub ecdsa_verify : Algorithm → Bytes → String → Bytes → Bool
  -- AES-256-GCM: key, nonce, additional data, text
  pub seal : Bytes → Bytes → Bytes → Bytes → Option Bytes
  pub unseal : Bytes → Bytes → Bytes → Bytes → Option Bytes
  -- PHC strings: hash with a salt, parse, compare
  pub phc_hash : String → ℕ → Option String
  pub accepts_phc : String → Bool
  pub phc_matches : String → String → Bool
  -- Uuid::to_string and Uuid::from_str
  pub uuid_to_string : Uuid → String
  pub uuid_of_string : String → Option Uuid

-- Base64UrlUnpadded decodes what it encodes, and its alphabet has no full stop.
pub record Base64Laws (p : Primitives) : Type 0 where
  pub decode-encode : (b : Bytes) → p.b64_decode (p.b64_encode b) ≡ some b
  pub no_dot : (b : Bytes) → contains_char b'.' (p.b64_encode b) ≡ false

-- serde_json reads back what it wrote: a header, and claims without custom entries. A custom entry
-- could have the name of another member, and their order is not kept.
pub record JsonLaws (p : Primitives) : Type 0 where
  pub header_round :
      (h : JwtHeader) (b : Bytes) → p.header_to_json h ≡ some b → p.header_of_json b ≡ some h
  pub claims_round :
      (c : Claims) (b : Bytes)
      → c.custom ≡ []
      → p.claims_to_json c ≡ some b
      → p.claims_of_json b ≡ some c

-- A signature of a key pair is accepted under its public key.
pub record SignatureLaws (p : Primitives) : Type 0 where
  pub verify-sign :
      (a : Algorithm) (der : Bytes) (r : ℕ) (m : String) (s : Bytes)
      → p.ecdsa_sign a der r m ≡ some s
      → p.ecdsa_verify a (p.public_key a der) m s ≡ true

-- AES-256-GCM opens what it sealed under the same key, nonce and additional data.
pub record AeadLaws (p : Primitives) : Type 0 where
  pub unseal-seal : (k n a t c : Bytes) → p.seal k n a t ≡ some c → p.unseal k n a c ≡ some t
