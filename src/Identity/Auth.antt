-- ===== src/Identity/Auth.antt =====
-- services/identity/src/services/auth.rs
pub mod Accepts
mod Bearer
pub mod LoggedIn
unfoldable pub use Bearer.*
use home_ryanseipp.Prelude.{
  ℕ, ◌/◌, String, Bool, Option, none, some, List, [], ◌∷◌, find, Result, ok, err, map_err, ok_or,
  str_eq,
}
use home_ryanseipp.Prelude.Text.{split, strip_prefix}
use home_ryanseipp.Effect.{Env, Uuid, Act, pure, fail, lift, ask, ◌>>=◌, ◌>>◌, map_error}
use home_ryanseipp.Crypto.Primitives.{es256, es384, Jwk, JwtHeader, Claims, Primitives}
use home_ryanseipp.Crypto.Jwt.{VerificationOptions, verify_jwt}
use home_ryanseipp.Identity.Accounts.{Db}
use home_ryanseipp.Identity.SigningKeys.{list_public_jwks}

abbrev pub options_at : ℕ → VerificationOptions
options_at now = record {
  allowed_algorithms = es256 ∷ es384 ∷ [];
  issuer = some "https://home.ryanseipp.com";
  audience = some "https://api.home.ryanseipp.com";
  current_time = now;
  leeway = 30;
}

-- The clock in seconds.
abbrev pub seconds : ℕ → ℕ
seconds t = t / 1_000_000

module _ (env : Env) (p : Primitives) where
  -- what follows the lookup of the keys
  unfoldable pub check_token : String → Jwk → Act Db Status Uuid
  check_token token jwk = do
    now ← ask env.now
    claims ← lift (
        map_err (λ _. status_of unauthenticated "invalid token")
          (verify_jwt p token jwk (options_at (seconds now))))
    sub ← lift (ok_or (status_of unauthenticated "missing sub claim") claims.sub)
    lift (ok_or (status_of unauthenticated "invalid sub claim") (p.uuid_of_string sub))

  -- `authenticate`
  unfoldable pub authenticate : Authorization → Act Db Status Uuid
  authenticate request = do
    token ← lift (extract_bearer_token request)
    header ← lift (decode_jwt_header p token)
    jwks ←
        map_error (λ _. status_of internal "failed to load signing keys") (list_public_jwks env p)
    jwk ← lift (
        ok_or (status_of unauthenticated "unknown signing key")
          (find (λ (k : Jwk). str_eq k.kid header.kid) jwks))
    check_token token jwk
