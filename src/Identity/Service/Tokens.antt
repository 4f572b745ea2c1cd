-- ===== src/Identity/Service/Tokens.antt =====
-- A fresh verification token (crypto/token.rs), as the handlers use it.
use home_ryanseipp.Prelude.{◌+◌, String, Option, none, some, ◌≡◌, Result, ok, map_err}
use home_ryanseipp.Effect.{Env, Bytes, World, Act, ◌>>=◌, resume, ask}
use home_ryanseipp.Effect.Ensures.{Ensures}
use home_ryanseipp.Crypto.Primitives.{CryptoError, Primitives}
use home_ryanseipp.Crypto.Tokens.{generate_verification_token}
use home_ryanseipp.Identity.Accounts.{Db}
use home_ryanseipp.Identity.Service.{new_token}

module _ (env : Env) (p : Primitives) {E A : Type 0} (Q : Db → Db → A → Type 0) where
  -- What follows may use that the two halves of the token are the encoding and the hash of the
  -- same random bytes.
  pub Ensures-bind-new_token :
      (wrap : CryptoError → E) (f : String × Bytes → Act Db E A)
      → ((raw : Bytes) → Ensures Q (f (p.b64_encode raw, p.sha256 raw)))
      → Ensures Q (new_token env p wrap >>= f)
  unfolding ◌>>=◌ new_token ask generate_verification_token
  Ensures-bind-new_token wrap f k = record { after = λ w a h. step w (env.rand w.calls) a h }
    where
      run : World Db → Option Bytes → Result E A × World Db
      run w filled =
          resume
            (map_err wrap (generate_verification_token p filled), record w { calls = w.calls + 1 })
            f

      step :
          (w : World Db) (filled : Option Bytes) (a : A)
          → (run w filled).0 ≡ ok a
          → Q w.db (run w filled).1.db a
      step w none a h = cc
      step w (some raw) a h = (k raw).after (record w { calls = w.calls + 1 }) a h
