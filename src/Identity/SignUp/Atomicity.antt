-- ===== src/Identity/SignUp/Atomicity.antt =====
-- Failed registrations (services/sign_up.rs).
use home_ryanseipp.Prelude.{String, Option, err, ◌≡◌}
use home_ryanseipp.Effect.{Env, World}
use home_ryanseipp.Effect.Rules.{IsAtomic, IsAtomic-bind}
use home_ryanseipp.Effect.Calls.{IsAtomic-transaction}
use home_ryanseipp.Crypto.Primitives.{Primitives}
use home_ryanseipp.Identity.Accounts.{Db, Externals}
use home_ryanseipp.Identity.Service.Reads.{reads_rules}
use home_ryanseipp.Identity.SignUp.{SignUpError, execute}

module _ (env : Env) (p : Primitives) (x : Externals) where
  execute-IsAtomic :
      (username email given_name family_name : String) (password : Option String)
      (web_base_url : String)
      → IsAtomic (execute env p x username email given_name family_name password web_base_url)
  unfolding execute
  execute-IsAtomic username email given_name family_name password web_base_url =
      search (IsAtomic-bind, IsAtomic-transaction, reads_rules) depth 20

  -- If `sign_up::execute` returns an error, whichever step failed, the database has the content
  -- that it had before.
  pub sign_up-undone :
      (username email given_name family_name : String) (password : Option String)
      (web_base_url : String) (w : World Db) (e : SignUpError)
      → (execute env p x username email given_name family_name password web_base_url w).0 ≡ err e
      → (execute env p x username email given_name family_name password web_base_url w).1.db ≡ w.db
  sign_up-undone username email given_name family_name password web_base_url w e h =
      (execute-IsAtomic username email given_name family_name password web_base_url).undone w e h
