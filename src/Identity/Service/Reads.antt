-- ===== src/Identity/Service/Reads.antt =====
-- The shared helpers of services/mod.rs that leave the database as it is.
use home_ryanseipp.Prelude.{String, Option, none, some, arith}
use home_ryanseipp.Effect.{Env, Uuid}
use home_ryanseipp.Effect.Rules.{
  Reads, Reads-lift, Reads-bind, Reads-map_error, Reads-ask, Reads-pure, Reads-fail, Reads-if,
}
use home_ryanseipp.Effect.Calls.{Reads-pool_get, Reads-query}
use home_ryanseipp.Crypto.Primitives.{CryptoError, Primitives}
use home_ryanseipp.Crypto.Tokens.{PasswordError}
use home_ryanseipp.Identity.Accounts.{UserRow, Externals}
use home_ryanseipp.Identity.Service.{
  new_token, extract_trace_context, get_user_by_id, get_user_by_email, hash_blocking,
  verify_blocking, or_fail, expect_user, user_from_row,
}

pub ruleset basic_reads = (
  Reads-lift, Reads-bind, Reads-map_error, Reads-ask, Reads-pure, Reads-fail, Reads-pool_get,
  Reads-query,
)

pub Reads-or_fail : {E A : Type 0} (e : E) (o : Option A) → Reads (or_fail e o)
Reads-or_fail e none = Reads-fail e
Reads-or_fail e (some a) = Reads-pure a

pub Reads-expect_user : (o : Option UserRow) → Reads (expect_user o)
unfolding user_from_row
Reads-expect_user none = Reads-pure none
Reads-expect_user (some row) = record { same = λ w. ground arith }

module _ (env : Env) where
  pub Reads-new_token :
      {E : Type 0} (p : Primitives) (wrap : CryptoError → E) → Reads (new_token env p wrap)
  unfolding new_token
  Reads-new_token p wrap = search basic_reads

  pub Reads-extract_trace_context : {E : Type 0} → Reads (extract_trace_context env {E = E})
  unfolding extract_trace_context
  Reads-extract_trace_context = search basic_reads

  pub Reads-hash_blocking :
      {E : Type 0} (p : Primitives) (wrap : PasswordError → E) (password : String)
      → Reads (hash_blocking env p wrap password)
  unfolding hash_blocking
  Reads-hash_blocking p wrap password = search basic_reads

  pub Reads-verify_blocking :
      {E : Type 0} (p : Primitives) (wrap : PasswordError → E) (refused : E)
      (password phc_hash : String)
      → Reads (verify_blocking env p wrap refused password phc_hash)
  unfolding verify_blocking
  Reads-verify_blocking p wrap refused password phc_hash = search basic_reads

  pub Reads-get_user_by_id : (id : Uuid) → Reads (get_user_by_id env id)
  unfolding get_user_by_id
  Reads-get_user_by_id id = search (basic_reads, Reads-expect_user)

  pub Reads-get_user_by_email :
      (x : Externals) (email : String) → Reads (get_user_by_email env x email)
  unfolding get_user_by_email
  Reads-get_user_by_email x email = search (basic_reads, Reads-expect_user)

pub ruleset reads_rules = (
  basic_reads, Reads-or_fail, Reads-new_token, Reads-extract_trace_context, Reads-hash_blocking,
  Reads-verify_blocking, Reads-get_user_by_id, Reads-get_user_by_email,
)
