-- ===== src/Identity/Grpc/Serving.antt =====
-- Any sequence of calls of services/mod.rs, of key creations and of marks of the publisher.
pub mod Lookups
use home_ryanseipp.Prelude.{ℕ, String, Option, ◌≡◌, sym}
use mathlib.Core.Path.{subst}
use home_ryanseipp.Effect.{Env, Uuid, Timestamp, World}
use home_ryanseipp.Effect.Rules.{Reads, Keeps}
use home_ryanseipp.Crypto.Primitives.{Primitives}
use home_ryanseipp.Identity.Accounts.{Db}
use home_ryanseipp.Identity.Tables.Consistency.{IsConsistent, other_tables-IsConsistent}
use home_ryanseipp.Identity.Service.Reads.{reads_rules}
use home_ryanseipp.Identity.Auth.{Authorization, authenticate, check_token}
use home_ryanseipp.Identity.SigningKeys.{get_jwks, list_public_jwks, ensure_signing_key}
use home_ryanseipp.Identity.UpdateProfile.{user_info}
use home_ryanseipp.Identity.Consistency.{keeps_rules, Keeps-sign_up}
use home_ryanseipp.Identity.Consistency.Handlers.{
  Keeps-verify_email, Keeps-login, Keeps-update_profile, Keeps-update_password,
  Keeps-resend_verification, Keeps-ensure_signing_key,
}
use home_ryanseipp.Identity.Grpc as Grpc
use home_ryanseipp.Identity.Grpc.{Service}
use home_ryanseipp.Outbox.{mark_published}

module _ (env : Env) (p : Primitives) where
  Reads-list_public_jwks : Reads (list_public_jwks env p)
  unfolding list_public_jwks
  Reads-list_public_jwks = search reads_rules

  Reads-get_jwks : Reads (get_jwks env p)
  unfolding get_jwks
  Reads-get_jwks = search (reads_rules, Reads-list_public_jwks)

  Reads-authenticate : (request : Authorization) → Reads (authenticate env p request)
  unfolding authenticate check_token
  Reads-authenticate request = search (reads_rules, Reads-list_public_jwks) depth 16

  Reads-user_info : (id : Uuid) → Reads (user_info env id)
  unfolding user_info
  Reads-user_info id = search reads_rules

ruleset serving_rules = (
  keeps_rules, Reads-get_jwks, Reads-authenticate, Reads-user_info, Keeps-sign_up,
  Keeps-verify_email, Keeps-login, Keeps-update_profile, Keeps-update_password,
  Keeps-resend_verification,
)

-- The calls of the service, with their messages and metadata.
pub data Call : Type 0 where
  sign_up_request : String → String → String → String → Option String → Call
  login_request : String → String → Call
  user_info_request : Authorization → Call
  verify_email_request : String → Call
  resend_verification_request : String → Call
  get_jwks_request : Call
  update_profile_request : Authorization → Option String → Option String → Option String → Call
  update_password_request : Authorization → String → String → Call

module _ (s : Service) where
  abbrev Kept : Db → Type 0
  Kept = IsConsistent s.externals.lower

  -- What a call leaves in the tables.
  abbrev pub after : Env → Call → World Db → Db
  after env (sign_up_request username email given_name family_name password) w =
      (Grpc.sign_up env s username email given_name family_name password w).1.db
  after env (login_request email password) w = (Grpc.login env s email password w).1.db
  after env (user_info_request authorization) w = (Grpc.user_info env s authorization w).1.db
  after env (verify_email_request token) w = (Grpc.verify_email env s token w).1.db
  after env (resend_verification_request email) w = (Grpc.resend_verification env s email w).1.db
  after env get_jwks_request w = (Grpc.get_jwks env s w).1.db
  after env (update_profile_request authorization given_name family_name username) w =
      (Grpc.update_profile env s authorization given_name family_name username w).1.db
  after env (update_password_request authorization current_password new_password) w =
      (Grpc.update_password env s authorization current_password new_password w).1.db

  module _ (env : Env) where
    Serves-sign_up :
        (username email given_name family_name : String) (password : Option String)
        → Keeps Kept (Grpc.sign_up env s username email given_name family_name password)
    unfolding Grpc.sign_up
    Serves-sign_up username email given_name family_name password = search serving_rules depth 16

    Serves-login : (email password : String) → Keeps Kept (Grpc.login env s email password)
    unfolding Grpc.login
    Serves-login email password = search serving_rules depth 16

    Serves-user_info :
        (authorization : Authorization) → Keeps Kept (Grpc.user_info env s authorization)
    unfolding Grpc.user_info
    Serves-user_info authorization = search serving_rules depth 16

    Serves-verify_email : (token : String) → Keeps Kept (Grpc.verify_email env s token)
    unfolding Grpc.verify_email
    Serves-verify_email token = search serving_rules depth 16

    Serves-resend_verification :
        (email : String) → Keeps Kept (Grpc.resend_verification env s email)
    unfolding Grpc.resend_verification
    Serves-resend_verification email = search serving_rules depth 16

    Serves-get_jwks : Keeps Kept (Grpc.get_jwks env s)
    unfolding Grpc.get_jwks
    Serves-get_jwks = search serving_rules depth 16

    Serves-update_profile :
        (authorization : Authorization) (given_name family_name username : Option String)
        → Keeps Kept (Grpc.update_profile env s authorization given_name family_name username)
    unfolding Grpc.update_profile
    Serves-update_profile authorization given_name family_name username =
        search serving_rules depth 16

    Serves-update_password :
        (authorization : Authorization) (current_password new_password : String)
        → Keeps Kept (Grpc.update_password env s authorization current_password new_password)
    unfolding Grpc.update_password
    Serves-update_password authorization current_password new_password =
        search serving_rules depth 16

  after-IsConsistent : (env : Env) (c : Call) (w : World Db) → Kept w.db → Kept (after env c w)
  after-IsConsistent env (sign_up_request username email given_name family_name password) w h =
      (Serves-sign_up env username email given_name family_name password).kept w h
  after-IsConsistent env (login_request email password) w h =
      (Serves-login env email password).kept w h
  after-IsConsistent env (user_info_request authorization) w h =
      (Serves-user_info env authorization).kept w h
  after-IsConsistent env (verify_email_request token) w h = (Serves-verify_email env token).kept w h
  after-IsConsistent env (resend_verification_request email) w h =
      (Serves-resend_verification env email).kept w h
  after-IsConsistent env get_jwks_request w h = (Serves-get_jwks env).kept w h
  after-IsConsistent env (update_profile_request authorization given_name family_name username) w
        h =
      (Serves-update_profile env authorization given_name family_name username).kept w h
  after-IsConsistent env (update_password_request authorization current_password new_password) w h =
      (Serves-update_password env authorization current_password new_password).kept w h

  -- What can happen to the tables: a call of the service, the creation of a signing key, and a mark
  -- of the publisher, each in any environment.
  pub data Step (d d' : Db) : Type 0 where
    answered :
        (env : Env) (c : Call) (n : ℕ) → d' ≡ after env c (record { db = d; calls = n }) → Step d d'
    ensured :
        (env : Env) (n : ℕ)
        → d' ≡ (ensure_signing_key env s.primitives s.kek (record { db = d; calls = n })).1.db
        → Step d d'
    marked :
        (id : Uuid) (now : Timestamp)
        → d' ≡ record d { outbox = mark_published id now d.outbox }
        → Step d d'

  pub data Reach (start : Db) : Db → Type 0 where
    here : Reach start start
    next : {d d' : Db} → Reach start d → Step d d' → Reach start d'

  Step-IsConsistent : (d d' : Db) → Step d d' → Kept d → Kept d'
  Step-IsConsistent d d' (answered env c n e) h =
      subst Kept (sym e) (after-IsConsistent env c (record { db = d; calls = n }) h)
  Step-IsConsistent d d' (ensured env n e) h = subst Kept (sym e) (
      (Keeps-ensure_signing_key env s.primitives s.externals s.kek).kept
        (record { db = d; calls = n }) h)
  Step-IsConsistent d d' (marked id now e) h =
      subst Kept (sym e) (other_tables-IsConsistent s.externals.lower d d.signing_keys _ h)

  -- If the tables are consistent at the start, they are after any number of calls of the service, of
  -- key creations and of marks of the publisher in any order, whatever fails in them: no two live
  -- accounts share a name or an address in any case of letters, no two open tokens share a hash, every
  -- token has an account, and every status can be read.
  pub Reach-IsConsistent :
      {start d : Db}
      → IsConsistent s.externals.lower start
      → Reach start d
      → IsConsistent s.externals.lower d
  Reach-IsConsistent h here = h
  Reach-IsConsistent h (next {d} {d'} r st) = Step-IsConsistent d d' st (Reach-IsConsistent h r)
