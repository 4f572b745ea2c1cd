-- ===== src/Identity/Consistency.antt =====
-- The statements of the handlers of services/identity/src/services on consistent tables.
pub mod Handlers
use home_ryanseipp.Prelude.{
  ℕ, String, Bool, not, ensure, ◌==◌, Option, none, some, List, [], ◌∷◌, ◌++◌, ◌≡◌, refl, sym, ap,
  ◌∙◌, Result, ok, err, any, false, true, modify, arith, ok-injective, bind-eq-ok, ensure-eq-ok,
}
use mathlib.Core.Path.{subst}
use home_ryanseipp.Identity.Service.{insert_token, insert_event}
use home_ryanseipp.Identity.Service.Reads.{reads_rules}
use home_ryanseipp.Identity.SignUp as SignUp
use home_ryanseipp.Identity.SignUp.{insert_user, register}
use home_ryanseipp.Effect.{
  Env, Uuid, Bytes, Timestamp, DbError, constraint, World, Act, ◌>>=◌, ◌>>◌, map_error, statement,
}
use home_ryanseipp.Effect.Rules.{Keeps, Reads-Keeps, Keeps-bind, Keeps-map_error, Reads}
use home_ryanseipp.Effect.Calls.{Keeps-statement, Keeps-transaction}
use home_ryanseipp.Crypto.Primitives.{Primitives}
use home_ryanseipp.Identity.Accounts.{
  UserRow, TokenRow, RefreshRow, OutboxRow, KeyRow, Db, Externals, as_str, parse_status, active,
  pending_verification,
}
use home_ryanseipp.Identity.Tables.{
  insert_user_row, insert_token_row, insert_refresh_row, insert_outbox_row, insert_key_row,
  update_password_row, update_verified_row, update_consumed_row, update_profile_row, has_id,
  is_open, verified, consumed, with_profile, is_username_taken,
}
use home_ryanseipp.Identity.Tables.Inserts.{
  insert_user_row-eq-ok, insert_token_row-eq-ok, insert_outbox_row-eq-ok,
}
use home_ryanseipp.Identity.Tables.Consistency.{
  IsConsistent, IsReadable, is_unrevoked, insert_user-IsConsistent, modify_users-IsConsistent,
  insert_token-IsConsistent, insert_refresh-IsConsistent, modify_tokens-IsConsistent,
  other_tables-IsConsistent,
}
use home_ryanseipp.Identity.Tables.Consistency.Profiles.{with_profile-IsConsistent}

not-true : (b : Bool) → not b ≡ true → b ≡ false
not-true true h = cc
not-true false h = refl

module _ (lower : String → String) where
  abbrev pub Kept : Db → Type 0
  Kept = IsConsistent lower

  insert_user_row-Kept :
      (row : UserRow) (d d' : Db) (u : Unit {0})
      → IsReadable row
      → Kept d
      → insert_user_row lower row d ≡ ok (u, d')
      → Kept d'
  insert_user_row-Kept row d d' u read c h =
      let (left, id, name, email) = insert_user_row-eq-ok lower row d d' u h in
      subst Kept (sym left) (insert_user-IsConsistent lower row d id name email read c)

  insert_token_row-Kept :
      (row : TokenRow) (d d' : Db) (u : Unit {0})
      → Kept d
      → insert_token_row row d ≡ ok (u, d')
      → Kept d'
  insert_token_row-Kept row d d' u c h =
      let (left, _, hash, owner) = insert_token_row-eq-ok row d d' u h in
      subst Kept (sym left) (insert_token-IsConsistent lower row d hash owner c)

  pub insert_refresh_row-Kept :
      (row : RefreshRow) (d d' : Db) (u : Unit {0})
      → Kept d
      → insert_refresh_row row d ≡ ok (u, d')
      → Kept d'
  unfolding insert_refresh_row
  insert_refresh_row-Kept row d d' u c h =
      let free : any (is_unrevoked row.token_hash) d.refresh_tokens ≡ false = ground arith in
      let owned : any (λ (u : UserRow). u.id == row.user_id) d.users ≡ true = ground arith in
      let left : d' ≡ record d { refresh_tokens = d.refresh_tokens ++ row ∷ [] } = ground arith in
      subst Kept (sym left) (insert_refresh-IsConsistent lower row d free owned c)

  insert_outbox_row-Kept :
      (row : OutboxRow) (d d' : Db) (u : Unit {0})
      → Kept d
      → insert_outbox_row row d ≡ ok (u, d')
      → Kept d'
  insert_outbox_row-Kept row d d' u c h =
      subst Kept (sym (insert_outbox_row-eq-ok row d d' u h).0)
        (other_tables-IsConsistent lower d d.signing_keys (d.outbox ++ row ∷ []) c)

  pub insert_key_row-Kept :
      (row : KeyRow) (d d' : Db) (u : Unit {0})
      → Kept d
      → insert_key_row row d ≡ ok (u, d')
      → Kept d'
  unfolding insert_key_row
  insert_key_row-Kept row d d' u c h =
      let left : d' ≡ record d { signing_keys = d.signing_keys ++ row ∷ [] } = ground arith in
      subst Kept (sym left)
        (other_tables-IsConsistent lower d (d.signing_keys ++ row ∷ []) d.outbox c)

  pub update_password_row-Kept :
      (id : Uuid) (hash : String) (now : Timestamp) (d d' : Db) (n : ℕ)
      → Kept d
      → update_password_row id hash now d ≡ ok (n, d')
      → Kept d'
  unfolding update_password_row
  update_password_row-Kept id hash now d d' n c h =
      subst Kept (ap (λ (r : ℕ × Db). r.1) (ok-injective h)) (
        modify_users-IsConsistent lower (has_id id) _ d (λ u. refl) (λ u. refl) (λ u. refl)
          (λ u. refl) (λ u r. r) c)

  pub update_verified_row-Kept :
      (id : Uuid) (now : Timestamp) (d d' : Db) (n : ℕ)
      → Kept d
      → update_verified_row id (as_str active) now d ≡ ok (n, d')
      → Kept d'
  unfolding update_verified_row as_str parse_status
  update_verified_row-Kept id now d d' n c h =
      subst Kept (ap (λ (r : ℕ × Db). r.1) (ok-injective h)) (
        modify_users-IsConsistent lower (has_id id) _ d (λ u. refl) (λ u. refl) (λ u. refl)
          (λ u. refl) (λ u r. (active, refl)) c)

  pub update_consumed_row-Kept :
      (id : Uuid) (now : Timestamp) (d d' : Db) (n : ℕ)
      → Kept d
      → update_consumed_row id now d ≡ ok (n, d')
      → Kept d'
  unfolding update_consumed_row
  update_consumed_row-Kept id now d d' n c h =
      subst Kept (ap (λ (r : ℕ × Db). r.1) (ok-injective h)) (
        modify_tokens-IsConsistent lower (is_open id) (consumed now) d (λ hash t e. ground arith)
          (λ t. refl) c)

  pub update_profile_row-Kept :
      (id : Uuid) (given_name family_name username : Option String) (now : Timestamp) (d d' : Db)
      (n : ℕ)
      → Kept d
      → update_profile_row lower id given_name family_name username now d ≡ ok (n, d')
      → Kept d'
  unfolding update_profile_row
  update_profile_row-Kept id given_name family_name username now d d' n c h =
      let (_, tested, last) =
        bind-eq-ok
          (ensure (not (is_username_taken lower id username d.users))
            (constraint "idx_users_username"))
          _ h in
      let free : is_username_taken lower id username d.users ≡ false =
        not-true _ (ensure-eq-ok _ _ tested) in
      subst Kept (ap (λ (r : ℕ × Db). r.1) (ok-injective last))
        (with_profile-IsConsistent lower id given_name family_name now username d free c)

module _ (env : Env) (p : Primitives) (x : Externals) where
  abbrev pub Consistent : Db → Type 0
  Consistent = IsConsistent x.lower

  pub Keeps-insert_user :
      (id : Uuid) (username email given_name family_name password_hash : String)
      → Keeps Consistent
          (insert_user env p x id username email given_name family_name password_hash)
  unfolding insert_user parse_status
  Keeps-insert_user id username email given_name family_name password_hash =
      Keeps-map_error Consistent _ _ (
        Keeps-statement env Consistent _
          (λ t d d' u c h. insert_user_row-Kept x.lower _ d d' u (pending_verification, refl) c h))

  pub Keeps-insert_token :
      (id user_id : Uuid) (hash : Bytes) (expires_at : Timestamp)
      → Keeps Consistent (insert_token env id user_id hash expires_at)
  unfolding insert_token
  Keeps-insert_token id user_id hash expires_at =
      Keeps-statement env Consistent _ (λ t d d' u c h. insert_token_row-Kept x.lower _ d d' u c h)

  pub Keeps-insert_event :
      (id : Uuid) (aggregate_type : String) (aggregate_id : Uuid) (event_type : String)
      (payload : Bytes) (trace_id span_id : Option String)
      → Keeps Consistent
          (insert_event env id aggregate_type aggregate_id event_type payload trace_id span_id)
  unfolding insert_event
  Keeps-insert_event id aggregate_type aggregate_id event_type payload trace_id span_id =
      Keeps-map_error Consistent _ _ (
        Keeps-statement env Consistent _
          (λ t d d' u c h. insert_outbox_row-Kept x.lower _ d d' u c h))

  pub ruleset keeps_rules = (
    Keeps-bind, Keeps-map_error, Keeps-transaction, Reads-Keeps, reads_rules, Keeps-insert_user,
    Keeps-insert_token, Keeps-insert_event,
  )

  Keeps-register :
      (user_id token_id outbox_id : Uuid)
      (username email given_name family_name password_hash : String) (token_hash : Bytes)
      (expires_at : Timestamp) (payload : Bytes) (trace_id span_id : Option String)
      → Keeps Consistent (
          register env p x user_id token_id outbox_id username email given_name family_name
            password_hash token_hash expires_at payload trace_id span_id)
  unfolding register
  Keeps-register user_id token_id outbox_id username email given_name family_name password_hash
        token_hash expires_at payload trace_id span_id =
      search keeps_rules depth 8

  pub Keeps-sign_up :
      (username email given_name family_name : String) (password : Option String)
      (web_base_url : String)
      → Keeps Consistent
          (SignUp.execute env p x username email given_name family_name password web_base_url)
  unfolding SignUp.execute
  Keeps-sign_up username email given_name family_name password web_base_url =
      search (keeps_rules, Keeps-register) depth 24
