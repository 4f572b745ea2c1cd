-- ===== src/Identity/Consistency/Handlers.antt =====
-- The handlers of services/identity/src/services on consistent tables.
use home_ryanseipp.Prelude.{
  ℕ, String, Option, none, some, Result, ok, err, if◌then◌else◌, Bool, true, false, arith,
}
use home_ryanseipp.Effect.{
  Env, Uuid, Bytes, Timestamp, DbError, connection, constraint, panic, World, Act, map_error, fail,
  statement,
}
use home_ryanseipp.Effect.Rules.{
  Reads, Keeps, Reads-Keeps, Reads-fail, Reads-lift, Reads-pure, Keeps-bind, Keeps-map_error,
}
use home_ryanseipp.Effect.Calls.{Keeps-statement, Reads-query, Reads-pool_get}
use home_ryanseipp.Crypto.Primitives.{Primitives}
use home_ryanseipp.Identity.Accounts.{TokenRow, KeyRow, User, Db, Externals}
use home_ryanseipp.Identity.Service.{get_user_by_email}
use home_ryanseipp.Identity.Service.Reads.{reads_rules, Reads-get_user_by_email}
use home_ryanseipp.Identity.VerifyEmail as VerifyEmail
use home_ryanseipp.Identity.VerifyEmail.{
  some_rows, get_token_by_hash, consume_token, mark_email_verified, redeem, redeem_found,
  consume_and_verify,
}
use home_ryanseipp.Identity.ResendVerification as ResendVerification
use home_ryanseipp.Identity.ResendVerification.{
  ResendVerificationError, count_recent_tokens, queue_token, send_token, resend_to, found_or_done,
  lookup_and_resend,
}
use home_ryanseipp.Identity.UpdateProfile as UpdateProfile
use home_ryanseipp.Identity.UpdateProfile.{write_profile, validate_new_username}
use home_ryanseipp.Identity.UpdatePassword as UpdatePassword
use home_ryanseipp.Identity.UpdatePassword.{replace_password}
use home_ryanseipp.Identity.Tables.{update_profile_row, insert_key_row}
use home_ryanseipp.Identity.Login as Login
use home_ryanseipp.Identity.Login.{insert_refresh_token, issue_tokens}
use home_ryanseipp.Identity.Login.Issues.{Reads-get_active_signing_key, Reads-sign_with}
use home_ryanseipp.Identity.SigningKeys.{create_signing_key, ensure_signing_key}
use home_ryanseipp.Identity.Consistency.{
  Consistent, keeps_rules, insert_refresh_row-Kept, insert_key_row-Kept, update_password_row-Kept,
  update_verified_row-Kept, update_consumed_row-Kept, update_profile_row-Kept,
}

Reads-some_rows : (e : VerifyEmail.VerifyEmailError) (n : ℕ) → Reads (some_rows e n)
Reads-some_rows e n = record { same = λ w. ground arith }

Keeps-if :
    {D E A : Type 0} (P : D → Type 0) (b : Bool) (m n : Act D E A)
    → Keeps P m
    → Keeps P n
    → Keeps P (if b then m else n)
Keeps-if P true m n km kn = km
Keeps-if P false m n km kn = kn

module _ (env : Env) (p : Primitives) (x : Externals) where
  Keeps-consume_token : (id : Uuid) → Keeps (Consistent env p x) (consume_token env id)
  unfolding consume_token
  Keeps-consume_token id =
      Keeps-bind _ _ _
        (Keeps-map_error _ _ _ (
          Keeps-statement env _ _
            (λ t d d' n c h. update_consumed_row-Kept x.lower id t d d' n c h)))
        (λ n. Reads-Keeps _ (Reads-some_rows _ n))

  Keeps-mark_email_verified : (id : Uuid) → Keeps (Consistent env p x) (mark_email_verified env id)
  unfolding mark_email_verified
  Keeps-mark_email_verified id =
      Keeps-bind _ _ _
        (Keeps-map_error _ _ _ (
          Keeps-statement env _ _
            (λ t d d' n c h. update_verified_row-Kept x.lower id t d d' n c h)))
        (λ n. Reads-Keeps _ (Reads-some_rows _ n))

  Keeps-redeem : (t : TokenRow) → Keeps (Consistent env p x) (redeem env t)
  unfolding redeem
  Keeps-redeem t =
      search (keeps_rules, Keeps-if, Keeps-consume_token, Keeps-mark_email_verified) depth 8

  Keeps-redeem_found : (o : Option TokenRow) → Keeps (Consistent env p x) (redeem_found env o)
  Keeps-redeem_found none = Reads-Keeps _ (Reads-fail _)
  Keeps-redeem_found (some t) = Keeps-redeem t

  Reads-get_token_by_hash : (hash : Bytes) → Reads (get_token_by_hash env hash)
  unfolding get_token_by_hash
  Reads-get_token_by_hash hash = search reads_rules

  pub Keeps-verify_email :
      (raw_token : String) → Keeps (Consistent env p x) (VerifyEmail.execute env p raw_token)
  unfolding VerifyEmail.execute consume_and_verify
  Keeps-verify_email raw_token =
      search (keeps_rules, Reads-get_token_by_hash, Keeps-redeem_found) depth 12

  Keeps-insert_refresh_token :
      (id user_id : Uuid) (hash : Bytes) (expires_at : Timestamp)
      → Keeps (Consistent env p x) (insert_refresh_token env p id user_id hash expires_at)
  unfolding insert_refresh_token
  Keeps-insert_refresh_token id user_id hash expires_at =
      Keeps-bind _ _ _ (Reads-Keeps _ (search reads_rules)) (λ _.
        Keeps-map_error _ _ _
          (Keeps-statement env _ _ (λ t d d' u c h. insert_refresh_row-Kept x.lower _ d d' u c h)))

  Keeps-issue_tokens :
      (kek : Bytes) (user : User) → Keeps (Consistent env p x) (issue_tokens env p kek user)
  unfolding issue_tokens
  Keeps-issue_tokens kek user =
      search
        (keeps_rules, Reads-get_active_signing_key, Reads-sign_with, Keeps-insert_refresh_token)
        depth 24

  pub Keeps-login :
      (email password : String) (kek : Bytes)
      → Keeps (Consistent env p x) (Login.execute env p x email password kek)
  unfolding Login.execute
  Keeps-login email password kek = search (keeps_rules, Keeps-if, Keeps-issue_tokens) depth 16

  Keeps-write_profile :
      (id : Uuid) (given_name family_name username : Option String)
      → Keeps (Consistent env p x) (write_profile env x id given_name family_name username)
  unfolding write_profile
  Keeps-write_profile id given_name family_name username =
      Keeps-bind _ _ _ (Reads-Keeps _ (Reads-lift (validate_new_username username))) λ _.
        Keeps-bind _ _ _ (Reads-Keeps _ (Reads-pool_get env UpdateProfile.pool))
          λ _. Keeps-bind _ _ _ update λ _. Reads-Keeps _ (Reads-pure tt)
    where
      update : Keeps (Consistent env p x) (
          map_error UpdateProfile.update_error
            (statement env (update_profile_row x.lower id given_name family_name username)))
      update = Keeps-map_error _ _ _ (
          Keeps-statement env _ _ (λ t d d' n c h.
            update_profile_row-Kept x.lower id given_name family_name username t d d' n c h))

  pub Keeps-update_profile :
      (id : Uuid) (given_name family_name username : Option String)
      → Keeps (Consistent env p x) (UpdateProfile.execute env x id given_name family_name username)
  unfolding UpdateProfile.execute
  Keeps-update_profile id given_name family_name username =
      Keeps-if _ _ (fail UpdateProfile.no_fields_provided) _ (search keeps_rules)
        (Keeps-write_profile id given_name family_name username)

  Keeps-replace_password :
      (user_id outbox_id : Uuid) (hash : String) (payload : Bytes)
      (trace_id span_id : Option String)
      → Keeps
          (Consistent env p x)
          (replace_password env user_id outbox_id hash payload trace_id span_id)
  unfolding replace_password
  Keeps-replace_password user_id outbox_id hash payload trace_id span_id =
      Keeps-bind _ _ _
        (Keeps-map_error _ _ _ (
          Keeps-statement env _ _
            (λ t d d' n c h. update_password_row-Kept x.lower user_id hash t d d' n c h)))
        (λ _. search keeps_rules)

  pub Keeps-update_password :
      (id : Uuid) (current_password new_password : String)
      → Keeps (Consistent env p x) (UpdatePassword.execute env p x id current_password new_password)
  unfolding UpdatePassword.execute
  Keeps-update_password id current_password new_password =
      search (keeps_rules, Keeps-replace_password) depth 24

  Reads-count_recent_tokens : (id : Uuid) → Reads (count_recent_tokens env id)
  unfolding count_recent_tokens
  Reads-count_recent_tokens id = Reads-query env _

  Keeps-queue_token :
      (user_id token_id outbox_id : Uuid) (hash : Bytes) (expires_at : Timestamp) (payload : Bytes)
      (trace_id span_id : Option String)
      → Keeps
          (Consistent env p x)
          (queue_token env user_id token_id outbox_id hash expires_at payload trace_id span_id)
  unfolding queue_token
  Keeps-queue_token user_id token_id outbox_id hash expires_at payload trace_id span_id =
      search keeps_rules

  Keeps-send_token :
      (user : User) (web_base_url : String)
      → Keeps (Consistent env p x) (send_token env p x user web_base_url)
  unfolding send_token
  Keeps-send_token user web_base_url = search (keeps_rules, Keeps-queue_token) depth 20

  Keeps-resend_to :
      (user : User) (web_base_url : String)
      → Keeps (Consistent env p x) (resend_to env p x user web_base_url)
  unfolding resend_to
  Keeps-resend_to user web_base_url =
      search (keeps_rules, Keeps-if, Reads-count_recent_tokens, Keeps-send_token) depth 12

  found_or_done-Consistent :
      (web_base_url : String) (r : Result DbError (Option User) × World Db)
      → Consistent env p x r.1.db
      → Consistent env p x (found_or_done env p x web_base_url r).1.db
  found_or_done-Consistent url (ok (some user), w) c = (Keeps-resend_to user url).kept w c
  found_or_done-Consistent url (ok none, w) c = c
  found_or_done-Consistent url (err connection, w) c = c
  found_or_done-Consistent url (err (constraint name), w) c = c
  found_or_done-Consistent url (err panic, w) c = c

  Keeps-lookup_and_resend :
      (email web_base_url : String)
      → Keeps (Consistent env p x) (lookup_and_resend env p x email web_base_url)
  unfolding lookup_and_resend
  Keeps-lookup_and_resend email web_base_url = record {
    kept = λ w c.
        found_or_done-Consistent web_base_url (get_user_by_email env x email w)
          ((Reads-Keeps (Consistent env p x) (Reads-get_user_by_email env x email)).kept w c);
  }

  pub Keeps-resend_verification :
      (email web_base_url : String)
      → Keeps (Consistent env p x) (ResendVerification.execute env p x email web_base_url)
  unfolding ResendVerification.execute
  Keeps-resend_verification email web_base_url =
      search (keeps_rules, Keeps-lookup_and_resend) depth 8

  Keeps-create_signing_key :
      (kek : Bytes) → Keeps (Consistent env p x) (create_signing_key env p kek)
  unfolding create_signing_key
  Keeps-create_signing_key kek = search (keeps_rules, insert) depth 20
    where
      insert :
          (row : Timestamp → KeyRow)
          → Keeps (Consistent env p x) (statement env (λ now. insert_key_row (row now)))
      insert row =
          Keeps-statement env _ _ (λ t d d' u c h. insert_key_row-Kept x.lower _ d d' u c h)

  pub Keeps-ensure_signing_key :
      (kek : Bytes) → Keeps (Consistent env p x) (ensure_signing_key env p kek)
  unfolding ensure_signing_key
  Keeps-ensure_signing_key kek = search (keeps_rules, Keeps-if, Keeps-create_signing_key) depth 12
