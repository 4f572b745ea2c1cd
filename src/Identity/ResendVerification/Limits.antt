-- ===== src/Identity/ResendVerification/Limits.antt =====
-- When services/resend_verification.rs adds a token.
use mathlib.Core.Path.{subst}
use home_ryanseipp.Prelude.{
  ℕ, ◌+◌, ◌<◌, ◌==◌, ◌&&◌, ◌≢◌, ◌↔◌, Bool, ltb, Bool-cases, Option-cases, if◌then◌else◌, String,
  true, leb, Option, none, some, ◌≡◌, ◌⊎◌, inl, inr, refl, sym, ap, Result, ok, err, count_p, arith,
}
use home_ryanseipp.Effect.{
  Env, Uuid, Timestamp, DbError, connection, panic, World, Act, pool_get, fail, map_error, query,
  ◌>>=◌,
}
use home_ryanseipp.Effect.Rules.{bind-eq-ok, map_error-eq-ok}
use home_ryanseipp.Effect.Calls.{query-eq-ok}
use home_ryanseipp.Crypto.Primitives.{Primitives}
use home_ryanseipp.Identity.Accounts.{
  User, UserRow, TokenRow, UserStatus, pending_verification, Db, Externals,
}
use home_ryanseipp.Identity.Tables.{is_recent, select_user_by_email}
use home_ryanseipp.Identity.Service.{get_user_by_email, user_from_row, expect_user}
use home_ryanseipp.Identity.ResendVerification.{
  ResendVerificationError, db, rate_limited, max_tokens_per_hour, is_pending, count_recent_tokens,
  send_token, resend_to, found_or_done, lookup_and_resend, execute,
}
use home_ryanseipp.Identity.ResendVerification.Sending.{IsSent, send_token-Ensures}

-- A token of the user was made less than an hour before.
abbrev pub is_of_last_hour : Uuid → Timestamp → TokenRow → Bool
is_of_last_hour user_id checked t =
    (t.user_id == user_id) && ltb checked (t.created_at + 3_600_000_000)

-- The user is pending and had fewer than three tokens of the last hour.
pub record IsBelowLimit (user : User) (checked : Timestamp) (before : Db) : Type 0 where
  pub pending : user.status ≡ pending_verification
  pub recent : count_p (is_of_last_hour user.id checked) before.tokens < 3

is_pending_iff : (s : UserStatus) → (is_pending s ≡ true) ↔ (s ≡ pending_verification)
is_pending_iff s = ground arith

abbrev next : World Db → World Db
next w = record w { calls = w.calls + 1 }

module _ (env : Env) (p : Primitives) (x : Externals) (web_base_url : String) where
  -- What the lookup of an address comes to.
  data Looked (email : String) (w : World Db)
      : Result DbError (Option User) × World Db → Type 0 where
    lost : env.fails w.calls ≡ true → Looked email w (err connection, next w)
    missing : select_user_by_email x.lower email w.db ≡ none → Looked email w (ok none, next w)
    unreadable : Looked email w (err panic, next w)
    known :
        (row : UserRow) (user : User)
        → select_user_by_email x.lower email w.db ≡ some row
        → user_from_row row ≡ ok user
        → Looked email w (ok (some user), next w)

  get_user_by_email-Looked :
      (email : String) (w : World Db) → Looked email w (get_user_by_email env x email w)
  unfolding get_user_by_email query ◌>>=◌
  get_user_by_email-Looked email w = elim (Bool-cases (env.fails w.calls)) [
    | inl q ↦ rw q (lost q)
    | inr q ↦ elim (Option-cases (select_user_by_email x.lower email w.db)) [
      | inl e ↦ rw (q, e) (missing e)
      | inr (row, e) ↦ rw (q, e) (read row e (user_from_row row) refl)
    ]
  ]
    where
      read :
          (row : UserRow)
          → select_user_by_email x.lower email w.db ≡ some row
          → (r : Result String User) → user_from_row row ≡ r
          → Looked email w (expect_user (some row) (next w))
      read row e (ok user) k = rw (k, expect_user) (known row user e k)
      read row e (err t) k = rw (k, expect_user) unreadable

  abbrev past_limit : User → ℕ → Act Db ResendVerificationError (Unit {0})
  past_limit user n =
      if leb max_tokens_per_hour n then fail rate_limited else send_token env p x user web_base_url

  past_limit-IsSent :
      (user : User) (n : ℕ) (w : World Db)
      → (past_limit user n w).0 ≡ ok tt
      → (n < 3) × IsSent env p x web_base_url user w.db (past_limit user n w).1.db
  past_limit-IsSent user n w h = elim (Bool-cases (leb max_tokens_per_hour n)) [
    | inl over ↦ cc (rw over at h)
    | inr below ↦ rw below (
      ground (arith, below),
      (send_token-Ensures env p x web_base_url user).after w tt (rw below at h),
    )
  ]

  -- what follows the test of the status
  abbrev counting : User → Act Db ResendVerificationError (Unit {0})
  counting user = map_error db (count_recent_tokens env user.id) >>= past_limit user

  counting-IsSent :
      (user : User) (w : World Db)
      → (counting user w).0 ≡ ok tt
      → (count_p (is_of_last_hour user.id (env.now w.calls)) w.db.tokens < 3)
        × IsSent env p x web_base_url user w.db (counting user w).1.db
  unfolding count_recent_tokens
  counting-IsSent user w h =
      let (n, w1, ran, rest, same) =
        bind-eq-ok (map_error db (count_recent_tokens env user.id)) (past_limit user) w h in
      let (counted, here, _) =
        query-eq-ok env (λ now d. count_p (is_recent user.id now) d.tokens) w w1
          (map_error-eq-ok db (count_recent_tokens env user.id) w w1 ran) in
      let (below, sent) = past_limit-IsSent user n w1 rest in
      (
        subst (λ k. k < 3) counted below,
        subst (IsSent env p x web_base_url user w.db)
            (sym (ap (λ (r : Result ResendVerificationError (Unit {0}) × World Db). r.1.db) same))
            (subst (λ d. IsSent env p x web_base_url user d (past_limit user n w1).1.db)
              (ap (λ (v : World Db). v.db) here) sent),
      )

  -- What a resend to a user comes to.
  abbrev Resent : User → World Db → Db → Type 0
  Resent user w after =
      ((user.status ≢ pending_verification) × (after ≡ w.db))
      ⊎ (IsBelowLimit user (env.now w.calls) w.db × IsSent env p x web_base_url user w.db after)

  resend_to-Resent :
      (user : User) (w : World Db)
      → (resend_to env p x user web_base_url w).0 ≡ ok tt
      → Resent user w (resend_to env p x user web_base_url w).1.db
  unfolding resend_to
  resend_to-Resent user w h = elim (Bool-cases (is_pending user.status)) [
    | inr other ↦ rw other (inl (λ is. cc ((is_pending_iff user.status).1 is, other), refl))
    | inl is ↦
        let (recent, sent) = counting-IsSent user w (rw is at h) in
        rw is (inr (record { pending = (is_pending_iff user.status).0 is; recent = recent }, sent))
  ]

  -- What an answer without an error comes to, from a state `w` with its number of calls: the pool is
  -- the first call, the lookup the second and the count the third.
  pub data Answered (email : String) (w : World Db) : Db → Type 0 where
    unasked : env.fails (w.calls + 1) ≡ true → Answered email w w.db
    unknown : select_user_by_email x.lower email w.db ≡ none → Answered email w w.db
    settled :
        (row : UserRow) (user : User)
        → select_user_by_email x.lower email w.db ≡ some row
        → user_from_row row ≡ ok user
        → user.status ≢ pending_verification
        → Answered email w w.db
    resent :
        (row : UserRow) (user : User) (after : Db)
        → select_user_by_email x.lower email w.db ≡ some row
        → user_from_row row ≡ ok user
        → IsBelowLimit user (env.now (w.calls + 2)) w.db
        → IsSent env p x web_base_url user w.db after
        → Answered email w after

  found_or_done-Answered :
      (email : String) (w : World Db) {r : Result DbError (Option User) × World Db}
      → Looked email (next w) r
      → (found_or_done env p x web_base_url r).0 ≡ ok tt
      → Answered email w (found_or_done env p x web_base_url r).1.db
  found_or_done-Answered email w (lost q) h = unasked q
  found_or_done-Answered email w (missing e) h = unknown e
  found_or_done-Answered email w unreadable h = cc
  found_or_done-Answered email w (known row user e read) h =
      let two : w.calls + 1 + 1 ≡ w.calls + 2 = omega arith in
      elim (resend_to-Resent user (next (next w)) h) [
        | inl (other, kept) ↦ subst (Answered email w) (sym kept) (settled row user e read other)
        | inr (below, sent) ↦
            resent row user _ e read (subst (λ n. IsBelowLimit user (env.now n) w.db) two below)
              sent
      ]

  -- If `resend_verification::execute` returns `Ok`, one of these is the case. The lookup failed, or no
  -- live account has the address, or the account is not pending, and nothing changed. Or a live pending
  -- account has the address, which at the reading of the clock by the count had fewer than three
  -- tokens of the last hour, and one open token of it and one unpublished event were added and
  -- nothing else changed: the event carries a message to the account with a code whose bytes hash to
  -- the token.
  pub resend_verification-Answered :
      (email : String) (w : World Db)
      → (execute env p x email web_base_url w).0 ≡ ok tt
      → Answered email w (execute env p x email web_base_url w).1.db
  unfolding execute lookup_and_resend pool_get ◌>>=◌
  resend_verification-Answered email w h = elim (Bool-cases (env.fails w.calls)) [
    | inl q ↦ cc (rw q at h)
    | inr q ↦
        rw q (found_or_done-Answered email w (get_user_by_email-Looked email (next w)) (rw q at h))
  ]
