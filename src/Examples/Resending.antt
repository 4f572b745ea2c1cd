-- ===== src/Examples/Resending.antt =====
-- A run of services/resend_verification.rs.
use home_ryanseipp.Prelude.{[], ◌∷◌, ◌≡◌, refl, Result, ok}
use home_ryanseipp.Effect.{World, ask, ◌>>=◌, map_error, pool_get, statement, query, transaction}
use home_ryanseipp.Crypto.Tokens.{generate_verification_token}
use home_ryanseipp.Identity.Accounts.{Db, parse_status}
use home_ryanseipp.Identity.Tables.{select_user_by_email, insert_token_row, insert_outbox_row}
use home_ryanseipp.Identity.Service.{
  get_user_by_email, user_from_row, new_token, extract_trace_context, insert_token, insert_event,
}
use home_ryanseipp.Identity.ResendVerification as ResendVerification
use home_ryanseipp.Identity.ResendVerification.Limits.{Answered, resend_verification-Answered}
use home_ryanseipp.Examples.Toys.{toy_primitives, toy_env, toy_externals}
use home_ryanseipp.Examples.Accounts.{suspended_user}

abbrev waiting : World Db
waiting = record {
  db = record {
    users = (record suspended_user { status = "pending_verification" }) ∷ [];
    tokens = [];
    refresh_tokens = [];
    signing_keys = [];
    outbox = [];
  };
  calls = 20;
}

abbrev resent : Result ResendVerification.ResendVerificationError (Unit {0}) × World Db
resent =
    ResendVerification.execute toy_env toy_primitives toy_externals "a@b.org" "https://h.org"
      waiting

toy_resent : resent.0 ≡ ok tt
unfolding ResendVerification.execute ResendVerification.lookup_and_resend
    ResendVerification.resend_to ResendVerification.count_recent_tokens
    ResendVerification.send_token ResendVerification.queue_token get_user_by_email
    select_user_by_email user_from_row parse_status new_token extract_trace_context insert_token
    insert_event generate_verification_token insert_token_row insert_outbox_row ask ◌>>=◌ map_error
    pool_get query statement transaction
toy_resent = refl

resend_verification-Answered_example :
    Answered toy_env toy_primitives toy_externals "https://h.org" "a@b.org" waiting resent.1.db
resend_verification-Answered_example =
    resend_verification-Answered toy_env toy_primitives toy_externals "https://h.org" "a@b.org"
      waiting toy_resent
