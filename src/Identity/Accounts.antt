-- ===== src/Identity/Accounts.antt =====
-- The types of services/identity/src/services/mod.rs, the rows of the tables that
-- services/identity/migrations creates, and the messages of proto/ryanseipp/email/v1.
use home_ryanseipp.Prelude.{ℕ, String, Bool, Option, List, Result, ok, err, str_eq, if◌then◌else◌}
use home_ryanseipp.Prelude.Text.{◌⧺◌}
use home_ryanseipp.Effect.{Uuid, Bytes, Timestamp}

pub data UserStatus : Type 0 where
  pending_verification active suspended locked deleted : UserStatus

-- `UserStatus::as_str`
unfoldable pub as_str : UserStatus → String
as_str pending_verification = "pending_verification"
as_str active = "active"
as_str suspended = "suspended"
as_str locked = "locked"
as_str deleted = "deleted"

-- `UserStatus::from_str`
unfoldable pub parse_status : String → Result String UserStatus
parse_status s =
    if str_eq s "pending_verification"
    then ok pending_verification
    else if str_eq s "active"
    then ok active
    else if str_eq s "suspended"
    then ok suspended
    else if str_eq s "locked"
    then ok locked
    else if str_eq s "deleted"
    then ok deleted
    else err ("invalid user status: " ⧺ s)

pub record User : Type 0 where
  pub id : Uuid
  pub username : String
  pub email : String
  pub given_name : String
  pub family_name : String
  pub password_hash : String
  pub email_verified : Bool
  pub status : UserStatus
  pub created_at : Timestamp
  pub updated_at : Timestamp

-- users
pub record UserRow : Type 0 where
  pub id : Uuid
  pub username : String
  pub email : String
  pub given_name : String
  pub family_name : String
  pub password_hash : String
  pub email_verified : Bool
  pub status : String
  pub created_at : Timestamp
  pub updated_at : Timestamp
  pub deleted_at : Option Timestamp

-- email_verification_tokens
pub record TokenRow : Type 0 where
  pub id : Uuid
  pub user_id : Uuid
  pub token_hash : Bytes
  pub expires_at : Timestamp
  pub consumed_at : Option Timestamp
  pub created_at : Timestamp

-- refresh_tokens
pub record RefreshRow : Type 0 where
  pub id : Uuid
  pub user_id : Uuid
  pub token_hash : Bytes
  pub expires_at : Timestamp
  pub revoked_at : Option Timestamp
  pub created_at : Timestamp

-- signing_keys; the JSONB column is the text of the JWK
pub record KeyRow : Type 0 where
  pub kid : String
  pub algorithm : String
  pub encrypted_private_key : Bytes
  pub public_jwk : String
  pub status : String
  pub created_at : Timestamp

-- outbox
pub record OutboxRow : Type 0 where
  pub id : Uuid
  pub aggregate_type : String
  pub aggregate_id : Uuid
  pub event_type : String
  pub payload : Bytes
  pub trace_id : Option String
  pub span_id : Option String
  pub created_at : Timestamp
  pub published_at : Option Timestamp

pub record Db : Type 0 where
  pub users : List UserRow
  pub tokens : List TokenRow
  pub refresh_tokens : List RefreshRow
  pub signing_keys : List KeyRow
  pub outbox : List OutboxRow

-- The two messages that the service builds.
pub data Payload : Type 0 where
  email_verification : String → String → ℕ → Payload
  password_changed : ℕ → String → String → Payload

pub record AuthEmailMessage : Type 0 where
  pub idempotency_key : String
  pub recipient_email : String
  pub recipient_name : String
  pub trace_id : String
  pub span_id : String
  pub produced_at_ms : ℕ
  pub payload : Payload

-- What other crates and the server compute on these: `LOWER` of PostgreSQL, and `encode_to_vec`
-- of prost.
pub record Externals : Type 0 where
  pub lower : String → String
  pub encode_to_vec : AuthEmailMessage → Bytes
