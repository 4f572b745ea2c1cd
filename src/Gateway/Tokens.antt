-- ===== src/Gateway/Tokens.antt =====
-- The session tokens of services/gateway/src/session.rs, and the subject of an access token.
use home_ryanseipp.Prelude.{
  ℕ, String, Bool, Option, none, some, List, [], ◌∷◌, Result, ok, err, ok_or, ◌>>=◌,
}
use home_ryanseipp.Prelude.Text.{◌⧺◌, split}
use home_ryanseipp.Effect.{Uuid, Bytes, Timestamp, DbError}
use home_ryanseipp.Crypto.Primitives.{Primitives}

-- The errors that a call of a running store can meet.
pub data SessionError : Type 0 where
  new_session prepare use_keyspace : SessionError
  execution : DbError → SessionError
  jwt_decode : String → SessionError
  token_generation : SessionError
  invalid_token : SessionError

-- `generate_session_token`; the 32 random bytes, or the failure of the generator, are the argument
unfoldable pub generate_session_token :
    Primitives → Option Bytes → Result SessionError (String × Bytes)
generate_session_token p filled = do
  raw ← ok_or token_generation filled
  ok (p.b64_encode raw, p.sha256 raw)

-- `hash_session_token`
unfoldable pub hash_session_token : Primitives → String → Result SessionError Bytes
hash_session_token p token = do raw ← ok_or invalid_token (p.b64_decode token); ok (p.sha256 raw)

-- What serde_json, base64ct, uuid, chrono and tonic say besides: the member `sub` of a JSON text if it is a
-- text, the texts of the errors, and the time of a second and a nanosecond if there is one.
pub record Formats : Type 0 where
  pub value_sub : Bytes → Result String (Option String)
  pub base64_error : String → String
  pub uuid_error : String → String
  pub from_timestamp : ℕ → ℕ → Option Timestamp
  -- whether a text is accepted as a value of the metadata
  pub is_metadata : String → Bool

-- `.nth(1)`
abbrev pub second : List String → Option String
second [] = none
second (a ∷ []) = none
second (a ∷ b ∷ rest) = some b

abbrev pub json_sub : Result String (Option String) → Result SessionError String
json_sub (ok (some sub)) = ok sub
json_sub (ok none) = err (jwt_decode "missing sub claim")
json_sub (err e) = err (jwt_decode ("json parse: " ⧺ e))

-- `decode_sub_from_jwt`
unfoldable pub decode_sub_from_jwt : Primitives → Formats → String → Result SessionError Uuid
decode_sub_from_jwt p f token = do
  payload ← ok_or (jwt_decode "missing payload segment") (second (split b'.' token))
  bytes ← ok_or (jwt_decode ("base64 decode: " ⧺ f.base64_error payload)) (p.b64_decode payload)
  sub ← json_sub (f.value_sub bytes)
  ok_or (jwt_decode ("sub is not a UUID: " ⧺ f.uuid_error sub)) (p.uuid_of_string sub)
