-- ===== src/Identity/VerifyEmail/SingleUse.antt =====
-- Repeated use of a verification token (services/verify_email.rs).
use mathlib.Core.Path.{subst}
use home_ryanseipp.Prelude.{
  ◌≤◌, String, List, [], ◌∷◌, ◌++◌, modify, false, arith, none, some, ◌≡◌, ◌≢◌, refl, true, ap, ◌∙◌,
  find, count_p, ok,
}
use home_ryanseipp.Effect.{Env, Uuid, Bytes, Timestamp, World}
use home_ryanseipp.Crypto.Primitives.{Primitives}
use home_ryanseipp.Identity.Accounts.{UserRow, TokenRow, Db}
use home_ryanseipp.Identity.Tables.{is_unconsumed, is_open, consumed, bytes_eq, has_id, verified}
use home_ryanseipp.Identity.Tables.Updates.{find-consumed, find_of_count, find-verified}
use home_ryanseipp.Identity.VerifyEmail.{execute}
use home_ryanseipp.Identity.VerifyEmail.Activation.{IsVerified, execute-IsVerified}

-- What idx_verification_tokens_hash keeps: one open token at most under each hash.
abbrev pub HasUniqueHashes : Db → Type 0
HasUniqueHashes db = (hash : Bytes) → count_p (is_unconsumed hash) db.tokens ≤ 1

-- After a verification no open token has its hash.
IsVerified-closed :
    (hash : Bytes) (before after : Db)
    → HasUniqueHashes before
    → IsVerified hash before after
    → find (is_unconsumed hash) after.tokens ≡ none
IsVerified-closed hash before after unique v =
    ap (find (is_unconsumed hash)) v.tokens
    ∙ find-consumed hash v.token.id v.consumed_at v.token before.tokens (unique hash) v.found refl

not-IsVerified :
    (hash : Bytes) (before after : Db)
    → find (is_unconsumed hash) before.tokens ≡ none
    → ¬ IsVerified hash before after
not-IsVerified hash before after closed v = cc (closed, v.found)

-- What the tokens can become after `before`, as long as no other token with the hash is added: rows
-- are consumed and rows of other hashes are added, in any order.
pub data Later (hash : Bytes) (before : List TokenRow) : List TokenRow → Type 0 where
  same : Later hash before before
  consumes :
      {ts : List TokenRow} (id : Uuid) (now : Timestamp)
      → Later hash before ts
      → Later hash before (modify (is_open id) (consumed now) ts)
  adds :
      {ts : List TokenRow} (t : TokenRow)
      → Later hash before ts
      → bytes_eq t.token_hash hash ≡ false
      → Later hash before (ts ++ t ∷ [])

find-consume :
    (hash : Bytes) (id : Uuid) (now : Timestamp) (ts : List TokenRow)
    → find (is_unconsumed hash) ts ≡ none
    → find (is_unconsumed hash) (modify (is_open id) (consumed now) ts) ≡ none
find-consume hash id now [] h = refl
find-consume hash id now (t ∷ ts) h = ground (arith, find-consume hash id now ts)

find-add :
    (hash : Bytes) (t : TokenRow) (ts : List TokenRow)
    → bytes_eq t.token_hash hash ≡ false
    → find (is_unconsumed hash) ts ≡ none
    → find (is_unconsumed hash) (ts ++ t ∷ []) ≡ none
find-add hash t [] other h = ground (arith, other)
find-add hash t (u ∷ ts) other h = ground (arith, find-add hash t ts other)

Later-closed :
    {hash : Bytes} {before after : List TokenRow}
    → find (is_unconsumed hash) before ≡ none
    → Later hash before after
    → find (is_unconsumed hash) after ≡ none
Later-closed {hash} h same = h
Later-closed {hash} h (consumes {ts} id now l) = find-consume hash id now ts (Later-closed h l)
Later-closed {hash} h (adds {ts} t l other) = find-add hash t ts other (Later-closed h l)

-- Where open tokens have different hashes, a token that was used for a verification is not
-- accepted a second time in any later state, whatever the clock and the network do then, if no
-- other token with the same hash was added in between.
pub execute_once :
    (env env' : Env) (p : Primitives) (raw_token : String) (bytes : Bytes) (w w' : World Db)
    → p.b64_decode raw_token ≡ some bytes
    → HasUniqueHashes w.db
    → (execute env p raw_token w).0 ≡ ok tt
    → Later (p.sha256 bytes) (execute env p raw_token w).1.db.tokens w'.db.tokens
    → (execute env' p raw_token w').0 ≢ ok tt
execute_once env env' p raw_token bytes w w' decoded unique first between second =
    let (bytes1, decoded1, v1) = execute-IsVerified env p raw_token w first in
    let (bytes2, decoded2, v2) = execute-IsVerified env' p raw_token w' second in
    let same1 : bytes1 ≡ bytes = cc (decoded, decoded1) in
    let same2 : bytes2 ≡ bytes = cc (decoded, decoded2) in
    let used =
      subst (λ b. IsVerified (p.sha256 b) w.db (execute env p raw_token w).1.db) same1 v1 in
    not-IsVerified (p.sha256 bytes) w'.db _
      (Later-closed (IsVerified-closed (p.sha256 bytes) _ _ unique used) between)
      (subst (λ b. IsVerified (p.sha256 b) w'.db (execute env' p raw_token w').1.db) same2 v2)

-- After a verification the live account that owns the open token under the hash of the text is
-- verified and active, with the same address. The account may have been suspended or locked: the
-- status that it had does not matter.
pub execute-activates :
    (env : Env) (p : Primitives) (raw_token : String) (w : World Db)
    → (execute env p raw_token w).0 ≡ ok tt
    → (bytes : Bytes) × (t : TokenRow) × (u : UserRow) × (v : UserRow) × (p.b64_decode raw_token
        ≡ some bytes)
      × (find (is_unconsumed (p.sha256 bytes)) w.db.tokens ≡ some t)
      × (find (has_id t.user_id) w.db.users ≡ some u)
      × (find (has_id t.user_id) (execute env p raw_token w).1.db.users ≡ some v)
      × (v.status ≡ "active")
      × (v.email_verified ≡ true)
      × (v.email ≡ u.email)
execute-activates env p raw_token w h =
    let (bytes, decoded, v) = execute-IsVerified env p raw_token w h in
    let (u, found) = find_of_count v.token.user_id w.db.users v.owner in
    (
      bytes,
      v.token,
      u,
      verified "active" v.updated_at u,
      decoded,
      v.found,
      found,
      ap (find (has_id v.token.user_id)) v.users
          ∙ find-verified v.token.user_id "active" v.updated_at w.db.users u found,
      refl,
      refl,
      refl,
    )
