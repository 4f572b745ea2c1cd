-- ===== src/Gateway/Sessions/Store.antt =====
-- The calls of the session store of services/gateway/src/session.rs, one after the other, and what
-- they do to the map of the sessions.
use home_ryanseipp.Prelude.{
  ℕ, ◌+◌, ◌*◌, ◌/◌, true, none, some, ◌⊎◌, Option-cases, arith, String, Option, ◌≡◌, refl, sym, inl,
  inr, Result, ok, err, Bool-cases,
}
use mathlib.Core.Path.{subst}
use home_ryanseipp.Effect.{
  Env, Uuid, Bytes, Timestamp, World, Act, pure, ask, ◌>>=◌, ◌>>◌, map_error, statement, query,
}
use home_ryanseipp.Crypto.Primitives.{Primitives}
use home_ryanseipp.Gateway.Tokens.{SessionError, generate_session_token}
use home_ryanseipp.Gateway.Sessions.{Session, Sessions, create_session, get_session, delete_session}
use home_ryanseipp.Gateway.Sessions.Refinement.{
  Map, put, remove, live, Represents, delete-Represents, insert-Represents,
}

pub data Command : Type 0 where
  create : Uuid → (access_token id_token refresh_token : String) → Timestamp → Command
  get delete : Bytes → Command

pub data Answer : Type 0 where
  created : String → Answer
  got : Option Session → Answer
  deleted : Answer

module _ (env : Env) (p : Primitives) where
  -- The call of the store for a command.
  abbrev pub perform : Command → Act Sessions SessionError Answer
  perform (create user_id access_token id_token refresh_token expires_at) = do
    token ← create_session env p user_id access_token id_token refresh_token expires_at
    pure (created token)
  perform (get hash) = do found ← get_session env p hash; pure (got found)
  perform (delete hash) = do delete_session env p hash; pure deleted

  -- A call of a command that begins at this number of calls fails: the random generator, or the
  -- statement.
  abbrev pub Fails : ℕ → Command → Type 0
  Fails n (create user_id access_token id_token refresh_token expires_at) =
      (env.rand n ≡ none) ⊎ (env.fails (n + 2) ≡ true)
  Fails n (get hash) = env.fails n ≡ true
  Fails n (delete hash) = env.fails n ≡ true

  -- The session that a creation puts in the map.
  pub record IsFor (n : ℕ) (raw : Bytes) (user_id : Uuid)
      (access_token id_token refresh_token : String) (expires_at : Timestamp) (s : Session)
      : Type 0 where
    pub hash_of : s.token_hash ≡ p.sha256 raw
    pub user_of : s.user_id ≡ user_id
    pub access_of : s.access_token ≡ access_token
    pub id_of : s.id_token ≡ id_token
    pub refresh_of : s.refresh_token ≡ refresh_token
    pub expires_of : s.expires_at ≡ expires_at / 1_000 * 1_000
    pub created_of : s.created_at ≡ env.now (n + 1) / 1_000 * 1_000

  -- What a client sees of a command that begins at this number of calls: its answer and the map after
  -- it. The times are the readings of the clock by the statement.
  pub data Allowed (n : ℕ) (m : Map) : Command → Result SessionError Answer → Map → Type 0 where
    refused : (c : Command) (e : SessionError) → Fails n c → Allowed n m c (err e) m
    stored :
        (user_id : Uuid) (access_token id_token refresh_token : String) (expires_at : Timestamp)
        (raw : Bytes) (s : Session)
        → env.rand n ≡ some raw
        → IsFor n raw user_id access_token id_token refresh_token expires_at s
        → Allowed n m
            (create user_id access_token id_token refresh_token expires_at)
            (ok (created (p.b64_encode raw)))
            (put (env.now (n + 2)) s m)
    shown : (hash : Bytes) → Allowed n m (get hash) (ok (got (live (env.now n) (m hash)))) m
    removed : (hash : Bytes) → Allowed n m (delete hash) (ok deleted) (remove hash m)

  abbrev Simulates :
      World Sessions → Map → Command → Result SessionError Answer × World Sessions → Type 0
  Simulates w m c r = (m' : Map) × Allowed w.calls m c r.0 m' × Represents r.1.db m'

  get-Simulates :
      (w : World Sessions) (m : Map) (hash : Bytes)
      → Represents w.db m
      → Simulates w m (get hash) (perform (get hash) w)
  unfolding get_session query map_error ◌>>=◌
  get-Simulates w m hash r = elim (Bool-cases (env.fails w.calls)) [
    | inl q ↦ rw q (m, refused (get hash) _ q, r)
    | inr q ↦ rw q (
      m,
      subst (λ found. Allowed w.calls m (get hash) (ok (got found)) m)
          (sym (r.shows (env.now w.calls) hash)) (shown hash),
      r,
    )
  ]

  delete-Simulates :
      (w : World Sessions) (m : Map) (hash : Bytes)
      → Represents w.db m
      → Simulates w m (delete hash) (perform (delete hash) w)
  unfolding delete_session statement map_error ◌>>=◌
  delete-Simulates w m hash r = elim (Bool-cases (env.fails w.calls)) [
    | inl q ↦ rw q (m, refused (delete hash) _ q, r)
    | inr q ↦ rw q (remove hash m, removed hash, delete-Represents hash w.db m r)
  ]

  module _ (w : World Sessions) (m : Map) (user_id : Uuid)
      (access_token id_token refresh_token : String) (expires_at : Timestamp) where
    abbrev command : Command
    command = create user_id access_token id_token refresh_token expires_at

    create-Simulates : Represents w.db m → Simulates w m command (perform command w)
    unfolding create_session generate_session_token ask statement map_error ◌>>=◌
    create-Simulates h = elim (Option-cases (env.rand w.calls)) [
      | inl empty ↦ rw empty (m, refused command _ (inl empty), h)
      | inr (raw, filled) ↦ elim (Bool-cases (env.fails (w.calls + 2))) [
        | inl q ↦ rw (filled, two, q) (m, refused command _ (inr q), h)
        | inr q ↦
            let s : Session = record {
              token_hash = p.sha256 raw;
              user_id = user_id;
              access_token = access_token;
              id_token = id_token;
              refresh_token = refresh_token;
              expires_at = expires_at / 1_000 * 1_000;
              created_at = env.now (w.calls + 1) / 1_000 * 1_000;
            } in
            rw (filled, two, q)
              (
                put (env.now (w.calls + 2)) s m,
                stored user_id access_token id_token refresh_token expires_at raw s filled (record {
                  hash_of = refl;
                  user_of = refl;
                  access_of = refl;
                  id_of = refl;
                  refresh_of = refl;
                  expires_of = refl;
                  created_of = refl;
                }),
                insert-Represents (env.now (w.calls + 2)) s w.db m h,
              )
      ]
    ]
      where
        two : w.calls + 1 + 1 ≡ w.calls + 2
        two = omega arith

  -- Any call of the store is a step of the map: if the table shows the map before the call, then
  -- after it the table shows the map that the step gives, with the answer of the step. A creation
  -- gives the token of the random bytes that it drew and puts the session under the hash of the
  -- token, at the time of the insert; a lookup shows what the map holds if that was put there less
  -- than seven days before the lookup's reading of the clock; a deletion takes the session away. A
  -- call fails only if the generator gives no bytes or the statement fails, and then the map stays.
  pub perform-refines :
      (c : Command) (w : World Sessions) (m : Map)
      → Represents w.db m
      → (m' : Map) × Allowed w.calls m c (perform c w).0 m' × Represents (perform c w).1.db m'
  perform-refines (create user_id access_token id_token refresh_token expires_at) w m h =
      create-Simulates w m user_id access_token id_token refresh_token expires_at h
  perform-refines (get hash) w m h = get-Simulates w m hash h
  perform-refines (delete hash) w m h = delete-Simulates w m hash h
