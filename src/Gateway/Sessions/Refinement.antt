-- ===== src/Gateway/Sessions/Refinement.antt =====
-- The table of sessions of services/gateway/src/session.rs as a map from hashes to sessions.
use home_ryanseipp.Prelude.{
  ◌+◌, ◌*◌, String, true, false, Option, none, some, ◌≡◌, refl, sym, ap, ◌∙◌, inl, inr, ok,
  ok-injective, ltb, if◌then◌else◌, find-select, find-select-none, Bool-cases, arith,
}
use home_ryanseipp.Effect.{
  Env, Uuid, Bytes, Timestamp, pure, ask, ◌>>=◌, ◌>>◌, map_error, statement,
}
use home_ryanseipp.Effect.Rules.{Reads-ask}
use home_ryanseipp.Effect.Ensures.{Ensures, Ensures-bind, Ensures-bind-lift}
use home_ryanseipp.Crypto.Primitives.{Primitives}
use home_ryanseipp.Identity.Tables.{bytes_eq}
use home_ryanseipp.Identity.Tables.Consistency.{bytes_eq-eq, bytes_eq_refl}
use home_ryanseipp.Gateway.Tokens.{execution, generate_session_token}
use home_ryanseipp.Gateway.Sessions.{
  Session, SessionRow, Sessions, has_hash, session_of, insert_session_row, select_session,
  delete_session_row, create_session,
}

-- What the sessions are to a client: for each hash at most one session, and when it was put there.
abbrev pub Map : Type 0
Map = Bytes → Option (Session × Timestamp)

abbrev pub put : Timestamp → Session → Map → Map
put written_at s m hash = if bytes_eq s.token_hash hash then some (s, written_at) else m hash

abbrev pub remove : Bytes → Map → Map
remove removed m hash = if bytes_eq removed hash then none else m hash

-- seven days, in microseconds
abbrev pub seven_days : Timestamp
seven_days = 7 * 24 * 60 * 60 * 1_000_000

abbrev pub live : Timestamp → Option (Session × Timestamp) → Option Session
live now none = none
live now (some (s, written_at)) = if ltb now (written_at + seven_days) then some s else none

-- At any time, the table shows what the map holds and is not too old.
pub record Represents (table : Sessions) (m : Map) : Type 0 where
  pub shows : (now : Timestamp) (hash : Bytes) → select_session now hash table ≡ live now (m hash)

-- A row has one hash.
one_hash :
    (a b : Bytes) (row : SessionRow)
    → bytes_eq a b ≡ false
    → has_hash b row ≡ true
    → has_hash a row ≡ false
one_hash a b row h k = elim (Bool-cases (has_hash a row)) [
  | inl e ↦ cc (
    bytes_eq-eq row.session.token_hash a e,
    bytes_eq-eq row.session.token_hash b k,
    bytes_eq_refl b,
  )
  | inr e ↦ e
]

-- A search by hash after the rows of a hash are gone.
pub select_session-delete :
    (now : Timestamp) (removed hash : Bytes) (table : Sessions)
    → select_session now hash (delete_session_row removed table)
      ≡ (if bytes_eq removed hash then none else select_session now hash table)
unfolding select_session delete_session_row
select_session-delete now removed hash table = elim (Bool-cases (bytes_eq removed hash)) [
  | inl e ↦ rw e (
      ap session_of
        (find-select-none _ _ table (λ row h. rw (bytes_eq-eq removed hash e) (ground arith))))
  | inr e ↦ rw e (
      ap session_of
        (find-select _ _ table (λ row h. rw (one_hash removed hash row e (ground arith)))))
]

pub delete-Represents :
    (hash : Bytes) (table : Sessions) (m : Map)
    → Represents table m
    → Represents (delete_session_row hash table) (remove hash m)
delete-Represents removed table m r = record {
  shows =
      λ now hash. select_session-delete now removed hash table ∙ ground (arith, r.shows now hash);
}

pub insert-Represents :
    (now : Timestamp) (s : Session) (table : Sessions) (m : Map)
    → Represents table m
    → Represents (insert_session_row now s table) (put now s m)
unfolding insert_session_row select_session delete_session_row
insert-Represents written_at s table m r = record {
  shows = λ now hash.
      let rest = select_session-delete now s.token_hash hash table in
      let before = r.shows now hash in ground (arith, rest, before);
}

-- What `create_session` has put in the table when it returns the token.
pub record IsCreated (p : Primitives) (user_id : Uuid)
    (access_token id_token refresh_token : String) (before after : Sessions) (token : String)
    : Type 0 where
  pub raw : Bytes
  pub session : Session
  pub now : Timestamp
  pub token_of : token ≡ p.b64_encode raw
  pub hash_of : session.token_hash ≡ p.sha256 raw
  pub user_of : session.user_id ≡ user_id
  pub access_of : session.access_token ≡ access_token
  pub id_of : session.id_token ≡ id_token
  pub refresh_of : session.refresh_token ≡ refresh_token
  pub written : after ≡ insert_session_row now session before

module _ (env : Env) (p : Primitives) (user_id : Uuid)
    (access_token id_token refresh_token : String) where
  abbrev Created : Sessions → Sessions → String → Type 0
  Created = IsCreated p user_id access_token id_token refresh_token

  -- the insert of a row and the token
  insert-IsCreated :
      (raw : Bytes) (generated : String × Bytes) (s : Session)
      → generated ≡ (p.b64_encode raw, p.sha256 raw)
      → s.token_hash ≡ generated.1
      → s.user_id ≡ user_id
      → s.access_token ≡ access_token
      → s.id_token ≡ id_token
      → s.refresh_token ≡ refresh_token
      → Ensures Created (
          map_error execution (statement env (λ now table. ok (tt, insert_session_row now s table)))
          >> pure generated.0)
  unfolding ◌>>=◌ statement map_error
  insert-IsCreated raw generated s made hash user access id refresh = record {
    after = λ w token h. elim (Bool-cases (env.fails w.calls)) [
      | inl q ↦ cc (rw q at h)
      | inr q ↦ rw q (record {
        raw = raw;
        session = s;
        now = env.now w.calls;
        token_of = sym (ok-injective (rw q at h)) ∙ ap (λ (g : String × Bytes). g.0) made;
        hash_of = hash ∙ ap (λ (g : String × Bytes). g.1) made;
        user_of = user;
        access_of = access;
        id_of = id;
        refresh_of = refresh;
        written = refl;
      })
    ];
  }

  pub create_session-IsCreated :
      (expires_at : Timestamp)
      → Ensures Created
          (create_session env p user_id access_token id_token refresh_token expires_at)
  unfolding create_session generate_session_token
  create_session-IsCreated expires_at =
      Ensures-bind Created (ask env.rand) _ (Reads-ask env.rand) (elim [
        | none ↦ Ensures-bind-lift Created _ _ (λ g h. cc)
        | some raw ↦ Ensures-bind-lift Created _ _ (λ g h.
            Ensures-bind Created (ask env.now) _ (Reads-ask env.now) (λ created_at.
              insert-IsCreated raw g _ (sym (ok-injective h)) refl refl refl refl refl))
      ])
