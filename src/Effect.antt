-- ===== src/Effect.antt =====
-- Handlers that talk to the database: state passing with an error result, over the environment
-- that decides what the network, the clock and the random generators do.
-- services/identity/src/db.rs and the `pool.get()`, `client.transaction()` and `tx.commit()` calls
-- of services/identity/src/services/*.rs.
pub mod Rules
pub mod Calls
pub mod Ensures
use home_ryanseipp.Prelude.{
  ℕ, ◌+◌, String, Bool, Option, none, some, List, Result, ok, err, map_err, if◌then◌else◌,
}

abbrev pub Uuid : Type 0
Uuid = ℕ

abbrev pub Bytes : Type 0
Bytes = List ℕ

-- Microseconds since the Unix epoch, as the database stores them.
abbrev pub Timestamp : Type 0
Timestamp = ℕ

-- What the outside decides. Every call gets a number, and the answer is a function of it, so that
-- any sequence of failures, clock readings and random values is some environment.
pub record Env : Type 0 where
  -- the call to the database or the pool with this number fails
  pub fails : ℕ → Bool
  -- the clock, read by this call
  pub now : ℕ → Timestamp
  -- `Uuid::now_v7`, `Uuid::new_v4`
  pub uuid : ℕ → Uuid
  -- `rand::fill` on 32 bytes; a shorter buffer gets the first of them
  pub rand : ℕ → Option Bytes
  -- the trace and span ids of the current span, if it is valid
  pub span : ℕ → Option (String × String)

pub data DbError : Type 0 where
  -- the statement did not reach the server, or its answer was lost
  connection : DbError
  -- a unique index or a foreign key, by its name
  constraint : String → DbError
  -- `expect("valid user status in database")`
  panic : DbError

-- `D` is the content of the database.
pub record World (D : Type 0) : Type 0 where
  pub db : D
  pub calls : ℕ

abbrev pub Act : Type 0 → Type 0 → Type 0 → Type 0
Act D E A = World D → Result E A × World D

module _ {D E A : Type 0} where
  abbrev pub pure : A → Act D E A
  pure a w = (ok a, w)

  abbrev pub fail : E → Act D E A
  fail e w = (err e, w)

  -- `r?` for a result that needs no database.
  abbrev pub lift : Result E A → Act D E A
  lift r w = (r, w)

  -- A value that the environment gives.
  unfoldable pub ask : (ℕ → A) → Act D E A
  ask f w = (ok (f w.calls), record w { calls = w.calls + 1 })

module _ {D E A B : Type 0} where
  abbrev pub resume : Result E A × World D → (A → Act D E B) → Result E B × World D
  resume (ok a, w) f = f a w
  resume (err e, w) f = (err e, w)

  infixl 10 ◌>>=◌ ◌>>◌
  unfoldable pub ◌>>=◌ : Act D E A → (A → Act D E B) → Act D E B
  ◌>>=◌ m f w = resume (m w) f

  abbrev pub ◌>>◌ : Act D E A → Act D E B → Act D E B
  m >> n = m >>= λ _. n

-- `.map_err(f)` on a call.
unfoldable pub map_error : {D E F A : Type 0} → (E → F) → Act D E A → Act D F A
map_error f m w = (map_err f (m w).0, (m w).1)

-- What a statement that reached the server leaves.
abbrev settle : {D A : Type 0} → World D → Result DbError (A × D) → Result DbError A × World D
settle w (ok (a, d)) = (ok a, record w { db = d })
settle w (err e) = (err e, w)

module _ {D : Type 0} (env : Env) where
  -- `pool.get()`.
  unfoldable pub pool_get : {E : Type 0} → E → Act D E (Unit {0})
  pool_get e w =
      let w' = record w { calls = w.calls + 1 } in
      if env.fails w.calls then (err e, w') else (ok tt, w')

  -- One SQL statement, which reads the clock for `NOW()`.
  unfoldable pub statement :
      {A : Type 0} → (Timestamp → D → Result DbError (A × D)) → Act D DbError A
  statement f w =
      let w' = record w { calls = w.calls + 1 } in
      if env.fails w.calls then (err connection, w') else settle w' (f (env.now w.calls) w.db)

  -- A statement that only reads.
  unfoldable pub query : {A : Type 0} → (Timestamp → D → A) → Act D DbError A
  query f w =
      let w' = record w { calls = w.calls + 1 } in
      if env.fails w.calls then (err connection, w') else (ok (f (env.now w.calls) w.db), w')

  -- The end of a transaction that began on the content `d`: a commit after success, a rollback
  -- after an error, and a rollback too if the commit itself fails.
  abbrev finish : {E A : Type 0} → (DbError → E) → D → Result E A × World D → Result E A × World D
  finish f d (ok a, w) =
      let w' = record w { calls = w.calls + 1 } in
      if env.fails w.calls then (err (f connection), record w' { db = d }) else (ok a, w')
  finish f d (err e, w) = (err e, record w { db = d })

  -- `client.transaction()`, the statements, `tx.commit()`.
  unfoldable pub transaction : {E A : Type 0} → (DbError → E) → Act D E A → Act D E A
  transaction f body w =
      let w' = record w { calls = w.calls + 1 } in
      if env.fails w.calls then (err (f connection), w') else finish f w.db (body w')
