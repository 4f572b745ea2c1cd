-- ===== src/Effect/Calls.antt =====
-- Rules for the calls of an environment: the pool, queries, statements and transactions.
use home_ryanseipp.Prelude.{◌+◌, ◌≡◌, refl, Result, ok, err, arith, Bool-cases, inl, inr, false, ap}
use home_ryanseipp.Effect.{
  Env, Timestamp, World, Act, DbError, pool_get, statement, query, transaction, finish, settle,
}
use home_ryanseipp.Effect.Rules.{Reads, IsAtomic, Keeps}

module _ {D : Type 0} (env : Env) where
  pub Reads-pool_get : {E : Type 0} (e : E) → Reads {D = D} (pool_get env e)
  unfolding pool_get
  Reads-pool_get e = record { same = λ w. ground arith }

  pub Reads-query : {A : Type 0} (f : Timestamp → D → A) → Reads (query env f)
  unfolding query
  Reads-query f = record { same = λ w. ground arith }

  pub query-eq-ok :
      {A : Type 0} (f : Timestamp → D → A) (w w' : World D) {a : A}
      → query env f w ≡ (ok a, w')
      → (a ≡ f (env.now w.calls) w.db)
        × (w' ≡ record w { calls = w.calls + 1 })
        × (env.fails w.calls ≡ false)
  unfolding query
  query-eq-ok f w w' h = ground arith

  settle-IsAtomic :
      {A : Type 0} (w : World D) (r : Result DbError (A × D)) (e : DbError)
      → (settle w r).0 ≡ err e
      → (settle w r).1.db ≡ w.db
  settle-IsAtomic w (ok (a, d)) e h = cc
  settle-IsAtomic w (err x) e h = refl

  pub IsAtomic-statement :
      {A : Type 0} (f : Timestamp → D → Result DbError (A × D)) → IsAtomic (statement env f)
  unfolding statement
  IsAtomic-statement f = record {
    undone = λ w e h. elim (Bool-cases (env.fails w.calls)) [
      | inl p ↦ rw p refl
      | inr p ↦ rw p (settle-IsAtomic _ (f (env.now w.calls) w.db) e (rw p at h))
    ];
  }

  settle-Keeps :
      {A : Type 0} (P : D → Type 0) (w : World D) (r : Result DbError (A × D))
      → P w.db
      → ((a : A) (d : D) → r ≡ ok (a, d) → P d)
      → P (settle w r).1.db
  settle-Keeps P w (ok (a, d)) h k = k a d refl
  settle-Keeps P w (err x) h k = h

  pub Keeps-statement :
      {A : Type 0} (P : D → Type 0) (f : Timestamp → D → Result DbError (A × D))
      → ((t : Timestamp) (d d' : D) (a : A) → P d → f t d ≡ ok (a, d') → P d')
      → Keeps P (statement env f)
  unfolding statement
  Keeps-statement P f k = record {
    kept = λ w h. elim (Bool-cases (env.fails w.calls)) [
      | inl p ↦ rw p h
      | inr p ↦ rw p (
          settle-Keeps P _ (f (env.now w.calls) w.db) h (λ a d e. k (env.now w.calls) w.db d a h e))
    ];
  }

  settle-eq-ok :
      {A : Type 0} (w w' : World D) (r : Result DbError (A × D)) {a : A}
      → settle w r ≡ (ok a, w')
      → (r ≡ ok (a, w'.db)) × (w' ≡ record w { db = w'.db })
  settle-eq-ok w w' (ok (x, d)) h = ground arith
  settle-eq-ok w w' (err x) h = cc

  pub statement-eq-ok :
      {A : Type 0} (f : Timestamp → D → Result DbError (A × D)) (w w' : World D) {a : A}
      → statement env f w ≡ (ok a, w')
      → (f (env.now w.calls) w.db ≡ ok (a, w'.db)) × (w'.calls ≡ w.calls + 1)
  unfolding statement
  statement-eq-ok f w w' h = elim (Bool-cases (env.fails w.calls)) [
    | inl p ↦ cc (rw p at h)
    | inr p ↦
        let (e, c) = settle-eq-ok _ w' (f (env.now w.calls) w.db) (rw p at h) in
        (e, ap (λ (v : World D). v.calls) c)
  ]

  finish-undone :
      {E A : Type 0} (f : DbError → E) (d : D) (r : Result E A × World D) (e : E)
      → (finish env f d r).0 ≡ err e
      → (finish env f d r).1.db ≡ d
  finish-undone f d (ok a, w) e h = ground arith
  finish-undone f d (err x, w) e h = refl

  -- Whatever its statements are, a transaction that fails changes nothing.
  pub IsAtomic-transaction :
      {E A : Type 0} (f : DbError → E) (body : Act D E A) → IsAtomic (transaction env f body)
  unfolding transaction
  IsAtomic-transaction f body = record {
    undone = λ w e h. elim (Bool-cases (env.fails w.calls)) [
      | inl p ↦ rw p refl
      | inr p ↦ rw p (finish-undone f w.db (body _) e (rw p at h))
    ];
  }

  finish-Keeps :
      {E A : Type 0} (P : D → Type 0) (f : DbError → E) (d : D) (r : Result E A × World D)
      → P d
      → P r.1.db
      → P (finish env f d r).1.db
  finish-Keeps P f d (ok a, w) h k = elim (Bool-cases (env.fails w.calls)) [
    | inl p ↦ rw p h
    | inr p ↦ rw p k
  ]
  finish-Keeps P f d (err x, w) h k = h

  pub Keeps-transaction :
      {E A : Type 0} (P : D → Type 0) (f : DbError → E) (body : Act D E A)
      → Keeps P body
      → Keeps P (transaction env f body)
  unfolding transaction
  Keeps-transaction P f body k = record {
    kept = λ w h. elim (Bool-cases (env.fails w.calls)) [
      | inl p ↦ rw p h
      | inr p ↦ rw p (finish-Keeps P f w.db (body _) h (k.kept _ h))
    ];
  }

  finish-eq-ok :
      {E A : Type 0} (f : DbError → E) (d : D) (r : Result E A × World D) (a : A)
      → (finish env f d r).0 ≡ ok a
      → (r.0 ≡ ok a) × ((finish env f d r).1.db ≡ r.1.db)
  finish-eq-ok f d (ok x, w) a h = ground arith
  finish-eq-ok f d (err x, w) a h = cc

  -- A committed transaction leaves what its statements left.
  pub transaction-eq-ok :
      {E A : Type 0} (f : DbError → E) (body : Act D E A) (w : World D) {a : A}
      → (transaction env f body w).0 ≡ ok a
      → let v = record w { calls = w.calls + 1 } in
        ((body v).0 ≡ ok a) × ((transaction env f body w).1.db ≡ (body v).1.db)
  unfolding transaction
  transaction-eq-ok f body w {a} h = elim (Bool-cases (env.fails w.calls)) [
    | inl p ↦ cc (rw p at h)
    | inr p ↦ rw p (finish-eq-ok f w.db (body _) a (rw p at h))
  ]
