-- ===== src/Identity/Service/Passwords.antt =====
-- The blocking password calls and the lookups of services/mod.rs, when they succeed.
use home_ryanseipp.Prelude.{
  ℕ, String, Option, none, some, ◌≡◌, refl, sym, ap, ◌∙◌, Result, ok, err, arith, ok-injective,
  map_err-eq-ok,
}
use home_ryanseipp.Effect.{Env, Uuid, World, DbError, Act, ask, query, ◌>>=◌}
use home_ryanseipp.Effect.Ensures.{Ensures, Ensures-bind-lift}
use home_ryanseipp.Effect.Rules.{bind-eq-ok}
use home_ryanseipp.Effect.Calls.{query-eq-ok}
use home_ryanseipp.Crypto.Primitives.{Primitives}
use home_ryanseipp.Crypto.Tokens.{
  PasswordError, hashing_failed, verification_failed, hash_password, verify_password,
}
use home_ryanseipp.Identity.Accounts.{User, UserRow, Db}
use home_ryanseipp.Identity.Tables.{select_user_by_id}
use home_ryanseipp.Identity.Service.{
  user_from_row, expect_user, get_user_by_id, hash_blocking, verify_blocking, spawn_blocking,
  or_fail,
}

module _ {E : Type 0} (env : Env) (p : Primitives) (wrap : PasswordError → E) where
  pub verify_blocking-eq-ok :
      (refused : E) (password hash : String) (w w' : World Db) (u : Unit {0})
      → verify_blocking env p wrap refused password hash w ≡ (ok u, w')
      → verify_password p password hash ≡ ok u
  unfolding verify_blocking
  verify_blocking-eq-ok refused password hash w w' u h =
      let r = ap (λ (r : Result E (Unit {0}) × World Db). r.0) h in
      let (_, _, _, last, _) = bind-eq-ok (spawn_blocking env (wrap verification_failed)) _ w r in
      map_err-eq-ok _ _ last

  pub hash_blocking-eq-ok :
      (password hash : String) (w w' : World Db)
      → hash_blocking env p wrap password w ≡ (ok hash, w')
      → (salt : ℕ) × (hash_password p password salt ≡ ok hash)
  unfolding hash_blocking ask
  hash_blocking-eq-ok password hash w w' h =
      let r = ap (λ (r : Result E String × World Db). r.0) h in
      let (_, w1, _, h1, _) = bind-eq-ok (spawn_blocking env (wrap hashing_failed)) _ w r in
      let (hashed, w2, e2, h2, _) = bind-eq-ok (ask (hash_password p password)) _ w1 h1 in
      let read =
        ok-injective (ap (λ (r : Result E (Result PasswordError String) × World Db). r.0) e2) in
      (w1.calls, read ∙ map_err-eq-ok _ _ h2)

pub expect_user-eq-ok :
    (o : Option UserRow) (w : World Db) (user : User)
    → (expect_user o w).0 ≡ ok (some user)
    → (row : UserRow) × (o ≡ some row) × (user_from_row row ≡ ok user)
expect_user-eq-ok none w user h = cc
expect_user-eq-ok (some row) w user h = (row, refl, ground arith)

pub get_user_by_id-eq-ok :
    (env : Env) (id : Uuid) (w w' : World Db) (user : User)
    → get_user_by_id env id w ≡ (ok (some user), w')
    → (row : UserRow) × (select_user_by_id id w.db ≡ some row) × (user_from_row row ≡ ok user)
unfolding get_user_by_id
get_user_by_id-eq-ok env id w w' user h =
    let r = ap (λ (r : Result DbError (Option User) × World Db). r.0) h in
    let (found, w1, e1, h1, _) =
      bind-eq-ok (query env (λ _ d. select_user_by_id id d)) expect_user w r in
    let (a, _, _) = query-eq-ok env _ w w1 e1 in
    let (row, some_row, read) = expect_user-eq-ok found w1 user h1 in (row, sym a ∙ some_row, read)

-- What follows `ok_or(…)?` on an option may use its value.
pub Ensures-bind-or_fail :
    {E A B : Type 0} (Q : Db → Db → B → Type 0) (e : E) (o : Option A) (f : A → Act Db E B)
    → ((a : A) → o ≡ some a → Ensures Q (f a))
    → Ensures Q (or_fail e o >>= f)
Ensures-bind-or_fail Q e none f k = Ensures-bind-lift Q (err e) f λ a h. cc
Ensures-bind-or_fail Q e (some a) f k =
    Ensures-bind-lift Q (ok a) f λ b h. k b (ap some (ok-injective h))
