-- ===== src/Identity/Grpc/Serving/Lookups.antt =====
-- The lookups of users in services/mod.rs, whose `expect` panics on a status that it does not know.
use home_ryanseipp.Prelude.{
  String, Option, none, some, ◌≡◌, ◌≢◌, refl, find, find-All, err, Bool-cases, inl, inr,
}
use home_ryanseipp.Effect.{Env, Uuid, panic, World, ◌>>=◌, query}
use home_ryanseipp.Identity.Accounts.{UserRow, Db}
use home_ryanseipp.Identity.Tables.{has_id, has_email, select_user_by_id, select_user_by_email}
use home_ryanseipp.Identity.Tables.Consistency.{IsConsistent, IsReadable}
use home_ryanseipp.Identity.Service.{user_from_row, expect_user, get_user_by_id, get_user_by_email}
use home_ryanseipp.Identity.Grpc.{Service}
use home_ryanseipp.Identity.Grpc.Serving.{Reach, Reach-IsConsistent}

-- A row that can be read is not met with a panic.
expect_user-IsReadable :
    (o : Option UserRow) (w : World Db)
    → ((row : UserRow) → o ≡ some row → IsReadable row)
    → (expect_user o w).0 ≢ err panic
unfolding user_from_row
expect_user-IsReadable none w f h = cc
expect_user-IsReadable (some row) w f h =
    let (status, e) = f row refl in cc (rw (expect_user, e) at h)

-- In tables that are reached from consistent ones by calls of the service, key creations and marks of
-- the publisher, no lookup of a user by its id or its address ends in a panic.
pub lookups-never_panic :
    (s : Service) (env : Env) (start : Db) (w : World Db) (id : Uuid) (email : String)
    → IsConsistent s.externals.lower start
    → Reach s start w.db
    → ((get_user_by_id env id w).0 ≢ err panic)
      × ((get_user_by_email env s.externals email w).0 ≢ err panic)
unfolding get_user_by_id get_user_by_email ◌>>=◌ query select_user_by_id select_user_by_email
lookups-never_panic s env start w id email c r =
    let readable = (Reach-IsConsistent s c r).readable in
    elim (Bool-cases (env.fails w.calls)) [
      | inl q ↦ rw q ((λ h. cc), (λ h. cc))
      | inr q ↦ rw q (
        expect_user-IsReadable (find (has_id id) w.db.users) _
            (λ row e. (find-All IsReadable _ w.db.users row readable e).0),
        expect_user-IsReadable
            (find (has_email s.externals.lower (s.externals.lower email)) w.db.users) _
            (λ row e. (find-All IsReadable _ w.db.users row readable e).0),
      )
    ]
