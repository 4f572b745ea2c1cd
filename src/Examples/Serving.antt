-- ===== src/Examples/Serving.antt =====
-- A run of the gRPC service (services/mod.rs) on an empty database.
use home_ryanseipp.Prelude.{some, refl, arith, err, ◌≢◌}
use home_ryanseipp.Effect.{panic}
use home_ryanseipp.Identity.Accounts.{Db}
use home_ryanseipp.Identity.Service.{get_user_by_id, get_user_by_email}
use home_ryanseipp.Identity.Grpc.Serving.Lookups.{lookups-never_panic}
use home_ryanseipp.Identity.Tables.Consistency.{IsConsistent}
use home_ryanseipp.Identity.Grpc.{Service}
use home_ryanseipp.Identity.Grpc.Serving.{
  Call, sign_up_request, after, here, next, answered, Reach-IsConsistent,
}
use home_ryanseipp.Examples.Toys.{toy_primitives, toy_env, toy_externals, empty_db}
use home_ryanseipp.Examples.Sessions.{ones}

abbrev toy_service : Service
toy_service = record {
  primitives = toy_primitives;
  externals = toy_externals;
  web_base_url = "https://h";
  kek = ones 32;
}

empty-IsConsistent : IsConsistent toy_externals.lower empty_db
empty-IsConsistent = record {
  ids = λ id. omega arith;
  usernames = λ key. omega arith;
  emails = λ key. omega arith;
  hashes = λ hash. omega arith;
  refresh_hashes = λ hash. omega arith;
  owners = tt;
  refresh_owners = tt;
  readable = tt;
}

abbrev registration : Call
registration = sign_up_request "anna" "a@b.org" "Anna" "B" (some "12345678")

abbrev registered : Db
registered = after toy_service toy_env registration (record { db = empty_db; calls = 0 })

abbrev registered_twice : Db
registered_twice = after toy_service toy_env registration (record { db = registered; calls = 50 })

Reach-IsConsistent_example : IsConsistent toy_externals.lower registered_twice
Reach-IsConsistent_example = Reach-IsConsistent toy_service empty-IsConsistent (
    next (next here (answered toy_env registration 0 refl)) (answered toy_env registration 50 refl))

lookups-never_panic_example :
    ((get_user_by_id toy_env 1 (record { db = registered; calls = 50 })).0 ≢ err panic)
    × ((get_user_by_email toy_env toy_externals "a@b.org"
          (record { db = registered; calls = 50 })).0
        ≢ err panic)
lookups-never_panic_example =
    lookups-never_panic toy_service toy_env empty_db (record { db = registered; calls = 50 }) 1
      "a@b.org" empty-IsConsistent (next here (answered toy_env registration 0 refl))
