-- ===== src/Identity/Tables/Inserts.antt =====
-- What an INSERT that succeeds has checked, and what it leaves.
use home_ryanseipp.Prelude.{String, true, false, [], ◌∷◌, ◌++◌, ◌≡◌, any, ok, ◌==◌, arith}
use home_ryanseipp.Identity.Accounts.{UserRow, TokenRow, RefreshRow, OutboxRow, Db}
use home_ryanseipp.Identity.Tables.{
  has_username, has_email, is_unconsumed, insert_user_row, insert_token_row, insert_refresh_row,
  insert_outbox_row,
}

pub insert_user_row-eq-ok :
    (lower : String → String) (row : UserRow) (db db' : Db) (u : Unit {0})
    → insert_user_row lower row db ≡ ok (u, db')
    → (db' ≡ record db { users = db.users ++ row ∷ [] })
      × (any (λ (u : UserRow). u.id == row.id) db.users ≡ false)
      × (any (has_username lower (lower row.username)) db.users ≡ false)
      × (any (has_email lower (lower row.email)) db.users ≡ false)
unfolding insert_user_row
insert_user_row-eq-ok lower row db db' u h = ground arith

pub insert_token_row-eq-ok :
    (row : TokenRow) (db db' : Db) (u : Unit {0})
    → insert_token_row row db ≡ ok (u, db')
    → (db' ≡ record db { tokens = db.tokens ++ row ∷ [] })
      × (any (λ (t : TokenRow). t.id == row.id) db.tokens ≡ false)
      × (any (is_unconsumed row.token_hash) db.tokens ≡ false)
      × (any (λ (u : UserRow). u.id == row.user_id) db.users ≡ true)
unfolding insert_token_row
insert_token_row-eq-ok row db db' u h = ground arith

pub insert_outbox_row-eq-ok :
    (row : OutboxRow) (db db' : Db) (u : Unit {0})
    → insert_outbox_row row db ≡ ok (u, db')
    → (db' ≡ record db { outbox = db.outbox ++ row ∷ [] })
      × (any (λ (e : OutboxRow). e.id == row.id) db.outbox ≡ false)
unfolding insert_outbox_row
insert_outbox_row-eq-ok row db db' u h = ground arith

pub insert_refresh_row-eq-ok :
    (row : RefreshRow) (db db' : Db) (u : Unit {0})
    → insert_refresh_row row db ≡ ok (u, db')
    → (db' ≡ record db { refresh_tokens = db.refresh_tokens ++ row ∷ [] })
      × (any (λ (u : UserRow). u.id == row.user_id) db.users ≡ true)
unfolding insert_refresh_row
insert_refresh_row-eq-ok row db db' u h = ground arith
