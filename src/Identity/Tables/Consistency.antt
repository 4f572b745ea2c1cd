-- ===== src/Identity/Tables/Consistency.antt =====
-- What the keys and indexes of services/identity/migrations, and the statements that write to the
-- tables, keep true of them.
pub mod Profiles
use home_ryanseipp.Prelude.{
  ℕ, ◌+◌, ◌≤◌, String, Bool, true, false, not, ◌&&◌, Option, none, some, List, [], ◌∷◌, ◌++◌, ◌≡◌,
  refl, sym, ap, ◌∙◌, any, count_p, modify, All, Result, ok, err, is_none, str_eq, ◌==◌, ==_iff,
  eq_iff, arith, Bool-cases, inl, inr, count_p-insert, any-append, count_p-modify, any-modify,
  count_p-modify-le, All-modify, All-weaken, All-append, count_p-eq-zero,
}
use home_ryanseipp.Effect.{Uuid, Bytes, Timestamp, DbError}
use home_ryanseipp.Identity.Accounts.{
  UserRow, TokenRow, RefreshRow, OutboxRow, KeyRow, Db, UserStatus, parse_status, as_str,
}
use home_ryanseipp.Identity.Tables.{
  bytes_eq, is_live, has_id, has_username, has_email, is_unconsumed,
}

-- the row has the id, whether it is live or not
abbrev pub is_row : Uuid → UserRow → Bool
is_row id u = u.id == id

-- an entry of idx_refresh_tokens_hash
abbrev pub is_unrevoked : Bytes → RefreshRow → Bool
is_unrevoked hash t = bytes_eq t.token_hash hash && is_none t.revoked_at

-- The status of the row is one of those that the service knows.
abbrev pub IsReadable : UserRow → Type 0
IsReadable u = (s : UserStatus) × (parse_status u.status ≡ ok s)

-- The rows that a table refers to are there.
abbrev pub HasOwner : List UserRow → Uuid → Type 0
HasOwner users id = any (is_row id) users ≡ true

-- The primary key of the accounts, the unique indexes on accounts and tokens and the foreign keys
-- hold, and every status can be read.
pub record IsConsistent (lower : String → String) (d : Db) : Type 0 where
  pub ids : (id : Uuid) → count_p (is_row id) d.users ≤ 1
  pub usernames : (key : String) → count_p (has_username lower key) d.users ≤ 1
  pub emails : (key : String) → count_p (has_email lower key) d.users ≤ 1
  pub hashes : (hash : Bytes) → count_p (is_unconsumed hash) d.tokens ≤ 1
  pub refresh_hashes : (hash : Bytes) → count_p (is_unrevoked hash) d.refresh_tokens ≤ 1
  pub owners : All (λ (t : TokenRow). HasOwner d.users t.user_id) d.tokens
  pub refresh_owners : All (λ (t : RefreshRow). HasOwner d.users t.user_id) d.refresh_tokens
  pub readable : All IsReadable d.users

pub bytes_eq-eq : (a b : Bytes) → bytes_eq a b ≡ true → a ≡ b
bytes_eq-eq [] [] h = refl
bytes_eq-eq [] (b ∷ bs) h = cc
bytes_eq-eq (a ∷ as') [] h = cc
bytes_eq-eq (a ∷ as') (b ∷ bs) h = ground (arith, ==_iff a b, bytes_eq-eq as' bs)

pub bytes_eq_refl : (a : Bytes) → bytes_eq a a ≡ true
bytes_eq_refl [] = refl
bytes_eq_refl (a ∷ as') = ground (arith, bytes_eq_refl as')

-- A live row is in an index under its own text.
key_of : (u : UserRow) (text key : String) → is_live u && str_eq text key ≡ true → text ≡ key
key_of u text key h = ground (arith, eq_iff text key)

module _ (lower : String → String) where
  -- Users change so that no unique index sees more rows than before, and no row disappears.
  users_kept :
      (d : Db) (users : List UserRow)
      → IsConsistent lower d
      → ((id : Uuid) → count_p (is_row id) users ≤ 1)
      → ((key : String) → count_p (has_username lower key) users ≤ 1)
      → ((key : String) → count_p (has_email lower key) users ≤ 1)
      → ((id : Uuid) → HasOwner d.users id → HasOwner users id)
      → All IsReadable users
      → IsConsistent lower (record d { users = users })
  users_kept d users c ids usernames emails owned readable = record {
    ids = ids;
    usernames = usernames;
    emails = emails;
    hashes = c.hashes;
    refresh_hashes = c.refresh_hashes;
    owners = All-weaken _ d.tokens (λ t. owned t.user_id) c.owners;
    refresh_owners = All-weaken _ d.refresh_tokens (λ t. owned t.user_id) c.refresh_owners;
    readable = readable;
  }

  -- An UPDATE that leaves the ids, the names, the addresses and the deletion times alone.
  pub modify_users-IsConsistent :
      (p : UserRow → Bool) (f : UserRow → UserRow) (d : Db)
      → ((u : UserRow) → (f u).id ≡ u.id)
      → ((u : UserRow) → (f u).username ≡ u.username)
      → ((u : UserRow) → (f u).email ≡ u.email)
      → ((u : UserRow) → (f u).deleted_at ≡ u.deleted_at)
      → ((u : UserRow) → IsReadable u → IsReadable (f u))
      → IsConsistent lower d
      → IsConsistent lower (record d { users = modify p f d.users })
  modify_users-IsConsistent p f d id name email deleted read c =
      users_kept d (modify p f d.users) c
        (λ k. rw (count_p-modify p (is_row k) f d.users (λ u. rw (id u))) (c.ids k))
        (λ k.
          rw (count_p-modify p (has_username lower k) f d.users (λ u. rw (name u, deleted u)))
            (c.usernames k))
        (λ k.
          rw (count_p-modify p (has_email lower k) f d.users (λ u. rw (email u, deleted u)))
            (c.emails k))
        (λ k h. any-modify p (is_row k) f d.users (λ u. rw (id u)) ∙ h)
        (All-modify IsReadable p f d.users read c.readable)

  pub insert_user-IsConsistent :
      (row : UserRow) (d : Db)
      → any (is_row row.id) d.users ≡ false
      → any (has_username lower (lower row.username)) d.users ≡ false
      → any (has_email lower (lower row.email)) d.users ≡ false
      → IsReadable row
      → IsConsistent lower d
      → IsConsistent lower (record d { users = d.users ++ row ∷ [] })
  insert_user-IsConsistent row d new_id new_name new_email read c =
      users_kept d (d.users ++ row ∷ []) c
        (λ k. count_p-insert _ d.users row (c.ids k) (λ h. rw (← (==_iff row.id k).0 h) new_id))
        (λ k.
          count_p-insert _ d.users row (c.usernames k)
            (λ h. rw (← (key_of row (lower row.username) k h)) new_name))
        (λ k.
          count_p-insert _ d.users row (c.emails k)
            (λ h. rw (← (key_of row (lower row.email) k h)) new_email))
        (λ k h. any-append _ d.users (row ∷ []) h)
        (All-append IsReadable d.users (row ∷ []) c.readable (read, tt))

  pub insert_token-IsConsistent :
      (row : TokenRow) (d : Db)
      → any (is_unconsumed row.token_hash) d.tokens ≡ false
      → HasOwner d.users row.user_id
      → IsConsistent lower d
      → IsConsistent lower (record d { tokens = d.tokens ++ row ∷ [] })
  insert_token-IsConsistent row d new_hash owned c = record {
    ids = c.ids;
    usernames = c.usernames;
    emails = c.emails;
    hashes = λ k.
        count_p-insert _ d.tokens row (c.hashes k)
          (λ h. rw (← (bytes_eq-eq row.token_hash k (ground arith))) new_hash);
    refresh_hashes = c.refresh_hashes;
    owners = All-append _ d.tokens (row ∷ []) c.owners (owned, tt);
    refresh_owners = c.refresh_owners;
    readable = c.readable;
  }

  pub insert_refresh-IsConsistent :
      (row : RefreshRow) (d : Db)
      → any (is_unrevoked row.token_hash) d.refresh_tokens ≡ false
      → HasOwner d.users row.user_id
      → IsConsistent lower d
      → IsConsistent lower (record d { refresh_tokens = d.refresh_tokens ++ row ∷ [] })
  insert_refresh-IsConsistent row d new_hash owned c = record {
    ids = c.ids;
    usernames = c.usernames;
    emails = c.emails;
    hashes = c.hashes;
    refresh_hashes = λ k.
        count_p-insert _ d.refresh_tokens row (c.refresh_hashes k)
          (λ h. rw (← (bytes_eq-eq row.token_hash k (ground arith))) new_hash);
    owners = c.owners;
    refresh_owners = All-append _ d.refresh_tokens (row ∷ []) c.refresh_owners (owned, tt);
    readable = c.readable;
  }

  -- An UPDATE of tokens that opens none and leaves the owners alone.
  pub modify_tokens-IsConsistent :
      (p : TokenRow → Bool) (f : TokenRow → TokenRow) (d : Db)
      → ((hash : Bytes) (t : TokenRow)
          → is_unconsumed hash (f t) ≡ true
          → is_unconsumed hash t ≡ true)
      → ((t : TokenRow) → (f t).user_id ≡ t.user_id)
      → IsConsistent lower d
      → IsConsistent lower (record d { tokens = modify p f d.tokens })
  modify_tokens-IsConsistent p f d opens_none owner c = record {
    ids = c.ids;
    usernames = c.usernames;
    emails = c.emails;
    hashes = λ k.
        ground (arith, count_p-modify-le p (is_unconsumed k) f d.tokens (opens_none k), c.hashes k);
    refresh_hashes = c.refresh_hashes;
    owners = All-modify _ p f d.tokens (λ t h. rw (owner t) h) c.owners;
    refresh_owners = c.refresh_owners;
    readable = c.readable;
  }

  -- The outbox and the signing keys are outside of all this.
  pub other_tables-IsConsistent :
      (d : Db) (signing_keys : List KeyRow) (outbox : List OutboxRow)
      → IsConsistent lower d
      → IsConsistent lower (record d { signing_keys = signing_keys; outbox = outbox })
  other_tables-IsConsistent d signing_keys outbox c = record {
    ids = c.ids;
    usernames = c.usernames;
    emails = c.emails;
    hashes = c.hashes;
    refresh_hashes = c.refresh_hashes;
    owners = c.owners;
    refresh_owners = c.refresh_owners;
    readable = c.readable;
  }
