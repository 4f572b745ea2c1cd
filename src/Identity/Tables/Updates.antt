-- ===== src/Identity/Tables/Updates.antt =====
-- What an UPDATE that matches rows leaves.
use home_ryanseipp.Prelude.{
  ◌≤◌, ◌<◌, String, none, some, List, [], ◌∷◌, ◌≡◌, ◌≢◌, refl, find, count_p, modify, arith,
  Bool-cases, inl, inr,
}
use home_ryanseipp.Effect.{Uuid, Bytes, Timestamp}
use home_ryanseipp.Identity.Accounts.{UserRow, TokenRow}
use home_ryanseipp.Identity.Tables.{has_id, is_open, is_unconsumed, consumed, verified}

module _ (hash : Bytes) (id : Uuid) (now : Timestamp) where
  -- Consuming a row opens no other.
  find-consumed-none :
      (ts : List TokenRow)
      → count_p (is_unconsumed hash) ts ≡ 0
      → find (is_unconsumed hash) (modify (is_open id) (consumed now) ts) ≡ none
  find-consumed-none [] h = refl
  find-consumed-none (t ∷ ts) h = ground (arith, find-consumed-none ts)

  -- If one row at most is open under a hash, the hash is not found after that row was consumed.
  pub find-consumed :
      (t : TokenRow) (ts : List TokenRow)
      → count_p (is_unconsumed hash) ts ≤ 1
      → find (is_unconsumed hash) ts ≡ some t
      → t.id ≡ id
      → find (is_unconsumed hash) (modify (is_open id) (consumed now) ts) ≡ none
  find-consumed t [] h e same = refl
  find-consumed t (x ∷ ts) h e same = elim (Bool-cases (is_unconsumed hash x)) [
    | inl hit ↦ ground (arith, find-consumed-none ts)
    | inr miss ↦ ground (arith, find-consumed t ts)
  ]

-- A row that is found by hash is open under its id.
pub count-open :
    (hash : Bytes) (t : TokenRow) (ts : List TokenRow)
    → find (is_unconsumed hash) ts ≡ some t
    → 0 < count_p (is_open t.id) ts
count-open hash t [] e = cc
count-open hash t (x ∷ ts) e = ground (arith, count-open hash t ts)

-- After the UPDATE of `mark_email_verified` the rows that it matched are verified and have the
-- status.
pub find-verified :
    (id : Uuid) (status : String) (now : Timestamp) (us : List UserRow) (u : UserRow)
    → find (has_id id) us ≡ some u
    → find (has_id id) (modify (has_id id) (verified status now) us) ≡ some (verified status now u)
find-verified id status now [] u e = cc
find-verified id status now (x ∷ us) u e = ground (arith, find-verified id status now us u)

pub find_of_count :
    (id : Uuid) (us : List UserRow)
    → count_p (has_id id) us ≢ 0
    → (u : UserRow) × (find (has_id id) us ≡ some u)
find_of_count id [] h = absurd (h refl)
find_of_count id (x ∷ us) h = elim (Bool-cases (has_id id x)) [
  | inl hit ↦ (x, ground arith)
  | inr miss ↦ let (u, e) = find_of_count id us (ground arith) in (u, ground arith)
]
