-- ===== src/Identity/Tables/Consistency/Profiles.antt =====
-- The UPDATE of services/update_profile.rs under the index of usernames.
use home_ryanseipp.Prelude.{
  ◌+◌, ◌≤◌, String, Bool, false, not, ◌&&◌, Option, none, some, List, [], ◌∷◌, ◌≡◌, refl, ◌∙◌, any,
  count_p, modify, str_eq, ◌==◌, eq_iff, arith, Bool-cases, inl, inr, count_p-eq-zero,
  count_p-modify, any-modify, All-modify,
}
use home_ryanseipp.Effect.{Uuid, Timestamp}
use home_ryanseipp.Identity.Accounts.{UserRow, Db}
use home_ryanseipp.Identity.Tables.{
  has_id, has_username, has_email, with_profile, is_username_taken,
}
use home_ryanseipp.Identity.Tables.Consistency.{IsConsistent, IsReadable, is_row, users_kept}

module _ (lower : String → String) (id : Uuid) (given_name family_name : Option String)
    (now : Timestamp) where
  -- Other live rows than the one that is renamed.
  abbrev others : String → UserRow → Bool
  others key u = not (u.id == id) && has_username lower key u

  -- Without a new name the index sees the same rows.
  count-unnamed :
      (key : String) (us : List UserRow)
      → count_p
          (has_username lower key)
          (modify (has_id id) (with_profile lower given_name family_name none now) us)
        ≡ count_p (has_username lower key) us
  count-unnamed key us = count_p-modify (has_id id) (has_username lower key) _ us (λ u. refl)

  -- Under the new name stand the renamed row and the others.
  count-named :
      (name : String) (us : List UserRow)
      → count_p
          (has_username lower (lower name))
          (modify (has_id id) (with_profile lower given_name family_name (some name) now) us)
        ≤ count_p (is_row id) us + count_p (others (lower name)) us
  count-named name [] = omega arith
  count-named name (u ∷ us) = ground (arith, count-named name us)

  -- Under any other name stand no more rows than before.
  count-other :
      (name key : String) (us : List UserRow)
      → str_eq (lower name) key ≡ false
      → count_p
          (has_username lower key)
          (modify (has_id id) (with_profile lower given_name family_name (some name) now) us)
        ≤ count_p (has_username lower key) us
  count-other name key [] h = omega arith
  count-other name key (u ∷ us) h = ground (arith, count-other name key us h)

  -- Another name than the new one, or the new one that no other live row holds, stands once.
  count-renamed :
      (name key : String) (us : List UserRow)
      → count_p (is_row id) us ≤ 1
      → count_p (has_username lower key) us ≤ 1
      → any (others (lower name)) us ≡ false
      → count_p
          (has_username lower key)
          (modify (has_id id) (with_profile lower given_name family_name (some name) now) us)
        ≤ 1
  count-renamed name key us one once free = elim (Bool-cases (str_eq (lower name) key)) [
    | inl same ↦
        rw (← ((eq_iff (lower name) key).0 same))
          (ground (arith, count-named name us, count_p-eq-zero (others (lower name)) us free))
    | inr other ↦ ground (arith, count-other name key us other)
  ]

  -- If no live row has the id, nothing is renamed.
  modify_none :
      (f : UserRow → UserRow) (us : List UserRow)
      → any (has_id id) us ≡ false
      → modify (has_id id) f us ≡ us
  modify_none f [] h = refl
  modify_none f (u ∷ us) h = ground (arith, modify_none f us)

  named_kept :
      (username : Option String) (us : List UserRow)
      → is_username_taken lower id username us ≡ false
      → ((k : Uuid) → count_p (is_row k) us ≤ 1)
      → ((key : String) → count_p (has_username lower key) us ≤ 1)
      → (key : String)
      → count_p
          (has_username lower key)
          (modify (has_id id) (with_profile lower given_name family_name username now) us)
        ≤ 1
  named_kept none us free ids once key = rw (count-unnamed key us) (once key)
  named_kept (some name) us free ids once key = elim (Bool-cases (any (has_id id) us)) [
    | inl there ↦ count-renamed name key us (ids id) (once key) (rw there at free)
    | inr absent ↦ rw (modify_none _ us absent) (once key)
  ]

  -- A profile whose name is free leaves the tables consistent.
  pub with_profile-IsConsistent :
      (username : Option String) (d : Db)
      → is_username_taken lower id username d.users ≡ false
      → IsConsistent lower d
      → IsConsistent lower (record d {
        users = modify (has_id id) (with_profile lower given_name family_name username now) d.users;
      })
  with_profile-IsConsistent username d free c =
      let f = with_profile lower given_name family_name username now in
      users_kept lower d (modify (has_id id) f d.users) c
        (λ k. rw (count_p-modify (has_id id) (is_row k) f d.users (λ u. refl)) (c.ids k))
        (named_kept username d.users free c.ids c.usernames)
        (λ k.
          rw (count_p-modify (has_id id) (has_email lower k) f d.users (λ u. refl)) (c.emails k))
        (λ k h. any-modify (has_id id) (is_row k) f d.users (λ u. refl) ∙ h)
        (All-modify IsReadable (has_id id) f d.users (λ u r. r) c.readable)
