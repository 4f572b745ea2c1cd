-- ===== src/Identity/SigningKeys/Soundness.antt =====
-- The rows of the signing keys as services/mod.rs writes them: the private key that is sealed in a row
-- belongs to the public key beside it.
use home_ryanseipp.Prelude.{
  ◌≤◌, String, Bool, true, false, Option, none, some, List, [], ◌∷◌, ◌≡◌, refl, sym, ap, ◌∙◌, map,
  find, Within, first, later, cases_cons, select-Within, count_p-Within, All-Within, select,
  count_p, str_eq, ltb, if◌then◌else◌, All, Result, ok, err, ok-injective, some-injective, ensure,
  bind-eq-ok, eq_iff, Bool-cases, inl, inr, arith,
}
use mathlib.Core.Path.{subst}
use home_ryanseipp.Prelude.Text.{as_bytes}
use home_ryanseipp.Effect.{Env, Bytes, map_error, query}
use home_ryanseipp.Effect.Rules.{map_error-eq-ok, Reads-map_error}
use home_ryanseipp.Effect.Calls.{Reads-pool_get, Reads-query, query-eq-ok}
use home_ryanseipp.Effect.Ensures.{Ensures, Ensures-bind, Ensures-bind-eq, Ensures-bind-lift}
use home_ryanseipp.Identity.Service.Passwords.{Ensures-bind-or_fail}
use home_ryanseipp.Crypto.Primitives.{
  Algorithm, Jwk, key_not_found, invalid_key_material, Primitives,
}
use home_ryanseipp.Crypto.Keys.{parse_algorithm, public_jwk_from_pkcs8}
use home_ryanseipp.Crypto.Jwt.{key_pair_from_pkcs8}
use home_ryanseipp.Crypto.Encryption.{EncryptedKey, from_bytes, decrypt_private_key}
use home_ryanseipp.Identity.Accounts.{KeyRow, Db}
use home_ryanseipp.Identity.Tables.{is_active_key, newest, select_active_key}
use home_ryanseipp.Identity.SigningKeys.{
  read_jwks, is_not_revoked, select_public_jwks, ActiveSigningKey, get_active_signing_key,
  GetJwksError,
}

-- The private key of the row opens under the key encryption key, and the stored JWK is that of it.
pub record IsSound (p : Primitives) (kek : Bytes) (row : KeyRow) : Type 0 where
  pub algorithm : Algorithm
  pub encrypted : EncryptedKey
  pub der : Bytes
  pub jwk : Jwk
  pub named : parse_algorithm row.algorithm ≡ ok algorithm
  pub sealed : from_bytes row.encrypted_private_key ≡ ok encrypted
  pub opened : decrypt_private_key p kek encrypted (as_bytes row.kid) ≡ ok der
  pub stored : p.jwk_of_json row.public_jwk ≡ some jwk
  pub shown : public_jwk_from_pkcs8 p row.kid algorithm der ≡ ok jwk
  pub same_kid : jwk.kid ≡ row.kid

abbrev pub has_kid : String → KeyRow → Bool
has_kid kid row = str_eq row.kid kid

pub record AreSound (p : Primitives) (kek : Bytes) (keys : List KeyRow) : Type 0 where
  pub each : All (IsSound p kek) keys
  pub unique : (kid : String) → count_p (has_kid kid) keys ≤ 1

abbrev pub jwk_named : String → Jwk → Bool
jwk_named kid k = str_eq k.kid kid

newest-Within : (rows : List KeyRow) (row : KeyRow) → newest rows ≡ some row → Within row rows
newest-Within [] row h = cc
newest-Within (k ∷ ks) row h = go (newest-Within ks row) (newest ks) refl h
  where
    go :
        (newest ks ≡ some row → Within row ks)
        → (o : Option KeyRow) → newest ks ≡ o
        → (elim o [
          | none ↦ some k
          | some m ↦ if ltb k.created_at m.created_at then some m else some k
        ])
          ≡ some row
        → Within row (k ∷ ks)
    go next none e h = first (sym (some-injective h))
    go next (some m) e h = elim (Bool-cases (ltb k.created_at m.created_at)) [
      | inl t ↦ later (next (e ∙ rw t at h))
      | inr t ↦ first (sym (some-injective (rw t at h)))
    ]

-- The row of a key that signs is found by its id among the published keys.
module _ (p : Primitives) (kek : Bytes) where
  abbrev IsRead : List KeyRow → List Jwk → Type 0
  IsRead rows jwks =
      read_jwks p (map (λ (k : KeyRow). k.public_jwk) (select is_not_revoked rows)) ≡ ok jwks

  IsRead-cons :
      (k : KeyRow) (ks : List KeyRow) (jwks : List Jwk)
      → IsSound p kek k
      → is_not_revoked k ≡ true
      → IsRead (k ∷ ks) jwks
      → (j : Jwk) × (js : List Jwk) × (p.jwk_of_json k.public_jwk ≡ some j)
        × (j.kid ≡ k.kid)
        × IsRead ks js
        × (jwks ≡ j ∷ js)
  IsRead-cons k ks jwks s e h =
      go (read_jwks p (map (λ (k : KeyRow). k.public_jwk) (select is_not_revoked ks))) refl
        (rw (e, s.stored) at h)
    where
      go :
          (r : Result GetJwksError (List Jwk))
          → read_jwks p (map (λ (k : KeyRow). k.public_jwk) (select is_not_revoked ks)) ≡ r
          → (elim r [ ok jwks ↦ ok (s.jwk ∷ jwks) | err e ↦ err e ]) ≡ ok jwks
          → (j : Jwk) × (js : List Jwk) × (p.jwk_of_json k.public_jwk ≡ some j)
            × (j.kid ≡ k.kid)
            × IsRead ks js
            × (jwks ≡ j ∷ js)
      go (ok js) r h = (s.jwk, js, s.stored, s.same_kid, r, sym (ok-injective h))
      go (err x) r h = cc

  other_kid :
      (k : KeyRow) (ks : List KeyRow) (row : KeyRow) (j : Jwk)
      → j.kid ≡ k.kid
      → Within row ks
      → count_p (has_kid row.kid) (k ∷ ks) ≤ 1
      → str_eq j.kid row.kid ≡ false
  other_kid k ks row j same m c = elim (Bool-cases (str_eq j.kid row.kid)) [
    | inl e ↦
        let at_k : str_eq k.kid row.kid ≡ true = rw same at e in
        let more : 1 ≤ count_p (has_kid row.kid) ks =
          count_p-Within (has_kid row.kid) ks row m ((eq_iff row.kid row.kid).1 refl) in
        absurd (ground (arith, at_k, more, c))
    | inr e ↦ e
  ]

  find_jwk :
      (rows : List KeyRow) (jwks : List Jwk) (row : KeyRow) (jwk : Jwk)
      → All (IsSound p kek) rows
      → IsRead rows jwks
      → Within row rows
      → is_not_revoked row ≡ true
      → count_p (has_kid row.kid) rows ≤ 1
      → p.jwk_of_json row.public_jwk ≡ some jwk
      → find (jwk_named row.kid) jwks ≡ some jwk
  find_jwk [] jwks row jwk s r m n c e = elim m [ ]
  find_jwk (k ∷ ks) jwks row jwk s r m n c e = elim (Bool-cases (is_not_revoked k)) [
    | inl q ↦
        let (j, js, at_k, kid, rest, parts) = IsRead-cons k ks jwks s.0 q r in
        rw parts (elim (cases_cons m) [
          | inl same ↦
              rw ((eq_iff j.kid row.kid).1 (kid ∙ ap (λ (k : KeyRow). k.kid) (sym same)))
                (sym at_k ∙ ap (λ (k : KeyRow). p.jwk_of_json k.public_jwk) (sym same) ∙ e)
          | inr m' ↦
              rw (other_kid k ks row j kid m' c)
                (find_jwk ks js row jwk s.1 rest m' n (omega (arith, c)) e)
        ])
    | inr q ↦ elim (cases_cons m) [
      | inl same ↦ cc (q, same, n)
      | inr m' ↦ find_jwk ks jwks row jwk s.1 (rw q at r) m' n (omega (arith, c)) e
    ]
  ]

  -- Sound rows can all be read.
  All-IsRead :
      (rows : List KeyRow) → All (IsSound p kek) rows → (jwks : List Jwk) × IsRead rows jwks
  All-IsRead [] s = ([], refl)
  All-IsRead (k ∷ ks) s =
      let (js, r) = All-IsRead ks s.1 in
      elim (Bool-cases (is_not_revoked k)) [
        | inl q ↦ (s.0.jwk ∷ js, rw (q, s.0.stored, r) refl)
        | inr q ↦ (js, rw q r)
      ]

  -- The key that signs is published: the list of public keys is read, and its JWK is in it, first
  -- under its id.
  pub record IsPublished (d : Db) (key : ActiveSigningKey) : Type 0 where
    pub jwk : Jwk
    pub jwks : List Jwk
    pub shown : public_jwk_from_pkcs8 p key.kid key.algorithm key.key_pair ≡ ok jwk
    pub read : read_jwks p (select_public_jwks d) ≡ ok jwks
    pub listed : find (jwk_named key.kid) jwks ≡ some jwk

  active-is_not_revoked : (row : KeyRow) → is_active_key row ≡ true → is_not_revoked row ≡ true
  active-is_not_revoked row h = rw ((eq_iff row.status "active").0 h) refl

  key_pair-eq :
      (a : Algorithm) (der pair : Bytes) → key_pair_from_pkcs8 p a der ≡ ok pair → pair ≡ der
  unfolding key_pair_from_pkcs8
  key_pair-eq a der pair h =
      let (u, e, rest) =
        bind-eq-ok (ensure (p.accepts_pkcs8 a der) invalid_key_material) (λ _. ok der) h in
      sym (ok-injective rest)

  -- the row that is selected, and what is read from it
  row-IsPublished :
      (d : Db) (row : KeyRow) (a : Algorithm) (enc : EncryptedKey) (der pair : Bytes)
      → AreSound p kek d.signing_keys
      → select_active_key d ≡ some row
      → parse_algorithm row.algorithm ≡ ok a
      → from_bytes row.encrypted_private_key ≡ ok enc
      → decrypt_private_key p kek enc (as_bytes row.kid) ≡ ok der
      → key_pair_from_pkcs8 p a der ≡ ok pair
      → IsPublished d (record { kid = row.kid; algorithm = a; key_pair = pair })
  unfolding select_active_key select_public_jwks
  row-IsPublished d row a enc der pair sound found e1 e2 e3 e4 =
      let (m, act) =
        select-Within is_active_key d.signing_keys row
          (newest-Within (select is_active_key d.signing_keys) row found) in
      let s = All-Within (IsSound p kek) d.signing_keys row sound.each m in
      let (jwks, read) = All-IsRead d.signing_keys sound.each in
      let same_enc = ok-injective (sym s.sealed ∙ e2) in
      let same_der = ok-injective (
        sym s.opened
        ∙ ap (λ enc. decrypt_private_key p kek enc (as_bytes row.kid)) same_enc
        ∙ e3) in
      record {
        jwk = s.jwk;
        jwks = jwks;
        shown =
            rw (key_pair-eq a der pair e4, ← same_der, ← ok-injective (sym s.named ∙ e1)) s.shown;
        read = read;
        listed =
            find_jwk d.signing_keys jwks row s.jwk sound.each read m (active-is_not_revoked row act)
              (sound.unique row.kid) s.stored;
      }

  abbrev pub Published : Db → Db → ActiveSigningKey → Type 0
  Published before after key = AreSound p kek before.signing_keys → IsPublished before key

  pub get_active_signing_key-Ensures :
      (env : Env) → Ensures Published (get_active_signing_key env p kek)
  unfolding get_active_signing_key
  get_active_signing_key-Ensures env = Ensures-bind _ _ _ (Reads-pool_get env key_not_found) λ _.
      Ensures-bind-eq _ (map_error (λ _. key_not_found) (query env (λ _ d. select_active_key d))) _
        (Reads-map_error _ _ (Reads-query env _))
        λ o w w' ran. Ensures-bind-or_fail _ key_not_found o _ λ row some_row.
          Ensures-bind-lift _ (parse_algorithm row.algorithm) _ λ a e1.
            Ensures-bind-lift _ (from_bytes row.encrypted_private_key) _ λ enc e2.
              Ensures-bind-lift _ (decrypt_private_key p kek enc (as_bytes row.kid)) _ λ der e3.
                Ensures-bind-lift _ (key_pair_from_pkcs8 p a der) _ λ pair e4. record {
                  after = λ v key h same sound.
                      let (found, _, _) =
                        query-eq-ok env (λ _ d. select_active_key d) w w'
                          (map_error-eq-ok (λ _. key_not_found)
                            (query env (λ _ d. select_active_key d)) w w' ran) in
                      subst (IsPublished v.db) (ok-injective h) (
                        row-IsPublished v.db row a enc der pair sound
                          (ap select_active_key same ∙ sym found ∙ some_row) e1 e2 e3 e4);
                }
