-- ===== src/Crypto/Fips/RoundTrip.antt =====
-- Hashes of crypto/password_fips.rs before the check that they are made for.
use home_ryanseipp.Prelude.{
  ℕ, ◌≤◌, String, true, none, some, some-injective, [], ◌∷◌, ◌≡◌, ◌↔◌, refl, sym, ap, ◌∙◌, ok,
  ok_or, ok_or-eq-ok, ok-injective, bind-eq-ok, ensure, ensure-eq-ok, length, arith,
}
use home_ryanseipp.Prelude.Text.{as_bytes}
use home_ryanseipp.Effect.{Bytes}
use home_ryanseipp.Crypto.Fips.{
  iterations, alg_id, output_size, param_value_invalid, password_mismatch, Pbkdf2, PasswordHash,
  hash_password_customized, verify_password,
}

-- What the crates document: an output has 10 to 64 bytes, the derivation fills its buffer, one
-- parameter that was added is there with its number, and `verify` derives again and compares.
pub record Pbkdf2Laws (x : Pbkdf2) : Type 0 where
  pub fits : (b : Bytes) → 10 ≤ length b → length b ≤ 64 → x.output_new b ≡ some b
  pub length-derive : (i : ℕ) (s t : Bytes) (n : ℕ) → length (x.derive i s t n) ≡ n
  pub entry :
      (name : String) (n : ℕ) (params : x.ParamsString)
      → x.add_decimal x.empty_params name n ≡ some params
      → (v : String) × (x.iter params ≡ (name, v) ∷ []) × (x.decimal v ≡ some n)
  pub verify_iff :
      (i : ℕ) (s t out : Bytes) → (x.verify i s t out ≡ true) ↔ (x.derive i s t (length out) ≡ out)

module _ (x : Pbkdf2) (laws : Pbkdf2Laws x) where
  abbrev derived : Bytes → String → Bytes
  derived password salt = x.derive iterations (as_bytes salt) password 32

  abbrev made : String → Bytes → x.ParamsString → PasswordHash x
  made salt password params = record {
    algorithm = alg_id;
    version = none;
    params = params;
    salt = some salt;
    hash = some (derived password salt);
  }

  -- what `hash_password_customized` gives
  hash_password_customized-made :
      (password : Bytes) (salt : String) (h : PasswordHash x)
      → hash_password_customized x password salt ≡ ok h
      → (params : x.ParamsString) × (x.add_decimal x.empty_params "i" iterations ≡ some params)
        × (made salt password params ≡ h)
  unfolding hash_password_customized
  hash_password_customized-made password salt h run =
      let bytes = derived password salt in
      let long : length bytes ≡ 32 = laws.length-derive iterations (as_bytes salt) password 32 in
      let kept : x.output_new bytes ≡ some bytes =
        laws.fits bytes (omega (arith, long)) (omega (arith, long)) in
      let (output, e1, h1) = bind-eq-ok (ok_or output_size (x.output_new bytes)) _ run in
      let (params, e2, h2) =
        bind-eq-ok (ok_or param_value_invalid (x.add_decimal x.empty_params "i" iterations)) _ h1 in
      let same : output ≡ bytes = some-injective (sym (ok_or-eq-ok output_size _ e1) ∙ kept) in
      (params, ok_or-eq-ok param_value_invalid _ e2, rw (sym same) (ok-injective h2))

  -- the check against a hash that was made
  verify_password-made :
      (other password : Bytes) (salt : String) (params : x.ParamsString)
      → x.add_decimal x.empty_params "i" iterations ≡ some params
      → verify_password x other (made salt password params)
        ≡ ensure
            (x.verify iterations (as_bytes salt) other (derived password salt))
            password_mismatch
  unfolding verify_password
  verify_password-made other password salt params added =
      let (v, listed, read) = laws.entry "i" iterations params added in rw (listed, read) refl

  -- Under the documented behaviour of the crates: a password is accepted against a hash that was made
  -- exactly when PBKDF2 derives the same 32 bytes from it, with the salt and the 600,000 iterations,
  -- as from the password that was hashed. So the same password is accepted.
  pub verify_password-hash_password_customized :
      (password other : Bytes) (salt : String) (h : PasswordHash x)
      → hash_password_customized x password salt ≡ ok h
      → (verify_password x other h ≡ ok tt) ↔ (
          x.derive iterations (as_bytes salt) other 32
          ≡ x.derive iterations (as_bytes salt) password 32)
  verify_password-hash_password_customized password other salt h run =
      let (params, added, same) = hash_password_customized-made password salt h run in
      let checked = verify_password-made other password salt params added in
      let long : length (derived password salt) ≡ 32 =
        laws.length-derive iterations (as_bytes salt) password 32 in
      let (to, from) = laws.verify_iff iterations (as_bytes salt) other (derived password salt) in
      (
        (λ accepted.
            ap (x.derive iterations (as_bytes salt) other) (sym long)
            ∙ to (
                ensure-eq-ok _ password_mismatch
                  (sym checked ∙ ap (verify_password x other) same ∙ accepted))),
        (λ equal.
            ap (verify_password x other) (sym same)
            ∙ checked
            ∙ ap (λ b. ensure b password_mismatch)
                (from (ap (x.derive iterations (as_bytes salt) other) long ∙ equal))),
      )
