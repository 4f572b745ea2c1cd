-- ===== src/Examples/Passwords.antt =====
-- A hash of crypto/password_fips.rs that is made and checked.
use home_ryanseipp.Prelude.{
  ℕ, zero, suc, String, ◌&&◌, leb, ◌==◌, if◌then◌else◌, none, some, List, [], ◌∷◌, ◌≡◌, ◌↔◌, refl,
  sym, ap, ok, length, arith, Bool-cases, inl, inr, some-injective, ==_iff,
}
use home_ryanseipp.Identity.Tables.{bytes_eq}
use home_ryanseipp.Identity.Tables.Consistency.{bytes_eq-eq, bytes_eq_refl}
use home_ryanseipp.Effect.{Bytes}
use home_ryanseipp.Crypto.Fips.{
  Pbkdf2, PasswordHash, alg_id, hash_password_customized, verify_password,
}
use home_ryanseipp.Crypto.Fips.RoundTrip.{Pbkdf2Laws, verify_password-hash_password_customized}

-- The bytes, cut or filled up with zeros.
abbrev fill : ℕ → Bytes → Bytes
fill zero t = []
fill (suc n) [] = 0 ∷ fill n []
fill (suc n) (b ∷ t) = b ∷ fill n t

length-fill : (n : ℕ) (t : Bytes) → length (fill n t) ≡ n
length-fill zero t = refl
length-fill (suc n) [] = ap suc (length-fill n [])
length-fill (suc n) (b ∷ t) = ap suc (length-fill n t)

abbrev toy_pbkdf2 : Pbkdf2
toy_pbkdf2 = record {
  derive = λ i s t n. fill n t;
  verify = λ i s t out. bytes_eq (fill (length out) t) out;
  output_new = λ b. if leb 10 (length b) && leb (length b) 64 then some b else none;
  ParamsString = List (String × String);
  empty_params = [];
  add_decimal = λ ps name n. if n == 600_000 then some ((name, "600000") ∷ ps) else none;
  iter = λ ps. ps;
  decimal = λ v. some 600_000;
}

toy_entry :
    (name : String) (n : ℕ) (params : List (String × String))
    → toy_pbkdf2.add_decimal [] name n ≡ some params
    → (v : String) × (params ≡ (name, v) ∷ []) × (some 600_000 ≡ some n)
toy_entry name n params e = elim (Bool-cases (n == 600_000)) [
  | inl same ↦
      ("600000", sym (some-injective (rw same at e)), ap some (sym ((==_iff n 600_000).0 same)))
  | inr other ↦ cc (rw other at e)
]

toy_laws : Pbkdf2Laws toy_pbkdf2
toy_laws = record {
  fits = λ b least most. ground arith;
  length-derive = λ i s t n. length-fill n t;
  entry = toy_entry;
  verify_iff = λ i s t out. (bytes_eq-eq (fill (length out) t) out, λ e. rw e (bytes_eq_refl out));
}

abbrev hashed : PasswordHash toy_pbkdf2
hashed = record {
  algorithm = alg_id;
  version = none;
  params = ("i", "600000") ∷ [];
  salt = some "c2FsdA";
  hash = some (fill 32 (1 ∷ 2 ∷ 3 ∷ []));
}

toy_hashed : hash_password_customized toy_pbkdf2 (1 ∷ 2 ∷ 3 ∷ []) "c2FsdA" ≡ ok hashed
unfolding hash_password_customized
toy_hashed = refl

verify_password-hash_password_customized_example :
    (verify_password toy_pbkdf2 (1 ∷ 2 ∷ 4 ∷ []) hashed ≡ ok tt)
    ↔ (fill 32 (1 ∷ 2 ∷ 4 ∷ []) ≡ fill 32 (1 ∷ 2 ∷ 3 ∷ []))
verify_password-hash_password_customized_example =
    verify_password-hash_password_customized toy_pbkdf2 toy_laws (1 ∷ 2 ∷ 3 ∷ []) (1 ∷ 2 ∷ 4 ∷ [])
      "c2FsdA" hashed toy_hashed
