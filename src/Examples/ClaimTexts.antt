-- ===== src/Examples/ClaimTexts.antt =====
-- A JSON for two given claims (crypto/jwt.rs).
use home_ryanseipp.Prelude.{
  ℕ, String, Bool, true, false, ◌&&◌, Option, none, some, List, [], ◌∷◌, ◌≡◌, refl, ap, ◌∙◌, str_eq,
  ◌==◌, if◌then◌else◌, arith, eq_iff, ==_iff, sym, Bool-cases, inl, inr, some-injective, not,
}
use home_ryanseipp.Effect.{Bytes}
use home_ryanseipp.Crypto.Primitives.{Audience, single, multiple, Claims}

abbrev option_eq : {A : Type 0} → (A → A → Bool) → Option A → Option A → Bool
option_eq eq none none = true
option_eq eq (some a) (some b) = eq a b
option_eq eq o o' = false

option_eq-eq :
    {A : Type 0} (eq : A → A → Bool)
    → ((a b : A) → eq a b ≡ true → a ≡ b)
    → (o o' : Option A) → option_eq eq o o' ≡ true
    → o ≡ o'
option_eq-eq eq sound none none h = refl
option_eq-eq eq sound none (some b) h = cc
option_eq-eq eq sound (some a) none h = cc
option_eq-eq eq sound (some a) (some b) h = ap some (sound a b h)

abbrev audience_eq : Audience → Audience → Bool
audience_eq (single s) (single t) = str_eq s t
audience_eq a b = false

audience_eq-eq : (a b : Audience) → audience_eq a b ≡ true → a ≡ b
audience_eq-eq (single s) (single t) h = ap single ((eq_iff s t).0 h)
audience_eq-eq (single s) (multiple l) h = cc
audience_eq-eq (multiple l) b h = cc

and-both : (a b : Bool) → (a && b) ≡ true → (a ≡ true) × (b ≡ true)
and-both a b h = ground arith

abbrev bool_eq : Bool → Bool → Bool
bool_eq true b = b
bool_eq false b = not b

texts-eq : (o o' : Option String) → option_eq str_eq o o' ≡ true → o ≡ o'
texts-eq = option_eq-eq str_eq (λ s t. (eq_iff s t).0)

numbers-eq : (o o' : Option ℕ) → option_eq (λ m n. m == n) o o' ≡ true → o ≡ o'
numbers-eq = option_eq-eq (λ m n. m == n) (λ m n. (==_iff m n).0)

bool_eq-eq : (a b : Bool) → bool_eq a b ≡ true → a ≡ b
bool_eq-eq true b h = sym h
bool_eq-eq false b h = ground arith

abbrev is_nil : List (String × String) → Bool
is_nil [] = true
is_nil (c ∷ cs) = false

is_nil-eq : (l : List (String × String)) → is_nil l ≡ true → l ≡ []
is_nil-eq [] h = refl
is_nil-eq (c ∷ cs) h = cc

-- The claims of a login, which has no custom ones.
abbrev same_claims : Claims → Claims → Bool
same_claims c d =
    option_eq str_eq c.iss d.iss
    && option_eq str_eq c.sub d.sub
    && option_eq audience_eq c.aud d.aud
    && option_eq (λ m n. m == n) c.exp d.exp
    && option_eq (λ m n. m == n) c.nbf d.nbf
    && option_eq (λ m n. m == n) c.iat d.iat
    && option_eq str_eq c.jti d.jti
    && option_eq str_eq c.name d.name
    && option_eq str_eq c.given_name d.given_name
    && option_eq str_eq c.family_name d.family_name
    && option_eq str_eq c.email d.email
    && option_eq bool_eq c.email_verified d.email_verified
    && option_eq str_eq c.preferred_username d.preferred_username
    && is_nil c.custom
    && is_nil d.custom

same_claims-eq : (c d : Claims) → same_claims c d ≡ true → c ≡ d
same_claims-eq c d h =
    let (h, e15) = and-both _ _ h in
    let (h, e14) = and-both _ _ h in
    let (h, e13) = and-both _ _ h in
    let (h, e12) = and-both _ _ h in
    let (h, e11) = and-both _ _ h in
    let (h, e10) = and-both _ _ h in
    let (h, e9) = and-both _ _ h in
    let (h, e8) = and-both _ _ h in
    let (h, e7) = and-both _ _ h in
    let (h, e6) = and-both _ _ h in
    let (h, e5) = and-both _ _ h in
    let (h, e4) = and-both _ _ h in
    let (h, e3) = and-both _ _ h in
    let (e1, e2) = and-both _ _ h in
    λ i. record {
      iss = texts-eq c.iss d.iss e1 i;
      sub = texts-eq c.sub d.sub e2 i;
      aud = option_eq-eq audience_eq audience_eq-eq c.aud d.aud e3 i;
      exp = numbers-eq c.exp d.exp e4 i;
      nbf = numbers-eq c.nbf d.nbf e5 i;
      iat = numbers-eq c.iat d.iat e6 i;
      jti = texts-eq c.jti d.jti e7 i;
      name = texts-eq c.name d.name e8 i;
      given_name = texts-eq c.given_name d.given_name e9 i;
      family_name = texts-eq c.family_name d.family_name e10 i;
      email = texts-eq c.email d.email e11 i;
      email_verified = option_eq-eq bool_eq bool_eq-eq c.email_verified d.email_verified e12 i;
      preferred_username = texts-eq c.preferred_username d.preferred_username e13 i;
      custom = (is_nil-eq c.custom e14 ∙ sym (is_nil-eq d.custom e15)) i;
    }

abbrev pub of_byte : Claims → Claims → Bytes → Option Claims
of_byte c d [] = none
of_byte c d (n ∷ bs) = some (if n == 1 then c else d)

abbrev pub to_byte : Claims → Claims → Claims → Option Bytes
to_byte c d e =
    if same_claims e c then some (1 ∷ []) else if same_claims e d then some (2 ∷ []) else none

pub byte_round : (c d e : Claims) (b : Bytes) → to_byte c d e ≡ some b → of_byte c d b ≡ some e
byte_round c d e b h = elim (Bool-cases (same_claims e c)) [
  | inl first ↦
      ap (of_byte c d) (sym (some-injective (rw first at h)))
      ∙ ap some (sym (same_claims-eq e c first))
  | inr other ↦ elim (Bool-cases (same_claims e d)) [
    | inl second ↦
        ap (of_byte c d) (sym (some-injective (rw (other, second) at h)))
        ∙ ap some (sym (same_claims-eq e d second))
    | inr neither ↦ ground arith
  ]
]
