-- ===== src/Crypto/Jwt/Acceptance.antt =====
-- Which tokens `verify_jwt` of crypto/jwt.rs accepts.
use home_ryanseipp.Prelude.{
  ℕ, ◌≤◌, String, true, false, Option, none, some, List, [], ◌∷◌, ◌≡◌, refl, ◌⊎◌, any, ok, ok_or,
  arith, eq_iff, bind-eq-ok, ensure-eq-ok, ok_or-eq-ok, ◌↔◌, ◌∙◌, ap,
}
use mathlib.Core.Path.{subst}
use home_ryanseipp.Prelude.Text.{◌⧺◌, split}
use home_ryanseipp.Effect.{Bytes}
use home_ryanseipp.Crypto.Primitives.{
  invalid_token, Algorithm, es256, es384, Jwk, JwtHeader, Audience, single, multiple, Claims,
  Primitives,
}
use home_ryanseipp.Crypto.Keys.{as_str, parse_algorithm, same_algorithm}
use home_ryanseipp.Crypto.Jwt.{
  VerificationOptions, contains, add_u64, is_expired, is_early, matches_issuer, matches_audience,
  has_issuer, has_audience, three_parts, check_claims, public_key_bytes, verify_parts, verify_jwt,
}

-- The audience names the value.
abbrev pub Names : Audience → String → Type 0
Names (single s) value = s ≡ value
Names (multiple []) value = ⊥
Names (multiple (s ∷ v)) value = (s ≡ value) ⊎ Names (multiple v) value

-- The list names the algorithm.
abbrev pub Lists : List Algorithm → Algorithm → Type 0
Lists [] a = ⊥
Lists (b ∷ l) a = (a ≡ b) ⊎ Lists l a

-- `exp`, if it is there, is not before the current time less the leeway.
abbrev pub NotExpired : VerificationOptions → Option ℕ → Type 0
NotExpired o none = Unit
NotExpired o (some exp) = o.current_time ≤ add_u64 exp o.leeway

-- `nbf`, if it is there, is not after the current time and the leeway.
abbrev pub NotEarly : VerificationOptions → Option ℕ → Type 0
NotEarly o none = Unit
NotEarly o (some nbf) = nbf ≤ add_u64 o.current_time o.leeway

abbrev pub IssuedBy : Option String → Option String → Type 0
IssuedBy none iss = Unit
IssuedBy (some expected) iss = iss ≡ some expected

abbrev pub AddressedTo : Option String → Option Audience → Type 0
AddressedTo none aud = Unit
AddressedTo (some expected) none = ⊥
AddressedTo (some expected) (some aud) = Names aud expected

-- The claims hold at the time, for the issuer and the audience that the options ask for.
pub record AreCurrent (o : VerificationOptions) (c : Claims) : Type 0 where
  pub not_expired : NotExpired o c.exp
  pub not_early : NotEarly o c.nbf
  pub issued : IssuedBy o.issuer c.iss
  pub addressed : AddressedTo o.audience c.aud

contains_iff : (a : Audience) (value : String) → (contains a value ≡ true) ↔ Names a value
unfolding contains
contains_iff (single s) value = eq_iff s value
contains_iff (multiple []) value = ground arith
contains_iff (multiple (s ∷ v)) value =
    ground (arith, eq_iff s value, contains_iff (multiple v) value)

expired_iff : (o : VerificationOptions) (c : Claims) → (is_expired o c ≡ false) ↔ NotExpired o c.exp
unfolding is_expired
expired_iff o c = ground arith

early_iff : (o : VerificationOptions) (c : Claims) → (is_early o c ≡ false) ↔ NotEarly o c.nbf
unfolding is_early
early_iff o c = ground arith

matches_issuer_iff : (e i : Option String) → (matches_issuer e i ≡ true) ↔ IssuedBy e i
matches_issuer_iff none i = ground arith
matches_issuer_iff (some e) none = ground arith
matches_issuer_iff (some e) (some i) = ground (arith, eq_iff i e)

matches_audience_iff :
    (e : Option String) (a : Option Audience) → (matches_audience e a ≡ true) ↔ AddressedTo e a
matches_audience_iff none a = ground arith
matches_audience_iff (some e) none = ground arith
matches_audience_iff (some e) (some a) = contains_iff a e

check_claims_iff :
    (o : VerificationOptions) (c d : Claims)
    → (check_claims o c ≡ ok d) ↔ (AreCurrent o c × (c ≡ d))
unfolding check_claims has_issuer has_audience
check_claims_iff o c d = ground (
  arith,
  expired_iff o c,
  early_iff o c,
  matches_issuer_iff o.issuer c.iss,
  matches_audience_iff o.audience c.aud,
)

pub any_iff : (a : Algorithm) (l : List Algorithm) → (any (same_algorithm a) l ≡ true) ↔ Lists l a
any_iff a [] = ground arith
any_iff a (b ∷ l) = ground (arith, any_iff a l)

pub parse_algorithm_iff : (s : String) (a : Algorithm) → (parse_algorithm s ≡ ok a) ↔ (s ≡ as_str a)
unfolding parse_algorithm as_str
parse_algorithm_iff s es256 = ground (arith, eq_iff s "ES256", eq_iff s "ES384")
parse_algorithm_iff s es384 =
    ground (arith, eq_iff s "ES256", eq_iff s "ES384", eq_iff "ES384" "ES256")

three_parts-eq-some :
    (l : List String) {a b c : String} → three_parts l ≡ some (a, b, c) → l ≡ a ∷ b ∷ c ∷ []
three_parts-eq-some [] h = cc
three_parts-eq-some (x ∷ []) h = cc
three_parts-eq-some (x ∷ y ∷ []) h = cc
three_parts-eq-some (x ∷ y ∷ z ∷ []) h = ground arith
three_parts-eq-some (x ∷ y ∷ z ∷ w ∷ r) h = cc

-- What it takes for a token to be accepted with the claims `c`: three parts, a header that names
-- an allowed algorithm and the key, a signature over the first two parts under that key, and
-- claims that are current.
pub record IsAccepted (p : Primitives) (token : String) (jwk : Jwk) (o : VerificationOptions)
    (c : Claims) : Type 0 where
  pub header_b64 : String
  pub claims_b64 : String
  pub sig_b64 : String
  pub header_bytes : Bytes
  pub header : JwtHeader
  pub algorithm : Algorithm
  pub point : Bytes
  pub signature : Bytes
  pub claims_bytes : Bytes
  pub parts : split b'.' token ≡ header_b64 ∷ claims_b64 ∷ sig_b64 ∷ []
  pub header_decoded : p.b64_decode header_b64 ≡ some header_bytes
  pub header_read : p.header_of_json header_bytes ≡ some header
  pub named : header.alg ≡ as_str algorithm
  pub allowed : Lists o.allowed_algorithms algorithm
  pub key : header.kid ≡ jwk.kid
  pub key_point : public_key_bytes p jwk ≡ ok point
  pub signature_decoded : p.b64_decode sig_b64 ≡ some signature
  pub signed : p.ecdsa_verify algorithm point (header_b64 ⧺ "." ⧺ claims_b64) signature ≡ true
  pub claims_decoded : p.b64_decode claims_b64 ≡ some claims_bytes
  pub claims_read : p.claims_of_json claims_bytes ≡ some c
  pub current : AreCurrent o c

module _ (p : Primitives) (token : String) (jwk : Jwk) (o : VerificationOptions) (c : Claims) where
  -- A token that `verify_jwt` accepts meets every condition.
  pub verify_jwt-IsAccepted : verify_jwt p token jwk o ≡ ok c → IsAccepted p token jwk o c
  unfolding verify_jwt verify_parts
  verify_jwt-IsAccepted h =
      let (ps, e1, h) = bind-eq-ok (ok_or invalid_token (three_parts (split b'.' token))) _ h in
      let (hb, e2, h) = bind-eq-ok _ _ h in
      let (header, e3, h) = bind-eq-ok _ _ h in
      let (alg, e4, h) = bind-eq-ok _ _ h in
      let (_, e5, h) = bind-eq-ok _ _ h in
      let (_, e6, h) = bind-eq-ok _ _ h in
      let (point, e7, h) = bind-eq-ok _ _ h in
      let (sig, e8, h) = bind-eq-ok _ _ h in
      let (_, e9, h) = bind-eq-ok _ _ h in
      let (cb, e10, h) = bind-eq-ok _ _ h in
      let (claims, e11, h) = bind-eq-ok _ _ h in
      let (current, same) = (check_claims_iff o claims c).0 h in
      record {
        header_b64 = ps.0;
        claims_b64 = ps.1;
        sig_b64 = ps.2;
        header_bytes = hb;
        header = header;
        algorithm = alg;
        point = point;
        signature = sig;
        claims_bytes = cb;
        parts = three_parts-eq-some _ (ok_or-eq-ok _ _ e1);
        header_decoded = ok_or-eq-ok _ _ e2;
        header_read = ok_or-eq-ok _ _ e3;
        named = (parse_algorithm_iff _ _).0 e4;
        allowed = (any_iff _ _).0 (ensure-eq-ok _ _ e5);
        key = (eq_iff _ _).0 (ensure-eq-ok _ _ e6);
        key_point = e7;
        signature_decoded = ok_or-eq-ok _ _ e8;
        signed = ensure-eq-ok _ _ e9;
        claims_decoded = ok_or-eq-ok _ _ e10;
        claims_read = ok_or-eq-ok _ _ e11 ∙ ap some same;
        current = subst (AreCurrent o) same current;
      }

  -- A token that meets every condition is accepted.
  pub verify_jwt_of_IsAccepted : IsAccepted p token jwk o c → verify_jwt p token jwk o ≡ ok c
  unfolding verify_jwt verify_parts
  verify_jwt_of_IsAccepted a =
      rw
        (
          a.parts,
          a.header_decoded,
          a.header_read,
          (parse_algorithm_iff _ _).1 a.named,
          (any_iff _ _).1 a.allowed,
          (eq_iff _ _).1 a.key,
          a.key_point,
          a.signature_decoded,
          a.signed,
          a.claims_decoded,
          a.claims_read,
        )
        ((check_claims_iff o c c).1 (a.current, refl))
