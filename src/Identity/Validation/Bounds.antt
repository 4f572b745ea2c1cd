-- ===== src/Identity/Validation/Bounds.antt =====
-- What the validators of services/identity/src/services/validation.rs accept.
use Prim.Native.Char.{code}
use home_ryanseipp.Prelude.{ℕ, ◌≤◌, String, len, ◌≡◌, ◌≢◌, ◌↔◌, ◌⊎◌, true, ok, arith, eq_iff}
use home_ryanseipp.Prelude.Text.{all_chars, contains_char, AllChars}
use home_ryanseipp.Identity.Validation.{
  is_username_char, validate_username, validate_password, validate_email,
}

-- An ASCII letter or digit, an underscore or a hyphen, as a range of code points.
abbrev pub IsWordChar : ℕ → Type 0
IsWordChar c =
    ((48 ≤ c) × (c ≤ 57)) ⊎ ((97 ≤ c) × (c ≤ 122)) ⊎ ((65 ≤ c) × (c ≤ 90)) ⊎ (c ≡ 95) ⊎ (c ≡ 45)

is_username_char_iff : (c : ℕ) → (is_username_char c ≡ true) ↔ IsWordChar c
is_username_char_iff c = ground arith

all_chars_iff : (s : String) → (all_chars is_username_char s ≡ true) ↔ AllChars IsWordChar s
all_chars_iff String.[] = ground arith
all_chars_iff (String.◌∷◌ c s) = ground (arith, all_chars_iff s, is_username_char_iff (code c))

-- A username is accepted exactly when it is not empty, has at most 64 bytes, and each of its
-- characters is an ASCII letter or digit, an underscore or a hyphen.
pub validate_username_iff :
    (s : String) → (validate_username s ≡ ok tt) ↔ ((s ≢ "") × (len s ≤ 64) × AllChars IsWordChar s)
unfolding validate_username
validate_username_iff s = ground (arith, eq_iff s "", all_chars_iff s)

-- A password is accepted exactly when it has 8 to 128 bytes of UTF-8.
pub validate_password_iff :
    (s : String) → (validate_password s ≡ ok tt) ↔ ((8 ≤ len s) × (len s ≤ 128))
unfolding validate_password
validate_password_iff s = ground arith

-- An email is accepted exactly when it has 3 to 254 bytes and an "@" in it.
pub validate_email_iff :
    (s : String)
    → (validate_email s ≡ ok tt) ↔ ((3 ≤ len s) × (len s ≤ 254) × (contains_char b'@' s ≡ true))
unfolding validate_email
validate_email_iff s = ground arith
