-- ===== src/Identity/Validation.antt =====
-- services/identity/src/services/validation.rs. A `&'static str` error is the text itself, and
-- `len` counts bytes of UTF-8, as `str::len` does.
pub mod Bounds
use home_ryanseipp.Prelude.{
  ℕ, String, len, Bool, ◌&&◌, ◌||◌, not, Result, ok, err, ltb, str_eq, ◌==◌, if◌then◌else◌,
}
use home_ryanseipp.Prelude.Text.{all_chars, contains_char, is_ascii_alphanumeric}

abbrev pub username_rule : String
username_rule = "must be 1-64 characters, alphanumeric, underscore, or hyphen"

abbrev pub is_username_char : ℕ → Bool
is_username_char c = is_ascii_alphanumeric c || (c == b'_') || (c == b'-')

unfoldable pub validate_username : String → Result String (Unit {0})
validate_username username =
    if str_eq username "" || ltb 64 (len username)
    then err username_rule
    else if not (all_chars is_username_char username)
    then err username_rule
    else ok tt

unfoldable pub validate_password : String → Result String (Unit {0})
validate_password password =
    if ltb (len password) 8
    then err "must be at least 8 characters"
    else if ltb 128 (len password)
    then err "must be at most 128 characters"
    else ok tt

unfoldable pub validate_email : String → Result String (Unit {0})
validate_email email =
    if ltb (len email) 3 || ltb 254 (len email) || not (contains_char b'@' email)
    then err "invalid email address"
    else ok tt
