-- ===== src/Gateway/Cookies/Extraction.antt =====
-- What services/gateway/src/routes/session.rs finds in a `Cookie` header of several cookies.
use Prim.Native.Char.{Char}
use home_ryanseipp.Prelude.{
  ℕ, String, Bool, true, false, not, ◌||◌, ◌&&◌, ◌==◌, ◌≡◌, refl, ap, ◌∙◌, List, [], ◌∷◌, ◌++◌,
  none, ok, err, All, All-append, arith,
}
use home_ryanseipp.Prelude.Text.{
  ◌⧺◌, all_chars, contains_char, is_ascii_alphanumeric, is_white, split, split_whole, split-append,
  trim, strip_prefix,
}
use home_ryanseipp.Prelude.Text.Trimming.{
  is_visible, all_weaken, all_append, all-excludes, trim-append, excludes-all, strip_prefix-append,
}
use text.Mathlib.TextLemmas.{nil-append, cons-append}
use home_ryanseipp.Gateway.Cookies.{
  session_cookie, present, unauthorized, cookie_value, find_cookie, extract_session_cookie,
}

-- a character of Base64UrlUnpadded
unfoldable pub is_base64url : ℕ → Bool
is_base64url c = is_ascii_alphanumeric c || (c == b'-') || (c == b'_')

-- not the separator of cookies
abbrev is_inside : ℕ → Bool
is_inside c = not (c == b';')

-- The text of a header with these pairs.
abbrev pub header_text : List String → String
header_text [] = ""
header_text (p ∷ []) = p
header_text (p ∷ q ∷ qs) = p ⧺ (";" ⧺ header_text (q ∷ qs))

abbrev pub IsPair : String → Type 0
IsPair pair = contains_char b';' pair ≡ false

-- A pair whose name does not start with that of the session cookie.
pub record IsOther (pair : String) : Type 0 where
  pub whole : IsPair pair
  pub name : strip_prefix session_cookie (trim pair) ≡ none

base64url_visible : (c : ℕ) → is_base64url c ≡ true → is_visible c ≡ true
unfolding is_base64url is_white
base64url_visible c h = ground arith

base64url_inside : (c : ℕ) → is_base64url c ≡ true → is_inside c ≡ true
unfolding is_base64url
base64url_inside c h = ground arith

equals_visible : is_visible b'=' && true ≡ true
unfolding is_white
equals_visible = refl

white_inside : (c : ℕ) → is_white c ≡ true → is_inside c ≡ true
unfolding is_white
white_inside c h = ground arith

abbrev semicolon : Char
semicolon = ";"

split-header_text :
    (p : String) (qs : List String)
    → All IsPair (p ∷ qs)
    → split b';' (header_text (p ∷ qs)) ≡ p ∷ qs
split-header_text p [] h = split_whole b';' p h.0
split-header_text p (q ∷ qs) h =
    ap (λ rest. split b';' (p ⧺ rest))
      (cons-append semicolon "" (header_text (q ∷ qs))
        ∙ ap (String.◌∷◌ semicolon) (nil-append (header_text (q ∷ qs))))
    ∙ split-append b';' p semicolon (header_text (q ∷ qs)) h.0 refl
    ∙ ap (λ rest. p ∷ rest) (split-header_text q qs h.1)

find_cookie-skip :
    (earlier later : List String)
    → All IsOther earlier
    → find_cookie (earlier ++ later) ≡ find_cookie later
unfolding find_cookie
find_cookie-skip [] later h = refl
find_cookie-skip (p ∷ ps) later h = rw (find_cookie, h.0.name) (find_cookie-skip ps later h.1)

split_around :
    (earlier : List String) (pair : String) (later : List String)
    → All IsPair (earlier ++ (pair ∷ later))
    → split b';' (header_text (earlier ++ (pair ∷ later))) ≡ earlier ++ (pair ∷ later)
split_around [] pair later h = split-header_text pair later h
split_around (p ∷ ps) pair later h = split-header_text p (ps ++ (pair ∷ later)) h

IsOther-IsPair : (pairs : List String) → All IsOther pairs → All IsPair pairs
IsOther-IsPair [] h = tt
IsOther-IsPair (p ∷ ps) h = (h.0.whole, IsOther-IsPair ps h.1)

module _ (lead rest : String) (blank : all_chars is_white lead ≡ true)
    (visible : all_chars is_visible rest ≡ true) (inside : all_chars is_inside rest ≡ true) where
  abbrev pair : String
  pair = lead ⧺ (session_cookie ⧺ rest)

  pair-IsPair : IsPair pair
  pair-IsPair = all-excludes is_inside b';' refl pair (
      all_append is_inside lead _ (all_weaken is_white is_inside white_inside lead blank)
        (all_append is_inside session_cookie rest refl inside))

  trim-pair : trim pair ≡ session_cookie ⧺ rest
  unfolding is_white
  trim-pair = trim-append lead _ blank (all_append is_visible session_cookie rest refl visible)

  find_cookie-pair : (later : List String) → find_cookie (pair ∷ later) ≡ cookie_value rest
  unfolding find_cookie
  find_cookie-pair later = rw (find_cookie, trim-pair, strip_prefix-append session_cookie rest)

  extract-pair :
      (earlier later : List String)
      → All IsOther earlier
      → All IsPair later
      → extract_session_cookie (present (header_text (earlier ++ (pair ∷ later))))
        ≡ cookie_value rest
  unfolding extract_session_cookie
  extract-pair earlier later h k =
      ap find_cookie (
        split_around earlier pair later
          (All-append IsPair earlier (pair ∷ later) (IsOther-IsPair earlier h) (pair-IsPair, k)))
      ∙ find_cookie-skip earlier (pair ∷ later) h
      ∙ find_cookie-pair later

-- A session token of the alphabet of base64url comes out of a header as it is, whatever cookies
-- follow, if no cookie before it has a name that starts with `__Host-sid`.
pub extract-present :
    (earlier later : List String) (lead token : String)
    → All IsOther earlier
    → All IsPair later
    → all_chars is_white lead ≡ true
    → all_chars is_base64url token ≡ true
    → extract_session_cookie
        (present (header_text (earlier ++ ((lead ⧺ (session_cookie ⧺ ("=" ⧺ token))) ∷ later))))
      ≡ ok token
extract-present earlier later lead token h k blank t =
    extract-pair lead ("=" ⧺ token) blank
      (all_append is_visible "=" token equals_visible
        (all_weaken is_base64url is_visible base64url_visible token t))
      (all_append is_inside "=" token refl
        (all_weaken is_base64url is_inside base64url_inside token t))
      earlier later h k
    ∙ rw (cookie_value, strip_prefix-append "=" token)

-- A cookie whose name starts with `__Host-sid` and goes on with another character than `=`, or ends
-- there, makes the request unauthorized, whatever cookies follow: the session cookie too. No cookie
-- before it has a name that starts with `__Host-sid`, and there is no white space in the rest of it.
pub extract-shadowed :
    (earlier later : List String) (lead rest : String)
    → All IsOther earlier
    → All IsPair later
    → all_chars is_white lead ≡ true
    → all_chars is_visible rest ≡ true
    → contains_char b';' rest ≡ false
    → strip_prefix "=" rest ≡ none
    → extract_session_cookie
        (present (header_text (earlier ++ ((lead ⧺ (session_cookie ⧺ rest)) ∷ later))))
      ≡ err unauthorized
extract-shadowed earlier later lead rest h k blank visible inside e =
    extract-pair lead rest blank visible (excludes-all b';' rest inside) earlier later h k
    ∙ rw (cookie_value, e)
