-- ===== src/Prelude/Text.antt =====
-- The parts of Rust's `str` that the services use, over the native texts. `len` of the library
-- counts bytes of UTF-8, as `str::len` does.
pub mod Trimming
use Prim.Native.Char.{Char, code}
use Prim.Native.String
use Prim.Native.String.{String, [], ◌∷◌}
use mathlib.Core.Path.{◌≡◌, refl}
use mathlib.Core.Bool.{Bool, true, false, ◌&&◌, ◌||◌}
use mathlib.Core.List
use mathlib.Core.List.{List}
use mathlib.Core.Option.{Option, none, some}
use Prim.Native.Nat.{ℕ, ◌+◌, ◌/◌, ◌%◌}
use native.Mathlib.Omega.{arith}
use text.Mathlib.TextLemmas.{nil-append, cons-append}
use home_ryanseipp.Prelude.Tests.{◌==◌, leb, if◌then◌else◌}

infixr 66 ◌⧺◌
-- `format!` of texts, one after the other.
abbrev pub ◌⧺◌ : String → String → String
s ⧺ t = String.◌++◌ s t

-- `s.chars().all(p)`, the test on code points.
abbrev pub all_chars : (ℕ → Bool) → String → Bool
all_chars p [] = true
all_chars p (c ∷ s) = p (code c) && all_chars p s

-- Every character of the text has the property.
abbrev pub AllChars : (ℕ → Type 0) → String → Type 0
AllChars P [] = Unit
AllChars P (c ∷ s) = P (code c) × AllChars P s

-- `s.contains(ch)`.
abbrev pub contains_char : ℕ → String → Bool
contains_char d [] = false
contains_char d (c ∷ s) = (code c == d) || contains_char d s

-- `char::is_ascii_alphanumeric`.
abbrev pub is_ascii_alphanumeric : ℕ → Bool
is_ascii_alphanumeric c =
    (leb b'0' c && leb c b'9') || (leb b'a' c && leb c b'z') || (leb b'A' c && leb c b'Z')

-- `s.strip_prefix(p)`.
abbrev pub strip_prefix : String → String → Option String
strip_prefix [] s = some s
strip_prefix (c ∷ p) [] = none
strip_prefix (c ∷ p) (d ∷ s) = if code c == code d then strip_prefix p s else none

abbrev pub cons_head : Char → List String → List String
cons_head c List.[] = List.◌∷◌ (c ∷ []) List.[]
cons_head c (List.◌∷◌ p ps) = List.◌∷◌ (c ∷ p) ps

-- `s.split(ch)`: the parts between the separators, at least one.
unfoldable pub split : ℕ → String → List String
split d [] = List.◌∷◌ "" List.[]
split d (c ∷ s) = let rest = split d s in if code c == d then List.◌∷◌ "" rest else cons_head c rest

unfoldable pub is_white : ℕ → Bool
is_white c =
    (leb 9 c && leb c 13)
    || (c == 32)
    || (c == 0x85)
    || (c == 0xa0)
    || (c == 0x1680)
    || (leb 0x2000 c && leb c 0x200a)
    || (c == 0x2028)
    || (c == 0x2029)
    || (c == 0x202f)
    || (c == 0x205f)
    || (c == 0x3000)

abbrev pub trim_start : String → String
trim_start [] = []
trim_start (c ∷ s) = elim (is_white (code c)) [ true ↦ trim_start s | false ↦ c ∷ s ]

abbrev pub snoc_unless_blank : Char → String → String
snoc_unless_blank c [] = if is_white (code c) then [] else c ∷ []
snoc_unless_blank c (d ∷ s) = c ∷ d ∷ s

abbrev pub trim_end : String → String
trim_end [] = []
trim_end (c ∷ s) = snoc_unless_blank c (trim_end s)

-- `s.trim()`: white space (Unicode White_Space) is taken off both ends.
unfoldable pub trim : String → String
trim s = trim_end (trim_start s)

abbrev cons_unless_last : Char → Bool → String → String
cons_unless_last c drop [] = if drop then [] else c ∷ []
cons_unless_last c drop (d ∷ s) = c ∷ d ∷ s

-- `s.trim_end_matches(ch)`.
unfoldable pub trim_end_matches : ℕ → String → String
trim_end_matches d [] = []
trim_end_matches d (c ∷ s) = cons_unless_last c (code c == d) (trim_end_matches d s)

-- The UTF-8 bytes of a code point.
abbrev pub char_bytes : ℕ → List ℕ
char_bytes c =
    if leb c 0x7f
    then List.◌∷◌ c List.[]
    else if leb c 0x7ff
    then List.◌∷◌ (0xc0 + c / 64) (List.◌∷◌ (0x80 + c % 64) List.[])
    else if leb c 0xffff
    then List.◌∷◌ (0xe0 + c / 4_096)
        (List.◌∷◌ (0x80 + c / 64 % 64) (List.◌∷◌ (0x80 + c % 64) List.[]))
    else List.◌∷◌ (0xf0 + c / 262_144) (
        List.◌∷◌ (0x80 + c / 4_096 % 64)
          (List.◌∷◌ (0x80 + c / 64 % 64) (List.◌∷◌ (0x80 + c % 64) List.[])))

-- `s.as_bytes()`.
unfoldable pub as_bytes : String → List ℕ
as_bytes [] = List.[]
as_bytes (c ∷ s) = List.◌++◌ (char_bytes (code c)) (as_bytes s)

-- A text without the separator is one part.
pub split_whole : (d : ℕ) (s : String) → contains_char d s ≡ false → split d s ≡ List.◌∷◌ s List.[]
unfolding split
split_whole d [] h = refl
split_whole d (c ∷ s) h = ground (arith, split_whole d s)

-- The first part ends at the first separator.
pub split-append :
    (d : ℕ) (s : String) (c : Char) (t : String)
    → contains_char d s ≡ false
    → code c ≡ d
    → split d (s ⧺ (c ∷ t)) ≡ List.◌∷◌ s (split d t)
unfolding split
split-append d [] c t h e = rw nil-append (ground arith)
split-append d (b ∷ s) c t h e = rw cons-append (ground (arith, split-append d s c t))
