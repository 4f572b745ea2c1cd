-- ===== src/Prelude/Text/Trimming.antt =====
-- Texts of which every character passes a test, and `trim`.
use Prim.Native.Char.{code}
use Prim.Native.String.{String, [], ◌∷◌}
use mathlib.Core.Path.{◌≡◌, refl, ap, ◌∙◌}
use mathlib.Core.Logic.{inl, inr}
use mathlib.Core.Bool.{Bool, true, false, not}
use mathlib.Core.Option.{some}
use Prim.Native.Nat.{ℕ}
use native.Mathlib.Omega.{arith}
use text.Mathlib.TextLemmas.{nil-append, cons-append}
use home_ryanseipp.Prelude.Tests.{◌==◌, ==_iff, Bool-cases}
use home_ryanseipp.Prelude.Text.{
  ◌⧺◌, all_chars, contains_char, is_white, trim, trim_start, trim_end, snoc_unless_blank,
  strip_prefix,
}

abbrev pub is_visible : ℕ → Bool
is_visible c = not (is_white c)

pub all_weaken :
    (p q : ℕ → Bool)
    → ((c : ℕ) → p c ≡ true → q c ≡ true)
    → (s : String) → all_chars p s ≡ true
    → all_chars q s ≡ true
all_weaken p q f [] h = refl
all_weaken p q f (c ∷ s) h = ground (arith, f (code c), all_weaken p q f s)

pub all_append :
    (p : ℕ → Bool) (s t : String)
    → all_chars p s ≡ true
    → all_chars p t ≡ true
    → all_chars p (s ⧺ t) ≡ true
all_append p [] t h k = rw nil-append k
all_append p (c ∷ s) t h k = rw cons-append (ground (arith, all_append p s t))

-- A character that fails the test is not in the text.
pub all-excludes :
    (p : ℕ → Bool) (d : ℕ)
    → p d ≡ false
    → (s : String) → all_chars p s ≡ true
    → contains_char d s ≡ false
all-excludes p d k [] h = refl
all-excludes p d k (c ∷ s) h = elim (Bool-cases (code c == d)) [
  | inl e ↦ clash ((==_iff (code c) d).0 e) (ground arith)
  | inr e ↦ rw (e, all-excludes p d k s (ground arith))
]
  where
    clash : {A : Type 0} → code c ≡ d → p (code c) ≡ true → A
    clash e t = cc

pub excludes-all :
    (d : ℕ) (s : String) → contains_char d s ≡ false → all_chars (λ c. not (c == d)) s ≡ true
excludes-all d [] h = refl
excludes-all d (c ∷ s) h = ground (arith, excludes-all d s)

trim_end-visible : (s : String) → all_chars is_visible s ≡ true → trim_end s ≡ s
trim_end-visible [] h = refl
trim_end-visible (c ∷ []) h = ground arith
trim_end-visible (c ∷ d ∷ s) h = ap (snoc_unless_blank c) (trim_end-visible (d ∷ s) (ground arith))

trim_start-visible : (s : String) → all_chars is_visible s ≡ true → trim_start s ≡ s
trim_start-visible [] h = refl
trim_start-visible (c ∷ s) h = ground arith

trim_start-append :
    (lead s : String) → all_chars is_white lead ≡ true → trim_start (lead ⧺ s) ≡ trim_start s
trim_start-append [] s h = ap trim_start (nil-append s)
trim_start-append (c ∷ lead) s h = rw cons-append (ground (arith, trim_start-append lead s))

-- White space before a text without any is all that `trim` takes off.
pub trim-append :
    (lead s : String)
    → all_chars is_white lead ≡ true
    → all_chars is_visible s ≡ true
    → trim (lead ⧺ s) ≡ s
unfolding trim
trim-append lead s h k =
    ap trim_end (trim_start-append lead s h ∙ trim_start-visible s k) ∙ trim_end-visible s k

pub strip_prefix-append : (s t : String) → strip_prefix s (s ⧺ t) ≡ some t
strip_prefix-append [] t = ap some (nil-append t)
strip_prefix-append (c ∷ s) t = rw cons-append (ground (arith, strip_prefix-append s t))
