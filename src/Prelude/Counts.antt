-- ===== src/Prelude/Counts.antt =====
-- Counts and tests on a list to which a row is added, or in which rows are rewritten.
use Prim.Native.Nat.{◌≤◌}
use mathlib.Core.Path.{◌≡◌, refl}
use mathlib.Core.Bool.{Bool, true, false}
use mathlib.Core.List.{List, [], ◌∷◌, ◌++◌}
use mathlib.Core.Option.{none}
use mathlib.Core.Logic.{inl, inr}
use native.Mathlib.Omega.{arith}
use home_ryanseipp.Prelude.Tests.{Bool-cases}
use home_ryanseipp.Prelude.Lists.{any, find, select, count_p, modify, count_p-append, All}

module _ {ℓ} {A : Type ℓ} where
  pub count_p-eq-zero : (q : A → Bool) (xs : List A) → any q xs ≡ false → count_p q xs ≡ 0
  count_p-eq-zero q [] h = refl
  count_p-eq-zero q (x ∷ xs) h = ground (arith, count_p-eq-zero q xs)

  -- A row that fits a unique index keeps it unique.
  pub count_p-insert :
      (q : A → Bool) (xs : List A) (x : A)
      → count_p q xs ≤ 1
      → (q x ≡ true → any q xs ≡ false)
      → count_p q (xs ++ x ∷ []) ≤ 1
  count_p-insert q xs x h free = elim (Bool-cases (q x)) [
    | inl hit ↦ ground (arith, count_p-append q xs (x ∷ []), count_p-eq-zero q xs (free hit))
    | inr miss ↦ ground (arith, count_p-append q xs (x ∷ []))
  ]

  pub any-append : (q : A → Bool) (xs ys : List A) → any q xs ≡ true → any q (xs ++ ys) ≡ true
  any-append q [] ys h = cc
  any-append q (x ∷ xs) ys h = ground (arith, any-append q xs ys)

  module _ (p q : A → Bool) (f : A → A) where
    -- A rewriting that a test does not see.
    pub count_p-modify :
        (xs : List A) → ((x : A) → q (f x) ≡ q x) → count_p q (modify p f xs) ≡ count_p q xs
    count_p-modify [] h = refl
    count_p-modify (x ∷ xs) h = ground (arith, h x, count_p-modify xs h)

    pub any-modify : (xs : List A) → ((x : A) → q (f x) ≡ q x) → any q (modify p f xs) ≡ any q xs
    any-modify [] h = refl
    any-modify (x ∷ xs) h = ground (arith, h x, any-modify xs h)

    -- A rewriting after which no more rows pass the test.
    pub count_p-modify-le :
        (xs : List A)
        → ((x : A) → q (f x) ≡ true → q x ≡ true)
        → count_p q (modify p f xs) ≤ count_p q xs
    count_p-modify-le [] h = omega arith
    count_p-modify-le (x ∷ xs) h = ground (arith, h x, count_p-modify-le xs h)

  module _ {κ} (P : A → Type κ) where
    pub All-modify :
        (p : A → Bool) (f : A → A) (xs : List A)
        → ((x : A) → P x → P (f x))
        → All P xs
        → All P (modify p f xs)
    All-modify p f [] h a = tt
    All-modify p f (x ∷ xs) h a = elim (Bool-cases (p x)) [
      | inl hit ↦ rw hit (h x a.0, All-modify p f xs h a.1)
      | inr miss ↦ rw miss (a.0, All-modify p f xs h a.1)
    ]

    pub All-weaken {μ} :
        {Q : A → Type μ} (xs : List A) → ((x : A) → P x → Q x) → All P xs → All Q xs
    All-weaken [] h a = tt
    All-weaken (x ∷ xs) h a = (h x a.0, All-weaken xs h a.1)

  -- A search among the elements that pass another test.
  pub find-select :
      (p q : A → Bool) (xs : List A)
      → ((x : A) → p x ≡ true → q x ≡ true)
      → find p (select q xs) ≡ find p xs
  find-select p q [] f = refl
  find-select p q (x ∷ xs) f = ground (arith, f x, find-select p q xs f)

  pub find-select-none :
      (p q : A → Bool) (xs : List A)
      → ((x : A) → p x ≡ true → q x ≡ false)
      → find p (select q xs) ≡ none
  find-select-none p q [] f = refl
  find-select-none p q (x ∷ xs) f = ground (arith, f x, find-select-none p q xs f)

  pub select-append :
      (p : A → Bool) (xs ys : List A) → select p (xs ++ ys) ≡ select p xs ++ select p ys
  select-append p [] ys = refl
  select-append p (x ∷ xs) ys = ground (arith, select-append p xs ys)

  pub select-select :
      (p q : A → Bool) (xs : List A)
      → ((x : A) → q x ≡ true → p x ≡ true)
      → select p (select q xs) ≡ select q xs
  select-select p q [] f = refl
  select-select p q (x ∷ xs) f = ground (arith, f x, select-select p q xs f)

  pub count_p-select :
      (p q : A → Bool) (xs : List A)
      → ((x : A) → q x ≡ true → p x ≡ false)
      → count_p p (select q xs) ≡ 0
  count_p-select p q [] f = refl
  count_p-select p q (x ∷ xs) f = ground (arith, f x, count_p-select p q xs f)

  pub count_p-select_of_imp :
      (p q : A → Bool) (xs : List A)
      → ((x : A) → p x ≡ true → q x ≡ true)
      → count_p p (select q xs) ≡ count_p p xs
  count_p-select_of_imp p q [] f = refl
  count_p-select_of_imp p q (x ∷ xs) f = ground (arith, f x, count_p-select_of_imp p q xs f)

  -- A search goes on after a list in which nothing is found.
  pub find-append :
      (p : A → Bool) (xs ys : List A) → count_p p xs ≡ 0 → find p (xs ++ ys) ≡ find p ys
  find-append p [] ys h = refl
  find-append p (x ∷ xs) ys h = ground (arith, find-append p xs ys)
