-- ===== src/Prelude/Members.antt =====
-- The members of a list.
use Prim.Native.Nat.{◌≤◌}
use mathlib.Core.Path.{◌≡◌, refl, sym, subst}
use mathlib.Core.Bool.{Bool, true}
use mathlib.Core.List.{List, [], ◌∷◌}
use mathlib.Core.Logic.{◌⊎◌, inl, inr}
use native.Mathlib.Omega.{arith}
use home_ryanseipp.Prelude.Tests.{Bool-cases}
use home_ryanseipp.Prelude.Lists.{select, count_p, All}

module _ {ℓ} {A : Type ℓ} where
  pub data Within (a : A) : List A → Type ℓ where
    first : {x : A} {xs : List A} → a ≡ x → Within a (x ∷ xs)
    later : {x : A} {xs : List A} → Within a xs → Within a (x ∷ xs)

  pub cases_cons : {a b : A} {l : List A} → Within a (b ∷ l) → (a ≡ b) ⊎ Within a l
  cases_cons (first e) = inl e
  cases_cons (later m) = inr m

  -- A member of a selection is a member of the list that passes the test.
  pub select-Within :
      (p : A → Bool) (xs : List A) (a : A) → Within a (select p xs) → Within a xs × (p a ≡ true)
  select-Within p [] a m = elim m [ ]
  select-Within p (k ∷ ks) a m = elim (Bool-cases (p k)) [
    | inl e ↦
        here e (select-Within p ks a)
          (cases_cons (subst (λ (l : List A). Within a l) (rw e refl) m))
    | inr e ↦
        let (rest, passes) =
          select-Within p ks a (subst (λ (l : List A). Within a l) (rw e refl) m) in
        (later rest, passes)
  ]
    where
      here :
          p k ≡ true
          → (Within a (select p ks) → Within a ks × (p a ≡ true))
          → (a ≡ k) ⊎ Within a (select p ks)
          → Within a (k ∷ ks) × (p a ≡ true)
      here e next (inl same) = (first same, rw same e)
      here e next (inr m) = let (rest, passes) = next m in (later rest, passes)

  pub count_p-Within :
      (p : A → Bool) (xs : List A) (a : A) → Within a xs → p a ≡ true → 1 ≤ count_p p xs
  count_p-Within p [] a m h = elim m [ ]
  count_p-Within p (k ∷ ks) a (first e) h =
      let at_k : p k ≡ true = rw (sym e) h in ground (arith, at_k)
  count_p-Within p (k ∷ ks) a (later m) h = omega (arith, count_p-Within p ks a m h)

  pub All-Within {μ} : (P : A → Type μ) (xs : List A) (a : A) → All P xs → Within a xs → P a
  All-Within P [] a h m = elim m [ ]
  All-Within P (x ∷ xs) a h (first e) = subst P (sym e) h.0
  All-Within P (x ∷ xs) a h (later m) = All-Within P xs a h.1 m
