-- ===== src/Effect/Ensures.antt =====
-- Postconditions of actions that end well, over the content of the database before and after.
use mathlib.Core.Path.{subst}
use home_ryanseipp.Prelude.{
  ◌+◌, Bool, true, false, if◌then◌else◌, ◌≡◌, refl, sym, ◌∙◌, ap, Result, ok, err,
}
use home_ryanseipp.Effect.{Env, DbError, World, Act, fail, lift, ◌>>=◌, transaction}
use home_ryanseipp.Effect.Rules.{Reads, bind-eq-ok}
use home_ryanseipp.Effect.Calls.{transaction-eq-ok}

-- If `m` ends well with `a`, the content before, the content after and `a` are in the relation.
pub record Ensures {D E A : Type 0} (Q : D → D → A → Type 0) (m : Act D E A) : Type 0 where
  pub after : (w : World D) (a : A) → (m w).0 ≡ ok a → Q w.db (m w).1.db a

module _ {D E A B : Type 0} (Q : D → D → B → Type 0) where
  pub Ensures-bind :
      (m : Act D E A) (f : A → Act D E B)
      → Reads m
      → ((a : A) → Ensures Q (f a))
      → Ensures Q (m >>= f)
  Ensures-bind m f reads k = record {
    after = λ w b h.
        let (a, w', here, rest, same) = bind-eq-ok m f w h in
        let kept = ap (λ (r : Result E A × World D). r.1.db) (sym here) ∙ reads.same w in
        subst (λ d. Q d ((m >>= f) w).1.db b) kept
          (subst (λ (r : Result E B × World D). Q w'.db r.1.db b) (sym same)
            ((k a).after w' b rest));
  }

  -- What follows may use the run that gave its value, and that the content is still the same.
  pub Ensures-bind-eq :
      (m : Act D E A) (f : A → Act D E B)
      → Reads m
      → ((a : A) (w w' : World D)
          → m w ≡ (ok a, w')
          → Ensures (λ before after b. before ≡ w.db → Q before after b) (f a))
      → Ensures Q (m >>= f)
  Ensures-bind-eq m f reads k = record {
    after = λ w b h.
        let (a, w', here, rest, same) = bind-eq-ok m f w h in
        let kept = ap (λ (r : Result E A × World D). r.1.db) (sym here) ∙ reads.same w in
        subst (λ d. Q d ((m >>= f) w).1.db b) kept
          (subst (λ (r : Result E B × World D). Q w'.db r.1.db b) (sym same)
            ((k a w w' here).after w' b rest kept));
  }

  -- What follows a result that needs no database may use the result.
  pub Ensures-bind-lift :
      (r : Result E A) (f : A → Act D E B)
      → ((a : A) → r ≡ ok a → Ensures Q (f a))
      → Ensures Q (lift r >>= f)
  unfolding ◌>>=◌
  Ensures-bind-lift (ok a) f k = record { after = λ w b h. (k a refl).after w b h }
  Ensures-bind-lift (err e) f k = record { after = λ w b h. cc }

module _ {D E A : Type 0} (Q : D → D → A → Type 0) where
  pub Ensures-fail : (e : E) → Ensures Q (fail e)
  Ensures-fail e = record { after = λ w a h. cc }

  pub Ensures-if :
      (b : Bool) (m n : Act D E A)
      → (b ≡ true → Ensures Q m)
      → (b ≡ false → Ensures Q n)
      → Ensures Q (if b then m else n)
  Ensures-if true m n km kn = km refl
  Ensures-if false m n km kn = kn refl

module _ {D : Type 0} (env : Env) where
  pub Ensures-transaction :
      {E A : Type 0} (Q : D → D → A → Type 0) (f : DbError → E) (body : Act D E A)
      → Ensures Q body
      → Ensures Q (transaction env f body)
  Ensures-transaction Q f body k = record {
    after = λ w a h.
        let (done, same) = transaction-eq-ok env f body w h in
        subst (λ d. Q w.db d a) (sym same) (k.after (record w { calls = w.calls + 1 }) a done);
  }
