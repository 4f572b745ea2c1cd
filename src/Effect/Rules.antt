-- ===== src/Effect/Rules.antt =====
-- Rules for actions: what keeps the database, what changes it only on success, and the inversion
-- of a successful run.
use home_ryanseipp.Prelude.{
  ℕ, Bool, if◌then◌else◌, ◌≡◌, refl, sym, ◌∙◌, Result, ok, err, map_err, true, false, ap,
}
use home_ryanseipp.Effect.{World, Act, pure, fail, lift, ask, ◌>>=◌, resume, map_error}
use mathlib.Core.Path.{subst}

module _ {D E A : Type 0} where
  -- The content of the database is the same after `m`, whatever its result.
  pub record Reads (m : Act D E A) : Type 0 where
    pub same : (w : World D) → (m w).1.db ≡ w.db

  -- If `m` fails, the content is the same.
  pub record IsAtomic (m : Act D E A) : Type 0 where
    pub undone : (w : World D) (e : E) → (m w).0 ≡ err e → (m w).1.db ≡ w.db

  -- `m` keeps the property `P` of the content, whatever its result.
  pub record Keeps (P : D → Type 0) (m : Act D E A) : Type 0 where
    pub kept : (w : World D) → P w.db → P (m w).1.db

  pub Reads-IsAtomic : {m : Act D E A} → Reads m → IsAtomic m
  Reads-IsAtomic r = record { undone = λ w e h. r.same w }

  pub Reads-Keeps : (P : D → Type 0) {m : Act D E A} → Reads m → Keeps P m
  Reads-Keeps P r = record { kept = λ w h. subst P (sym (r.same w)) h }

  pub Reads-lift : (r : Result E A) → Reads (lift r)
  Reads-lift r = record { same = λ w. refl }

module _ {D E A B : Type 0} where
  pub Reads-bind :
      (m : Act D E A) (f : A → Act D E B) → Reads m → ((a : A) → Reads (f a)) → Reads (m >>= f)
  unfolding ◌>>=◌
  Reads-bind m f rm rf = record { same = λ w. step (m w) (rm.same w) }
    where
      step : {d : D} (r : Result E A × World D) → r.1.db ≡ d → (resume r f).1.db ≡ d
      step (ok a, w') e = (rf a).same w' ∙ e
      step (err x, w') e = e

  -- Reads before an atomic action leave it atomic.
  pub IsAtomic-bind :
      (m : Act D E A) (f : A → Act D E B)
      → Reads m
      → ((a : A) → IsAtomic (f a))
      → IsAtomic (m >>= f)
  unfolding ◌>>=◌
  IsAtomic-bind m f rm rf = record { undone = λ w x h. step (m w) (rm.same w) x h }
    where
      step :
          {d : D} (r : Result E A × World D)
          → r.1.db ≡ d
          → (x : E) → (resume r f).0 ≡ err x
          → (resume r f).1.db ≡ d
      step (ok a, w') e x h = (rf a).undone w' x h ∙ e
      step (err y, w') e x h = e

  pub Keeps-bind :
      (P : D → Type 0) (m : Act D E A) (f : A → Act D E B)
      → Keeps P m
      → ((a : A) → Keeps P (f a))
      → Keeps P (m >>= f)
  unfolding ◌>>=◌
  Keeps-bind P m f km kf = record { kept = λ w h. step (m w) (km.kept w h) }
    where
      step : (r : Result E A × World D) → P r.1.db → P (resume r f).1.db
      step (ok a, w') e = (kf a).kept w' e
      step (err x, w') e = e

  -- A run that ends well passed through a value of its first part.
  pub bind-eq-ok :
      (m : Act D E A) (f : A → Act D E B) (w : World D) {b : B}
      → ((m >>= f) w).0 ≡ ok b
      → (a : A) × (w' : World D) × (m w ≡ (ok a, w')) × ((f a w').0 ≡ ok b) × ((m >>= f) w ≡ f a w')
  unfolding ◌>>=◌
  bind-eq-ok m f w {b} h = step (m w) refl h
    where
      step :
          (r : Result E A × World D)
          → m w ≡ r
          → (resume r f).0 ≡ ok b
          → (a : A) × (w' : World D) × (m w ≡ (ok a, w'))
            × ((f a w').0 ≡ ok b)
            × (resume (m w) f ≡ f a w')
      step (ok a, w') e h = (a, w', e, h, ap (λ (r : Result E A × World D). resume r f) e)
      step (err x, w') e h = cc

module _ {D E F A : Type 0} where
  pub Reads-map_error : (f : E → F) (m : Act D E A) → Reads m → Reads (map_error f m)
  unfolding map_error
  Reads-map_error f m r = record { same = λ w. r.same w }

  pub Keeps-map_error :
      (P : D → Type 0) (f : E → F) (m : Act D E A) → Keeps P m → Keeps P (map_error f m)
  unfolding map_error
  Keeps-map_error P f m k = record { kept = λ w h. k.kept w h }

  pub IsAtomic-map_error : (f : E → F) (m : Act D E A) → IsAtomic m → IsAtomic (map_error f m)
  unfolding map_error
  IsAtomic-map_error f m r = record { undone = λ w e h. step w (m w).0 refl e h }
    where
      step :
          (w : World D) (x : Result E A)
          → (m w).0 ≡ x
          → (e : F) → map_err f (m w).0 ≡ err e
          → (m w).1.db ≡ w.db
      step w (ok a) p e h = cc
      step w (err x) p e h = r.undone w x p

  pub map_error-eq-ok :
      (f : E → F) (m : Act D E A) (w w' : World D) {a : A}
      → map_error f m w ≡ (ok a, w')
      → m w ≡ (ok a, w')
  unfolding map_error
  map_error-eq-ok f m w w' {a} h = step (m w) h
    where
      step :
          (r : Result E A × World D)
          → ◌≡◌ {A = Result F A × World D} (map_err f r.0, r.1) (ok a, w')
          → r ≡ (ok a, w')
      step (ok x, v) h = cc
      step (err x, v) h = cc

module _ {D E A : Type 0} where
  pub Reads-ask : (f : ℕ → A) → Reads {D = D} {E = E} (ask f)
  unfolding ask
  Reads-ask f = record { same = λ w. refl }

  pub Reads-pure : (a : A) → Reads {D = D} {E = E} (pure a)
  Reads-pure a = record { same = λ w. refl }

  pub Reads-fail : (e : E) → Reads {D = D} {A = A} (fail e)
  Reads-fail e = record { same = λ w. refl }

  pub Reads-if : (b : Bool) (m n : Act D E A) → Reads m → Reads n → Reads (if b then m else n)
  Reads-if true m n rm rn = rm
  Reads-if false m n rm rn = rn

  pub IsAtomic-if :
      (b : Bool) (m n : Act D E A) → IsAtomic m → IsAtomic n → IsAtomic (if b then m else n)
  IsAtomic-if true m n rm rn = rm
  IsAtomic-if false m n rm rn = rn

-- A run, by its result and the world that it leaves.
pub run_of_ok :
    {D E A : Type 0} (m : Act D E A) (w : World D) {a : A} → (m w).0 ≡ ok a → m w ≡ (ok a, (m w).1)
run_of_ok m w h = λ i. (h i, (m w).1)
