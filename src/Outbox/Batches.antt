-- ===== src/Outbox/Batches.antt =====
-- The batch that fetch_unpublished of outbox/db.rs gives.
use mathlib.Core.Path.{subst}
use home_ryanseipp.Prelude.{
  leb, suc, Bool, true, List, [], ◌∷◌, ◌≡◌, refl, ap, ◌∙◌, inl, inr, select, count_p, length, All,
  All-weaken, arith, Bool-cases,
}
use home_ryanseipp.Effect.{Uuid}
use home_ryanseipp.Identity.Accounts.{OutboxRow}
use home_ryanseipp.Outbox.{is_unpublished, insert_by_time, sort_by_time}
use home_ryanseipp.Outbox.Marks.{Has}

length-insert_by_time :
    (e : OutboxRow) (es : List OutboxRow) → length (insert_by_time e es) ≡ suc (length es)
length-insert_by_time e [] = refl
length-insert_by_time e (f ∷ fs) = ground (arith, length-insert_by_time e fs)

pub length-sort : (es : List OutboxRow) → length (sort_by_time es) ≡ length es
unfolding sort_by_time
length-sort [] = refl
length-sort (e ∷ es) = length-insert_by_time e (sort_by_time es) ∙ ap suc (length-sort es)

pub length-select :
    (p : OutboxRow → Bool) (es : List OutboxRow) → length (select p es) ≡ count_p p es
length-select p [] = refl
length-select p (e ∷ es) = ground (arith, length-select p es)

module _ (P : OutboxRow → Type 0) where
  All-insert_by_time :
      (e : OutboxRow) (es : List OutboxRow) → P e → All P es → All P (insert_by_time e es)
  All-insert_by_time e [] h hs = (h, tt)
  All-insert_by_time e (f ∷ fs) h hs = elim (Bool-cases (leb e.created_at f.created_at)) [
    | inl before ↦ rw before (h, hs)
    | inr after ↦ rw after (hs.0, All-insert_by_time e fs h hs.1)
  ]

  pub All-sort : (es : List OutboxRow) → All P es → All P (sort_by_time es)
  unfolding sort_by_time
  All-sort [] h = tt
  All-sort (e ∷ es) h = All-insert_by_time e (sort_by_time es) h.0 (All-sort es h.1)

  pub All-select : (p : OutboxRow → Bool) (es : List OutboxRow) → All P es → All P (select p es)
  All-select p [] h = tt
  All-select p (e ∷ es) h = elim (Bool-cases (p e)) [
    | inl hit ↦ rw hit (h.0, All-select p es h.1)
    | inr miss ↦ rw miss (All-select p es h.1)
  ]

Has-here : (e : OutboxRow) (es : List OutboxRow) → is_unpublished e ≡ true → Has e.id (e ∷ es)
Has-here e es h = ground (arith, h)

Has-later : (id : Uuid) (e : OutboxRow) (es : List OutboxRow) → Has id es → Has id (e ∷ es)
Has-later id e es h = ground (arith, h)

pub select-Has :
    (es : List OutboxRow) → All (λ (e : OutboxRow). Has e.id es) (select is_unpublished es)
select-Has [] = tt
select-Has (e ∷ es) = go (select-Has es)
  where
    go :
        All (λ (f : OutboxRow). Has f.id es) (select is_unpublished es)
        → All (λ (f : OutboxRow). Has f.id (e ∷ es)) (select is_unpublished (e ∷ es))
    go rest =
        let more =
          All-weaken (λ (f : OutboxRow). Has f.id es) {Q = λ (f : OutboxRow). Has f.id (e ∷ es)}
            (select is_unpublished es) (λ f h. Has-later f.id e es h) rest in
        elim (Bool-cases (is_unpublished e)) [
          | inl hit ↦
              let kept : e ∷ select is_unpublished es ≡ select is_unpublished (e ∷ es) =
                rw hit refl in
              subst (All (λ (f : OutboxRow). Has f.id (e ∷ es))) kept (Has-here e es hit, more)
          | inr miss ↦
              let kept : select is_unpublished es ≡ select is_unpublished (e ∷ es) = rw miss refl in
              subst (All (λ (f : OutboxRow). Has f.id (e ∷ es))) kept more
        ]
