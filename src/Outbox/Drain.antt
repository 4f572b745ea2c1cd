-- ===== src/Outbox/Drain.antt =====
-- Rounds of the publisher (outbox/publisher.rs) in which no call fails.
use home_ryanseipp.Prelude.{
  ℕ, suc, ◌≤◌, ◌<◌, true, List, [], ◌∷◌, ◌≡◌, ◌⊎◌, sym, ◌∙◌, inl, inr, select, count_p, length,
  take, All, arith,
}
use home_ryanseipp.Identity.Accounts.{OutboxRow}
use home_ryanseipp.Outbox.{
  Record, Round, Publisher, is_unpublished, sort_by_time, process_events, poll, run,
  fetch_unpublished,
}
use home_ryanseipp.Outbox.Order.{sent}
use home_ryanseipp.Outbox.Delivery.{In, IsCovered, run-IsDelivered}
use home_ryanseipp.Outbox.Marks.{
  IsCalm, IsRouted, open_events, Has, Shrinks, Shrinks-process_events, process_events-lt,
}
use home_ryanseipp.Outbox.Batches.{length-sort, length-select, All-sort, All-select, select-Has}

-- The batch of a round, if the table has open events of known types.
sorted-Has :
    (es : List OutboxRow)
    → All IsRouted es
    → All (λ (e : OutboxRow). IsRouted e × Has e.id es) (sort_by_time (select is_unpublished es))
sorted-Has es h =
    All-sort (λ (e : OutboxRow). IsRouted e × Has e.id es) (select is_unpublished es)
      (All-both (select is_unpublished es) (All-select IsRouted is_unpublished es h)
        (select-Has es))
  where
    All-both :
        (xs : List OutboxRow)
        → All IsRouted xs
        → All (λ (e : OutboxRow). Has e.id es) xs
        → All (λ (e : OutboxRow). IsRouted e × Has e.id es) xs
    All-both [] a b = tt
    All-both (x ∷ xs) a b = ((a.0, b.0), All-both xs a.1 b.1)

-- A round without failures marks an open event, if there is one.
batch-lt :
    (n : ℕ) (r : Round) (s : Publisher) (l : List OutboxRow)
    → IsCalm r
    → All (λ (e : OutboxRow). IsRouted e × Has e.id s.outbox) l
    → length l ≡ open_events s
    → (open_events (process_events r 0 (take (suc n) l) s) < open_events s) ⊎ (open_events s ≡ 0)
batch-lt n r s [] calm all long = inr (sym long)
batch-lt n r s (e ∷ es) calm all long =
    inl (process_events-lt r 0 e (take n es) s calm all.0.0 all.0.1)

poll-calm :
    (n : ℕ) (r : Round) (s : Publisher)
    → IsCalm r
    → poll n r s ≡ process_events r 0 (fetch_unpublished n s.outbox) (record s { is_leader = true })
unfolding poll
poll-calm n r s calm = ground (arith, calm.held, calm.fetched)

poll-Shrinks : (n : ℕ) (r : Round) (s : Publisher) → IsCalm r → Shrinks s.outbox (poll n r s).outbox
poll-Shrinks n r s calm =
    rw (poll-calm n r s calm)
      (Shrinks-process_events r 0 (fetch_unpublished n s.outbox) (record s { is_leader = true }))

poll-lt :
    (n : ℕ) (r : Round) (s : Publisher)
    → IsCalm r
    → All IsRouted s.outbox
    → (open_events (poll (suc n) r s) < open_events s) ⊎ (open_events s ≡ 0)
unfolding fetch_unpublished
poll-lt n r s calm routed = rw (poll-calm (suc n) r s calm) (
    batch-lt n r (record s { is_leader = true }) (sort_by_time (select is_unpublished s.outbox))
      calm (sorted-Has s.outbox routed)
      (length-sort (select is_unpublished s.outbox) ∙ length-select is_unpublished s.outbox))

run-empty :
    (n : ℕ) (rounds : List Round) (s : Publisher)
    → All IsCalm rounds
    → All IsRouted s.outbox
    → open_events s ≤ length rounds
    → open_events (run (suc n) rounds s) ≡ 0
unfolding run
run-empty n [] s calm routed bound = omega (arith, bound)
run-empty n (r ∷ rounds) s calm routed bound =
    let next = poll-Shrinks (suc n) r s calm.0 in
    let fewer : open_events (poll (suc n) r s) ≤ length rounds =
      elim (poll-lt n r s calm.0 routed) [
        | inl less ↦ omega (arith, less, bound)
        | inr none_open ↦ omega (arith, none_open, next.fewer)
      ] in
    run-empty n rounds (poll (suc n) r s) calm.1 (next.routed routed) fewer

All-sent :
    (log : List Record) (es : List OutboxRow)
    → count_p is_unpublished es ≡ 0
    → All (IsCovered log) es
    → All (λ (e : OutboxRow). In e.id (sent log)) es
All-sent log [] h a = tt
All-sent log (e ∷ es) h (inl open_event, a) = ground (arith, open_event)
All-sent log (e ∷ es) h (inr there, a) = (there, All-sent log es (ground arith) a)

-- If no call fails, all events have the known type and the marked ones had a record at the start,
-- then after as many rounds as there are unpublished events no event is unpublished and each event
-- of the table has a record in the topic, whatever the size of the batch is, if it is not zero.
pub run-drains :
    (n : ℕ) (rounds : List Round) (s : Publisher)
    → All IsCalm rounds
    → All IsRouted s.outbox
    → All (IsCovered s.log) s.outbox
    → open_events s ≤ length rounds
    → (open_events (run (suc n) rounds s) ≡ 0)
      × All
          (λ (e : OutboxRow). In e.id (sent (run (suc n) rounds s).log))
          (run (suc n) rounds s).outbox
run-drains n rounds s calm routed covered bound =
    let done = run-empty n rounds s calm routed bound in
    (
      done,
      All-sent (run (suc n) rounds s).log (run (suc n) rounds s).outbox done
          (run-IsDelivered (suc n) rounds s covered),
    )
