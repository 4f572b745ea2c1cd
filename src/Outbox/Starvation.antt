-- ===== src/Outbox/Starvation.antt =====
-- Events of an unknown type in a batch (outbox/publisher.rs).
use home_ryanseipp.Prelude.{ℕ, suc, true, false, List, [], ◌∷◌, ◌≡◌, refl, ◌∙◌, All, arith, str_eq}
use home_ryanseipp.Identity.Accounts.{OutboxRow}
use home_ryanseipp.Outbox.{
  Round, Publisher, route_topic, process_event, process_events, poll, run, fetch_unpublished,
}

abbrev pub IsUnrouted : OutboxRow → Type 0
IsUnrouted e = str_eq e.event_type "auth_email" ≡ false

process_events_skipped :
    (r : Round) (i : ℕ) (events : List OutboxRow) (s : Publisher)
    → All IsUnrouted events
    → process_events r i events s ≡ s
unfolding process_events process_event route_topic
process_events_skipped r i [] s h = refl
process_events_skipped r i (e ∷ events) s (h, hs) =
    rw (h, process_events, process_event, route_topic)
      (process_events_skipped r (suc i) events s hs)

poll_starved :
    (n : ℕ) (r : Round) (s : Publisher)
    → All IsUnrouted (fetch_unpublished n s.outbox)
    → ((poll n r s).outbox ≡ s.outbox) × ((poll n r s).log ≡ s.log)
unfolding poll
poll_starved n r s h = ground (
  arith,
  process_events_skipped r 0 (fetch_unpublished n s.outbox) (record s { is_leader = true }) h,
)

-- If the oldest unpublished events that fill a batch all have an unknown type, the publisher sends
-- nothing and marks nothing in any number of rounds, even if no call fails: the events behind them
-- are never sent.
pub run_starved :
    (n : ℕ) (rounds : List Round) (s : Publisher)
    → All IsUnrouted (fetch_unpublished n s.outbox)
    → ((run n rounds s).outbox ≡ s.outbox) × ((run n rounds s).log ≡ s.log)
unfolding run
run_starved n [] s h = (refl, refl)
run_starved n (r ∷ rounds) s h =
    let (rows, log) = poll_starved n r s h in
    let (rows', log') = run_starved n rounds (poll n r s) (rw rows h) in (rows' ∙ rows, log' ∙ log)
