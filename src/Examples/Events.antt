-- ===== src/Examples/Events.antt =====
-- Runs of the publisher (outbox/publisher.rs).
use home_ryanseipp.Prelude.{
  String, ℕ, true, false, none, some, List, [], ◌∷◌, ◌≡◌, refl, arith, take, select, All, inl,
}
use home_ryanseipp.Identity.Accounts.{OutboxRow}
use home_ryanseipp.Outbox.{
  Round, Publisher, delivered, fetch_unpublished, sort_by_time, process_events, run,
}
use home_ryanseipp.Outbox.Order.{sent, ids, is_routed, process_events-sent}
use home_ryanseipp.Outbox.Delivery.{In, IsCovered, run-IsDelivered}
use home_ryanseipp.Outbox.Marks.{IsCalm, open_events}
use home_ryanseipp.Outbox.Drain.{run-drains}
use home_ryanseipp.Outbox.Starvation.{run_starved}

abbrev event : ℕ → String → OutboxRow
event n kind = record {
  id = n;
  aggregate_type = "user";
  aggregate_id = 1;
  event_type = kind;
  payload = [];
  trace_id = none;
  span_id = none;
  created_at = n;
  published_at = none;
}

-- A round in which every call succeeds.
abbrev calm : Round
calm = record {
  lock = some true;
  fetch_succeeds = true;
  connects = λ n. true;
  produces = λ n. delivered;
  mark_succeeds = λ n. true;
  now = λ n. n;
  current_span = λ n. none;
}

abbrev holding : List OutboxRow → Publisher
holding events = record { outbox = events; log = []; partition_clients = []; is_leader = false }

abbrev batch : List OutboxRow
batch = event 1 "auth_email" ∷ event 2 "other" ∷ event 3 "auth_email" ∷ []

process_events-sent_example :
    (k : ℕ) × (sent (process_events calm 0 batch (holding batch)).log
      ≡ take k (ids (select is_routed batch)))
process_events-sent_example = process_events-sent calm 0 batch (holding batch)

run-IsDelivered_example :
    All
      (IsCovered (run 2 (calm ∷ calm ∷ []) (holding batch)).log)
      (run 2 (calm ∷ calm ∷ []) (holding batch)).outbox
run-IsDelivered_example =
    run-IsDelivered 2 (calm ∷ calm ∷ []) (holding batch) (inl refl, (inl refl, (inl refl, tt)))

abbrev blocked : List OutboxRow
blocked = event 1 "other" ∷ event 2 "auth_email" ∷ []

run_starved_example :
    ((run 1 (calm ∷ []) (holding blocked)).outbox ≡ blocked)
    × ((run 1 (calm ∷ []) (holding blocked)).log ≡ [])
run_starved_example =
    run_starved 1 (calm ∷ []) (holding blocked)
      (unfold fetch_unpublished sort_by_time in (refl, tt))

abbrev waiting : List OutboxRow
waiting = event 2 "auth_email" ∷ event 1 "auth_email" ∷ []

calm-IsCalm : IsCalm calm
calm-IsCalm = record {
  held = refl;
  fetched = refl;
  connected = λ i. refl;
  produced = λ i. refl;
  marked = λ i. refl;
}

run-drains_example :
    (open_events (run 1 (calm ∷ calm ∷ []) (holding waiting)) ≡ 0)
    × All
        (λ (e : OutboxRow). In e.id (sent (run 1 (calm ∷ calm ∷ []) (holding waiting)).log))
        (run 1 (calm ∷ calm ∷ []) (holding waiting)).outbox
run-drains_example =
    run-drains 0 (calm ∷ calm ∷ []) (holding waiting) (calm-IsCalm, (calm-IsCalm, tt))
      (refl, (refl, tt)) (inl refl, (inl refl, tt)) (ground arith)
