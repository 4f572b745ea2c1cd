-- ===== src/Outbox/Delivery.antt =====
-- Marks and records of events (outbox/publisher.rs).
use mathlib.Core.List.{map-append}
use home_ryanseipp.Prelude.{
  String, Option, ℕ, suc, true, List, [], ◌∷◌, ◌++◌, ◌≡◌, refl, ◌⊎◌, inl, inr, some, none, All,
  Result, ok, err, arith, ◌==◌, Bool-cases,
}
use home_ryanseipp.Effect.{Uuid, Timestamp}
use home_ryanseipp.Identity.Accounts.{OutboxRow}
use home_ryanseipp.Outbox.{
  OutboxError, route_topic, after_route, Record, Round, Publisher, is_unpublished, mark_published,
  record_of, get_client, produce_and_mark, publish, process_event, process_events, poll, run,
  fetch_unpublished,
}
use home_ryanseipp.Outbox.Order.{sent, get_client-log}

-- The list has the id.
abbrev pub In : Uuid → List Uuid → Type 0
In x [] = ⊥
In x (y ∷ ys) = (x ≡ y) ⊎ In x ys

-- The event is not marked, or a record of it is in the log.
abbrev pub IsCovered : List Record → OutboxRow → Type 0
IsCovered log e = (is_unpublished e ≡ true) ⊎ In e.id (sent log)

In-append : (x : Uuid) (xs ys : List Uuid) → In x xs → In x (xs ++ ys)
In-append x [] ys h = elim h [ ]
In-append x (y ∷ xs) ys (inl e) = inl e
In-append x (y ∷ xs) ys (inr h) = inr (In-append x xs ys h)

In-last : (x : Uuid) (xs : List Uuid) → In x (xs ++ x ∷ [])
In-last x [] = inl refl
In-last x (y ∷ xs) = inr (In-last x xs)

grow :
    (log : List Record) (r : Record) (es : List OutboxRow)
    → All (IsCovered log) es
    → All (IsCovered (log ++ r ∷ [])) es
grow log r [] h = tt
grow log r (e ∷ es) (inl open_event, h) = (inl open_event, grow log r es h)
grow log r (e ∷ es) (inr there, h) =
    (inr (rw map-append (In-append e.id (sent log) (r.event_id ∷ []) there)), grow log r es h)

mark :
    (log : List Record) (id : Uuid) (now : Timestamp) (es : List OutboxRow)
    → In id (sent log)
    → All (IsCovered log) es
    → All (IsCovered log) (mark_published id now es)
unfolding mark_published
mark log id now [] there h = tt
mark log id now (e ∷ es) there (h, hs) = (
  elim (Bool-cases (e.id == id)) [
    | inl same ↦ rw same (inr (let p : e.id ≡ id = ground arith in rw p there))
    | inr other ↦ rw other h
  ],
  mark log id now es there hs,
)

-- The invariant of the publisher: what is marked was sent.
abbrev pub IsDelivered : Publisher → Type 0
IsDelivered s = All (IsCovered s.log) s.outbox

produce_and_mark-IsDelivered :
    (r : Round) (i : ℕ) (topic : String) (e : OutboxRow) (s : Publisher)
    → IsDelivered s
    → IsDelivered (produce_and_mark r i topic e s).0
unfolding produce_and_mark
produce_and_mark-IsDelivered r i topic e s h =
    let grown = grow s.log (record_of r i topic e) s.outbox h in
    let there : In e.id (sent (s.log ++ record_of r i topic e ∷ [])) =
      unfold record_of in rw map-append (In-last e.id (sent s.log)) in
    ground
      (arith, grown, mark (s.log ++ record_of r i topic e ∷ []) e.id (r.now i) s.outbox there grown)

get_client-IsDelivered :
    (r : Round) (i : ℕ) (topic : String) (s v : Publisher)
    → get_client r i topic s ≡ some v
    → IsDelivered s
    → IsDelivered v
get_client-IsDelivered r i topic s v e h =
    let (log, outbox) = get_client-log r i topic s v e in rw (log, outbox) h

process_event-IsDelivered :
    (r : Round) (i : ℕ) (e : OutboxRow) (s : Publisher)
    → IsDelivered s
    → IsDelivered (process_event r i e s).0
unfolding process_event publish
process_event-IsDelivered r i e s h = routed (route_topic e.event_type)
  where
    client :
        (topic : String) (c : Option Publisher)
        → get_client r i topic s ≡ c
        → IsDelivered (publish r i topic e s).0
    client topic none p = rw (p, publish) h
    client topic (some v) p =
        rw (p, publish)
          (produce_and_mark-IsDelivered r i topic e v (get_client-IsDelivered r i topic s v p h))

    routed : (t : Result OutboxError String) → IsDelivered (after_route r i e s t).0
    routed (err x) = h
    routed (ok topic) = client topic (get_client r i topic s) refl

process_events-IsDelivered :
    (r : Round) (i : ℕ) (events : List OutboxRow) (s : Publisher)
    → IsDelivered s
    → IsDelivered (process_events r i events s)
unfolding process_events
process_events-IsDelivered r i [] s h = h
process_events-IsDelivered r i (e ∷ events) s h =
    let here = process_event-IsDelivered r i e s h in
    let later = process_events-IsDelivered r (suc i) events (process_event r i e s).0 here in
    elim (Bool-cases (process_event r i e s).1) [
      | inl more ↦ rw more later
      | inr last ↦ rw last here
    ]

poll-IsDelivered : (n : ℕ) (r : Round) (s : Publisher) → IsDelivered s → IsDelivered (poll n r s)
unfolding poll
poll-IsDelivered n r s h = ground (
  arith,
  process_events-IsDelivered r 0 (fetch_unpublished n s.outbox) (record s { is_leader = true }) h,
)

-- In any number of rounds, whatever fails in them, no event is marked as published before a record
-- of it is in the topic.
pub run-IsDelivered :
    (n : ℕ) (rounds : List Round) (s : Publisher)
    → All (IsCovered s.log) s.outbox
    → All (IsCovered (run n rounds s).log) (run n rounds s).outbox
unfolding run
run-IsDelivered n [] s h = h
run-IsDelivered n (r ∷ rounds) s h =
    run-IsDelivered n rounds (poll n r s) (poll-IsDelivered n r s h)
