-- ===== src/Outbox/Order.antt =====
-- The order in which the publisher of outbox/publisher.rs sends events.
use home_ryanseipp.Prelude.{
  some, ℕ, suc, String, Bool, true, false, List, [], ◌∷◌, ◌++◌, ◌≡◌, refl, sym, ap, ◌∙◌, map,
  Option-cases, if◌then◌else◌, take, select, str_eq, arith, Bool-cases, inl, inr,
}
use home_ryanseipp.Effect.{Uuid}
use mathlib.Core.List.{map-append, append-nil, append_assoc}
use home_ryanseipp.Identity.Accounts.{OutboxRow}
use home_ryanseipp.Outbox.{
  Record, Round, Publisher, Produced, delivered, refused, answer_lost, route_topic, record_of,
  get_client, produce_and_mark, publish, process_event, process_events,
}

abbrev pub is_routed : OutboxRow → Bool
is_routed e = str_eq e.event_type "auth_email"

abbrev pub ids : List OutboxRow → List Uuid
ids = map (λ (e : OutboxRow). e.id)

abbrev pub sent : List Record → List Uuid
sent = map (λ (r : Record). r.event_id)

-- The three things that can happen to the log at one event: the event is skipped, the loop stops
-- before it is sent, or it is sent.
pub data Effect (e : OutboxRow) (s : Publisher) (r : Publisher × Bool) : Type 0 where
  skipped : is_routed e ≡ false → r ≡ (s, true) → Effect e s r
  stopped : is_routed e ≡ true → r.1 ≡ false → sent r.0.log ≡ sent s.log → Effect e s r
  logged : is_routed e ≡ true → sent r.0.log ≡ sent s.log ++ e.id ∷ [] → Effect e s r

produce_and_mark-Effect :
    (r : Round) (i : ℕ) (topic : String) (e : OutboxRow) (s v : Publisher)
    → is_routed e ≡ true
    → v.log ≡ s.log
    → Effect e s (produce_and_mark r i topic e v)
produce_and_mark-Effect r i topic e s v routed same = go (r.produces i) refl
  where
    grown : sent (v.log ++ record_of r i topic e ∷ []) ≡ sent s.log ++ e.id ∷ []
    grown = unfold record_of in rw (map-append, same)

    go : (o : Produced) → r.produces i ≡ o → Effect e s (produce_and_mark r i topic e v)
    go refused o =
        unfold produce_and_mark in rw (o, produce_and_mark) (stopped routed refl (ap sent same))
    go answer_lost o = unfold produce_and_mark in rw (o, produce_and_mark) (logged routed grown)
    go delivered o =
        unfold produce_and_mark in rw (o, produce_and_mark) (logged routed (ground (arith, grown)))

pub get_client-log :
    (r : Round) (i : ℕ) (topic : String) (s v : Publisher)
    → get_client r i topic s ≡ some v
    → (v.log ≡ s.log) × (v.outbox ≡ s.outbox)
unfolding get_client
get_client-log r i topic s v h = ground arith

process_event-Effect :
    (r : Round) (i : ℕ) (e : OutboxRow) (s : Publisher) → Effect e s (process_event r i e s)
unfolding process_event publish route_topic
process_event-Effect r i e s = elim (Bool-cases (is_routed e)) [
  | inr other ↦ rw (other, process_event, route_topic) (skipped other refl)
  | inl routed ↦ elim (Option-cases (get_client r i "email.auth" s)) [
    | inl e1 ↦ rw (routed, e1, process_event, route_topic, publish) (stopped routed refl refl)
    | inr (v, e1) ↦
        rw (routed, e1, process_event, route_topic, publish)
          (produce_and_mark-Effect r i "email.auth" e s v routed
            (get_client-log r i "email.auth" s v e1).0)
  ]
]

-- The ids that a round sends are a first part of the batch's events of a known type, in the order
-- of the batch: no event overtakes another, whatever fails.
pub process_events-sent :
    (r : Round) (i : ℕ) (events : List OutboxRow) (s : Publisher)
    → (k : ℕ) × (sent (process_events r i events s).log
        ≡ sent s.log ++ take k (ids (select is_routed events)))
unfolding process_events
process_events-sent r i [] s = (0, sym (append-nil _))
process_events-sent r i (e ∷ events) s =
    step (process_event r i e s) (process_event-Effect r i e s)
      (process_events-sent r (suc i) events (process_event r i e s).0)
  where
    step :
        (p : Publisher × Bool)
        → Effect e s p
        → ((k : ℕ) × (sent (process_events r (suc i) events p.0).log
              ≡ sent p.0.log ++ take k (ids (select is_routed events))))
        → (k : ℕ) × (sent (if p.1 then process_events r (suc i) events p.0 else p.0).log
            ≡ sent s.log ++ take k (ids (select is_routed (e ∷ events))))
    step p (skipped other same) (k, ih) = (k, rw (same, other) (rw same at ih))
    step p (stopped routed stops same) ih = (0, rw stops (same ∙ sym (append-nil _)))
    step p (logged routed grown) (k, ih) = elim (Bool-cases p.1) [
      | inl more ↦ (
        suc k,
        rw (more, routed)
            (ih
              ∙ ap (λ l. l ++ take k (ids (select is_routed events))) grown
              ∙ append_assoc (sent s.log) (e.id ∷ []) (take k (ids (select is_routed events)))),
      )
      | inr last ↦ (1, rw (last, routed) grown)
    ]
