-- ===== src/Outbox.antt =====
-- services/identity/src/outbox/publisher.rs and outbox/db.rs: the publisher that carries the events
-- of the outbox table to Kafka.
pub mod Order
pub mod Delivery
pub mod Starvation
pub mod Marks
pub mod Batches
pub mod Drain
use home_ryanseipp.Prelude.{
  ℕ, zero, suc, ◌+◌, String, Bool, true, false, ◌&&◌, ◌||◌, not, Option, none, some, List, [], ◌∷◌,
  ◌++◌, any, select, modify, take, Result, ok, err, is_none, str_eq, leb, ◌==◌, if◌then◌else◌,
}
use home_ryanseipp.Prelude.Text.{◌⧺◌}
use home_ryanseipp.Effect.{Uuid, Bytes, Timestamp}
use home_ryanseipp.Identity.Accounts.{OutboxRow}

-- outbox/error.rs
pub data OutboxError : Type 0 where
  unknown_event_type : String → OutboxError

-- `route_topic`
unfoldable pub route_topic : String → Result OutboxError String
route_topic event_type =
    if str_eq event_type "auth_email" then ok "email.auth" else err (unknown_event_type event_type)

abbrev join_trace : Option String → Option String → Option String
join_trace none sid = none
join_trace (some tid) none = none
join_trace (some tid) (some sid) =
    if not (str_eq tid "") && not (str_eq sid "")
    then some ("00-" ⧺ tid ⧺ "-" ⧺ sid ⧺ "-01")
    else none

-- `build_traceparent`
unfoldable pub build_traceparent : OutboxRow → Option String
build_traceparent event = join_trace event.trace_id event.span_id

-- A record of a Kafka topic. The id of the event is not sent as such: it is kept here to say which
-- event the record came from.
pub record Record : Type 0 where
  pub event_id : Uuid
  pub topic : String
  pub key : Uuid
  pub value : Bytes
  pub traceparent : Option String

-- What a call of `produce` comes to: the record is in the topic, it is not, or it is there and the
-- answer was lost.
pub data Produced : Type 0 where
  delivered refused answer_lost : Produced

-- What the outside decides in one round of the loop; the answers for an event go by its place in
-- the batch.
pub record Round : Type 0 where
  -- pg_try_advisory_lock: held, not held, or an error
  pub lock : Option Bool
  pub fetch_succeeds : Bool
  pub connects : ℕ → Bool
  pub produces : ℕ → Produced
  pub mark_succeeds : ℕ → Bool
  pub now : ℕ → Timestamp
  -- the traceparent of the publisher's own span, if that is valid
  pub current_span : ℕ → Option String

pub record Publisher : Type 0 where
  pub outbox : List OutboxRow
  pub log : List Record
  pub partition_clients : List String
  pub is_leader : Bool

-- ORDER BY created_at ASC; of equal times the earlier row comes first
abbrev pub insert_by_time : OutboxRow → List OutboxRow → List OutboxRow
insert_by_time e [] = e ∷ []
insert_by_time e (f ∷ fs) =
    let later = f ∷ insert_by_time e fs in
    if leb e.created_at f.created_at then e ∷ f ∷ fs else later

unfoldable pub sort_by_time : List OutboxRow → List OutboxRow
sort_by_time [] = []
sort_by_time (e ∷ es) = insert_by_time e (sort_by_time es)

abbrev pub is_unpublished : OutboxRow → Bool
is_unpublished e = is_none e.published_at

-- `fetch_unpublished`
unfoldable pub fetch_unpublished : ℕ → List OutboxRow → List OutboxRow
fetch_unpublished batch_size outbox = take batch_size (sort_by_time (select is_unpublished outbox))

abbrev pub published : Timestamp → OutboxRow → OutboxRow
published now e = record e { published_at = some now }

-- `mark_published`
unfoldable pub mark_published : Uuid → Timestamp → List OutboxRow → List OutboxRow
mark_published id now outbox = modify (λ (e : OutboxRow). e.id == id) (published now) outbox

abbrev or_else : Option String → Option String → Option String
or_else none b = b
or_else (some a) b = some a

-- the `Record` that is built from an event
unfoldable pub record_of : Round → ℕ → String → OutboxRow → Record
record_of r i topic event = record {
  event_id = event.id;
  topic = topic;
  key = event.aggregate_id;
  value = event.payload;
  traceparent = or_else (r.current_span i) (build_traceparent event);
}

abbrev pub is_cached : String → Publisher → Bool
is_cached topic s = any (λ t. str_eq t topic) s.partition_clients

-- The cached client, or a new one that is then cached; `none` if it cannot be made.
unfoldable pub get_client : Round → ℕ → String → Publisher → Option Publisher
get_client r i topic s =
    if is_cached topic s
    then some s
    else if r.connects i
    then some (record s { partition_clients = topic ∷ s.partition_clients })
    else none

-- `produce` and `mark_published` for one event; the flag says whether the loop goes on.
unfoldable pub produce_and_mark : Round → ℕ → String → OutboxRow → Publisher → Publisher × Bool
produce_and_mark r i topic event s =
    let sent = record s { log = s.log ++ record_of r i topic event ∷ [] } in
    elim (r.produces i) [
      | refused ↦ (s, false)
      | answer_lost ↦ (sent, false)
      | delivered ↦ (
        if r.mark_succeeds i
            then record sent { outbox = mark_published event.id (r.now i) s.outbox }
            else sent,
        true,
      )
    ]

-- One event with its topic.
unfoldable pub publish : Round → ℕ → String → OutboxRow → Publisher → Publisher × Bool
publish r i topic event s = elim (get_client r i topic s) [
  | none ↦ (s, false)
  | some s' ↦ produce_and_mark r i topic event s'
]

abbrev after_route :
    Round → ℕ → OutboxRow → Publisher → Result OutboxError String → Publisher × Bool
after_route r i event s (err e) = (s, true)
after_route r i event s (ok topic) = publish r i topic event s

-- One event of the batch: an event of an unknown type is skipped.
unfoldable pub process_event : Round → ℕ → OutboxRow → Publisher → Publisher × Bool
process_event r i event s = after_route r i event s (route_topic event.event_type)

-- `for event in events`
unfoldable pub process_events : Round → ℕ → List OutboxRow → Publisher → Publisher
process_events r i [] s = s
process_events r i (event ∷ events) s =
    let (s', goes_on) = process_event r i event s in
    let rest = process_events r (suc i) events s' in if goes_on then rest else s'

-- One round of the loop, after the sleep.
unfoldable pub poll : ℕ → Round → Publisher → Publisher
poll batch_size r s = elim r.lock [
  | none ↦ record s { is_leader = false }
  | some false ↦ record s { is_leader = false }
  | some true ↦
      let s' = record s { is_leader = true } in
      if r.fetch_succeeds then process_events r 0 (fetch_unpublished batch_size s.outbox) s' else s'
]

-- The loop, for as many rounds as there are before the cancellation.
unfoldable pub run : ℕ → List Round → Publisher → Publisher
run batch_size [] s = s
run batch_size (r ∷ rs) s = run batch_size rs (poll batch_size r s)
