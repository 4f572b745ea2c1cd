-- ===== src/Outbox/Marks.antt =====
-- What one round does to the marks of the table (outbox/publisher.rs).
use home_ryanseipp.Prelude.{
  ℕ, String, suc, ◌≤◌, ◌<◌, Bool, true, false, ◌&&◌, Option, some, none, List, [], ◌∷◌, ◌≡◌, ◌⊎◌,
  refl, sym, ap, inl, inr, any, count_p, All, All-modify, Result, ok, err, arith, str_eq, ◌==◌,
  Bool-cases,
}
use home_ryanseipp.Effect.{Uuid, Timestamp}
use home_ryanseipp.Identity.Accounts.{OutboxRow}
use home_ryanseipp.Outbox.{
  OutboxError, Produced, delivered, refused, answer_lost, route_topic, after_route, Round,
  Publisher, is_unpublished, published, mark_published, get_client, produce_and_mark, publish,
  process_event, process_events, is_cached,
}
use home_ryanseipp.Outbox.Order.{get_client-log}

-- The lock is held and no call fails.
pub record IsCalm (r : Round) : Type 0 where
  pub held : r.lock ≡ some true
  pub fetched : r.fetch_succeeds ≡ true
  pub connected : (i : ℕ) → r.connects i ≡ true
  pub produced : (i : ℕ) → r.produces i ≡ delivered
  pub marked : (i : ℕ) → r.mark_succeeds i ≡ true

-- The event has the one known type.
abbrev pub IsRouted : OutboxRow → Type 0
IsRouted e = str_eq e.event_type "auth_email" ≡ true

abbrev pub open_events : Publisher → ℕ
open_events s = count_p is_unpublished s.outbox

-- One event leaves the table as it is, or marks its rows.
Marks : Uuid → List OutboxRow → List OutboxRow → Type 0
Marks id before after =
    (after ≡ before) ⊎ ((now : Timestamp) × (after ≡ mark_published id now before))

produce_and_mark-Marks :
    (r : Round) (i : ℕ) (topic : String) (e : OutboxRow) (s : Publisher)
    → Marks e.id s.outbox (produce_and_mark r i topic e s).0.outbox
unfolding produce_and_mark Marks
produce_and_mark-Marks r i topic e s = go (r.produces i) (r.mark_succeeds i) refl refl
  where
    go :
        (a : Produced) (b : Bool)
        → r.produces i ≡ a
        → r.mark_succeeds i ≡ b
        → Marks e.id s.outbox (produce_and_mark r i topic e s).0.outbox
    go refused b h k = rw (h, produce_and_mark) (inl refl)
    go answer_lost b h k = rw (h, produce_and_mark) (inl refl)
    go delivered true h k = rw (h, k, produce_and_mark) (inr (r.now i, refl))
    go delivered false h k = rw (h, k, produce_and_mark) (inl refl)

process_event-Marks :
    (r : Round) (i : ℕ) (e : OutboxRow) (s : Publisher)
    → Marks e.id s.outbox (process_event r i e s).0.outbox
unfolding process_event publish Marks
process_event-Marks r i e s = routed (route_topic e.event_type)
  where
    client :
        (topic : String) (c : Option Publisher)
        → get_client r i topic s ≡ c
        → Marks e.id s.outbox (publish r i topic e s).0.outbox
    client topic none p = rw (p, publish) (inl refl)
    client topic (some v) p =
        rw (p, publish, sym (get_client-log r i topic s v p).1)
          (produce_and_mark-Marks r i topic e v)

    routed : (t : Result OutboxError String) → Marks e.id s.outbox (after_route r i e s t).0.outbox
    routed (err x) = inl refl
    routed (ok topic) = client topic (get_client r i topic s) refl

mark-le :
    (id : Uuid) (now : Timestamp) (es : List OutboxRow)
    → count_p is_unpublished (mark_published id now es) ≤ count_p is_unpublished es
unfolding mark_published
mark-le id now [] = omega arith
mark-le id now (e ∷ es) = ground (arith, mark-le id now es)

-- The table has an open row with the id.
abbrev pub Has : Uuid → List OutboxRow → Type 0
Has id es = any (λ (f : OutboxRow). is_unpublished f && f.id == id) es ≡ true

mark-lt :
    (id : Uuid) (now : Timestamp) (es : List OutboxRow)
    → Has id es
    → count_p is_unpublished (mark_published id now es) < count_p is_unpublished es
unfolding mark_published
mark-lt id now [] h = cc
mark-lt id now (e ∷ es) h = ground (arith, mark-le id now es, mark-lt id now es)

mark-Routed :
    (id : Uuid) (now : Timestamp) (es : List OutboxRow)
    → All IsRouted es
    → All IsRouted (mark_published id now es)
unfolding mark_published
mark-Routed id now es h =
    All-modify IsRouted (λ (e : OutboxRow). e.id == id) (published now) es (λ e k. k) h

-- No round opens an event or gives it another type.
pub record Shrinks (before after : List OutboxRow) : Type 0 where
  pub fewer : count_p is_unpublished after ≤ count_p is_unpublished before
  pub routed : All IsRouted before → All IsRouted after

Shrinks-Marks :
    (id : Uuid) (before after : List OutboxRow) → Marks id before after → Shrinks before after
unfolding Marks
Shrinks-Marks id before after (inl same) = rw same (record { fewer = omega arith; routed = λ h. h })
Shrinks-Marks id before after (inr (now, e)) =
    rw e (record { fewer = mark-le id now before; routed = mark-Routed id now before })

pub Shrinks-process_events :
    (r : Round) (i : ℕ) (es : List OutboxRow) (s : Publisher)
    → Shrinks s.outbox (process_events r i es s).outbox
unfolding process_events
Shrinks-process_events r i [] s = record { fewer = omega arith; routed = λ h. h }
Shrinks-process_events r i (e ∷ es) s =
    let here =
      Shrinks-Marks e.id s.outbox (process_event r i e s).0.outbox (process_event-Marks r i e s) in
    let rest = Shrinks-process_events r (suc i) es (process_event r i e s).0 in
    elim (Bool-cases (process_event r i e s).1) [
      | inl more ↦ rw more (record {
        fewer = omega (arith, here.fewer, rest.fewer);
        routed = λ h. rest.routed (here.routed h);
      })
      | inr last ↦ rw last here
    ]

get_client-calm :
    (r : Round) (i : ℕ) (topic : String) (s : Publisher)
    → IsCalm r
    → (v : Publisher) × (get_client r i topic s ≡ some v)
unfolding get_client
get_client-calm r i topic s calm = elim (Bool-cases (is_cached topic s)) [
  | inl there ↦ (s, rw there refl)
  | inr new ↦ (
    record s { partition_clients = topic ∷ s.partition_clients },
    rw (new, calm.connected i) refl,
  )
]

process_event-calm :
    (r : Round) (i : ℕ) (e : OutboxRow) (s : Publisher)
    → IsCalm r
    → IsRouted e
    → (now : Timestamp) × ((process_event r i e s).0.outbox ≡ mark_published e.id now s.outbox)
      × ((process_event r i e s).1 ≡ true)
unfolding process_event route_topic publish produce_and_mark
process_event-calm r i e s calm routed =
    let (v, found) = get_client-calm r i "email.auth" s calm in
    let same = (get_client-log r i "email.auth" s v found).1 in
    (
      r.now i,
      rw
          (
            routed,
            found,
            calm.produced i,
            calm.marked i,
            same,
            process_event,
            route_topic,
            publish,
            produce_and_mark,
          )
          refl,
      rw (routed, found, calm.produced i, process_event, route_topic, publish, produce_and_mark)
          refl,
    )

-- A round that begins with an open event of the table marks one at least.
pub process_events-lt :
    (r : Round) (i : ℕ) (e : OutboxRow) (es : List OutboxRow) (s : Publisher)
    → IsCalm r
    → IsRouted e
    → Has e.id s.outbox
    → open_events (process_events r i (e ∷ es) s) < open_events s
unfolding process_events
process_events-lt r i e es s calm routed has =
    let (now, marked, more) = process_event-calm r i e s calm routed in
    let less = mark-lt e.id now s.outbox has in
    let rest = (Shrinks-process_events r (suc i) es (process_event r i e s).0).fewer in
    rw more (omega (arith, rest, less, ap (count_p is_unpublished) marked))
