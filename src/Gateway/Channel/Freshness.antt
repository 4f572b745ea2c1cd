-- ===== src/Gateway/Channel/Freshness.antt =====
-- How fresh the channels of services/gateway/src/pool.rs are.
use home_ryanseipp.Prelude.{
  ℕ, ◌≤◌, ◌<◌, refl, ◌==◌, ◌≡◌, Bool, true, false, Bool-cases, inl, inr, arith,
}
use mathlib.Core.Path.{subst}
use home_ryanseipp.Gateway.Channel.{
  Phase, idle, sampled, waiting, reading, connecting, storing, returned, failed, State, moved, new,
  Step, rotate, sample, differs, agrees, read, lock_rebuilt, lock_stale, connect, connect_fails,
  store, again, Reach, here, next,
}

-- What a phase knows of the channel and of the source.
abbrev IsSound : (channel source : ℕ) → Phase → Type 0
IsSound channel source idle = Unit
IsSound channel source (sampled seen) = seen ≤ source
IsSound channel source (waiting seen) = seen ≤ source
IsSound channel source (reading seen) = seen ≤ channel
IsSound channel source (connecting seen) = seen ≤ source
IsSound channel source (storing seen) = seen ≤ channel
IsSound channel source (returned seen got) = seen ≤ got
IsSound channel source failed = Unit

record Inv (s : State) : Type 0 where
  created : s.created_seq ≤ s.channel
  built : s.channel ≤ s.source
  sound : (j : ℕ) → IsSound s.channel s.source (s.tasks j)

-- The channel and the source only grow fresher.
IsSound-grows :
    (phase : Phase) (c c' n n' : ℕ) → c ≤ c' → n ≤ n' → IsSound c n phase → IsSound c' n' phase
IsSound-grows idle c c' n n' h k s = tt
IsSound-grows (sampled seen) c c' n n' h k s = omega arith
IsSound-grows (waiting seen) c c' n n' h k s = omega arith
IsSound-grows (reading seen) c c' n n' h k s = omega arith
IsSound-grows (connecting seen) c c' n n' h k s = omega arith
IsSound-grows (storing seen) c c' n n' h k s = omega arith
IsSound-grows (returned seen got) c c' n n' h k s = s
IsSound-grows failed c c' n n' h k s = tt

-- A task moves to a phase that is sound, and the others stay.
moved-IsSound :
    (s : State) (c n i : ℕ) (phase : Phase)
    → Inv s
    → s.channel ≤ c
    → s.source ≤ n
    → IsSound c n phase
    → (j : ℕ) → IsSound c n (moved i phase s.tasks j)
moved-IsSound s c n i phase inv h k p j = elim (Bool-cases (i == j)) [
  | inl e ↦ rw e p
  | inr e ↦ rw e (IsSound-grows (s.tasks j) s.channel c s.source n h k (inv.sound j))
]

at_phase :
    (s : State) (i : ℕ) (phase : Phase)
    → Inv s
    → s.tasks i ≡ phase
    → IsSound s.channel s.source phase
at_phase s i phase inv e = subst (IsSound s.channel s.source) e (inv.sound i)

-- A step that only moves a task keeps the invariant.
moves-Inv :
    (s : State) (i : ℕ) (phase : Phase) (locked : Bool)
    → Inv s
    → IsSound s.channel s.source phase
    → Inv (record s { is_locked = locked; tasks = moved i phase s.tasks })
moves-Inv s i phase locked inv p = record {
  created = inv.created;
  built = inv.built;
  sound = moved-IsSound s s.channel s.source i phase inv (omega arith) (omega arith) p;
}

Step-Inv : (s s' : State) → Step s s' → Inv s → Inv s'
Step-Inv s s' rotate inv = record {
  created = inv.created;
  built = omega (arith, inv.built);
  sound = λ j.
      IsSound-grows (s.tasks j) s.channel s.channel s.source _ (omega arith) (omega arith)
        (inv.sound j);
}
Step-Inv s s' (sample i e) inv = moves-Inv s i (sampled s.source) s.is_locked inv (omega arith)
Step-Inv s s' (differs i seen e d) inv =
    moves-Inv s i (waiting seen) s.is_locked inv (at_phase s i (sampled seen) inv e)
Step-Inv s s' (agrees i seen e d) inv =
    moves-Inv s i (reading seen) s.is_locked inv (omega (arith, d, inv.created))
Step-Inv s s' (read i seen e l) inv =
    moves-Inv s i (returned seen s.channel) s.is_locked inv (at_phase s i (reading seen) inv e)
Step-Inv s s' (lock_rebuilt i seen e l d) inv =
    moves-Inv s i (returned seen s.channel) s.is_locked inv (omega (arith, d, inv.created))
Step-Inv s s' (lock_stale i seen e l d) inv =
    moves-Inv s i (connecting seen) true inv (at_phase s i (waiting seen) inv e)
Step-Inv s s' (connect i seen e) inv = record {
  created = omega (arith, inv.created, inv.built);
  built = omega arith;
  sound =
      moved-IsSound s s.source s.source i (storing seen) inv inv.built (omega arith)
        (at_phase s i (connecting seen) inv e);
}
Step-Inv s s' (connect_fails i seen e) inv = moves-Inv s i failed false inv tt
Step-Inv s s' (store i seen e) inv = record {
  created = at_phase s i (storing seen) inv e;
  built = inv.built;
  sound =
      moved-IsSound s s.channel s.source i (returned seen s.channel) inv (omega arith) (omega arith)
        (at_phase s i (storing seen) inv e);
}
Step-Inv s s' (again i seen got e) inv = moves-Inv s i idle s.is_locked inv tt

Reach-Inv : {start s : State} → Inv start → Reach start s → Inv s
Reach-Inv inv here = inv
Reach-Inv inv (next {s} {s'} r st) = Step-Inv s s' st (Reach-Inv inv r)

-- If no rotation came between the building of the first channel and the reading of its number, then
-- whatever tasks call `client` at the same time, in any order of their steps and with any rotations
-- and failures between them, each gets a channel that was built with the certificate that was the
-- newest when the task came, or with a later one.
pub client-fresh :
    (seq : ℕ) (s : State) (i seen got : ℕ)
    → Reach (new seq seq) s
    → s.tasks i ≡ returned seen got
    → seen ≤ got
client-fresh seq s i seen got r e = at_phase s i (returned seen got) (Reach-Inv start r) e
  where
    start : Inv (new seq seq)
    start = record { created = omega arith; built = omega arith; sound = λ j. tt }

-- If the certificate is rotated between the building of the first channel and the reading of its
-- number, a call of `client` gets the channel of the certificate that is out of date.
pub client-stale :
    (built seq : ℕ)
    → built < seq
    → (s : State) × Reach (new built seq) s × (s.tasks 0 ≡ returned seq built)
client-stale built seq h = (
  _,
  next (next (next here (sample 0 refl)) (agrees 0 seq refl refl)) (read 0 seq refl refl),
  refl,
)
