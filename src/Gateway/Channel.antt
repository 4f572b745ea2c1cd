-- ===== src/Gateway/Channel.antt =====
-- services/gateway/src/pool.rs: the tasks that call `IdentityChannel::client` at the same time, while
-- the certificate is rotated. A certificate is the number of its rotation, and a channel is the number
-- of the certificate that it was built with. A step is what a task does between two points where
-- another can come in. The counters are read in one order by all tasks, stronger than `Relaxed` asks.
pub mod Freshness
use home_ryanseipp.Prelude.{ℕ, suc, ◌==◌, ◌≡◌, ◌≢◌, if◌then◌else◌, Bool, true, false}

-- Where a task is in `client`; `seen` is its `current_seq`.
pub data Phase : Type 0 where
  idle : Phase
  sampled : (seen : ℕ) → Phase
  waiting : (seen : ℕ) → Phase
  reading : (seen : ℕ) → Phase
  connecting : (seen : ℕ) → Phase
  storing : (seen : ℕ) → Phase
  returned : (seen channel : ℕ) → Phase
  failed : Phase

pub record State : Type 0 where
  -- `source.updated().last()`
  pub source : ℕ
  pub channel : ℕ
  pub created_seq : ℕ
  -- a task holds the lock for writing
  pub is_locked : Bool
  pub tasks : ℕ → Phase

abbrev pub moved : ℕ → Phase → (ℕ → Phase) → ℕ → Phase
moved i phase tasks j = if i == j then phase else tasks j

-- `new`: the channel is built, and then the number is read, which may have grown.
abbrev pub new : (built read : ℕ) → State
new built read = record {
  source = read;
  channel = built;
  created_seq = read;
  is_locked = false;
  tasks = λ j. idle;
}

-- One step of the task `i` of `client`, or a rotation.
pub data Step (s : State) : State → Type 0 where
  rotate : Step s (record s { source = suc s.source })
  sample :
      (i : ℕ) → s.tasks i ≡ idle → Step s (record s { tasks = moved i (sampled s.source) s.tasks })
  differs :
      (i seen : ℕ)
      → s.tasks i ≡ sampled seen
      → seen ≢ s.created_seq
      → Step s (record s { tasks = moved i (waiting seen) s.tasks })
  agrees :
      (i seen : ℕ)
      → s.tasks i ≡ sampled seen
      → seen ≡ s.created_seq
      → Step s (record s { tasks = moved i (reading seen) s.tasks })
  read :
      (i seen : ℕ)
      → s.tasks i ≡ reading seen
      → s.is_locked ≡ false
      → Step s (record s { tasks = moved i (returned seen s.channel) s.tasks })
  lock_rebuilt :
      (i seen : ℕ)
      → s.tasks i ≡ waiting seen
      → s.is_locked ≡ false
      → s.created_seq ≡ seen
      → Step s (record s { tasks = moved i (returned seen s.channel) s.tasks })
  lock_stale :
      (i seen : ℕ)
      → s.tasks i ≡ waiting seen
      → s.is_locked ≡ false
      → s.created_seq ≢ seen
      → Step s (record s { is_locked = true; tasks = moved i (connecting seen) s.tasks })
  connect :
      (i seen : ℕ)
      → s.tasks i ≡ connecting seen
      → Step s (record s { channel = s.source; tasks = moved i (storing seen) s.tasks })
  connect_fails :
      (i seen : ℕ)
      → s.tasks i ≡ connecting seen
      → Step s (record s { is_locked = false; tasks = moved i failed s.tasks })
  store :
      (i seen : ℕ)
      → s.tasks i ≡ storing seen
      → Step s (record s {
        created_seq = seen;
        is_locked = false;
        tasks = moved i (returned seen s.channel) s.tasks;
      })
  -- the task calls `client` again
  again :
      (i seen got : ℕ)
      → s.tasks i ≡ returned seen got
      → Step s (record s { tasks = moved i idle s.tasks })

pub data Reach (start : State) : State → Type 0 where
  here : Reach start start
  next : {s s' : State} → Reach start s → Step s s' → Reach start s'
