-- ===== src/Examples/Channel.antt =====
-- Runs of the tasks of the gateway's channel (services/gateway/src/pool.rs).
use home_ryanseipp.Prelude.{◌≤◌, false, ◌≡◌, refl, arith}
use home_ryanseipp.Gateway.Channel.{
  State, moved, idle, sampled, reading, returned, new, Reach, here, next, rotate, sample, agrees,
  read,
}
use home_ryanseipp.Gateway.Channel.Freshness.{client-fresh, client-stale}

-- a rotation while a call is under way
abbrev rotated : State
rotated = record {
  source = 2;
  channel = 1;
  created_seq = 1;
  is_locked = false;
  tasks = moved 0 (returned 1 1) (moved 0 (reading 1) (moved 0 (sampled 1) (λ j. idle)));
}

reached : Reach (new 1 1) rotated
reached =
    next (next (next (next here (sample 0 refl)) rotate) (agrees 0 1 refl refl))
      (read 0 1 refl refl)

client-fresh_example : 1 ≤ 1
client-fresh_example = client-fresh 1 rotated 0 1 1 reached refl

client-stale_example : (s : State) × Reach (new 1 2) s × (s.tasks 0 ≡ returned 2 1)
client-stale_example = client-stale 1 2 (omega arith)
