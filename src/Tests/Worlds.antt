-- ===== src/Tests/Worlds.antt =====
-- The supply with the systems that it calls: a fault, which ends and is counted.
use powersupply.Base.{
  ℕ, ◌+◌, ◌%◌, ◌^◌, ◌≤◌, ◌≡◌, refl, Bool, true, false, none, some, [], ◌∷◌, arith, length, returns,
  Returns,
}
use powersupply.Config.Fields.{default_settings}
use powersupply.PowerExt.{enabled, feed_watchdog, log_overcurrent, init, persist}
use powersupply.PowerExt.Deadline.{earliest_deadline}
use powersupply.PowerExt.Monitor.{Outcomes, round, is_fault}
use powersupply.PowerExt.Monitor.Reach.{booted}
use powersupply.Tps55289.{from_feedback}
use powersupply.Watchdog.{Inner as Watchdog, feed, ticket, empty_mask, init as init_watchdog}
use powersupply.Watchdog.Tickets as tickets
use powersupply.Record.{Data, default_data, Progress, done, receiving, Record, init as init_record}
use powersupply.Record as record_calls
use powersupply.Record.Counting.{total}
use powersupply.Firmware.Monitored.{
  Neighbours, World, Reach, boot, monitor, after_round, monitor_round, perform, act,
}
use powersupply.Firmware.Monitored.Safety.{monitor_round-progress, Reach-ended, Shut}
use powersupply.Tests.Instances.{clock, cell}
use powersupply.Tests.Supply.{
  answers, inner_0, actions_0, fine, short_circuit, at, r_1, r_2, r_3, succeeds,
}

abbrev Whole : Type 0
Whole = World clock (cell Data)

abbrev Near : Type 0
Near = Neighbours clock (cell Data)

abbrev rec_0 : Record clock (cell Data)
rec_0 = record {
  counters = default_data;
  sync_at = none;
  storage = none;
  queued = false;
  published = [];
}

-- The supply has the first ticket; issuing it has fed it.
abbrev dog : Watchdog
dog = record { mask = empty_mask; count = 1 }

abbrev near_0 : Near
near_0 = record {
  recorder = record { rec = rec_0; pc = receiving; clock = 0; takes = []; writes = [] };
  watchdog = dog;
  pin = false;
}

abbrev w_0 : Whole
w_0 = record {
  supply = booted inner_0 actions_0;
  near = near_0;
  index = 0;
  loaded = default_data;
  ended = [];
}

reach_0 : Reach clock (cell Data) (Unit {0}) w_0
unfolding init persist from_feedback init_record init_watchdog ticket feed
reach_0 = boot default_settings answers none {s = init_watchdog} refl refl tickets.boot refl

abbrev w_1 : Whole
w_1 = after_round clock (cell Data) (at 1000 fine) w_0 r_1 (record near_0 { pin = true })

reach_1 : Reach clock (cell Data) (Unit {0}) w_1
unfolding monitor_round perform act round earliest_deadline feed
reach_1 =
    monitor (at 1000 fine) {deadline = 1101} {now = 1001} reach_0
      (omega arith, omega arith, omega arith) (omega arith) refl

abbrev w_2 : Whole
w_2 = after_round clock (cell Data) (at 2000 short_circuit) w_1 r_2 near_0

reach_2 : Reach clock (cell Data) (Unit {0}) w_2
unfolding monitor_round perform act round earliest_deadline feed
reach_2 =
    monitor (at 2000 short_circuit) {deadline = 2500} {now = 2001} reach_1
      (omega arith, omega arith, omega arith) (omega arith) refl

abbrev w_3 : Whole
w_3 = after_round clock (cell Data) (at 3000 fine) w_2 r_3 (record near_0 { pin = true })

reach_3 : Reach clock (cell Data) (Unit {0}) w_3
unfolding monitor_round perform act round earliest_deadline feed
reach_3 =
    monitor (at 3000 fine) {deadline = 3101} {now = 3001} reach_2
      (omega arith, omega arith, omega arith) (omega arith) refl

-- The output has stabilized: the over-current has lasted for a second.
abbrev r_4 : Outcomes
r_4 = record {
  local = record { enabled = true; backoff_until = none; stabilized_at = none; ocp_since = none };
  inner = record { backoff_duration = 500; state = enabled };
  actions = feed_watchdog ∷ log_overcurrent 1 ∷ [];
}

abbrev once : Data
once = record { overcurrent_count = 1; overcurrent_secs = 1 }

abbrev near_4 : Near
near_4 = record {
  recorder = record {
    rec = record {
      counters = once;
      sync_at = some 13_201;
      storage = none;
      queued = true;
      published = once ∷ [];
    };
    pc = receiving;
    clock = 3_201;
    takes = [];
    writes = [];
  };
  watchdog = dog;
  pin = true;
}

abbrev w_4 : Whole
w_4 = after_round clock (cell Data) (at 3200 fine) w_3 r_4 near_4

reach_4 : Reach clock (cell Data) (Unit {0}) w_4
unfolding monitor_round perform act round earliest_deadline feed record_calls.log_overcurrent
reach_4 =
    monitor (at 3200 fine) {deadline = 32_202} {now = 3201} reach_3
      (omega arith, omega arith, omega arith) (omega arith) refl

monitor_round-progress_example :
    Returns (monitor_round clock (cell Data) (at 2000 short_circuit) 2001 w_1) (λ p.
      (w' : Whole) × (deadline : ℕ) × (p ≡ done (w', deadline))
      × ((f : Bool) × (feed 0 dog ≡ returns (f, w'.near.watchdog)))
      × (w'.near.pin ≡ w'.supply.output)
      × (deadline ≤ 2002 + 29_000)
      × (is_fault short_circuit ≡ true
          → Shut clock (cell Data) (Unit {0}) (at 2000 short_circuit) w_1 w'))
monitor_round-progress_example =
    monitor_round-progress clock (cell Data) (Unit {0}) (at 2000 short_circuit) 2001 reach_1
      (omega arith, omega arith, omega arith) (omega arith) succeeds (omega arith)

Reach-ended_example :
    (once.overcurrent_count ≡ (0 + length {A = ℕ} (1 ∷ [])) % 2 ^ 64)
    × (once.overcurrent_secs ≡ (0 + total (1 ∷ [])) % 2 ^ 64)
Reach-ended_example = Reach-ended clock (cell Data) (Unit {0}) reach_4 (omega arith) (omega arith)
