-- ===== src/Tests/Counters.antt =====
-- An over-current of three seconds is logged, and brought to flash ten seconds later.
use powersupply.Base.{◌≡◌, refl, true, false, none, some, [], ◌∷◌, arith, returns, Returns}
use powersupply.Record.{
  Data, default_data, receiving, notified, sleeping, storing, Record, init, log_overcurrent,
  sync_step, run_alone,
}
use powersupply.Record.Interleavings.{System, Reach, boot, log, sync, Spaced}
use powersupply.Record.Writes.{ThirdSpaced, writes-Spaced}
use powersupply.Record.Flush.{Settled, Reach-Settled}
use powersupply.Tests.Instances.{clock, cell}

abbrev Rec : Type 0
Rec = Record clock (cell Data)

abbrev once : Data
once = record { overcurrent_count = 1; overcurrent_secs = 3 }

abbrev rec_0 : Rec
rec_0 = record {
  counters = default_data;
  sync_at = none;
  storage = none;
  queued = false;
  published = [];
}

abbrev rec_1 : Rec
rec_1 = record {
  counters = once;
  sync_at = some 11_000;
  storage = none;
  queued = true;
  published = once ∷ [];
}

abbrev rec_2 : Rec
rec_2 = record rec_1 { queued = false }

abbrev rec_3 : Rec
rec_3 = record rec_2 { sync_at = none }

abbrev Machine : Type 0
Machine = System clock (cell Data)

abbrev sys_1 : Machine
sys_1 = record { rec = rec_1; pc = receiving; clock = 1_000; takes = []; writes = [] }

abbrev sys_2 : Machine
sys_2 = record { rec = rec_2; pc = notified; clock = 1_001; takes = []; writes = [] }

abbrev sys_3 : Machine
sys_3 = record { rec = rec_2; pc = sleeping 11_000; clock = 1_002; takes = []; writes = [] }

abbrev sys_4 : Machine
sys_4 = record { rec = rec_3; pc = storing once; clock = 11_000; takes = 11_000 ∷ []; writes = [] }

initial : init clock (cell Data) none ≡ returns rec_0
unfolding init
initial = refl

reach_1 : Reach clock (cell Data) sys_1
unfolding log_overcurrent
reach_1 = log 1_000 3 (boot none initial) (omega arith) refl

reach_4 : Reach clock (cell Data) sys_4
unfolding sync_step
reach_4 =
    sync {s = sys_3} 11_000
      (sync {s = sys_2} 1_002 (sync {s = sys_1} 1_001 reach_1 (omega arith) refl) (omega arith)
        refl)
      (omega arith) refl

Reach-Settled_example :
    Returns (run_alone clock (cell Data) 5 11_000 receiving rec_1) (Settled clock (cell Data) once)
Reach-Settled_example =
    Reach-Settled clock (cell Data) (λ d st. refl) 11_000 reach_1 (λ at e. ground arith)

-- They are written a second after they were taken.
abbrev sys_5 : Machine
sys_5 = record {
  rec = record rec_3 { storage = some once };
  pc = receiving;
  clock = 12_000;
  takes = 11_000 ∷ [];
  writes = 12_000 ∷ [];
}

reach_5 : Reach clock (cell Data) sys_5
unfolding sync_step
reach_5 = sync {s = sys_4} 12_000 reach_4 (omega arith) refl

writes-Spaced_example : Spaced 10_000 (11_000 ∷ []) × ThirdSpaced 10_000 (12_000 ∷ [])
writes-Spaced_example = writes-Spaced clock (cell Data) reach_5
