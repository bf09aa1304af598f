-- ===== src/Tests/Locks.antt =====
-- The theorem on locks at tasks that meet: a round of the monitor with a fault, new settings for
-- the converter, a round of the statistics, a flash of the counters, and an update of the settings.
use powersupply.Base.{ℕ, zero, suc, ◌≡◌, refl, false, List, [], ◌∷◌, arith}
use powersupply.Firmware.Locks.{
  Operation, Turn, config_update, sync_round, monitor_fault, power_persist, stats_round, locks_of,
  steps, tasks,
}
use powersupply.Firmware.Locks.Rounds.{run_rounds, run_rounds-Ended, Ended}

abbrev meeting : List (List Operation)
meeting =
    (monitor_fault ∷ [])
    ∷ (power_persist ∷ [])
    ∷ (stats_round ∷ [])
    ∷ (sync_round ∷ [])
    ∷ (config_update ∷ [])
    ∷ []

-- The update never gets room.
abbrev rounds : ℕ → List (List Turn)
rounds zero = []
rounds (suc n) = ((4, false) ∷ (3, false) ∷ (2, false) ∷ (1, false) ∷ (0, false) ∷ []) ∷ rounds n

-- The monitor holds the converter, and the other two wait for it.
abbrev started : List Turn
started = (0, false) ∷ (1, false) ∷ (2, false) ∷ (3, false) ∷ (0, false) ∷ []

started-waits :
    steps started (tasks meeting)
    ≡ steps ((1, false) ∷ (2, false) ∷ []) (steps started (tasks meeting))
unfolding steps tasks locks_of
started-waits = refl

run_rounds-Ended_example : Ended meeting (run_rounds (rounds 60) (tasks meeting))
unfolding tasks locks_of
run_rounds-Ended_example = run_rounds-Ended meeting (rounds 60) refl (omega arith)
