-- ===== src/Tests/Library.antt =====
-- The conversions, the executors, the storage and the broker's client.
use powersupply.Base.{
  List, ℕ, zero, suc, if◌then◌else◌, ltb, ◌+◌, ◌-◌, ◌*◌, ◌/◌, ◌^◌, ◌≤◌, ◌<◌, ◌≡◌, refl, true, false,
  none, some, [], ◌∷◌, arith, Result, ok, err, returns, panics, Returns,
}
use powersupply.Tps55289.{ratio_0_0564, into_nanovolts, from_feedback}
use powersupply.Tps55289.Reference.{from_feedback_bounds, from_feedback_overflow}
use powersupply.Config.Fields.{SettingsBuilder, default_settings}
use powersupply.PowerExt.{
  disabled, Inner, write_vref, write_iout_limit, limit_value, PersistAnswers, persist,
}
use powersupply.PowerExt.Limits.{limit_value_lem, persist-writes}
use powersupply.Executors.{Signals}
use powersupply.Executors.Thread.{
  boot, wait_impl, current_restart, as_permille, Reach, booted, waited, Reach-permille, wakes,
  restarts, Round, run,
}
use powersupply.Executors.Interrupt.{no_interrupts}
use powersupply.Executors.Wakers.{of_thread, of_high_prio, woken, woken_lem}
use powersupply.Executors.Thread.Loop.{idle, run-idle}
use powersupply.Stats.{
  Nb, value, would_block, poll_until_ready, poll_until_ready_lem, factor_vprog, factor_high,
  factors_exact,
}
use powersupply.Net.{
  ReasonCode, implementation_specific_error, Client, send_message_qos1, send_message_qos1_lem,
}
use powersupply.Transactions.{buffer_write, buffer_write_lem}
use powersupply.Tests.Instances.{clock}

from_feedback_bounds_example : Returns (from_feedback 9_000 ratio_0_0564) (λ vref.
    798 ≤ 9_000
    → 9_000 ≤ 21_312
    → (vref < 2 ^ 11)
      × (into_nanovolts vref ≤ 507_000_000)
      × (507_000_000 < into_nanovolts vref + 564_500)
      × (507_600_000 < into_nanovolts vref + 1_564_500))
from_feedback_bounds_example = from_feedback_bounds 9_000 (omega arith)

from_feedback_overflow_example :
    Returns
      (from_feedback 500 ratio_0_0564)
      (λ vref. (500 < 798 → 7_528 ≤ vref) × (21_312 < 500 → 2 ^ 11 ≤ vref))
from_feedback_overflow_example = from_feedback_overflow 500 (omega arith)

limit_value_lem_example :
    (6_400 ≤ 6_399 → limit_value 6_400 ≡ 6_400 / 25)
    × (6_400 ≤ 3_199 → limit_value 6_400 < 2 ^ 7)
    × (3_200 ≤ 6_400 → 6_400 ≤ 6_399 → 2 ^ 7 ≤ limit_value 6_400)
    × (limit_value 6_400 * 25 ≤ 6_400)
    × (6_400 ≤ 6_400 → limit_value 6_400 * 25 + 6_400 ≤ 6_400)
limit_value_lem_example = limit_value_lem 6_400 (omega arith)

abbrev answers : PersistAnswers clock (Unit {0})
answers = record {
  vref_written = ok tt;
  iout_limit_read = ok (record { setting = 100; en = true });
  iout_limit_written = ok tt;
}

abbrev inner : Inner
inner = record { backoff_duration = 0; state = disabled }

persist-writes_example :
    Returns (persist clock (Unit {0}) default_settings answers inner) (λ (inner', actions).
      (inner' ≡ record inner { backoff_duration = 500 })
      × ((vref : ℕ) × (actions
            ≡ write_vref vref
              ∷ write_iout_limit (record { setting = limit_value 500; en = true })
              ∷ [])
          × (798 ≤ 9_000
              → 9_000 ≤ 21_312
              → (vref < 2 ^ 11)
                × (into_nanovolts vref ≤ 507_600_000)
                × (507_600_000 < into_nanovolts vref + 1_564_500))))
persist-writes_example =
    persist-writes clock (Unit {0}) default_settings answers (record { setting = 100; en = true })
      inner refl refl refl (omega arith)

abbrev b_1 : SettingsBuilder
b_1 = record { vout_mv = some 12_000; iout_ma = some 1_000; backoff_ms = none }

abbrev b_2 : SettingsBuilder
b_2 = record { vout_mv = some 5_000; iout_ma = none; backoff_ms = none }

abbrev signals : Signals
signals = record { work = false ∷ []; raised = [] }

-- The first round has tasks to poll, the second sleeps, and an interrupt keeps the third awake.
abbrev rounds : List Round
rounds =
    record { events = []; start = 10; now = 11 }
    ∷ record { events = restarts 12 13 ∷ []; start = 20; now = 90 }
    ∷ record { events = wakes ∷ []; start = 95; now = 96 }
    ∷ []

waiting : Reach (wait_impl 1_000 4_000 boot).1 4_000
waiting = waited 1_000 4_000 booted (omega arith) (omega arith) (omega arith)

Reach-permille_example :
    let stats = (current_restart 5_000 5_001 (wait_impl 1_000 4_000 boot).1).0 in
    (stats.sleep ≤ stats.total)
    × (stats.total ≡ 5_001 - (wait_impl 1_000 4_000 boot).1.sleep_count_from)
    × (stats.total ≡ 0 → as_permille stats ≡ panics)
    × (0 < stats.total
        → stats.sleep * 1000 < 2 ^ 64
        → Returns (as_permille stats) (λ permille. permille ≤ 1000))
Reach-permille_example =
    Reach-permille 5_000 5_001 waiting (omega arith) (omega arith) (omega arith)

run-idle_example : (run (wakes ∷ []) rounds boot).0 ≡ idle (wakes ∷ []) rounds
run-idle_example = run-idle (wakes ∷ []) rounds

-- A converter that counts down before it answers.
count_down : ℕ → Nb ℕ ℕ × ℕ
count_down zero = (value 330, zero)
count_down (suc n) = (would_block, n)

poll_until_ready_lem_example : poll_until_ready count_down 5 2 ≡ some (ok 330, 0)
unfolding count_down
poll_until_ready_lem_example =
    poll_until_ready_lem count_down 2 5 2 0 (ok 330) (refl, (refl, refl)) (omega arith) refl

factors_exact_example :
    (1_000 < 32_768 → factor_vprog 1_000 ≡ 2 * 1_000)
    × (1_000 < 6_640
        → (factor_high 1_000 * 100 ≤ 987_000) × (987_000 < factor_high 1_000 * 100 + 100))
    × (◌≡◌ {A = ℕ} 1_000 6_640 → factor_high 1_000 ≡ 0)
factors_exact_example = factors_exact 1_000

-- A client that loses the answer as often as its state says.
answer_after : ℕ → Result (Unit {0}) ReasonCode × ℕ
answer_after zero = (ok tt, zero)
answer_after (suc n) = (err implementation_specific_error, n)

abbrev lossy : Client
lossy = record { State = ℕ; send_message = λ topic content retain n. answer_after n }

send_message_qos1_lem_example :
    send_message_qos1 lossy "slakkotron/stats" [] false 2
    ≡ (if ltb 2 5 then (ok tt, 0) else (err implementation_specific_error, 0))
unfolding answer_after
send_message_qos1_lem_example =
    send_message_qos1_lem lossy "slakkotron/stats" [] false 2 0 2 (omega arith) (refl, (refl, refl))
      (λ h. tt)

-- A bus that keeps what was written last.
abbrev keep : ℕ → List ℕ → List ℕ → Result (Unit {0}) (Unit {0}) × List ℕ
keep device bytes s = (ok tt, device ∷ bytes)

buffer_write_lem_example :
    buffer_write keep 0x53 (1 ∷ 2 ∷ 3 ∷ []) []
    ≡ returns (ok 3, 0x28 ∷ 0x53 ∷ 1 ∷ 2 ∷ 3 ∷ 0 ∷ 0 ∷ 0 ∷ 0 ∷ 0 ∷ [])
buffer_write_lem_example = buffer_write_lem keep 0x53 (1 ∷ 2 ∷ 3 ∷ []) [] (omega arith)

woken_lem_example :
    Returns
      (woken 3 0 (of_high_prio ∷ of_thread ∷ of_high_prio ∷ []))
      (λ (s, w). (s.work ≡ true ∷ []) × (w.pending ≡ no_interrupts) × (w.polls ≡ 2 ∷ []))
woken_lem_example = woken_lem 2 0 (of_high_prio ∷ of_thread ∷ of_high_prio ∷ [])
