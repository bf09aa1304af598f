-- ===== src/Tests/Supply.antt =====
-- The supply boots, turns its output on, sees a fault, and turns on again after the backoff.
use powersupply.Base.{
  ℕ, ◌+◌, ◌≤◌, ◌<◌, ◌≡◌, refl, ◌⊎◌, true, false, Option, none, some, List, [], ◌∷◌, arith, ok,
  returns, Returns,
}
use powersupply.Config.Fields.{default_settings}
use powersupply.PowerExt.Deadline.{earliest_deadline}
use powersupply.Tps55289.{from_feedback, Mode, Status, IoutLimit, VoutFs, ratio_0_2256}
use powersupply.PowerExt.{
  disabled, enabled, enabling, ocp, Inner, Action, enable_pin_high, write_mode, write_vout_fs,
  write_vref, write_iout_limit, take_ticket, feed_watchdog, set_pin, mode_off, mode_on, feedback,
  InitAnswers, PersistAnswers, init, persist,
}
use powersupply.PowerExt.Monitor.{Answers, Outcomes, round}
use powersupply.PowerExt.Monitor.Rounds.{output_after, logged, InOrder, Edge, log_on}
use powersupply.PowerExt.Monitor.Reach.{Supply, booted, rounded, Reach, boot, monitor}
use powersupply.PowerExt.Monitor.Safety.{
  Succeeds, backoff_respected, Reach-output, round-Edge, round-Wakes,
}
use powersupply.PowerExt.Monitor.Recovery.{two_rounds, two_rounds-recover}
use powersupply.Tests.Instances.{clock}

abbrev pub mode : Mode
mode = record { fpwm = false; dischg = false; hiccup = true; fswdbl = false; oe = true }

abbrev pub limit : IoutLimit
limit = record { setting = 100; en = true }

abbrev pub vout_fs : VoutFs
vout_fs = record { intfb = ratio_0_2256; fb = false }

abbrev pub persisted : PersistAnswers clock (Unit {0})
persisted = record { vref_written = ok tt; iout_limit_read = ok limit; iout_limit_written = ok tt }

abbrev pub answers : InitAnswers clock (Unit {0})
answers = record {
  mode_read = ok mode;
  mode_written = ok tt;
  vout_fs_read = ok vout_fs;
  vout_fs_written = ok tt;
  persisted = persisted;
}

abbrev pub inner_0 : Inner
inner_0 = record { backoff_duration = 500; state = disabled }

abbrev pub actions_0 : List Action
actions_0 =
    enable_pin_high
    ∷ write_mode (mode_off mode)
    ∷ write_vout_fs (record vout_fs { intfb = feedback })
    ∷ take_ticket
    ∷ write_vref 818
    ∷ write_iout_limit (record { setting = 20; en = true })
    ∷ []

abbrev pub s_0 : Supply
s_0 = booted inner_0 actions_0

reach_0 : Reach clock (Unit {0}) s_0
unfolding init persist from_feedback
reach_0 = boot default_settings answers refl

abbrev pub fine : Status
fine = record { ovp = false; ocp = false; scp = false }

abbrev pub short_circuit : Status
short_circuit = record { ovp = false; ocp = false; scp = true }

-- The answers in a round that reads this status from this time on.
abbrev pub at : ℕ → Status → Answers (Unit {0})
at t status = record {
  status_read = ok status;
  mode_read = ok mode;
  mode_written = ok tt;
  pin_set = ok tt;
  first = t;
  second = t + 1;
  last = t + 2;
}

abbrev pub r_1 : Outcomes
r_1 = record {
  local = record {
    enabled = true;
    backoff_until = none;
    stabilized_at = some 1101;
    ocp_since = none;
  };
  inner = record { backoff_duration = 500; state = enabling };
  actions = feed_watchdog ∷ write_mode (mode_on mode) ∷ set_pin true ∷ [];
}

abbrev pub s_1 : Supply
s_1 = rounded clock s_0 (at 1000 fine) r_1

round_1 : round clock (at 1000 fine) s_0.local s_0.inner ≡ returns (r_1, 1101)
unfolding round earliest_deadline
round_1 = refl

reach_1 : Reach clock (Unit {0}) s_1
reach_1 = monitor (at 1000 fine) reach_0 (omega arith, omega arith, omega arith) round_1

abbrev pub r_2 : Outcomes
r_2 = record {
  local = record {
    enabled = false;
    backoff_until = some 2500;
    stabilized_at = none;
    ocp_since = some 2001;
  };
  inner = record { backoff_duration = 500; state = ocp };
  actions = feed_watchdog ∷ write_mode (mode_off mode) ∷ set_pin false ∷ [];
}

abbrev pub s_2 : Supply
s_2 = rounded clock s_1 (at 2000 short_circuit) r_2

round_2 : round clock (at 2000 short_circuit) s_1.local s_1.inner ≡ returns (r_2, 2500)
unfolding round earliest_deadline
round_2 = refl

reach_2 : Reach clock (Unit {0}) s_2
reach_2 = monitor (at 2000 short_circuit) reach_1 (omega arith, omega arith, omega arith) round_2

abbrev pub r_3 : Outcomes
r_3 = record {
  local = record {
    enabled = true;
    backoff_until = none;
    stabilized_at = some 3101;
    ocp_since = some 2001;
  };
  inner = record { backoff_duration = 500; state = enabling };
  actions = feed_watchdog ∷ write_mode (mode_on mode) ∷ set_pin true ∷ [];
}

round_3 : round clock (at 3000 fine) s_2.local s_2.inner ≡ returns (r_3, 3101)
unfolding round earliest_deadline
round_3 = refl

ordered_3 : InOrder clock (at 3000 fine) s_2.clock
ordered_3 = (omega arith, omega arith, omega arith)

abbrev pub succeeds : Succeeds clock (Unit {0}) (at 2000 short_circuit) s_1.inner
succeeds = record {
  status = short_circuit;
  mode = mode;
  status_ok = refl;
  mode_ok = refl;
  written_ok = refl;
  pin_ok = refl;
  backoff_fits = omega arith;
  stabilization_fits = omega arith;
  deadline_fits = omega arith;
}

backoff_respected_example : 2500 < 3000
backoff_respected_example =
    backoff_respected clock (Unit {0}) (at 3000 fine) {r = r_3} {t = 2000} {b = 500} reach_2
      ordered_3 round_3 refl refl refl

Reach-output_example :
    ((ocp ≡ disabled) ⊎ (ocp ≡ ocp) → s_2.output ≡ false)
    × ((ocp ≡ enabling) ⊎ (ocp ≡ enabled) → s_2.output ≡ true)
Reach-output_example = Reach-output clock (Unit {0}) reach_2

round-Edge_example :
    Edge ocp enabling × (logged r_3.actions ≡ log_on clock (at 3000 fine) ocp enabling (some 2001))
round-Edge_example = round-Edge clock (Unit {0}) (at 3000 fine) {r = r_3} reach_2 ordered_3 round_3

round-Wakes_example :
    (3101 ≤ 3002 + 29_000)
    × ((u : ℕ) → ◌≡◌ {A = Option ℕ} none (some u) → 3101 ≤ u)
    × ((u : ℕ) → some 3101 ≡ some u → 3101 ≤ u)
round-Wakes_example =
    round-Wakes clock (Unit {0}) (at 3000 fine) {r = r_3} {d = 3101} reach_2 ordered_3 round_3

-- The over-current at 2001 ends: the backoff until 2500, and the output stable after 3101.
abbrev succeeds_at_3000 : Succeeds clock (Unit {0}) (at 3000 fine) s_2.inner
succeeds_at_3000 = record {
  status = fine;
  mode = mode;
  status_ok = refl;
  mode_ok = refl;
  written_ok = refl;
  pin_ok = refl;
  backoff_fits = omega arith;
  stabilization_fits = omega arith;
  deadline_fits = omega arith;
}

abbrev succeeds_at_3200 :
    Succeeds clock (Unit {0}) (at 3200 fine) (record (s_2.inner) { state = enabling })
succeeds_at_3200 = record {
  status = fine;
  mode = mode;
  status_ok = refl;
  mode_ok = refl;
  written_ok = refl;
  pin_ok = refl;
  backoff_fits = omega arith;
  stabilization_fits = omega arith;
  deadline_fits = omega arith;
}

two_rounds-recover_example :
    Returns (two_rounds clock (Unit {0}) (at 3000 fine) (at 3200 fine) s_2) (λ (r, r').
      (r.inner.state ≡ enabling)
      × (output_after false r.actions ≡ true)
      × (logged r.actions ≡ [])
      × (r'.inner.state ≡ enabled)
      × (output_after true r'.actions ≡ true)
      × (logged r'.actions ≡ 1 ∷ [])
      × (r'.local.ocp_since ≡ none))
two_rounds-recover_example =
    two_rounds-recover clock (Unit {0}) (at 3000 fine) (at 3200 fine) 2500 2001 reach_2 refl refl
      refl ordered_3 succeeds_at_3000 refl (omega arith) (omega arith, omega arith, omega arith)
      succeeds_at_3200 refl (omega arith)
