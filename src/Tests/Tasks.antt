-- ===== src/Tests/Tasks.antt =====
-- The tasks between the subscriptions and the broker, and the one of the radio.
use powersupply.Base.{
  ℕ, ◌≢◌, ap, arith, none, ◌≡◌, refl, Bool, true, false, List, [], ◌∷◌, ok, Returns,
}
use powersupply.Events.Channels.{
  World, boot, Task, net_task, publish_task, config_task, push_task, settings,
  other as else_received, publish_stats, publish_record, steps,
}
use powersupply.Net.Radio.{
  Controller, connection_task, HasLength, All, IsStarted, connection_task-IsStarted,
}
use powersupply.Config.Fields.{Settings, default_settings}
use powersupply.Config.{Config}
use powersupply.Events.Echo.{deliver, deliver-double}
use powersupply.Tests.Instances.{cell}
use powersupply.Events.Deadlock.{is_locked_up, is_stuck_lem}

-- Two updates of the settings, one right after the other, and then a report of each kind.
abbrev schedule : List Task
schedule =
    net_task settings
    ∷ net_task else_received
    ∷ config_task
    ∷ push_task false
    ∷ net_task settings
    ∷ publish_stats
    ∷ publish_record
    ∷ publish_task
    ∷ publish_task
    ∷ publish_task
    ∷ []

abbrev stuck : World
unfolding steps
stuck = steps schedule boot

is_stuck_lem_example :
    (steps (net_task else_received ∷ publish_task ∷ net_task else_received ∷ []) stuck).feeds ≡ 1
unfolding stuck
is_stuck_lem_example =
    is_stuck_lem stuck (net_task else_received ∷ publish_task ∷ net_task else_received ∷ [])

-- The timer of `push_task` runs out during an update, which another one follows at once.
abbrev locking_up : List Task
locking_up =
    net_task settings
    ∷ push_task true
    ∷ net_task else_received
    ∷ net_task settings
    ∷ config_task
    ∷ publish_task
    ∷ push_task false
    ∷ []

locks_up_here : is_locked_up (steps locking_up boot) ≡ true
unfolding steps
locks_up_here = refl

-- Whether it is started, and connected; when the network is lost, it stops.
abbrev radio : Controller
radio = record {
  State = Bool × Bool;
  WifiError = Unit;
  is_connected = λ s. s.1;
  wait_disconnected = λ s. (false, false);
  sleep = λ ms s. s;
  is_started = λ s. ok (s.0);
  set_configuration = λ s. (ok tt, s);
  start = λ s. (ok tt, (true, s.1));
  connect = λ s. (ok tt, (s.0, true));
  is_started-start = λ s h. refl;
}

connection_task-IsStarted_example :
    Returns
      (connection_task radio true 3 (false, false))
      (λ ts. HasLength radio true 3 ts × All radio true (IsStarted radio true) ts)
connection_task-IsStarted_example =
    connection_task-IsStarted radio true 3 (false, false) refl (λ t. refl) (λ t. refl)

abbrev at_12_volts : Settings
at_12_volts = record default_settings { vout_mv = 12_000 }

abbrev at_5_volts : Settings
at_5_volts = record default_settings { vout_mv = 5_000 }

abbrev config : Config (cell Settings)
config = record { settings = default_settings; storage = none; published = [] }

differ : at_12_volts ≢ at_5_volts
differ e = let v : ◌≡◌ {A = ℕ} 12_000 5_000 = ap Settings.vout_mv e in omega arith

other : default_settings ≢ at_12_volts
other e = let v : ◌≡◌ {A = ℕ} 9_000 12_000 = ap Settings.vout_mv e in omega arith

deliver-double_example :
    Returns
      (deliver (cell Settings) 6 (at_12_volts ∷ at_5_volts ∷ [], config, 0))
      (λ (queue, _, v). (queue ≡ at_12_volts ∷ at_5_volts ∷ []) × (v ≡ 6))
deliver-double_example =
    deliver-double (cell Settings) 3 at_12_volts at_5_volts config 0 (λ d st. refl) differ other
