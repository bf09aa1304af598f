-- ===== src/Firmware/Monitored.antt =====
-- sw/fw/src/systems/power_ext.rs with the systems that `PowerExt::init` is given: the rounds of
-- `monitor_task` call the counters (systems/record.rs), the watchdog (systems/watchdog.rs) and the
-- pin of the USB-PD controller (systems/usb_pd.rs), whose other tasks run between them.
pub mod Calls
pub mod Completion
pub mod Parts
pub mod Safety
use powersupply.Base.{ℕ, ◌≤◌, ◌<◌, ◌≡◌, Bool, false, List, [], ◌∷◌, ◌++◌, Outcome, returns, ◌>>=◌}
use powersupply.Base.Time.{Time}
use powersupply.Storage.{Slot}
use powersupply.Config.Fields.{Settings}
use powersupply.Watchdog.{Inner as Watchdog, feed, ticket}
use powersupply.Watchdog.Tickets as tickets
use powersupply.Record.{
  Data, Progress, done, waits, Pc, receiving, Record, init as init_record, log_overcurrent,
  publish_immediate, sync_step,
}
use powersupply.Record.Interleavings.{System, taken, written}
use powersupply.PowerExt.{
  Inner, Action, feed_watchdog, set_pin, PersistAnswers, InitAnswers, persist, init,
}
use powersupply.PowerExt as actions
use powersupply.PowerExt.Monitor.{Answers, Outcomes, round}
use powersupply.PowerExt.Monitor.Rounds.{InOrder, log_on}
use powersupply.PowerExt.Monitor.Reach.{Supply, booted, settled, rounded}

module _ (time : Time) (slot : Slot Data) where
  -- The systems that the monitor calls; `pin` is the level that `set_pin` was called with last.
  pub record Neighbours : Type 0 where
    pub recorder : System time slot
    pub watchdog : Watchdog
    pub pin : Bool

  -- A call that has gone through goes on.
  abbrev pub then : {A B : Type 0} → Progress A → (A → Outcome (Progress B)) → Outcome (Progress B)
  then waits k = returns waits
  then (done a) k = k a

  -- One action of the monitor, by the holder of this ticket, when the clock reads `now`: the calls
  -- of the other systems. The rest goes to the converter.
  unfoldable pub act : ℕ → ℕ → Action → Neighbours → Outcome (Progress Neighbours)
  act now index feed_watchdog n = do
    (_, s) ← feed index n.watchdog
    returns (done (record n { watchdog = s }))
  act now index (actions.log_overcurrent secs) n = do
    p ← log_overcurrent time slot now secs n.recorder.rec
    then p λ r. returns (done (record n { recorder = record n.recorder { rec = r; clock = now } }))
  act now index (set_pin level) n = returns (done (record n { pin = level }))
  act now index _ n = returns (done n)

  unfoldable pub perform : ℕ → ℕ → List Action → Neighbours → Outcome (Progress Neighbours)
  perform now index [] n = returns (done n)
  perform now index (x ∷ xs) n = do p ← act now index x n; then p (perform now index xs)

  -- All of them. `loaded` are the counters that were found at boot, and `ended` the over-currents
  -- that have ended since, the last one first.
  pub record World : Type 0 where
    pub supply : Supply
    pub near : Neighbours
    pub index : ℕ
    pub loaded : Data
    pub ended : List ℕ

  module _ {I2cError : Type 0} where
    abbrev pub after_round : Answers I2cError → World → Outcomes → Neighbours → World
    after_round a w r n = record w {
      supply = rounded time w.supply a r;
      near = n;
      ended = log_on time a w.supply.inner.state r.inner.state w.supply.local.ocp_since ++ w.ended;
    }

    -- A round of `monitor_task` with its calls, and the time at which the task wakes at the
    -- latest. The counters read the clock at `now`.
    unfoldable pub monitor_round : Answers I2cError → ℕ → World → Outcome (Progress (World × ℕ))
    monitor_round a now w = do
      (r, deadline) ← round time a w.supply.local w.supply.inner
      p ← perform now w.index r.actions w.near
      then p λ n. returns (done (after_round a w r n, deadline))

  abbrev pub with_recorder : World → System time slot → World
  with_recorder w s = record w { near = record w.near { recorder = s } }

  abbrev pub with_watchdog : World → Watchdog → World
  with_watchdog w s = record w { near = record w.near { watchdog = s } }

  module _ (I2cError : Type 0) where
    -- The monitor's rounds, in any order with the steps of the other tasks: the settings change,
    -- the counters are published and written to flash, tickets are issued, and their holders feed.
    pub data Reach : World → Type 0 where
      boot :
          (settings : Settings) (answers : InitAnswers time I2cError) (st : slot.State)
          {inner : Inner} {done' : List Action} {r : Record time slot} {s s' : Watchdog} {i : ℕ}
          {fed : Bool}
          → init time I2cError settings answers ≡ returns (inner, done')
          → init_record time slot st ≡ returns r
          → tickets.Reach s
          → ticket s ≡ returns (i, fed, s')
          → Reach (record {
            supply = booted inner done';
            near = record {
              recorder = record { rec = r; pc = receiving; clock = 0; takes = []; writes = [] };
              watchdog = s';
              pin = false;
            };
            index = i;
            loaded = r.counters;
            ended = [];
          })
      configure :
          (settings : Settings) (answers : PersistAnswers time I2cError) {w : World} {inner : Inner}
          {done' : List Action}
          → Reach w
          → persist time I2cError settings answers w.supply.inner ≡ returns (inner, done')
          → Reach (record w { supply = settled w.supply inner done' })
      publish :
          {w : World}
          → Reach w
          → Reach (
              with_recorder w
                (record w.near.recorder { rec = publish_immediate time slot w.near.recorder.rec }))
      sync :
          {w : World} {pc : Pc} {r : Record time slot} (now : ℕ)
          → Reach w
          → w.near.recorder.clock ≤ now
          → sync_step time slot now w.near.recorder.pc w.near.recorder.rec ≡ returns (done (pc, r))
          → Reach (
              with_recorder w (record {
                rec = r;
                pc = pc;
                clock = now;
                takes = taken now w.near.recorder.pc w.near.recorder.takes;
                writes = written now w.near.recorder.pc w.near.recorder.writes;
              }))
      issue :
          {w : World} {i : ℕ} {fed : Bool} {s : Watchdog}
          → Reach w
          → ticket w.near.watchdog ≡ returns (i, fed, s)
          → Reach (with_watchdog w s)
      fed :
          {w : World} {i : ℕ} {fed' : Bool} {s : Watchdog}
          → Reach w
          → i < w.near.watchdog.count
          → feed i w.near.watchdog ≡ returns (fed', s)
          → Reach (with_watchdog w s)
      monitor :
          (a : Answers I2cError) {w w' : World} {deadline now : ℕ}
          → Reach w
          → InOrder time a w.supply.clock
          → w.near.recorder.clock ≤ now
          → monitor_round a now w ≡ returns (done (w', deadline))
          → Reach w'
