-- ===== src/PowerExt/Monitor.antt =====
-- sw/fw/src/systems/power_ext.rs: one round of the loop of `monitor_task`, under the lock and then
-- the wait. The clock is read at most three times in a round: `first`, `second` and `last`.
pub mod Rounds
pub mod Actions
pub mod Reach
pub mod Safety
pub mod Recovery
use powersupply.Base.{
  ℕ, Bool, true, false, not, ◌||◌, Option, none, some, List, [], ◌∷◌, ltb, if◌then◌else◌, Result,
  Outcome, returns, unwrap, unwrap_option, ◌>>=◌, ◌>>◌,
}
use powersupply.Base.Time.{Time}
use powersupply.Watchdog.{watchdog_deadline_secs}
use powersupply.Tps55289.{Mode, Status}
use powersupply.PowerExt.{
  State, Inner, Action, write_mode, feed_watchdog, set_pin, log_overcurrent, mode_off, mode_on,
}
use powersupply.PowerExt.Deadline.{earliest_deadline}

-- The local variables of the task.
pub record Local : Type 0 where
  pub enabled : Bool
  pub backoff_until : Option ℕ
  pub stabilized_at : Option ℕ
  pub ocp_since : Option ℕ

abbrev pub initial : Local
initial = record { enabled = false; backoff_until = none; stabilized_at = none; ocp_since = none }

-- `if ocp_since.is_none() { ocp_since = Some(now) }`
abbrev pub first_since : Option ℕ → ℕ → Option ℕ
first_since none now = some now
first_since (some since) now = some since

-- `status.ocp() || status.scp()`
abbrev pub is_fault : Status → Bool
is_fault status = status.ocp || status.scp

pub record Answers (I2cError : Type 0) : Type 0 where
  pub status_read : Result Status I2cError
  pub mode_read : Result Mode I2cError
  pub mode_written : Result (Unit {0}) I2cError
  pub pin_set : Result (Unit {0}) I2cError
  pub first : ℕ
  pub second : ℕ
  pub last : ℕ

-- What the locked part of a round leaves.
pub record Outcomes : Type 0 where
  pub local : Local
  pub inner : Inner
  pub actions : List Action

module _ (time : Time) {I2cError : Type 0} (a : Answers I2cError) where
  open time use {add, elapsed, as_secs, from_millis}

  -- The branch on a fault: the output goes off, and stays off until the backoff has passed.
  on_fault : Local → Inner → Outcome Outcomes
  on_fault l inner = do
    mode ← unwrap a.mode_read
    unwrap a.mode_written
    until ← add a.first inner.backoff_duration
    unwrap a.pin_set
    returns (record {
      local = record {
        enabled = false;
        backoff_until = some until;
        stabilized_at = none;
        ocp_since = first_since l.ocp_since a.second;
      };
      inner = record inner { state = State.ocp };
      actions = write_mode (mode_off mode) ∷ set_pin false ∷ [];
    })

  -- The output goes on.
  activate : Local → Inner → Outcome Outcomes
  activate l inner = do
    mode ← unwrap a.mode_read
    unwrap a.mode_written
    unwrap a.pin_set
    at ← add a.second (from_millis 100)
    returns (record {
      local = record l { enabled = true; backoff_until = none; stabilized_at = some at };
      inner = record inner { state = State.enabling };
      actions = write_mode (mode_on mode) ∷ set_pin true ∷ [];
    })

  may_activate : Option ℕ → Bool
  may_activate (some until) = ltb until a.first
  may_activate none = true

  -- The branch on a disabled output.
  on_disabled : Local → Inner → Outcome Outcomes
  unfolding activate may_activate
  on_disabled l inner =
      if may_activate l.backoff_until
      then activate l inner
      else returns (record { local = l; inner = inner; actions = [] })

  -- The over-current is over: it is logged with its length, if there was one.
  log_since : Option ℕ → Outcome (List Action)
  log_since none = returns []
  log_since (some since) = do
    duration ← elapsed a.second since
    returns (log_overcurrent (as_secs duration) ∷ [])

  stabilize : Local → Inner → Outcome Outcomes
  unfolding log_since
  stabilize l inner = do
    actions ← log_since l.ocp_since
    returns (record {
      local = record l { stabilized_at = none; ocp_since = none };
      inner = record inner { state = State.enabled };
      actions = actions;
    })

  has_stabilized : Option ℕ → Bool
  has_stabilized (some at) = ltb at a.first
  has_stabilized none = false

  -- The branch on an enabled output.
  on_enabled : Local → Inner → Outcome Outcomes
  unfolding stabilize has_stabilized
  on_enabled l inner =
      if has_stabilized l.stabilized_at
      then stabilize l inner
      else returns (record { local = l; inner = inner; actions = [] })

  pub locked_part : Status → Local → Inner → Outcome Outcomes
  locked_part status l inner =
      if is_fault status
      then on_fault l inner
      else if not l.enabled
      then on_disabled l inner
      else on_enabled l inner

  -- A round, and the time at which the task wakes at the latest.
  unfoldable pub round : Local → Inner → Outcome (Outcomes × ℕ)
  unfolding locked_part on_fault on_disabled on_enabled
  round l inner = do
    status ← unwrap a.status_read
    r ← locked_part status l inner
    awaken_anyway_at ← add a.last (time.from_secs watchdog_deadline_secs)
    deadline ← unwrap_option (
        earliest_deadline
          (some awaken_anyway_at ∷ r.local.backoff_until ∷ r.local.stabilized_at ∷ []))
    returns (record r { actions = feed_watchdog ∷ r.actions }, deadline)
