-- ===== src/PowerExt.antt =====
-- sw/fw/src/systems/power_ext.rs: the output power supply. What the hardware and the clock answer
-- enters as a record of answers; what the code writes leaves as a list of actions, in order.
pub mod Deadline
pub mod Limits
pub mod Monitor
use powersupply.Base.{
  ℕ, ◌+◌, ◌*◌, ◌/◌, Bool, true, false, Option, none, some, List, [], ◌∷◌, Result, Outcome, returns,
  unwrap, ◌>>=◌, ◌>>◌,
}
use powersupply.Base.Time.{Time}
use powersupply.Units.{as_u8, mul_u32}
use powersupply.Config.Fields.{Settings}
use powersupply.Tps55289.{IntFb, ratio_0_0564, from_feedback, Mode, Status, IoutLimit, VoutFs}

pub data State : Type 0 where
  disabled enabled enabling ocp : State

-- `Inner`; the converter itself is reached by actions.
pub record Inner : Type 0 where
  pub backoff_duration : ℕ
  pub state : State

abbrev pub feedback : IntFb
feedback = ratio_0_0564

abbrev pub current_sense_milliohm : ℕ
current_sense_milliohm = 20

-- Writes to the registers of the converter, and calls of the other systems.
pub data Action : Type 0 where
  enable_pin_high : Action
  write_mode : Mode → Action
  write_vout_fs : VoutFs → Action
  write_vref : ℕ → Action
  write_iout_limit : IoutLimit → Action
  take_ticket : Action
  feed_watchdog : Action
  set_pin : Bool → Action
  log_overcurrent : ℕ → Action

-- The converter stops: discharge, output off.
abbrev pub mode_off : Mode → Mode
mode_off m = record m { dischg = true; oe = false }

abbrev pub mode_on : Mode → Mode
mode_on m = record m { dischg = false; oe = true }

abbrev pub limit_value : ℕ → ℕ
limit_value iout_ma = as_u8 (mul_u32 iout_ma current_sense_milliohm / 500)

module _ (time : Time) (I2cError : Type 0) where
  open time use {from_millis, from_secs}

  pub record PersistAnswers : Type 0 where
    pub vref_written : Result (Unit {0}) I2cError
    pub iout_limit_read : Result IoutLimit I2cError
    pub iout_limit_written : Result (Unit {0}) I2cError

  unfoldable pub persist : Settings → PersistAnswers → Inner → Outcome (Inner × List Action)
  persist settings answers inner = do
    vref ← from_feedback settings.vout_mv feedback
    let inner' = record inner { backoff_duration = from_millis settings.backoff_ms }
    unwrap answers.vref_written
    limit ← unwrap answers.iout_limit_read
    unwrap answers.iout_limit_written
    returns (
      inner',
      write_vref vref
          ∷ write_iout_limit (record limit { setting = limit_value settings.iout_ma })
          ∷ [],
    )

  pub record InitAnswers : Type 0 where
    pub mode_read : Result Mode I2cError
    pub mode_written : Result (Unit {0}) I2cError
    pub vout_fs_read : Result VoutFs I2cError
    pub vout_fs_written : Result (Unit {0}) I2cError
    pub persisted : PersistAnswers

  -- `PowerExt::init`, with the settings that `config.fetch()` answers, up to the spawning of its
  -- tasks.
  unfoldable pub init : Settings → InitAnswers → Outcome (Inner × List Action)
  init settings answers = do
    mode ← unwrap answers.mode_read
    unwrap answers.mode_written
    vout_fs ← unwrap answers.vout_fs_read
    unwrap answers.vout_fs_written
    (inner, actions) ←
        persist settings answers.persisted (record { backoff_duration = 0; state = disabled })
    returns (
      inner,
      enable_pin_high
          ∷ write_mode (mode_off mode)
          ∷ write_vout_fs (record vout_fs { intfb = feedback })
          ∷ take_ticket
          ∷ actions,
    )
