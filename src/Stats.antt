-- ===== src/Stats.antt =====
-- sw/fw/src/systems/stats.rs: the measured voltages and what is published of them.
use powersupply.Base.{
  ℕ, zero, suc, ◌+◌, ◌*◌, ◌/◌, ◌≤◌, ◌<◌, ◌≡◌, refl, Bool, Option, none, some, List, [], ◌∷◌, arith,
  if◌then◌else◌, Result, ok, err, Outcome, returns, unwrap, ◌>>=◌,
}
use powersupply.Units.{as_u16, mul_u32}
use powersupply.PowerExt.{State}
use powersupply.Executors.Thread.{SleepStats, as_permille}

-- What a call on the converter answers (`nb::Result`).
pub data Nb (T E : Type 0) : Type 0 where
  value : T → Nb T E
  would_block : Nb T E
  other : E → Nb T E

module _ {S T E : Type 0} (f : S → Nb T E × S) where
  -- The loop of `poll_until_ready`, for so many rounds; none when they are used up. Waiting a
  -- millisecond between two rounds changes nothing that the function sees.
  unfoldable pub poll_until_ready : ℕ → S → Option (Result T E × S)
  poll_until_ready zero s = none
  poll_until_ready (suc n) s =
      let (r, s') = f s in
      elim r [
        | value x ↦ some (ok x, s')
        | other e ↦ some (err e, s')
        | would_block ↦ poll_until_ready n s'
      ]

  -- The answers to the first `k` calls are that the converter would block, and it is at `t` then.
  abbrev pub BlocksUntil : ℕ → S → S → Type 0
  BlocksUntil zero s t = s ≡ t
  BlocksUntil (suc k) s t = ((f s).0 ≡ would_block) × BlocksUntil k (f s).1 t

  -- The answer that ends the loop with this result.
  abbrev pub answer_of : Result T E → Nb T E
  answer_of (ok x) = value x
  answer_of (err e) = other e

  poll_once :
      (n : ℕ) (t : S) (r : Result T E)
      → (f t).0 ≡ answer_of r
      → poll_until_ready (suc n) t ≡ some (r, (f t).1)
  unfolding poll_until_ready
  poll_once n t (ok x) e = rw (poll_until_ready, e) refl
  poll_once n t (err x) e = rw (poll_until_ready, e) refl

  -- The loop ends with the first answer that is not `WouldBlock`: after `k` of these, with more than
  -- `k` rounds, a value is returned as such, and so is an error.
  pub poll_until_ready_lem :
      (k n : ℕ) (s t : S) (r : Result T E)
      → BlocksUntil k s t
      → k < n
      → (f t).0 ≡ answer_of r
      → poll_until_ready n s ≡ some (r, (f t).1)
  unfolding poll_until_ready
  poll_until_ready_lem k zero s t r b lt e = elim lt [ ]
  poll_until_ready_lem zero (suc n) s t r b lt e = rw b (poll_once n t r e)
  poll_until_ready_lem (suc k) (suc n) s t r b lt e =
      rw (poll_until_ready, b.0) (poll_until_ready_lem k n (f s).1 t r b.1 (omega arith) e)

-- `voltage divider (100 + 100) / 100`, on u16
unfoldable pub factor_vprog : ℕ → ℕ
factor_vprog v = as_u16 (v * 2)

-- `voltage divider (887 + 100) / 100`, by way of u32
unfoldable pub factor_high : ℕ → ℕ
factor_high v = as_u16 (mul_u32 v 987 / 100)

pub record Data : Type 0 where
  pub vsupply_mv : ℕ
  pub vprog_mv : ℕ
  pub vout_mv : ℕ
  pub uptime_secs : ℕ
  pub idle_permille : ℕ
  pub vout_state : State

-- `Stats`: the latest data, and the messages published, the last one first.
pub record Stats : Type 0 where
  pub latest : Option Data
  pub published : List Data

abbrev pub init : Stats
init = record { latest = none; published = [] }

-- What a round of the task reads: three polled conversions, the time, the statistics of the
-- executor, the state of the output, and whether the publication found room.
pub record Readings (E : Type 0) : Type 0 where
  pub vsupply : Result ℕ E
  pub vprog : Result ℕ E
  pub vout : Result ℕ E
  pub now_secs : ℕ
  pub sleep : SleepStats
  pub state : State
  pub has_room : Bool

-- `data.replace`, and `try_publish`, which drops the message if it finds no room
abbrev pub publish : Bool → Data → Stats → Stats
publish has_room d s = record {
  latest = some d;
  published = if has_room then d ∷ s.published else s.published;
}

unfoldable pub round : {E : Type 0} → Readings E → Stats → Outcome Stats
round a s = do
  vsupply ← unwrap a.vsupply
  vprog ← unwrap a.vprog
  vout ← unwrap a.vout
  idle_permille ← as_permille a.sleep
  returns (
      publish a.has_room
        (record {
          vsupply_mv = factor_high vsupply;
          vprog_mv = factor_vprog vprog;
          vout_mv = factor_high vout;
          uptime_secs = a.now_secs;
          idle_permille = idle_permille;
          vout_state = a.state;
        })
        s)

-- The scaled voltages do not wrap, and are rounded down to whole millivolts, as long as the
-- readings are below 32768 mV and 6640 mV; at 6640 mV the cast wraps to 0.
pub factors_exact :
    (v : ℕ)
    → (v < 32_768 → factor_vprog v ≡ 2 * v)
      × (v < 6_640 → (factor_high v * 100 ≤ v * 987) × (v * 987 < factor_high v * 100 + 100))
      × (v ≡ 6_640 → factor_high v ≡ 0)
unfolding factor_vprog factor_high
factors_exact v = ((λ h. omega arith), (λ h. (omega arith, omega arith)), (λ h. omega arith))
