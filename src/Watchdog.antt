-- ===== src/Watchdog.antt =====
-- sw/fw/src/systems/watchdog.rs: the tickets of the tasks that must stay alive, and the mask of
-- those that have fed since the hardware watchdog was fed last.
pub mod Rounds
pub mod Tickets
pub mod Timing
pub mod Stalled
pub mod Loops
use powersupply.Base.{
  ℕ, zero, suc, ◌+◌, ◌-◌, Bool, true, false, ◌&&◌, List, [], ◌∷◌, ltb, leb, if◌then◌else◌, length,
  set, replicate, Outcome, returns, panics, ◌>>=◌, ◌>>◌, assert,
}

abbrev pub watchdog_duration_secs : ℕ
watchdog_duration_secs = 30

abbrev pub watchdog_wiggle_secs : ℕ
watchdog_wiggle_secs = 1

-- `WATCHDOG_DEADLINE`, in seconds
abbrev pub watchdog_deadline_secs : ℕ
watchdog_deadline_secs = watchdog_duration_secs - watchdog_wiggle_secs

-- `BitArray<[u16; 1]>` has sixteen bits.
abbrev pub mask_bits : ℕ
mask_bits = 16

abbrev pub Mask : Type 0
Mask = List Bool

abbrev pub empty_mask : Mask
empty_mask = replicate mask_bits false

-- The peripheral is not a field: a call tells whether it fed the peripheral.
pub record Inner : Type 0 where
  pub mask : Mask
  pub count : ℕ

-- `slice.all()` on the first `n` bits
all_below : ℕ → Mask → Bool
all_below zero m = true
all_below (suc n) [] = false
all_below (suc n) (b ∷ m) = b && all_below n m

unfoldable pub init : Inner
init = record { mask = empty_mask; count = 0 }

-- `Inner::feed`; the flag says that `peri.feed()` was called.
unfoldable pub feed : ℕ → Inner → Outcome (Bool × Inner)
unfolding all_below
feed index s = do
  assert (ltb index (length s.mask))
  let mask = set s.mask index true
  assert (leb s.count (length mask))
  returns (
      if all_below s.count mask
      then (true, record s { mask = empty_mask })
      else (false, record s { mask = mask }))

-- `Watchdog::ticket`: the index of the new ticket, and what `feed` did.
unfoldable pub ticket : Inner → Outcome (ℕ × Bool × Inner)
ticket s = do
  let index = s.count
  (fed, s') ← feed index (record s { count = s.count + 1 })
  returns (index, fed, s')

-- A sequence of `WatchdogTicket::feed` calls, by the tickets' indices.
unfoldable pub run : List ℕ → Inner → Outcome (List Bool × Inner)
run [] s = returns ([], s)
run (i ∷ es) s = do (fed, s') ← feed i s; (flags, t) ← run es s'; returns (fed ∷ flags, t)
