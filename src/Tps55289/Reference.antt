-- ===== src/Tps55289/Reference.antt =====
-- How exactly sw/fw/src/drivers/tps55289/mod.rs turns an output voltage into a reference voltage.
use powersupply.Base.{ℕ, ◌+◌, ◌*◌, ◌/◌, ◌^◌, ◌≤◌, ◌<◌, ◌≡◌, arith, returns, Returns}
use powersupply.Tps55289.{ratio_0_0564, into_nanovolts, from_nanovolts, from_feedback}

-- A reference voltage of at most 7528 is recovered from its nanovolts, which fit a u32 then;
-- that is well beyond the eleven bits of the register.
pub from_nanovolts-into_nanovolts :
    (vref : ℕ) → vref ≤ 7_528 → from_nanovolts (into_nanovolts vref) ≡ vref
unfolding from_nanovolts into_nanovolts
from_nanovolts-into_nanovolts vref h = omega arith

-- For every u32 of nanovolts from 45 mV on, the reference chosen is at most the voltage asked
-- for, by less than a step.
pub from_nanovolts_nearest :
    (nv : ℕ)
    → 45_000_000 ≤ nv
    → nv < 2 ^ 32
    → (into_nanovolts (from_nanovolts nv) ≤ nv)
      × (nv < into_nanovolts (from_nanovolts nv) + 564_500)
unfolding from_nanovolts into_nanovolts
from_nanovolts_nearest nv lo hi = (omega arith, omega arith)

from_feedback-eq :
    (target : ℕ)
    → target < 2 ^ 16
    → from_feedback target ratio_0_0564
      ≡ returns (from_nanovolts (target * 564 / 10_000 * 1_000_000))
unfolding from_feedback
from_feedback-eq target h = ground arith

-- For every u16 of millivolts, at the ratio 0.0564, `from_feedback` does not panic. From 798 mV
-- to 21312 mV the reference fits the eleven bits of the register, and lies at or below the wanted
-- feedback voltage: by less than one step of 564500 nV when that is cut to whole millivolts, as the
-- code does, and by less than one step and a millivolt when it is taken exactly, which is 56400 nV
-- for each millivolt asked for.
pub from_feedback_bounds :
    (target : ℕ)
    → target < 2 ^ 16
    → Returns (from_feedback target ratio_0_0564) (λ vref.
      798 ≤ target
      → target ≤ 21_312
      → (vref < 2 ^ 11)
        × (into_nanovolts vref ≤ target * 564 / 10_000 * 1_000_000)
        × (target * 564 / 10_000 * 1_000_000 < into_nanovolts vref + 564_500)
        × (target * 56_400 < into_nanovolts vref + 1_564_500))
unfolding from_nanovolts into_nanovolts
from_feedback_bounds target h =
    rw (from_feedback-eq target h) (λ lo hi. (omega arith, omega arith, omega arith, omega arith))

-- For every u16 of millivolts, at the ratio 0.0564, `from_feedback` does not panic; below 798
-- mV, where the subtraction of the 45 mV offset wraps, and above 21312 mV, the reference needs
-- more than the eleven bits of the register.
pub from_feedback_overflow :
    (target : ℕ)
    → target < 2 ^ 16
    → Returns
        (from_feedback target ratio_0_0564)
        (λ vref. (target < 798 → 7_528 ≤ vref) × (21_312 < target → 2 ^ 11 ≤ vref))
unfolding from_nanovolts
from_feedback_overflow target h =
    rw (from_feedback-eq target h) ((λ lo. omega arith), (λ hi. omega arith))
