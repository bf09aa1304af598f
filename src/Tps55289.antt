-- ===== src/Tps55289.antt =====
-- sw/fw/src/drivers/tps55289/mod.rs: the reference voltage of the output converter; and the
-- registers of sw/fw/src/drivers/tps55289/ll.rs that the firmware uses, by their fields.
pub mod Reference
use powersupply.Base.{
  ℕ, ◌*◌, ◌/◌, ◌+◌, ◌^◌, Bool, true, false, ltb, if◌then◌else◌, Outcome, returns, panics, ◌>>=◌,
}
use powersupply.Units.{as_u16, add_u32, sub_u32, mul_u32}

-- The internal feedback ratios.
pub data IntFb : Type 0 where
  ratio_0_2256 ratio_0_1128 ratio_0_0752 ratio_0_0564 : IntFb

abbrev ratio : IntFb → ℕ
ratio ratio_0_2256 = 2_256
ratio ratio_0_1128 = 1_128
ratio ratio_0_0752 = 752
ratio ratio_0_0564 = 564

-- `checked_mul` on u32, unwrapped
checked_mul_u32 : ℕ → ℕ → Outcome ℕ
checked_mul_u32 a b = if ltb (a * b) (2 ^ 32) then returns (a * b) else panics

unfoldable pub multiply : IntFb → ℕ → Outcome ℕ
unfolding checked_mul_u32
multiply fb x = do product ← checked_mul_u32 x (ratio fb); returns (product / 10_000)

-- A `VRef` is its u16.
unfoldable pub into_nanovolts : ℕ → ℕ
into_nanovolts vref = add_u32 45_000_000 (mul_u32 564_500 vref)

unfoldable pub from_nanovolts : ℕ → ℕ
from_nanovolts from = as_u16 (sub_u32 from 45_000_000 / 564_500)

unfoldable pub from_feedback : ℕ → IntFb → Outcome ℕ
unfolding multiply from_nanovolts
from_feedback target fb = do
  millivolts ← multiply fb target
  returns (from_nanovolts (mul_u32 millivolts 1_000_000))

-- The register `mode`
pub record Mode : Type 0 where
  pub fpwm : Bool
  pub dischg : Bool
  pub hiccup : Bool
  pub fswdbl : Bool
  pub oe : Bool

-- The register `status`; the field `status` of it is not read by the firmware.
pub record Status : Type 0 where
  pub ovp : Bool
  pub ocp : Bool
  pub scp : Bool

-- The register `iout_limit`
pub record IoutLimit : Type 0 where
  pub setting : ℕ
  pub en : Bool

-- The register `vout_fs`
pub record VoutFs : Type 0 where
  pub intfb : IntFb
  pub fb : Bool
