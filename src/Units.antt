-- ===== src/Units.antt =====
-- sw/fw/src/util.rs: voltages and currents behind a name are their numbers here; u16 and u32 keep
-- their wrap-around.
use powersupply.Base.{ℕ, ◌+◌, ◌-◌, ◌*◌, ◌/◌, ◌%◌, ◌^◌}

abbrev pub as_u8 : ℕ → ℕ
as_u8 n = n % 2 ^ 8

abbrev pub as_u16 : ℕ → ℕ
as_u16 n = n % 2 ^ 16

-- The operators of u32 in the release profile, which has no overflow checks.
abbrev pub add_u32 : ℕ → ℕ → ℕ
add_u32 a b = (a + b) % 2 ^ 32

abbrev pub sub_u32 : ℕ → ℕ → ℕ
sub_u32 a b = (a + 2 ^ 32 - b) % 2 ^ 32

abbrev pub mul_u32 : ℕ → ℕ → ℕ
mul_u32 a b = a * b % 2 ^ 32

-- `From<Nanovolts> for Millivolts`
unfoldable pub millivolts : ℕ → ℕ
millivolts nanovolts = as_u16 (nanovolts / 1_000_000)
