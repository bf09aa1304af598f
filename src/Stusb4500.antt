-- ===== src/Stusb4500.antt =====
-- sw/fw/src/drivers/stusb4500: the USB-PD controller. The bus and the chip behind it are a
-- parameter; an access names the register and its fields (ll.rs), which a macro lays out in bytes.
pub mod Pdo
pub mod Chip
pub mod Replay
pub mod Commands
pub mod Fields
pub mod Agreement
pub mod Sectors
pub mod Roundtrip
use powersupply.Base.{
  ℕ, zero, suc, ◌+◌, Bool, true, false, List, [], ◌∷◌, Option, none, some, Result, ok, err, ◌==◌,
  if◌then◌else◌,
}

-- `Ctrl1OpCode`
pub data OpCode : Type 0 where
  read_sector load_plr load_ser dump_plr dump_ser erase_sectors write_sector : OpCode

-- The register NVMCtrl0
pub record Ctrl0 : Type 0 where
  pub sector : ℕ
  pub request : Bool
  pub enable : Bool
  pub power : Bool

-- The register NVMCtrl1; `erase` holds `erase_sector0` to `erase_sector4`.
pub record Ctrl1 : Type 0 where
  pub op_code : OpCode
  pub erase : List Bool

pub data PdoChannel : Type 0 where
  pdo_1 pdo_2 pdo_3 : PdoChannel

-- `NVMSector`
abbrev pub Sector : Type 0
Sector = List ℕ

abbrev pub num_sectors : ℕ
num_sectors = 5

-- The writes to registers.
pub data Write : Type 0 where
  password : ℕ → Write
  ctrl_0 : Ctrl0 → Write
  ctrl_1 : Ctrl1 → Write
  tx_header send_command : ℕ → Write
  gpio_sw_gpio : Bool → Write
  sink_pdo : PdoChannel → ℕ → Write
  pdo_number : (rest number : ℕ) → Write

-- What reaches the chip. `read_request` reads NVMCtrl0, `read_pdo_rest` the bits of DPMPDONUMB that
-- are not its number, which a modification keeps.
pub record Bus : Type 1 where
  pub State : Type 0
  pub I2cError : Type 0
  pub write : Write → State → Result (Unit {0}) I2cError × State
  pub write_buffer : Sector → State → Result (Unit {0}) (Unit {0}) × State
  pub read_request : State → Result Bool I2cError × State
  pub read_buffer : State → Result Sector (Unit {0}) × State
  pub read_device_id : State → Result ℕ I2cError × State
  pub read_fsm : State → Result ℕ I2cError × State
  pub read_rdo : State → Result ℕ I2cError × State
  pub read_pdo_rest : State → Result ℕ I2cError × State

-- `Error` of hl.rs
pub data Error (E : Type 0) : Type 0 where
  i2c : E → Error E
  io device_id_mismatch invalid_value timeout : Error E

-- Written without fields, a register is 0.
abbrev pub ctrl_0_zero : Ctrl0
ctrl_0_zero = record { sector = 0; request = false; enable = false; power = false }

abbrev pub powered : Ctrl0
powered = record ctrl_0_zero { power = true; enable = true }

abbrev pub requesting : ℕ → Ctrl0
requesting i = record powered { sector = i; request = true }

abbrev pub none_erased : List Bool
none_erased = false ∷ false ∷ false ∷ false ∷ false ∷ []

abbrev pub all_erased : List Bool
all_erased = true ∷ true ∷ true ∷ true ∷ true ∷ []

abbrev pub op : OpCode → Ctrl1
op o = record { op_code = o; erase = none_erased }

-- A call: none while a loop that polls the chip has used up its rounds. An error of the bus is
-- wrapped at once; the source does so where the caller's error type asks for it.
abbrev pub Action : Type 0 → Type 0 → Type 0 → Type 0
Action S E A = S → Option (Result A (Error E) × S)

abbrev pub map_err : {A E F : Type 0} → (F → Error E) → Result A F → Result A (Error E)
map_err f (ok a) = ok a
map_err f (err e) = err (f e)

module _ {S E : Type 0} where
  abbrev pub continue :
      {A B : Type 0}
      → Option (Result A (Error E) × S)
      → (A → Action S E B)
      → Option (Result B (Error E) × S)
  continue none f = none
  continue (some (ok a, s)) f = f a s
  continue (some (err e, s)) f = some (err e, s)

  infixl 5 ◌>>=◌ ◌>>◌
  abbrev pub ◌>>=◌ : {A B : Type 0} → Action S E A → (A → Action S E B) → Action S E B
  (m >>= f) s = continue (m s) f

  abbrev pub ◌>>◌ : {B : Type 0} → Action S E (Unit {0}) → Action S E B → Action S E B
  (m >> n) s = continue (m s) (λ _. n)

  abbrev pub done : {A : Type 0} → A → Action S E A
  done a s = some (ok a, s)

  abbrev pub fails : {A : Type 0} → Error E → Action S E A
  fails e s = some (err e, s)

  -- The rounds are used up.
  abbrev pub spins : {A : Type 0} → Action S E A
  spins s = none

  -- A read or a write of a register, and one of the buffer, whose error is not told.
  abbrev pub access : {A : Type 0} → (S → Result A E × S) → Action S E A
  access q s = some (map_err i2c (q s).0, (q s).1)

  abbrev pub buffer_access : {A : Type 0} → (S → Result A (Unit {0}) × S) → Action S E A
  buffer_access q s = some (map_err (λ _. io) (q s).0, (q s).1)
