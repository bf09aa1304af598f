-- ===== src/Stusb4500/Fields.antt =====
-- The values that sw/fw/src/drivers/stusb4500/hl.rs writes to the fields of the registers of ll.rs:
-- they fit the bits that the fields have.
use Prim.Native.String.{String}
use text.Mathlib.Text.{◌==◌ as str_eq}
use powersupply.Base.{
  ℕ, ◌^◌, ◌<◌, ◌≡◌, refl, Bool, true, false, ◌&&◌, List, [], ◌∷◌, Option, none, some, err, arith,
  ltb, if◌then◌else◌,
}
use powersupply.Registers.{
  Field, width, Register, pd_command_ctrl, gpio_sw_gpio, tx_header, dpmpdonumb, dpmsnkpdo_1,
  dpmsnkpdo_2, dpmsnkpdo_3, nvm_password, nvm_ctrl_0, nvm_ctrl_1, stusb4500,
}
use powersupply.Registers as registers
use powersupply.Stusb4500.{
  Bus, Write, OpCode, read_sector, load_plr, load_ser, dump_plr, dump_ser, erase_sectors,
  write_sector, Sector, PdoChannel, pdo_1, pdo_2, pdo_3, Error, Action, continue, access, op,
  all_erased, requesting, done, fails, device_id_mismatch,
}
use powersupply.Stusb4500 as calls

-- `Ctrl1OpCode as u8`
abbrev pub op_code_u8 : OpCode → ℕ
op_code_u8 read_sector = 0x00
op_code_u8 load_plr = 0x01
op_code_u8 load_ser = 0x02
op_code_u8 dump_plr = 0x03
op_code_u8 dump_ser = 0x04
op_code_u8 erase_sectors = 0x05
op_code_u8 write_sector = 0x06

abbrev bool_u8 : Bool → ℕ
bool_u8 b = if b then 1 else 0

abbrev pub channel : PdoChannel → registers.Stusb4500
channel pdo_1 = dpmsnkpdo_1
channel pdo_2 = dpmsnkpdo_2
channel pdo_3 = dpmsnkpdo_3

abbrev erase_fields : List String
erase_fields =
    "erase_sector0" ∷ "erase_sector1" ∷ "erase_sector2" ∷ "erase_sector3" ∷ "erase_sector4" ∷ []

abbrev flags : List String → List Bool → List (String × ℕ)
flags (name ∷ names) (b ∷ bs) = (name, bool_u8 b) ∷ flags names bs
flags _ _ = []

-- The fields of a register that a write sets, and their values; the write of `pdo_number` puts the
-- other bits back as they were read.
abbrev pub assigned : Write → registers.Stusb4500 × List (String × ℕ)
assigned (calls.password n) = (nvm_password, ("password", n) ∷ [])
assigned (calls.ctrl_0 c) = (
  nvm_ctrl_0,
  ("sector", c.sector)
      ∷ ("request", bool_u8 c.request)
      ∷ ("enable", bool_u8 c.enable)
      ∷ ("power", bool_u8 c.power)
      ∷ [],
)
assigned (calls.ctrl_1 c) =
    (nvm_ctrl_1, ("op_code", op_code_u8 c.op_code) ∷ flags erase_fields c.erase)
assigned (calls.tx_header n) = (tx_header, ("tx_header", n) ∷ [])
assigned (calls.send_command n) = (pd_command_ctrl, ("send_command", n) ∷ [])
assigned (calls.gpio_sw_gpio b) = (gpio_sw_gpio, ("gpio_sw_gpio", bool_u8 b) ∷ [])
assigned (calls.sink_pdo c n) = (channel c, ("value", n) ∷ [])
assigned (calls.pdo_number rest n) = (dpmpdonumb, ("number", n) ∷ [])

abbrev width_of : String → List Field → Option ℕ
width_of name [] = none
width_of name (f ∷ fs) = if str_eq f.name name then some (width f) else width_of name fs

abbrev value_fits : ℕ → Option ℕ → Bool
value_fits value (some bits) = ltb value (2 ^ bits)
value_fits value none = false

abbrev all_fit : List Field → List (String × ℕ) → Bool
all_fit fs [] = true
all_fit fs ((name, value) ∷ vs) = value_fits value (width_of name fs) && all_fit fs vs

unfoldable pub fits : Write → Bool
unfolding stusb4500
fits w = let (register, values) = assigned w in all_fit (stusb4500 register).fields values

-- A bus that refuses a value that does not fit its field.
abbrev pub checked : (bus : Bus) → bus.I2cError → Bus
checked bus e = record bus { write = λ w s. if fits w then bus.write w s else (err e, s) }

pub ctrl_0-fits : (c : calls.Ctrl0) → c.sector < 16 → fits (calls.ctrl_0 c) ≡ true
unfolding fits
ctrl_0-fits c h = ground arith

pub ctrl_1-fits :
    (o : OpCode)
    → (fits (calls.ctrl_1 (op o)) ≡ true)
      × (fits (calls.ctrl_1 (record { op_code = o; erase = all_erased })) ≡ true)
unfolding fits
ctrl_1-fits read_sector = (refl, refl)
ctrl_1-fits _ = (refl, refl)

pub sink_pdo-fits : (c : PdoChannel) (n : ℕ) → n < 2 ^ 32 → fits (calls.sink_pdo c n) ≡ true
unfolding fits
sink_pdo-fits pdo_1 n h = ground arith
sink_pdo-fits pdo_2 n h = ground arith
sink_pdo-fits pdo_3 n h = ground arith

pub pdo_number-fits : (rest n : ℕ) → n < 8 → fits (calls.pdo_number rest n) ≡ true
unfolding fits
pdo_number-fits rest n h = ground arith
