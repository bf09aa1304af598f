-- ===== src/Registers.antt =====
-- sw/fw/src/drivers/stusb4500/ll.rs and sw/fw/src/drivers/tps55289/ll.rs: the registers of both
-- chips as `implement_device!` of device_driver_macros is given them, which lays their fields out
-- in the bytes that `write_register` and `read_register` carry.
pub mod Layout
use Prim.Native.String.{String}
use powersupply.Base.{ℕ, ◌+◌, ◌-◌, ◌/◌, List, [], ◌∷◌, Option, none, some, Result, Outcome}
use powersupply.Transactions.{
  stusb4500_max, stusb4500_address, tps55289_max, tps55289_address, write_register,
}
use powersupply.Transactions.Reads.{I2c, read_register}

pub data RwType : Type 0 where
  read_only read_write : RwType

-- A register of a byte has no order; the larger ones have the lowest byte first.
pub data ByteOrder : Type 0 where
  none_given le : ByteOrder

pub data FieldType : Type 0 where
  bool u8 u16 u32 : FieldType

-- `name: ty as converted = first..last`; a single bit is `first = last - 1`.
pub record Field : Type 0 where
  pub name : String
  pub ty : FieldType
  pub converted : Option String
  pub first : ℕ
  pub last : ℕ

pub record Register : Type 0 where
  pub rw_type : RwType
  pub byte_order : ByteOrder
  pub address : ℕ
  pub size_bits : ℕ
  pub fields : List Field

abbrev pub bits : String → FieldType → ℕ → ℕ → Field
bits name ty first last = record {
  name = name;
  ty = ty;
  converted = none;
  first = first;
  last = last;
}

abbrev pub bit : String → ℕ → Field
bit name n = bits name bool n (n + 1)

abbrev pub bits_as : String → FieldType → String → ℕ → ℕ → Field
bits_as name ty e first last = record {
  name = name;
  ty = ty;
  converted = some e;
  first = first;
  last = last;
}

abbrev pub width : Field → ℕ
width f = f.last - f.first

abbrev pub size_bytes : Register → ℕ
size_bytes r = r.size_bits / 8

-- The registers of the USB-PD controller.
pub data Stusb4500 : Type 0 where
  pd_command_ctrl policy_engine_fsm gpio_sw_gpio device_id tx_header dpmpdonumb : Stusb4500
  dpmsnkpdo_1 dpmsnkpdo_2 dpmsnkpdo_3 rdo_status nvm_password nvm_ctrl_0 nvm_ctrl_1 : Stusb4500

abbrev one_byte : RwType → ℕ → List Field → Register
one_byte rw address fields = record {
  rw_type = rw;
  byte_order = none_given;
  address = address;
  size_bits = 8;
  fields = fields;
}

abbrev four_bytes : RwType → ℕ → List Field → Register
four_bytes rw address fields = record {
  rw_type = rw;
  byte_order = le;
  address = address;
  size_bits = 32;
  fields = fields;
}

unfoldable pub stusb4500 : Stusb4500 → Register
stusb4500 pd_command_ctrl = one_byte read_write 0x1A (bits "send_command" u8 0 6 ∷ [])
stusb4500 policy_engine_fsm =
    one_byte read_only 0x29 (bits_as "pe_fsm_state" u8 "PolicyEngineFSMState" 0 8 ∷ [])
stusb4500 gpio_sw_gpio = one_byte read_write 0x2D (bit "gpio_sw_gpio" 0 ∷ [])
stusb4500 device_id = one_byte read_only 0x2F (bits "value" u8 0 8 ∷ [])
stusb4500 tx_header = one_byte read_write 0x51 (bits "tx_header" u16 0 8 ∷ [])
stusb4500 dpmpdonumb = one_byte read_write 0x70 (bits "number" u8 0 3 ∷ [])
stusb4500 dpmsnkpdo_1 = four_bytes read_write 0x85 (bits "value" u32 0 32 ∷ [])
stusb4500 dpmsnkpdo_2 = four_bytes read_write 0x89 (bits "value" u32 0 32 ∷ [])
stusb4500 dpmsnkpdo_3 = four_bytes read_write 0x8D (bits "value" u32 0 32 ∷ [])
stusb4500 rdo_status = four_bytes read_only 0x91 (
    bits "max_current" u16 0 10
    ∷ bits "current" u16 10 20
    ∷ bit "extended_supported" 23
    ∷ bit "no_usb_suspend" 24
    ∷ bit "usb_comms_capable" 25
    ∷ bit "capability_mismatch" 26
    ∷ bit "give_back" 27
    ∷ bits "object_position" u8 28 32
    ∷ [])
stusb4500 nvm_password = one_byte read_write 0x95 (bits "password" u8 0 8 ∷ [])
stusb4500 nvm_ctrl_0 = one_byte read_write 0x96 (
    bits "sector" u8 0 4
    ∷ bit "request" 4
    ∷ bit "enable" 6
    ∷ bit "power" 7
    ∷ bits "value" u8 0 8
    ∷ [])
stusb4500 nvm_ctrl_1 = one_byte read_write 0x97 (
    bits_as "op_code" u8 "Ctrl1OpCode" 0 3
    ∷ bit "erase_sector0" 3
    ∷ bit "erase_sector1" 4
    ∷ bit "erase_sector2" 5
    ∷ bit "erase_sector3" 6
    ∷ bit "erase_sector4" 7
    ∷ bits "value" u8 0 8
    ∷ [])

-- `buffer RWBuffer: RW`, which holds a sector of eight bytes.
abbrev pub rw_buffer : ℕ
rw_buffer = 0x53

-- The registers of the converter.
pub data Tps55289 : Type 0 where
  vref iout_limit vout_fs mode status : Tps55289

unfoldable pub tps55289 : Tps55289 → Register
tps55289 vref = record {
  rw_type = read_write;
  byte_order = le;
  address = 0x00;
  size_bits = 16;
  fields = bits_as "vref" u16 "VRef" 0 11 ∷ [];
}
tps55289 iout_limit = record {
  rw_type = read_write;
  byte_order = le;
  address = 0x02;
  size_bits = 8;
  fields = bits "setting" u8 0 7 ∷ bit "en" 7 ∷ [];
}
tps55289 vout_fs = one_byte read_write 0x04 (bits_as "intfb" u8 "IntFB" 0 2 ∷ bit "fb" 7 ∷ [])
tps55289 mode =
    one_byte read_write 0x06
      (bit "fpwm" 1 ∷ bit "dischg" 4 ∷ bit "hiccup" 5 ∷ bit "fswdbl" 6 ∷ bit "oe" 7 ∷ [])
tps55289 status =
    one_byte read_only 0x07
      (bits_as "status" u8 "OperatingStatus" 0 2 ∷ bit "ovp" 5 ∷ bit "ocp" 6 ∷ bit "scp" 7 ∷ [])

-- A register of either chip, and the chip's driver: the size of its buffer, and the address of the
-- chip on the bus.
pub data Known : Type 0 where
  of_stusb4500 : Stusb4500 → Known
  of_tps55289 : Tps55289 → Known

unfoldable pub layout : Known → Register
unfolding stusb4500 tps55289
layout (of_stusb4500 r) = stusb4500 r
layout (of_tps55289 r) = tps55289 r

abbrev pub max_of : Known → ℕ
max_of (of_stusb4500 _) = stusb4500_max
max_of (of_tps55289 _) = tps55289_max

abbrev pub device_of : Known → ℕ
device_of (of_stusb4500 _) = stusb4500_address
device_of (of_tps55289 _) = tps55289_address

-- `write_register` and `read_register` of the driver that has the register.
unfoldable pub write_known :
    {S E : Type 0}
    → (ℕ → List ℕ → S → Result (Unit {0}) E × S)
    → Known
    → List ℕ
    → S
    → Outcome (Result (Unit {0}) E × S)
write_known write r bytes s =
    write_register write (max_of r) (device_of r) (layout r).address bytes s

unfoldable pub read_known :
    (i2c : I2c) → Known → i2c.State → Result (List ℕ) i2c.I2cError × i2c.State
read_known i2c r s = read_register i2c (device_of r) (layout r).address (size_bytes (layout r)) s
