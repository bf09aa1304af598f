-- ===== src/Tests/Chips.antt =====
-- A USB-PD controller whose commands take two rounds of polling, with an empty memory at first.
use powersupply.Base.{ℕ, ◌-◌, ◌≤◌, ◌≡◌, refl, true, false, [], ◌∷◌, arith, ok, ltb, if◌then◌else◌}
use powersupply.Stusb4500.{Bus, Write, Sector, read_sector, none_erased, ◌>>◌}
use powersupply.Stusb4500.Commands.{read_sectors, write_sectors}
use powersupply.Stusb4500.Chip.{Nvm, Chip, starts, effect}
use powersupply.Stusb4500.Sectors.{Runs}
use powersupply.Stusb4500.Roundtrip.{read_sectors-write_sectors}
use powersupply.UsbPd.{nvm_data, init}
use powersupply.UsbPd.Boot.{Booted, Ends, init-Booted}
use powersupply.UsbPd.Values.{init-checked}
use powersupply.UsbPd.{set_pin}
use powersupply.Stusb4500.Fields.{checked}

abbrev blank : Sector
blank = 0xFF ∷ 0xFF ∷ 0xFF ∷ 0xFF ∷ 0xFF ∷ 0xFF ∷ 0xFF ∷ 0xFF ∷ []

abbrev program : Sector → Sector → Sector
program old new = new

-- The memory, and the rounds that are pending.
abbrev State : Type 0
State = Nvm × ℕ

abbrev after_write : Write → State → State
after_write w (v, p) = (effect blank program w v, if starts w then 2 else 0)

abbrev pub bus : Bus
bus = record {
  State = State;
  I2cError = Unit;
  write = λ w s. (ok tt, after_write w s);
  write_buffer = λ bytes s. (ok tt, (record (s.0) { buffer = bytes }, 0));
  read_request = λ s. (ok (ltb 0 (s.1)), (s.0, s.1 - 1));
  read_buffer = λ s. (ok (s.0).buffer, s);
  read_device_id = λ s. (ok 0x25, s);
  read_fsm = λ s. (ok 0x18, s);
  read_rdo = λ s. (ok 0, s);
  read_pdo_rest = λ s. (ok 0, s);
}

pub write_lem : (w : Write) (s : State) → (after_write w s).1 ≤ (if starts w then 2 else 0)
write_lem w (v, p) = ground arith

abbrev pub chip : Chip bus
chip = record {
  blank = blank;
  program = program;
  nvm = λ s. s.0;
  pending = λ s. s.1;
  rounds = 2;
  program-blank = λ bytes. refl;
  write_idle = λ w s h. (refl, refl, write_lem w s);
  fill_idle = λ bytes s h. (refl, refl, refl);
  poll = λ s. (refl, refl, refl);
  read_idle = λ s h. (refl, refl, h);
  id_idle = λ s h. (refl, refl, h);
  rest_idle = λ s h. ((0, refl), refl, h);
}

abbrev pub empty : Nvm
empty = record {
  unlocked = false;
  op_code = read_sector;
  erase = none_erased;
  ser = none_erased;
  plr = blank;
  buffer = blank;
  sectors = λ j. blank;
  wear = 0;
}

init-Booted_example : Ends (init bus 3 1 (empty, 0)) (λ t.
    Booted bus chip (empty, 0) t
    × Ends (init bus 3 1 t) (λ u. Booted bus chip t u × ((u.0).wear ≡ (t.0).wear)))
init-Booted_example = init-Booted bus chip 0 3 (omega arith) (empty, 0) refl

read_sectors-write_sectors_example :
    Runs
      ((write_sectors bus 3 nvm_data >> read_sectors bus 3) (record empty { unlocked = true }, 0))
      (λ l _. l ≡ nvm_data)
read_sectors-write_sectors_example =
    read_sectors-write_sectors bus chip 3 (omega arith) nvm_data
      (record empty { unlocked = true }, 0) refl refl refl

init-checked_example :
    (init (checked bus tt) 3 1 (empty, 0) ≡ init bus 3 1 (empty, 0))
    × (set_pin (checked bus tt) true (empty, 0) ≡ set_pin bus true (empty, 0))
init-checked_example = init-checked bus tt 3 1 true (empty, 0)
