-- ===== src/Stusb4500/Chip.antt =====
-- The memory (NVM) of the USB-PD controller behind its registers, as the chip's documentation
-- describes it: what sw/fw/src/drivers/stusb4500/hl.rs relies on. The chip is a parameter.
use powersupply.Base.{
  ℕ, ◌+◌, ◌-◌, ◌≤◌, ◌≡◌, Bool, false, ◌&&◌, List, ok, ltb, ◌==◌, if◌then◌else◌, get_or,
}
use powersupply.Stusb4500.{
  Bus, Write, password, ctrl_0, ctrl_1, OpCode, read_sector, load_plr, load_ser, erase_sectors,
  write_sector, Sector,
}

-- `plr` and `ser` are the registers that hold a sector to program and the sectors to erase; `wear`
-- counts the commands that erase or program.
pub record Nvm : Type 0 where
  pub unlocked : Bool
  pub op_code : OpCode
  pub erase : List Bool
  pub ser : List Bool
  pub plr : Sector
  pub buffer : Sector
  pub sectors : ℕ → Sector
  pub wear : ℕ

-- The access that starts a command.
abbrev pub starts : Write → Bool
starts (ctrl_0 c) = c.request
starts _ = false

module _ (blank : Sector) (program : Sector → Sector → Sector) where
  abbrev pub execute : OpCode → ℕ → Nvm → Nvm
  execute read_sector i v = record v { buffer = v.sectors i }
  execute load_plr i v = record v { plr = v.buffer }
  execute load_ser i v = record v { ser = v.erase }
  execute erase_sectors i v = record v {
    sectors = λ j. if get_or v.ser j false then blank else v.sectors j;
    wear = v.wear + 1;
  }
  execute write_sector i v = record v {
    sectors = λ j. if j == i then program (v.sectors j) v.plr else v.sectors j;
    wear = v.wear + 1;
  }
  execute _ i v = v

  -- What a write to a register does to the memory, once its command has run.
  abbrev pub effect : Write → Nvm → Nvm
  effect (password n) v = record v { unlocked = n == 0x47 }
  effect (ctrl_0 c) v =
      if v.unlocked && c.power && c.enable && c.request then execute v.op_code c.sector v else v
  effect (ctrl_1 c) v = record v { op_code = c.op_code; erase = c.erase }
  effect _ v = v

-- A chip that works, on a bus that works. A command takes some rounds of polling, `rounds` at
-- most, in which nothing else may be accessed; `pending` counts those left.
pub record Chip (bus : Bus) : Type 1 where
  pub blank : Sector
  pub program : Sector → Sector → Sector
  pub nvm : bus.State → Nvm
  pub pending : bus.State → ℕ
  pub rounds : ℕ
  pub program-blank : (bytes : Sector) → program blank bytes ≡ bytes
  pub write_idle :
      (w : Write) (s : bus.State)
      → pending s ≡ 0
      → ((bus.write w s).0 ≡ ok tt)
        × (nvm (bus.write w s).1 ≡ effect blank program w (nvm s))
        × (pending (bus.write w s).1 ≤ (if starts w then rounds else 0))
  pub fill_idle :
      (bytes : Sector) (s : bus.State)
      → pending s ≡ 0
      → ((bus.write_buffer bytes s).0 ≡ ok tt)
        × (nvm (bus.write_buffer bytes s).1 ≡ record (nvm s) { buffer = bytes })
        × (pending (bus.write_buffer bytes s).1 ≡ 0)
  pub poll :
      (s : bus.State)
      → ((bus.read_request s).0 ≡ ok (ltb 0 (pending s)))
        × (nvm (bus.read_request s).1 ≡ nvm s)
        × (pending (bus.read_request s).1 ≡ pending s - 1)
  pub read_idle :
      (s : bus.State)
      → pending s ≡ 0
      → ((bus.read_buffer s).0 ≡ ok (nvm s).buffer)
        × (nvm (bus.read_buffer s).1 ≡ nvm s)
        × (pending (bus.read_buffer s).1 ≡ 0)
  pub id_idle :
      (s : bus.State)
      → pending s ≡ 0
      → ((bus.read_device_id s).0 ≡ ok 0x25)
        × (nvm (bus.read_device_id s).1 ≡ nvm s)
        × (pending (bus.read_device_id s).1 ≡ 0)
  pub rest_idle :
      (s : bus.State)
      → pending s ≡ 0
      → ((rest : ℕ) × ((bus.read_pdo_rest s).0 ≡ ok rest))
        × (nvm (bus.read_pdo_rest s).1 ≡ nvm s)
        × (pending (bus.read_pdo_rest s).1 ≡ 0)
