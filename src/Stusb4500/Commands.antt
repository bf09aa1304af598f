-- ===== src/Stusb4500/Commands.antt =====
-- sw/fw/src/drivers/stusb4500/hl.rs: the driver's calls.
use powersupply.Base.{
  ℕ, zero, suc, ◌+◌, Bool, true, not, List, [], ◌∷◌, none, some, ok, err, ◌==◌, if◌then◌else◌,
}
use powersupply.Stusb4500.{
  Bus, Action, ◌>>=◌, ◌>>◌, done, fails, spins, access, buffer_access, device_id_mismatch, timeout,
  invalid_value, password, ctrl_0, ctrl_1, tx_header, send_command, gpio_sw_gpio, sink_pdo,
  pdo_number, Write, ctrl_0_zero, powered, requesting, op, all_erased, load_ser, load_plr,
  read_sector, write_sector, erase_sectors, Sector, num_sectors, PdoChannel,
}
use powersupply.Stusb4500.Pdo.{FsmState, fsm_state_from}

module _ (bus : Bus) where
  open bus use {State, I2cError}

  abbrev pub Call : Type 0 → Type 0
  Call A = Action State I2cError A

  abbrev pub set_register : Write → Call (Unit {0})
  set_register w = access (bus.write w)

  -- The device identifier, by as many attempts as fit in the timeout.
  unfoldable pub await_id : ℕ → Call ℕ
  await_id zero s = fails timeout s
  await_id (suc n) s =
      let (r, t) = bus.read_device_id s in elim r [ ok value ↦ done value t | err _ ↦ await_id n t ]

  -- `STUSB4500::new`
  unfoldable pub new : ℕ → Call (Unit {0})
  unfolding await_id
  new attempts = do id ← await_id attempts; if id == 0x25 then done tt else fails device_id_mismatch

  unfoldable pub unlock_nvm : Call (Unit {0})
  unlock_nvm = do
    set_register (password 0x47)
    set_register (ctrl_0 ctrl_0_zero)
    set_register (ctrl_0 powered)

  unfoldable pub issue_pd_reset : Call (Unit {0})
  issue_pd_reset = do set_register (tx_header 0x0D); set_register (send_command 0x26)

  unfoldable pub fsm_state : Call FsmState
  fsm_state = do
    value ← access bus.read_fsm
    elim (fsm_state_from value) [ some state ↦ done state | none ↦ fails invalid_value ]

  unfoldable pub gpio_set_level : Bool → Call (Unit {0})
  gpio_set_level level = set_register (gpio_sw_gpio (not level))

  abbrev pub rdo : Call ℕ
  rdo = access bus.read_rdo

  unfoldable pub set_pdo : PdoChannel → ℕ → Call (Unit {0})
  set_pdo channel pdo = set_register (sink_pdo channel pdo)

  unfoldable pub set_pdo_num : ℕ → Call (Unit {0})
  set_pdo_num num = do rest ← access bus.read_pdo_rest; set_register (pdo_number rest num)

  unfoldable pub lock_nvm : Call (Unit {0})
  lock_nvm = do
    set_register (ctrl_0 (record ctrl_0_zero { enable = true }))
    set_register (ctrl_1 (op read_sector))
    set_register (password 0x00)

  -- The loop that waits for the chip to clear the request, for so many rounds.
  unfoldable pub await_request : ℕ → Call (Unit {0})
  await_request zero = spins
  await_request (suc n) = do
    request ← access bus.read_request
    if not request then done tt else await_request n

  module _ (rounds : ℕ) where
    unfoldable pub issue_request_with_sector : ℕ → Call (Unit {0})
    issue_request_with_sector sector = do
      set_register (ctrl_0 (requesting sector))
      await_request rounds

    abbrev pub issue_request : Call (Unit {0})
    issue_request = issue_request_with_sector 0

    -- A command: the operation, and the request that runs it.
    unfoldable pub erase_all_sectors : Call (Unit {0})
    erase_all_sectors = do
      set_register (ctrl_1 (record { op_code = load_ser; erase = all_erased }))
      issue_request
      set_register (ctrl_1 (op erase_sectors))
      issue_request

    unfoldable pub read_one : ℕ → Call Sector
    read_one sector = do
      set_register (ctrl_1 (op read_sector))
      issue_request_with_sector sector
      buffer_access bus.read_buffer

    unfoldable pub write_one : ℕ → Sector → Call (Unit {0})
    write_one sector bytes = do
      buffer_access (bus.write_buffer bytes)
      set_register (ctrl_1 (op load_plr))
      issue_request
      set_register (ctrl_1 (op write_sector))
      issue_request_with_sector sector

    -- The loop of `read_sectors`, for `n` sectors from number `i` on.
    unfoldable pub read_from : ℕ → ℕ → Call (List Sector)
    read_from i zero = done []
    read_from i (suc n) = do sector ← read_one i; rest ← read_from (i + 1) n; done (sector ∷ rest)

    unfoldable pub read_sectors : Call (List Sector)
    read_sectors = read_from 0 num_sectors

    unfoldable pub write_from : ℕ → List Sector → Call (Unit {0})
    write_from i [] = done tt
    write_from i (sector ∷ rest) = do write_one i sector; write_from (i + 1) rest

    unfoldable pub write_sectors : List Sector → Call (Unit {0})
    write_sectors buf = do erase_all_sectors; write_from 0 buf
