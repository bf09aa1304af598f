-- ===== src/UsbPd.antt =====
-- sw/fw/src/systems/usb_pd.rs: the start of the USB-PD controller, its pin, and the task that
-- follows its state.
pub mod Equality
pub mod Boot
pub mod Values
use powersupply.Base.{
  ℕ, zero, suc, ◌*◌, ◌/◌, Bool, true, false, not, ◌&&◌, List, [], ◌∷◌, Option, none, some, Result,
  ok, err, ◌==◌, if◌then◌else◌, Outcome, returns, panics,
}
use powersupply.Stusb4500.{Bus, Action, ◌>>=◌, ◌>>◌, done, Error, Sector, pdo_2}
use powersupply.Stusb4500.Pdo.{fixed_pdo, FsmState, to_u8}
use powersupply.Stusb4500.Commands.{
  Call, new, unlock_nvm, read_sectors, write_sectors, lock_nvm, set_pdo, set_pdo_num,
  issue_pd_reset, gpio_set_level, fsm_state, rdo,
}

abbrev pub nvm_data : List Sector
nvm_data =
    (0x00 ∷ 0x00 ∷ 0xB0 ∷ 0xAB ∷ 0x00 ∷ 0x45 ∷ 0x00 ∷ 0x00 ∷ [])
    ∷ (0x00 ∷ 0x40 ∷ 0x9C ∷ 0x1C ∷ 0xFF ∷ 0x01 ∷ 0x3C ∷ 0xDF ∷ [])
    ∷ (0x02 ∷ 0x40 ∷ 0x0F ∷ 0x00 ∷ 0x32 ∷ 0x00 ∷ 0xFC ∷ 0xF1 ∷ [])
    ∷ (0x00 ∷ 0x19 ∷ 0x50 ∷ 0xAF ∷ 0xF5 ∷ 0x35 ∷ 0x5F ∷ 0x00 ∷ [])
    ∷ (0x00 ∷ 0x4B ∷ 0x90 ∷ 0x21 ∷ 0x43 ∷ 0x00 ∷ 0x40 ∷ 0xFB ∷ [])
    ∷ []

-- The derived `==` of the arrays.
abbrev pub bytes_eq : List ℕ → List ℕ → Bool
bytes_eq [] [] = true
bytes_eq (x ∷ xs) (y ∷ ys) = x == y && bytes_eq xs ys
bytes_eq _ _ = false

abbrev pub sectors_eq : List Sector → List Sector → Bool
sectors_eq [] [] = true
sectors_eq (x ∷ xs) (y ∷ ys) = bytes_eq x y && sectors_eq xs ys
sectors_eq _ _ = false

-- Every result is unwrapped, so the first error is a panic. None stays none: a poll goes on.
abbrev pub unwrapped : {S E A : Type 0} → Option (Result A (Error E) × S) → Option (Outcome (A × S))
unwrapped none = none
unwrapped (some (ok a, s)) = some (returns (a, s))
unwrapped (some (err e, s)) = some panics

module _ (bus : Bus) (polls : ℕ) where
  open bus use {State}

  -- The memory is read, and written only when it differs.
  unfoldable pub update_nvm : List Sector → Call bus (Unit {0})
  update_nvm found = if sectors_eq found nvm_data then done tt else write_sectors bus polls nvm_data

  unfoldable pub start : ℕ → Call bus (Unit {0})
  start attempts = do
    new bus attempts
    unlock_nvm bus
    found ← read_sectors bus polls
    update_nvm found
    lock_nvm bus
    set_pdo bus pdo_2 (fixed_pdo (20_000 / 50) (1_000 / 10))
    set_pdo_num bus 2
    issue_pd_reset bus

  -- `Usbpd::init`, up to the spawning of its task
  unfoldable pub init : ℕ → State → Option (Outcome (Unit {0} × State))
  init attempts s = unwrapped (start attempts s)

-- `Usbpd::set_pin`
unfoldable pub set_pin : (bus : Bus) → Bool → bus.State → Option (Outcome (Unit {0} × bus.State))
set_pin bus level s = unwrapped (gpio_set_level bus level s)

-- A round of `state_task`: the state and the request that are read, and whether the state is new,
-- which is logged.
unfoldable pub state_round :
    (bus : Bus) → FsmState → bus.State → Option (Outcome ((FsmState × Bool) × bus.State))
state_round bus prev_state s =
    unwrapped (
      (do state ← fsm_state bus; _ ← rdo bus; done (state, not (to_u8 prev_state == to_u8 state)))
        s)
