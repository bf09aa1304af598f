-- ===== src/UsbPd/Values.antt =====
-- sw/fw/src/systems/usb_pd.rs: what the system writes to the fields of the controller's registers.
use powersupply.Base.{ℕ, ◌/◌, ◌≡◌, refl, ap, Bool, List, arith}
use powersupply.Stusb4500.{Bus, Sector, pdo_2}
use powersupply.Stusb4500.Pdo.{fixed_pdo}
use powersupply.Stusb4500.Fields.{checked}
use powersupply.Stusb4500.Agreement.{
  Agrees, bind-Same, then-Same, if-Same, new-Agrees, unlock_nvm-Agrees, lock_nvm-Agrees,
  issue_pd_reset-Agrees, gpio_set_level-Agrees, set_pdo-Agrees, set_pdo_num-Agrees,
  read_sectors-Agrees, write_sectors-Agrees,
}
use powersupply.UsbPd.{nvm_data, sectors_eq, unwrapped, update_nvm, start, init, set_pin}

module _ (bus : Bus) (e : bus.I2cError) (polls : ℕ) where
  update_nvm-Agrees : (found : List Sector) → Agrees bus e (λ b. update_nvm b polls found)
  unfolding update_nvm
  update_nvm-Agrees found =
      if-Same (sectors_eq found nvm_data) _ _ _ _ (λ s. refl)
        (write_sectors-Agrees bus e polls nvm_data (omega arith))

  start-Agrees : (attempts : ℕ) → Agrees bus e (λ b. start b polls attempts)
  unfolding start fixed_pdo
  start-Agrees attempts = then-Same _ _ _ _ (new-Agrees bus e attempts) (
      then-Same _ _ _ _ (unlock_nvm-Agrees bus e) (
        bind-Same _ _ _ _ (read_sectors-Agrees bus e polls) λ found.
          then-Same _ _ _ _ (update_nvm-Agrees found) (
            then-Same _ _ _ _ (lock_nvm-Agrees bus e) (
              then-Same _ _ _ _
                (set_pdo-Agrees bus e pdo_2 (fixed_pdo (20_000 / 50) (1_000 / 10)) (omega arith))
                (then-Same _ _ _ _ (set_pdo_num-Agrees bus e 2 (omega arith))
                  (issue_pd_reset-Agrees bus e))))))

  -- Every value that the start of the controller and `set_pin` put into a field of a register fits
  -- the bits that the field has: on a bus that refuses a value that does not, both do the same,
  -- whatever the bus answers, with any number of attempts and of rounds of polling.
  pub init-checked :
      (attempts : ℕ) (level : Bool) (s : bus.State)
      → (init (checked bus e) polls attempts s ≡ init bus polls attempts s)
        × (set_pin (checked bus e) level s ≡ set_pin bus level s)
  unfolding init set_pin
  init-checked attempts level s =
      (ap unwrapped (start-Agrees attempts s), ap unwrapped (gpio_set_level-Agrees bus e level s))
