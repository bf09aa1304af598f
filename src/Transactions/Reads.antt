-- ===== src/Transactions/Reads.antt =====
-- sw/fw/src/drivers/tps55289/ll.rs and sw/fw/src/drivers/stusb4500/ll.rs: what the drivers read
-- from the bus.
use powersupply.Base.{ℕ, suc, ◌%◌, ◌^◌, ◌≤◌, ◌≡◌, List, [], ◌∷◌, length, Result, ok, err, Returns}
use powersupply.Transactions.{stusb4500_address, write_register, write_register_lem}

-- `I2c` of embedded-hal: a write, and a write followed by a read of so many bytes.
pub record I2c : Type 1 where
  pub State : Type 0
  pub I2cError : Type 0
  pub write : ℕ → List ℕ → State → Result (Unit {0}) I2cError × State
  pub write_read : ℕ → List ℕ → ℕ → State → Result (List ℕ) I2cError × State

module _ (i2c : I2c) where
  open i2c use {State, I2cError, write, write_read}

  -- `read_register`, of either driver
  unfoldable pub read_register : ℕ → ℕ → ℕ → State → Result (List ℕ) I2cError × State
  read_register device register size s = write_read device (register ∷ []) size s

  -- `AsyncBufferDevice::read` of the STUSB4500: the bytes that fill the buffer, whose number it
  -- reports; the error is mapped to the one of embedded-io.
  unfoldable pub buffer_read : ℕ → ℕ → State → Result (List ℕ) (Unit {0}) × State
  buffer_read id size s =
      let (r, s') = write_read stusb4500_address (id % 2 ^ 8 ∷ []) size s in
      elim r [ ok bytes ↦ (ok bytes, s') | err _ ↦ (err tt, s') ]

  -- The device keeps in this register what is written to it: the register's number and the bytes
  -- are one transaction, and a read of so many bytes is another.
  abbrev pub Keeps : ℕ → ℕ → Type 0
  Keeps device register =
      (bytes : List ℕ) (s : State)
      → (write device (register ∷ bytes) s).0 ≡ ok tt
      → (write_read device (register ∷ []) (length bytes) (write device (register ∷ bytes) s).1).0
        ≡ ok bytes

  -- A register that the device keeps is read back as it was written, when the write succeeds and the
  -- data fits the driver's buffer.
  pub read_register-write_register :
      (n device register : ℕ) (bytes : List ℕ) (s : State)
      → Keeps device register
      → length bytes ≤ n
      → (write device (register ∷ bytes) s).0 ≡ ok tt
      → Returns
          (write_register write (suc n) device register bytes s)
          (λ (r, t). (r ≡ ok tt) × ((read_register device register (length bytes) t).0 ≡ ok bytes))
  unfolding read_register
  read_register-write_register n device register bytes s keeps fits done =
      rw ((write_register_lem write n device register bytes s).0 fits) (done, keeps bytes s done)
