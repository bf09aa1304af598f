-- ===== src/Transactions.antt =====
-- sw/fw/src/drivers/tps55289/ll.rs and sw/fw/src/drivers/stusb4500/ll.rs: the bytes that the
-- drivers put on the bus. The bus itself is a parameter.
pub mod Reads
use powersupply.Base.{
  ℕ, zero, suc, ◌+◌, ◌-◌, ◌%◌, ◌^◌, ◌≤◌, ◌<◌, ◌≡◌, refl, ap, arith, List, [], ◌∷◌, ◌++◌, leb, true,
  false, length, set, replicate, Result, ok, err, Outcome, returns, panics, assert, ◌>>=◌, ◌>>◌,
}

-- `MAX_TRANSACTION_SIZE` and `ADDRESS` of the two drivers
abbrev pub tps55289_max : ℕ
tps55289_max = 3

abbrev pub tps55289_address : ℕ
tps55289_address = 0x75

abbrev pub stusb4500_max : ℕ
stusb4500_max = 9

abbrev pub stusb4500_address : ℕ
stusb4500_address = 0x28

take : ℕ → List ℕ → List ℕ
take zero xs = []
take (suc n) [] = []
take (suc n) (x ∷ xs) = x ∷ take n xs

-- `buf[at..at + data.len()].copy_from_slice(data)`; the bounds are tested before.
copy_at : ℕ → List ℕ → List ℕ → List ℕ
copy_at at [] bytes = []
copy_at zero (b ∷ buf) [] = b ∷ buf
copy_at zero (b ∷ buf) (x ∷ xs) = x ∷ copy_at zero buf xs
copy_at (suc at) (b ∷ buf) bytes = b ∷ copy_at at buf bytes

-- The buffer with the register's address in front of the data.
framed : ℕ → ℕ → List ℕ → Outcome (List ℕ)
unfolding copy_at
framed max register bytes = do
  assert (leb (length bytes + 1) max)
  returns (copy_at 1 (set (replicate max 0) 0 register) bytes)

-- `I2c::write` of embedded-hal: the device's address, and the bytes.
module _ {S E : Type 0} (write : ℕ → List ℕ → S → Result (Unit {0}) E × S) where
  -- `write_register`, of either driver
  unfoldable pub write_register : ℕ → ℕ → ℕ → List ℕ → S → Outcome (Result (Unit {0}) E × S)
  unfolding framed take
  write_register max device register bytes s = do
    buf ← framed max register bytes
    returns (write device (take (length bytes + 1) buf) s)

  -- `AsyncBufferDevice::write` of the STUSB4500: the number of bytes written; the error is mapped
  -- to the one of embedded-io, for which the unit stands.
  unfoldable pub buffer_write : ℕ → List ℕ → S → Outcome (Result ℕ (Unit {0}) × S)
  unfolding framed
  buffer_write id bytes s = do
    buf ← framed stusb4500_max (id % 2 ^ 8) bytes
    let (r, s') = write stusb4500_address buf s
    returns (elim r [ ok _ ↦ (ok (length bytes), s') | err _ ↦ (err tt, s') ])

-- A copy into the front of zeros leaves the rest of them.
copy_at-replicate :
    (n : ℕ) (bytes : List ℕ)
    → length bytes ≤ n
    → copy_at 0 (replicate n 0) bytes ≡ bytes ++ replicate (n - length bytes) 0
unfolding copy_at
copy_at-replicate zero [] h = refl
copy_at-replicate zero (x ∷ bytes) h = absurd (omega arith)
copy_at-replicate (suc n) [] h =
    let e : suc n ≡ suc n - 0 = omega arith in ap (λ m. replicate m 0) e
copy_at-replicate (suc n) (x ∷ bytes) h =
    let e : suc n - suc (length bytes) ≡ n - length bytes = omega arith in
    rw e (ap (λ l. x ∷ l) (copy_at-replicate n bytes (omega arith)))

take-length : (bytes rest : List ℕ) → take (length bytes) (bytes ++ rest) ≡ bytes
unfolding take
take-length [] rest = refl
take-length (x ∷ bytes) rest = ap (λ l. x ∷ l) (take-length bytes rest)

framed_lem :
    (n register : ℕ) (bytes : List ℕ)
    → length bytes ≤ n
    → framed (suc n) register bytes ≡ returns (register ∷ bytes ++ replicate (n - length bytes) 0)
unfolding framed copy_at
framed_lem n register bytes h =
    let fits : leb (length bytes + 1) (suc n) ≡ true = ground arith in
    rw fits (ap (λ l. returns (register ∷ l)) (copy_at-replicate n bytes h))

framed-panics :
    (n register : ℕ) (bytes : List ℕ) → n < length bytes → framed (suc n) register bytes ≡ panics
unfolding framed
framed-panics n register bytes h =
    let over : leb (length bytes + 1) (suc n) ≡ false = ground arith in rw over refl

-- The length on success, and an error without its kind.
abbrev pub reported : {E : Type 0} → ℕ → Result (Unit {0}) E → Result ℕ (Unit {0})
reported n (ok _) = ok n
reported n (err _) = err tt

module _ {S E : Type 0} (write : ℕ → List ℕ → S → Result (Unit {0}) E × S) where
  -- A register write is one transaction with the register's address and the data, and nothing else,
  -- as long as the data is shorter than the buffer of the driver; longer data is a panic.
  pub write_register_lem :
      (n device register : ℕ) (bytes : List ℕ) (s : S)
      → (length bytes ≤ n
          → write_register write (suc n) device register bytes s
            ≡ returns (write device (register ∷ bytes) s))
        × (n < length bytes → write_register write (suc n) device register bytes s ≡ panics)
  unfolding write_register
  write_register_lem n device register bytes s = (
    (λ h.
        let e : length bytes + 1 ≡ suc (length bytes) = omega arith in
        rw (framed_lem n register bytes h, e)
          (ap (λ l. returns (write device (register ∷ l) s))
            (take-length bytes (replicate (n - length bytes) 0)))),
    (λ h. rw (framed-panics n register bytes h) refl),
  )

  -- A write to the buffer of the STUSB4500 puts all nine bytes on the bus, whatever the length of
  -- the data: data of less than eight bytes is followed by zeros, and the length reported is that of
  -- the data. With exactly eight bytes, as the firmware writes them, nothing is added.
  pub buffer_write_lem :
      (id : ℕ) (bytes : List ℕ) (s : S)
      → length bytes ≤ 8
      → let (r, s') =
          write stusb4500_address (id % 2 ^ 8 ∷ bytes ++ replicate (8 - length bytes) 0) s in
        buffer_write write id bytes s ≡ returns (reported (length bytes) r, s')
  unfolding buffer_write
  buffer_write_lem id bytes s h = rw (framed_lem 8 (id % 2 ^ 8) bytes h) (
      by_result (write stusb4500_address (id % 2 ^ 8 ∷ bytes ++ replicate (8 - length bytes) 0) s).0
        _)
    where
      by_result :
          (r : Result (Unit {0}) E) (s' : S)
          → ◌≡◌ {A = Outcome (Result ℕ (Unit {0}) × S)}
              (returns (elim r [ ok _ ↦ (ok (length bytes), s') | err _ ↦ (err tt, s') ]))
              (returns (reported (length bytes) r, s'))
      by_result (ok _) s' = refl
      by_result (err e) s' = refl
