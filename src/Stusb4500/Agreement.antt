-- ===== src/Stusb4500/Agreement.antt =====
-- sw/fw/src/drivers/stusb4500/hl.rs on a bus that refuses a value which does not fit its field: the
-- calls do the same.
use powersupply.Base.{
  ℕ, zero, suc, ◌+◌, ◌^◌, ◌≤◌, ◌<◌, ◌≡◌, refl, ap, ◌∙◌, Bool, true, false, List, [], ◌∷◌, Option,
  none, some, Result, ok, err, arith, length, if◌then◌else◌, not, ◌==◌,
}
use powersupply.Stusb4500.{
  Bus, Write, OpCode, read_sector, load_plr, load_ser, dump_plr, dump_ser, erase_sectors,
  write_sector, Sector, PdoChannel, pdo_1, pdo_2, pdo_3, Error, Action, continue, access, op,
  all_erased, requesting, done, fails, device_id_mismatch,
}
use powersupply.Stusb4500 as calls
use powersupply.Stusb4500.Commands.{
  set_register, await_id, new, unlock_nvm, issue_pd_reset, gpio_set_level, set_pdo, set_pdo_num,
  lock_nvm, await_request, issue_request_with_sector, erase_all_sectors, read_one, write_one,
  read_from, read_sectors, write_from, write_sectors,
}
use powersupply.Stusb4500.Fields.{
  fits, checked, ctrl_0-fits, ctrl_1-fits, sink_pdo-fits, pdo_number-fits,
}

module _ {S E : Type 0} where
  -- Two calls that answer the same everywhere.
  abbrev pub Same : {A : Type 0} → Action S E A → Action S E A → Type 0
  Same m n = (s : S) → m s ≡ n s

  continue-congr :
      {A B : Type 0} (o : Option (Result A (Error E) × S)) (f g : A → Action S E B)
      → ((a : A) → Same (f a) (g a))
      → continue o f ≡ continue o g
  continue-congr none f g h = refl
  continue-congr (some (ok a, s)) f g h = h a s
  continue-congr (some (err e, s)) f g h = refl

  pub bind-Same :
      {A B : Type 0} (m n : Action S E A) (f g : A → Action S E B)
      → Same m n
      → ((a : A) → Same (f a) (g a))
      → Same (λ s. continue (m s) f) (λ s. continue (n s) g)
  bind-Same m n f g e h s = ap (λ o. continue o f) (e s) ∙ continue-congr (n s) f g h

  pub then-Same :
      {A B : Type 0} (m n : Action S E A) (f g : Action S E B)
      → Same m n
      → Same f g
      → Same (λ s. continue (m s) (λ _. f)) (λ s. continue (n s) (λ _. g))
  then-Same m n f g e h = bind-Same m n (λ _. f) (λ _. g) e (λ _. h)

  pub if-Same :
      {A : Type 0} (b : Bool) (m n m' n' : Action S E A)
      → Same m n
      → Same m' n'
      → Same (if b then m else m') (if b then n else n')
  if-Same true m n m' n' h k = h
  if-Same false m n m' n' h k = k

module _ (bus : Bus) (e : bus.I2cError) where
  abbrev pub Agrees : {A : Type 0} → ((b : Bus) → Action b.State b.I2cError A) → Type 0
  Agrees call = Same (call (checked bus e)) (call bus)

  set_register-Agrees : (w : Write) → fits w ≡ true → Agrees (λ b. set_register b w)
  set_register-Agrees w h s = rw h refl

  await_id-Agrees : (n : ℕ) → Agrees (λ b. await_id b n)
  unfolding await_id
  await_id-Agrees zero s = refl
  await_id-Agrees (suc n) s = ground (arith, await_id-Agrees n (bus.read_device_id s).1)

  pub issue_pd_reset-Agrees : Agrees issue_pd_reset
  unfolding issue_pd_reset fits
  issue_pd_reset-Agrees s = refl

  pub unlock_nvm-Agrees : Agrees unlock_nvm
  unfolding unlock_nvm fits
  unlock_nvm-Agrees s = refl

  pub new-Agrees : (n : ℕ) → Agrees (λ b. new b n)
  unfolding new
  new-Agrees n =
      bind-Same (await_id (checked bus e) n) (await_id bus n)
        (λ id. if id == 0x25 then done tt else fails device_id_mismatch) _ (await_id-Agrees n)
        (λ id s. refl)

  pub lock_nvm-Agrees : Agrees lock_nvm
  unfolding lock_nvm fits
  lock_nvm-Agrees s = refl

  pub gpio_set_level-Agrees : (level : Bool) → Agrees (λ b. gpio_set_level b level)
  unfolding gpio_set_level fits
  gpio_set_level-Agrees true s = refl
  gpio_set_level-Agrees false s = refl

  pub set_pdo-Agrees : (c : PdoChannel) (n : ℕ) → n < 2 ^ 32 → Agrees (λ b. set_pdo b c n)
  unfolding set_pdo
  set_pdo-Agrees c n h = set_register-Agrees (calls.sink_pdo c n) (sink_pdo-fits c n h)

  pub set_pdo_num-Agrees : (n : ℕ) → n < 8 → Agrees (λ b. set_pdo_num b n)
  unfolding set_pdo_num
  set_pdo_num-Agrees n h =
      bind-Same (access bus.read_pdo_rest) (access bus.read_pdo_rest)
        (λ rest. set_register (checked bus e) (calls.pdo_number rest n))
        (λ rest. set_register bus (calls.pdo_number rest n)) (λ s. refl)
        (λ rest. set_register-Agrees (calls.pdo_number rest n) (pdo_number-fits rest n h))

  await_request-Agrees : (n : ℕ) → Agrees (λ b. await_request b n)
  unfolding await_request
  await_request-Agrees zero s = refl
  await_request-Agrees (suc n) s =
      continue-congr (access bus.read_request s)
        (λ request. if not request then done tt else await_request (checked bus e) n)
        (λ request. if not request then done tt else await_request bus n)
        (λ request. if-Same (not request) _ _ _ _ (λ t. refl) (await_request-Agrees n))

  module _ (rounds : ℕ) where
    issue-Agrees : (i : ℕ) → i < 16 → Agrees (λ b. issue_request_with_sector b rounds i)
    unfolding issue_request_with_sector
    issue-Agrees i h =
        then-Same _ _ _ _
          (set_register-Agrees (calls.ctrl_0 (requesting i)) (ctrl_0-fits (requesting i) h))
          (await_request-Agrees rounds)

    op-Agrees : (o : OpCode) → Agrees (λ b. set_register b (calls.ctrl_1 (op o)))
    op-Agrees o = set_register-Agrees (calls.ctrl_1 (op o)) (ctrl_1-fits o).0

    erase_all_sectors-Agrees : Agrees (λ b. erase_all_sectors b rounds)
    unfolding erase_all_sectors
    erase_all_sectors-Agrees =
        then-Same _ _ _ _
          (set_register-Agrees (calls.ctrl_1 (record { op_code = load_ser; erase = all_erased }))
            (ctrl_1-fits load_ser).1)
          (then-Same _ _ _ _ (issue-Agrees 0 (omega arith))
            (then-Same _ _ _ _ (op-Agrees erase_sectors) (issue-Agrees 0 (omega arith))))

    read_one-Agrees : (i : ℕ) → i < 16 → Agrees (λ b. read_one b rounds i)
    unfolding read_one
    read_one-Agrees i h =
        then-Same _ _ _ _ (op-Agrees read_sector) (then-Same _ _ _ _ (issue-Agrees i h) (λ s. refl))

    write_one-Agrees : (i : ℕ) (bytes : Sector) → i < 16 → Agrees (λ b. write_one b rounds i bytes)
    unfolding write_one
    write_one-Agrees i bytes h =
        let fill = calls.buffer_access (bus.write_buffer bytes) in
        then-Same fill fill _ _ (λ s. refl)
          (then-Same _ _ _ _ (op-Agrees load_plr) (
            then-Same _ _ _ _ (issue-Agrees 0 (omega arith))
              (then-Same _ _ _ _ (op-Agrees write_sector) (issue-Agrees i h))))

    read_from-Agrees : (i n : ℕ) → i + n ≤ 16 → Agrees (λ b. read_from b rounds i n)
    unfolding read_from
    read_from-Agrees i zero h = λ s. refl
    read_from-Agrees i (suc n) h =
        bind-Same _ _ _ _ (read_one-Agrees i (omega arith))
          λ sector. bind-Same _ _ _ _ (read_from-Agrees (i + 1) n (omega arith)) (λ rest s. refl)

    pub read_sectors-Agrees : Agrees (λ b. read_sectors b rounds)
    unfolding read_sectors
    read_sectors-Agrees = read_from-Agrees 0 5 (omega arith)

    write_from-Agrees :
        (i : ℕ) (bs : List Sector) → i + length bs ≤ 16 → Agrees (λ b. write_from b rounds i bs)
    unfolding write_from
    write_from-Agrees i [] h = λ s. refl
    write_from-Agrees i (sector ∷ rest) h =
        then-Same _ _ _ _ (write_one-Agrees i sector (omega arith))
          (write_from-Agrees (i + 1) rest (omega arith))

    pub write_sectors-Agrees :
        (bs : List Sector) → length bs ≤ 16 → Agrees (λ b. write_sectors b rounds bs)
    unfolding write_sectors
    write_sectors-Agrees bs h =
        then-Same _ _ _ _ erase_all_sectors-Agrees (write_from-Agrees 0 bs (omega arith))
