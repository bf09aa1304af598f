-- ===== src/UsbPd/Boot.antt =====
-- sw/fw/src/systems/usb_pd.rs: what a boot leaves in the memory of the USB-PD controller.
use powersupply.Base.{
  ℕ, suc, ◌+◌, ◌<◌, ◌≡◌, refl, sym, ap, ap₂, ◌∙◌, Bool, true, false, List, [], ◌∷◌, arith, Option,
  none, some, Result, ok, err, Bool-cases, ◌/◌, inl, inr, Outcome, returns, panics, if◌then◌else◌,
  ◌==◌,
}
use powersupply.Stusb4500.{
  Bus, continue, ◌>>◌, done, fails, access, device_id_mismatch, Error, i2c, Sector, password,
  ctrl_0, ctrl_1, op, ctrl_0_zero, powered, read_sector, pdo_2, sink_pdo, pdo_number, tx_header,
  send_command,
}
use powersupply.Stusb4500.Pdo.{fixed_pdo}
use powersupply.Stusb4500.Commands.{
  Call, set_register, await_id, new, unlock_nvm, read_sectors, write_sectors, lock_nvm, set_pdo,
  set_pdo_num, issue_pd_reset,
}
use powersupply.Stusb4500.Chip.{Nvm, Chip}
use powersupply.Stusb4500.Replay.{Step, wrote, replay, contents}
use powersupply.Stusb4500.Sectors.{
  Runs, Runs-continue, Runs-mono, Runs-access, IsIdle, After, Does, Does-then, set_register-Does,
}
use powersupply.Stusb4500.Roundtrip.{Runs-after, Kept, read_sectors_lem, write_sectors_lem}
use powersupply.UsbPd.Equality.{sectors_eq_sound}
use powersupply.UsbPd.{nvm_data, sectors_eq, unwrapped, update_nvm, start, init}

abbrev unlocking : List Step
unlocking = wrote (password 0x47) ∷ wrote (ctrl_0 ctrl_0_zero) ∷ wrote (ctrl_0 powered) ∷ []

abbrev locking : List Step
locking =
    wrote (ctrl_0 (record ctrl_0_zero { enable = true }))
    ∷ wrote (ctrl_1 (op read_sector))
    ∷ wrote (password 0x00)
    ∷ []

-- A call whose results are unwrapped: it ends, and without a panic, in a state with a property.
abbrev pub Ends : {S : Type 0} → Option (Outcome (Unit {0} × S)) → (S → Type 0) → Type 0
Ends none Q = ⊥
Ends (some panics) Q = ⊥
Ends (some (returns (_, t))) Q = Q t

Ends-unwrapped :
    {S E : Type 0} (m : Option (Result (Unit {0}) (Error E) × S)) (Q : S → Type 0)
    → Runs m (λ _ t. Q t)
    → Ends (unwrapped m) Q
Ends-unwrapped none Q h = h
Ends-unwrapped (some (ok _, s)) Q h = h
Ends-unwrapped (some (err e, s)) Q h = h

module _ (bus : Bus) (chip : Chip bus) where
  open bus use {State, I2cError}
  open chip use {blank, program, nvm, rounds, id_idle, rest_idle}

  abbrev sectors : State → List Sector
  sectors s = contents 0 5 (nvm s).sectors

  -- How often the memory is erased or programmed by a boot that finds these sectors.
  abbrev pub wear_of : List Sector → ℕ
  wear_of found = if sectors_eq found nvm_data then 0 else 6

  unlock_nvm-Does : Does bus chip (unlock_nvm bus) unlocking
  unfolding unlock_nvm
  unlock_nvm-Does = Does-then bus chip (set_register-Does bus chip (password 0x47) refl) (
      Does-then bus chip (set_register-Does bus chip (ctrl_0 ctrl_0_zero) refl)
        (set_register-Does bus chip (ctrl_0 powered) refl))

  lock_nvm-Does : Does bus chip (lock_nvm bus) locking
  unfolding lock_nvm
  lock_nvm-Does =
      Does-then bus chip
        (set_register-Does bus chip (ctrl_0 (record ctrl_0_zero { enable = true })) refl)
        (Does-then bus chip (set_register-Does bus chip (ctrl_1 (op read_sector)) refl)
          (set_register-Does bus chip (password 0x00) refl))

  issue_pd_reset-Does :
      Does bus chip (issue_pd_reset bus) (wrote (tx_header 0x0D) ∷ wrote (send_command 0x26) ∷ [])
  unfolding issue_pd_reset
  issue_pd_reset-Does =
      Does-then bus chip (set_register-Does bus chip (tx_header 0x0D) refl)
        (set_register-Does bus chip (send_command 0x26) refl)

  known_id :
      (n : ℕ) (s : State) (r : Result ℕ I2cError) (t : State)
      → r ≡ ok 0x25
      → After bus chip [] s t
      → Runs {E = I2cError}
          (continue
            (elim r as (λ _. Option (Result ℕ (Error I2cError) × State)) [
              | ok value ↦ done value t
              | err _ ↦ await_id bus n t
            ])
            λ id. if id == 0x25 then done tt else fails device_id_mismatch)
          (λ _ u. After bus chip [] s u)
  known_id n s (ok id) t e h = let q : id ≡ 0x25 = cc in rw q h
  known_id n s (err x) t e h = cc

  new_lem :
      (n : ℕ) (s : State)
      → IsIdle bus chip s
      → Runs (new bus (suc n) s) (λ _ t. After bus chip [] s t)
  unfolding new await_id
  new_lem n s idle =
      let (o, e, p) = id_idle s idle in
      known_id n s (bus.read_device_id s).0 (bus.read_device_id s).1 o (p, e)

  set_pdo_num_lem :
      (k : ℕ) (s : State)
      → IsIdle bus chip s
      → Runs (set_pdo_num bus k s) (λ _ t. After bus chip [] s t)
  unfolding set_pdo_num
  set_pdo_num_lem k s idle =
      let ((rest, o), e, p) = rest_idle s idle in
      Runs-continue (access bus.read_pdo_rest s) _ (λ _ t. After bus chip [] s t)
        (λ _ t. After bus chip [] s t)
        (Runs-access i2c (bus.read_pdo_rest s) rest (λ _ t. After bus chip [] s t) o (p, e))
        λ r t (ti, te).
          Runs-mono (set_register bus (pdo_number r k) t) _ (λ _ u. After bus chip [] s u)
            (λ _ u (ui, ue). (ui, ue ∙ te))
            ((set_register-Does bus chip (pdo_number r k) refl).runs t ti)

  -- The memory is as it was, but for the lock.
  abbrev Same : Bool → State → State → Type 0
  Same unlocked s t =
      IsIdle bus chip t
      × ((nvm t).unlocked ≡ unlocked)
      × ((nvm t).sectors ≡ (nvm s).sectors)
      × ((nvm t).wear ≡ (nvm s).wear)

  Same-After :
      (unlocked : Bool) (ss : List Step) (s t : State)
      → After bus chip ss s t
      → (let v = replay blank program ss (nvm s) in
          (v.unlocked ≡ unlocked) × (v.sectors ≡ (nvm s).sectors) × (v.wear ≡ (nvm s).wear))
      → Same unlocked s t
  Same-After unlocked ss s t (ti, te) (u, c, w) =
      (ti, ap Nvm.unlocked te ∙ u, ap Nvm.sectors te ∙ c, ap Nvm.wear te ∙ w)

  abbrev finish : Call bus (Unit {0})
  finish = do
    lock_nvm bus
    set_pdo bus pdo_2 (fixed_pdo (20_000 / 50) (1_000 / 10))
    set_pdo_num bus 2
    issue_pd_reset bus

  finish_lem : (s : State) → IsIdle bus chip s → Runs (finish s) (λ _ t. Same false s t)
  unfolding set_pdo
  finish_lem s idle =
      Runs-after bus chip _ (λ _ t. Same false s t) s lock_nvm-Does idle
        λ t h.
          let (ti, tu, tc, tw) = Same-After false locking s t h (ground arith) in
          Runs-after bus chip _ (λ _ v. Same false s v) t
            (set_register-Does bus chip (sink_pdo pdo_2 (fixed_pdo (20_000 / 50) (1_000 / 10)))
              refl)
            ti
            λ u (ui, ue).
              Runs-continue (set_pdo_num bus 2 u) _ (λ _ w. After bus chip [] u w)
                (λ _ v. Same false s v) (set_pdo_num_lem 2 u ui)
                λ _ w (wi, we).
                  Runs-mono (issue_pd_reset bus w) _ (λ _ x. Same false s x)
                    (λ _ x (xi, xe).
                      let n = xe ∙ we ∙ ue in
                      (xi, ap Nvm.unlocked n ∙ tu, ap Nvm.sectors n ∙ tc, ap Nvm.wear n ∙ tw))
                    (issue_pd_reset-Does.runs w wi)

  -- What a boot leaves, from the state that it found.
  abbrev pub Booted : State → State → Type 0
  Booted s t =
      IsIdle bus chip t
      × ((nvm t).unlocked ≡ false)
      × (sectors t ≡ nvm_data)
      × ((nvm t).wear ≡ (nvm s).wear + wear_of (sectors s))

  module _ (attempts polls : ℕ) (enough : rounds < polls) where
    abbrev Updated : List Sector → State → State → Type 0
    Updated found s t =
        IsIdle bus chip t × (sectors t ≡ nvm_data) × ((nvm t).wear ≡ (nvm s).wear + wear_of found)

    update_nvm_lem :
        (s : State)
        → IsIdle bus chip s
        → (nvm s).unlocked ≡ true
        → Runs (update_nvm bus polls (sectors s) s) (λ _ t. Updated (sectors s) s t)
    unfolding update_nvm
    update_nvm_lem s idle u = elim (Bool-cases (sectors_eq (sectors s) nvm_data)) [
      | inl same ↦ rw same (idle, sectors_eq_sound (sectors s) nvm_data same, omega arith)
      | inr other ↦ rw other (
          Runs-mono (write_sectors bus polls nvm_data s) _ _ (λ _ t (ti, tu, tc, tw). (ti, tc, tw))
            (write_sectors_lem bus chip polls enough nvm_data s refl idle u))
    ]

    rest_of_start : List Sector → Call bus (Unit {0})
    rest_of_start found = update_nvm bus polls found >> finish

    rest_run :
        (s b : State)
        → Same true s b
        → (found : List Sector) (c : State) → Kept bus chip b c × (found ≡ sectors b)
        → Runs (rest_of_start found c) (λ _ t. Booted s t)
    unfolding rest_of_start
    rest_run s b (bi, bu, bc, bw) found c ((ci, cu, cc', cw), e) =
        let same : (nvm c).sectors ≡ (nvm s).sectors = cc' ∙ bc in
        let f : found ≡ sectors c = e ∙ sym (ap (contents 0 5) cc') in
        let g : sectors c ≡ sectors s = ap (contents 0 5) same in
        rw f (
          Runs-continue (update_nvm bus polls (sectors c) c) (λ _. finish)
            (λ _ d. Updated (sectors c) c d) (λ _ t. Booted s t) (update_nvm_lem c ci cu)
            λ _ d (di, dc, dw).
              Runs-mono (finish d) (λ _ t. Same false d t) (λ _ t. Booted s t)
                (λ _ t (ti, tu, tc, tw). (
                  ti,
                  tu,
                  ap (contents 0 5) tc ∙ dc,
                  tw ∙ dw ∙ ap₂ (λ x y. x + wear_of y) (cw ∙ bw) g,
                ))
                (finish_lem d di))

    start_run :
        (s : State)
        → IsIdle bus chip s
        → Runs (start bus polls (suc attempts) s) (λ _ t. Booted s t)
    unfolding start rest_of_start
    start_run s idle =
        Runs-continue (new bus (suc attempts) s) _ (λ _ t. After bus chip [] s t)
          (λ _ t. Booted s t) (new_lem attempts s idle)
          λ _ a (ai, ae).
            Runs-after bus chip _ (λ _ t. Booted s t) a unlock_nvm-Does ai
              λ b h.
                let (bi, bu, bc, bw) = Same-After true unlocking a b h (ground arith) in
                Runs-continue (read_sectors bus polls b) rest_of_start _ (λ _ t. Booted s t)
                  (read_sectors_lem bus chip polls enough b bi bu)
                  (rest_run s b (bi, bu, bc ∙ ap Nvm.sectors ae, bw ∙ ap Nvm.wear ae))

    -- On an idle chip that works, whatever its memory holds and whether it is locked or not, a boot
    -- ends without a panic, given an attempt to read the identifier and more rounds of polling than a
    -- command takes. It leaves the memory locked and with the wanted data; the memory is erased and
    -- programmed, six commands in all, only if it did not hold that data, and a second boot after
    -- it does neither.
    pub init-Booted :
        (s : State)
        → IsIdle bus chip s
        → Ends (init bus polls (suc attempts) s) (λ t.
          Booted s t
          × Ends
              (init bus polls (suc attempts) t)
              (λ u. Booted t u × ((nvm u).wear ≡ (nvm t).wear)))
    unfolding init
    init-Booted s idle = Ends-unwrapped (start bus polls (suc attempts) s) _ (
        Runs-mono (start bus polls (suc attempts) s) _ _
          (λ _ t b. (
            b,
            Ends-unwrapped (start bus polls (suc attempts) t) _ (
                Runs-mono (start bus polls (suc attempts) t) _ _ (λ _ u c. (c, c.3 ∙ no_more t b.2))
                  (start_run t b.0)),
          ))
          (start_run s idle))
      where
        no_more :
            (t : State) → sectors t ≡ nvm_data → (nvm t).wear + wear_of (sectors t) ≡ (nvm t).wear
        no_more t e = omega (arith, ap wear_of e)
