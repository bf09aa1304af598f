-- ===== src/Stusb4500/Sectors.antt =====
-- sw/fw/src/drivers/stusb4500/hl.rs: the driver's calls on a chip that works, and what they leave in
-- its memory.
use powersupply.Base.{
  ℕ, zero, suc, ◌+◌, ◌-◌, ◌≤◌, ◌<◌, ◌≡◌, refl, sym, ap, ◌∙◌, Bool, true, false, not, List, [], ◌∷◌,
  ◌++◌, Option, none, some, arith, Result, ok, err, ltb, if◌then◌else◌,
}
use powersupply.Stusb4500.{
  Bus, Action, continue, ◌>>◌, done, load_ser, load_plr, all_erased, erase_sectors, write_sector,
  access, buffer_access, map_err, io, i2c, Error, Write, ctrl_0, ctrl_1, Sector, op, requesting,
}
use powersupply.Stusb4500.Commands.{
  Call, set_register, await_request, issue_request_with_sector, erase_all_sectors, write_one,
  write_from,
}
use powersupply.Stusb4500.Chip.{Chip, starts}
use powersupply.Stusb4500.Replay.{
  Step, wrote, filled, replay, replay-append, erasing, programming, programming_from,
}

-- A call that ends without an error, in a result and a state with a property.
abbrev pub Runs : {S E A : Type 0} → Option (Result A (Error E) × S) → (A → S → Type 0) → Type 0
Runs none Q = ⊥
Runs (some (ok a, s)) Q = Q a s
Runs (some (err e, s)) Q = ⊥

pub Runs-continue :
    {S E A B : Type 0} (m : Option (Result A (Error E) × S)) (f : A → Action S E B)
    (P : A → S → Type 0) (Q : B → S → Type 0)
    → Runs m P
    → ((a : A) (s : S) → P a s → Runs (f a s) Q)
    → Runs (continue m f) Q
Runs-continue none f P Q h k = absurd h
Runs-continue (some (ok a, s)) f P Q h k = k a s h
Runs-continue (some (err e, s)) f P Q h k = absurd h

pub Runs-mono :
    {S E A : Type 0} (m : Option (Result A (Error E) × S)) (P Q : A → S → Type 0)
    → ((a : A) (s : S) → P a s → Q a s)
    → Runs m P
    → Runs m Q
Runs-mono none P Q k h = h
Runs-mono (some (ok a, s)) P Q k h = k a s h
Runs-mono (some (err e, s)) P Q k h = h

pub Runs-access :
    {S E F A : Type 0} (f : F → Error E) (q : Result A F × S) (a : A) (Q : A → S → Type 0)
    → q.0 ≡ ok a
    → Q a q.1
    → Runs (some (map_err f q.0, q.1)) Q
Runs-access f q a Q e h = rw e h

module _ (bus : Bus) (chip : Chip bus) where
  open bus use {State, I2cError}
  open chip use {
    blank, program, nvm, pending, rounds, program-blank, write_idle, fill_idle, poll, read_idle,
  }

  abbrev pub IsIdle : State → Type 0
  IsIdle s = pending s ≡ 0

  -- A call that, on an idle chip, ends without an error, with the chip idle again, and does to the
  -- memory what these accesses do.
  abbrev pub After : List Step → State → State → Type 0
  After ss s t = IsIdle t × (nvm t ≡ replay blank program ss (nvm s))

  pub record Does (m : Call bus (Unit {0})) (ss : List Step) : Type 0 where
    pub runs : (s : State) → IsIdle s → Runs (m s) (λ _ t. After ss s t)

  pub Does-then :
      {m n : Call bus (Unit {0})} {ss ts : List Step}
      → Does m ss
      → Does n ts
      → Does (m >> n) (ss ++ ts)
  Does-then {m} {n} {ss} {ts} hm hn = record {
    runs = λ s i.
        Runs-continue (m s) (λ _. n) (λ _ t. After ss s t) (λ _ t. After (ss ++ ts) s t)
          (hm.runs s i)
          λ _ t (ti, te).
            Runs-mono (n t) (λ _ u. After ts t u) (λ _ u. After (ss ++ ts) s u)
              (λ _ u (ui, ue). (
                ui,
                ue
                    ∙ ap (replay blank program ts) te
                    ∙ sym (replay-append blank program ss ts (nvm s)),
              ))
              (hn.runs t ti);
  }

  pub set_register-Does : (w : Write) → starts w ≡ false → Does (set_register bus w) (wrote w ∷ [])
  set_register-Does w q = record {
    runs = λ s i.
        let (o, e, p) = write_idle w s i in
        Runs-access i2c (bus.write w s) tt (λ _ t. After (wrote w ∷ []) s t) o (ground arith, e);
  }

  fill-Does : (bytes : Sector) → Does (buffer_access (bus.write_buffer bytes)) (filled bytes ∷ [])
  fill-Does bytes = record {
    runs = λ s i.
        let (o, e, p) = fill_idle bytes s i in
        Runs-access (λ _. io) (bus.write_buffer bytes s) tt (λ _ t. After (filled bytes ∷ []) s t) o
          (p, e);
  }

  -- The polling ends, with more rounds than are pending.
  await_request_lem :
      (n : ℕ) (s : State)
      → pending s < n
      → Runs (await_request bus n s) (λ _ t. IsIdle t × (nvm t ≡ nvm s))
  unfolding await_request
  await_request_lem zero s lt = absurd (omega arith)
  await_request_lem (suc n) s lt =
      let (o, e, p) = poll s in
      Runs-continue (access bus.read_request s) _
        (λ r t. (r ≡ ltb 0 (pending s)) × (nvm t ≡ nvm s) × (pending t ≡ pending s - 1))
        (λ _ t. IsIdle t × (nvm t ≡ nvm s))
        (Runs-access i2c (bus.read_request s) (ltb 0 (pending s)) _ o (refl, e, p))
        (next (await_request_lem n))
    where
      next :
          ((t : State)
            → pending t < n
            → Runs (await_request bus n t) (λ _ u. IsIdle u × (nvm u ≡ nvm t)))
          → (r : Bool) (t : State)
          → (r ≡ ltb 0 (pending s)) × (nvm t ≡ nvm s) × (pending t ≡ pending s - 1)
          → Runs
              ((if not r then done tt else await_request bus n) t)
              (λ _ u. IsIdle u × (nvm u ≡ nvm s))
      next ih true t (b, e, p) =
          Runs-mono (await_request bus n t) _ (λ _ u. IsIdle u × (nvm u ≡ nvm s))
            (λ _ u (ui, ue). (ui, ue ∙ e)) (ih t (ground arith))
      next ih false t (b, e, p) = (ground arith, e)

  module _ (polls : ℕ) (enough : rounds < polls) where
    pub request-Does :
        (i : ℕ) → Does (issue_request_with_sector bus polls i) (wrote (ctrl_0 (requesting i)) ∷ [])
    unfolding issue_request_with_sector
    request-Does i = record {
      runs = λ s idle.
          let (o, e, p) = write_idle (ctrl_0 (requesting i)) s idle in
          Runs-continue (set_register bus (ctrl_0 (requesting i)) s) (λ _. await_request bus polls)
            (λ _ t.
              (pending t ≤ rounds)
              × (nvm t ≡ replay blank program (wrote (ctrl_0 (requesting i)) ∷ []) (nvm s)))
            (λ _ t. After (wrote (ctrl_0 (requesting i)) ∷ []) s t)
            (Runs-access i2c (bus.write (ctrl_0 (requesting i)) s) tt _ o (p, e))
            λ _ t (tp, te).
              Runs-mono (await_request bus polls t) _ _ (λ _ u (ui, ue). (ui, ue ∙ te))
                (await_request_lem polls t (omega arith));
    }

    pub erase_all_sectors-Does : Does (erase_all_sectors bus polls) erasing
    unfolding erase_all_sectors
    erase_all_sectors-Does =
        Does-then
          (set_register-Does (ctrl_1 (record { op_code = load_ser; erase = all_erased })) refl)
          (Does-then (request-Does 0)
            (Does-then (set_register-Does (ctrl_1 (op erase_sectors)) refl) (request-Does 0)))

    write_one-Does :
        (i : ℕ) (bytes : Sector) → Does (write_one bus polls i bytes) (programming i bytes)
    unfolding write_one
    write_one-Does i bytes = Does-then (fill-Does bytes) (
        Does-then (set_register-Does (ctrl_1 (op load_plr)) refl) (
          Does-then (request-Does 0)
            (Does-then (set_register-Does (ctrl_1 (op write_sector)) refl) (request-Does i))))

    pub write_from-Does :
        (i : ℕ) (bs : List Sector) → Does (write_from bus polls i bs) (programming_from i bs)
    unfolding write_from
    write_from-Does i [] = record { runs = λ s idle. (idle, refl) }
    write_from-Does i (b ∷ bs) = Does-then (write_one-Does i b) (write_from-Does (i + 1) bs)
