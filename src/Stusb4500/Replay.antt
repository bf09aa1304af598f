-- ===== src/Stusb4500/Replay.antt =====
-- What the driver's commands (sw/fw/src/drivers/stusb4500/hl.rs) do to the memory of a chip, apart
-- from the bus: lists of accesses, replayed on the memory.
use powersupply.Base.{
  ℕ, zero, suc, ◌+◌, ◌≤◌, ◌<◌, ◌≡◌, refl, ap, true, false, List, [], ◌∷◌, ◌++◌, arith, length,
  get_or, ◌==◌, if◌then◌else◌,
}
use powersupply.Stusb4500.{
  Write, ctrl_0, ctrl_1, Sector, op, requesting, read_sector, load_plr, load_ser, erase_sectors,
  write_sector, all_erased,
}
use powersupply.Stusb4500.Chip.{Nvm, effect}

pub data Step : Type 0 where
  wrote : Write → Step
  filled : Sector → Step

abbrev pub erasing : List Step
erasing =
    wrote (ctrl_1 (record { op_code = load_ser; erase = all_erased }))
    ∷ wrote (ctrl_0 (requesting 0))
    ∷ wrote (ctrl_1 (op erase_sectors))
    ∷ wrote (ctrl_0 (requesting 0))
    ∷ []

abbrev pub programming : ℕ → Sector → List Step
programming i bytes =
    filled bytes
    ∷ wrote (ctrl_1 (op load_plr))
    ∷ wrote (ctrl_0 (requesting 0))
    ∷ wrote (ctrl_1 (op write_sector))
    ∷ wrote (ctrl_0 (requesting i))
    ∷ []

abbrev pub programming_from : ℕ → List Sector → List Step
programming_from i [] = []
programming_from i (b ∷ bs) = programming i b ++ programming_from (i + 1) bs

abbrev pub reading : ℕ → List Step
reading i = wrote (ctrl_1 (op read_sector)) ∷ wrote (ctrl_0 (requesting i)) ∷ []

-- The sectors from one number on.
abbrev pub contents : ℕ → ℕ → (ℕ → Sector) → List Sector
contents i zero f = []
contents i (suc n) f = f i ∷ contents (i + 1) n f

pub contents-congr :
    (i n : ℕ) (f g : ℕ → Sector) → ((j : ℕ) → f j ≡ g j) → contents i n f ≡ contents i n g
contents-congr i zero f g h = refl
contents-congr i (suc n) f g h = rw (h i) (ap (λ l. g i ∷ l) (contents-congr (i + 1) n f g h))

all_erased-true : (j : ℕ) → j < 5 → get_or all_erased j false ≡ true
all_erased-true zero h = refl
all_erased-true (suc zero) h = refl
all_erased-true (suc (suc zero)) h = refl
all_erased-true (suc (suc (suc zero))) h = refl
all_erased-true (suc (suc (suc (suc zero)))) h = refl
all_erased-true (suc (suc (suc (suc (suc j))))) h = absurd (omega arith)

module _ (blank : Sector) (program : Sector → Sector → Sector) where
  abbrev pub step : Step → Nvm → Nvm
  step (wrote w) v = effect blank program w v
  step (filled bytes) v = record v { buffer = bytes }

  abbrev pub replay : List Step → Nvm → Nvm
  replay [] v = v
  replay (st ∷ ss) v = replay ss (step st v)

  pub replay-append : (ss ts : List Step) (v : Nvm) → replay (ss ++ ts) v ≡ replay ts (replay ss v)
  replay-append [] ts v = refl
  replay-append (st ∷ ss) ts v = replay-append ss ts (step st v)

  -- Erasing leaves the memory unlocked and its five sectors blank.
  pub erasing_lem :
      (v : Nvm)
      → v.unlocked ≡ true
      → let t = replay erasing v in
        (t.unlocked ≡ true) × ((j : ℕ) → j < 5 → t.sectors j ≡ blank) × (t.wear ≡ v.wear + 1)
  erasing_lem v u = (ground arith, (λ j lt. ground (arith, all_erased-true j)), ground arith)

  -- What programming a sector leaves, and programming several from a number on.
  abbrev pub Programmed : ℕ → Sector → Nvm → Nvm → Type 0
  Programmed i bytes v t =
      (t.unlocked ≡ true)
      × ((j : ℕ) → t.sectors j ≡ (if j == i then program (v.sectors j) bytes else v.sectors j))
      × (t.wear ≡ v.wear + 1)

  abbrev pub ProgrammedFrom : ℕ → List Sector → Nvm → Nvm → Type 0
  ProgrammedFrom i bs v t =
      (t.unlocked ≡ true)
      × (contents i (length bs) t.sectors ≡ bs)
      × ((j : ℕ) → j < i → t.sectors j ≡ v.sectors j)
      × (t.wear ≡ v.wear + length bs)

  abbrev pub BlankFrom : ℕ → ℕ → Nvm → Type 0
  BlankFrom i n v = (j : ℕ) → i ≤ j → j < i + n → v.sectors j ≡ blank

  pub programming_lem :
      (v : Nvm) (i : ℕ) (bytes : Sector)
      → v.unlocked ≡ true
      → Programmed i bytes v (replay (programming i bytes) v)
  programming_lem v i bytes u = ground arith

  pub reading_lem :
      (v : Nvm) (i : ℕ)
      → v.unlocked ≡ true
      → let t = replay (reading i) v in
        (t.unlocked ≡ true) × (t.buffer ≡ v.sectors i) × (t.sectors ≡ v.sectors) × (t.wear ≡ v.wear)
  reading_lem v i u = ground arith

  module _ (program-blank : (bytes : Sector) → program blank bytes ≡ bytes) where
    still_blank :
        (i n : ℕ) (b : Sector) (v w : Nvm)
        → Programmed i b v w
        → BlankFrom i (suc n) v
        → BlankFrom (i + 1) n w
    still_blank i n b v w p h j ge lt = ground (arith, p.1 j, h j)

    one_then_rest :
        (i : ℕ) (b : Sector) (bs : List Sector) (v w t : Nvm)
        → Programmed i b v w
        → ProgrammedFrom (i + 1) bs w t
        → BlankFrom i (suc (length bs)) v
        → ProgrammedFrom i (b ∷ bs) v t
    one_then_rest i b bs v w t (wu, ws, ww) (tu, tc, tk, tw) h =
        let here : t.sectors i ≡ b = ground (arith, tk i, ws i, h i, program-blank b) in
        (tu, rw (here, tc) refl, (λ j lt. ground (arith, tk j, ws j)), omega (arith, ww, tw))

    -- Sectors programmed from a number on, where they are blank, hold what was given; those before
    -- it hold what they did.
    pub programming_from_lem :
        (i : ℕ) (bs : List Sector) (v : Nvm)
        → v.unlocked ≡ true
        → BlankFrom i (length bs) v
        → ProgrammedFrom i bs v (replay (programming_from i bs) v)
    programming_from_lem i [] v u h = (u, refl, (λ j lt. refl), omega arith)
    programming_from_lem i (b ∷ bs) v u h =
        let w = replay (programming i b) v in
        let p = programming_lem v i b u in
        rw (replay-append (programming i b) (programming_from (i + 1) bs) v) (
          one_then_rest i b bs v w (replay (programming_from (i + 1) bs) w) p
            (programming_from_lem (i + 1) bs w p.0 (still_blank i (length bs) b v w p h)) h)
