-- ===== src/Stusb4500/Roundtrip.antt =====
-- sw/fw/src/drivers/stusb4500/hl.rs: sectors that are written are read back.
use powersupply.Base.{
  ℕ, zero, suc, ◌+◌, ◌<◌, ◌≡◌, refl, ap, ◌∙◌, true, List, [], ◌∷◌, arith, length,
}
use powersupply.Stusb4500.{
  Bus, ◌>>◌, buffer_access, io, ctrl_0, requesting, ctrl_1, op, read_sector, Sector,
}
use powersupply.Stusb4500.Commands.{
  Call, read_one, read_from, read_sectors, write_from, write_sectors,
}
use powersupply.Stusb4500.Chip.{Nvm, Chip}
use powersupply.Stusb4500.Replay.{
  Step, wrote, replay, erasing, erasing_lem, programming_from, programming_from_lem, reading,
  reading_lem, contents,
}
use powersupply.Stusb4500.Sectors.{
  Runs, Runs-continue, Runs-mono, Runs-access, IsIdle, After, Does, set_register-Does, request-Does,
  erase_all_sectors-Does, write_from-Does,
}

module _ (bus : Bus) (chip : Chip bus) where
  open bus use {State, I2cError}
  open chip use {blank, program, nvm, rounds, program-blank, read_idle}

  pub Runs-after :
      {A : Type 0} {m : Call bus (Unit {0})} {ss : List Step} (n : Call bus A)
      (Q : A → State → Type 0) (s : State)
      → Does bus chip m ss
      → IsIdle bus chip s
      → ((t : State) → After bus chip ss s t → Runs (n t) Q)
      → Runs ((m >> n) s) Q
  Runs-after {m} {ss} n Q s d i k =
      Runs-continue (m s) (λ _. n) (λ _ t. After bus chip ss s t) Q (d.runs s i) λ _ t h. k t h

  -- The chip is idle and unlocked, and holds what it did.
  abbrev pub Kept : State → State → Type 0
  Kept s t =
      IsIdle bus chip t
      × ((nvm t).unlocked ≡ true)
      × ((nvm t).sectors ≡ (nvm s).sectors)
      × ((nvm t).wear ≡ (nvm s).wear)

  module _ (polls : ℕ) (enough : rounds < polls) where
    read_one_lem :
        (i : ℕ) (s : State)
        → IsIdle bus chip s
        → (nvm s).unlocked ≡ true
        → Runs (read_one bus polls i s) (λ a t. Kept s t × (a ≡ (nvm s).sectors i))
    unfolding read_one
    read_one_lem i s idle u =
        Runs-after _ (λ a t. Kept s t × (a ≡ (nvm s).sectors i)) s
          (set_register-Does bus chip (ctrl_1 (op read_sector)) refl) idle
          λ t (ti, te).
            Runs-after (buffer_access bus.read_buffer) (λ a v. Kept s v × (a ≡ (nvm s).sectors i)) t
              (request-Does bus chip polls enough i) ti
              λ w (wi, we). last w wi (we ∙ ap (replay blank program (tail_of i)) te)
      where
        tail_of : ℕ → List Step
        tail_of i = wrote (ctrl_0 (requesting i)) ∷ []

        last :
            (w : State)
            → IsIdle bus chip w
            → nvm w ≡ replay blank program (reading i) (nvm s)
            → Runs {E = I2cError}
                (buffer_access bus.read_buffer w)
                (λ a v. Kept s v × (a ≡ (nvm s).sectors i))
        last w wi we =
            let (o, e, p) = read_idle w wi in
            let (lu, lb, ls, lw) = reading_lem blank program (nvm s) i u in
            let n = e ∙ we in
            Runs-access (λ _. io) (bus.read_buffer w) (nvm w).buffer
              (λ a v. Kept s v × (a ≡ (nvm s).sectors i)) o
              (
                (p, ap Nvm.unlocked n ∙ lu, ap Nvm.sectors n ∙ ls, ap Nvm.wear n ∙ lw),
                ap Nvm.buffer we ∙ lb,
              )

    read_from_lem :
        (n i : ℕ) (s : State)
        → IsIdle bus chip s
        → (nvm s).unlocked ≡ true
        → Runs (read_from bus polls i n s) (λ l t. Kept s t × (l ≡ contents i n (nvm s).sectors))
    unfolding read_from
    read_from_lem zero i s idle u = ((idle, u, refl, refl), refl)
    read_from_lem (suc n) i s idle u =
        Runs-continue (read_one bus polls i s) _ (λ a t. Kept s t × (a ≡ (nvm s).sectors i)) _
          (read_one_lem i s idle u)
          λ a t ((ti, tu, ts, tw), e).
            Runs-continue (read_from bus polls (i + 1) n t) _
              (λ l v. Kept t v × (l ≡ contents (i + 1) n (nvm t).sectors)) _
              (read_from_lem n (i + 1) t ti tu)
              λ l v ((vi, vu, vs, vw), e'). ((vi, vu, vs ∙ ts, vw ∙ tw), rw (e, e', ts) refl)

    -- From an idle, unlocked chip `read_sectors` answers what its five sectors hold, and leaves
    -- them.
    pub read_sectors_lem :
        (s : State)
        → IsIdle bus chip s
        → (nvm s).unlocked ≡ true
        → Runs (read_sectors bus polls s) (λ l t. Kept s t × (l ≡ contents 0 5 (nvm s).sectors))
    unfolding read_sectors
    read_sectors_lem s idle u = read_from_lem 5 0 s idle u

    -- What a successful write of five sectors leaves.
    abbrev pub Holds : List Sector → State → State → Type 0
    Holds bs s t =
        IsIdle bus chip t
        × ((nvm t).unlocked ≡ true)
        × (contents 0 5 (nvm t).sectors ≡ bs)
        × ((nvm t).wear ≡ (nvm s).wear + 6)

    pub write_sectors_lem :
        (bs : List Sector) (s : State)
        → length bs ≡ 5
        → IsIdle bus chip s
        → (nvm s).unlocked ≡ true
        → Runs (write_sectors bus polls bs s) (λ _ t. Holds bs s t)
    unfolding write_sectors
    write_sectors_lem bs s five idle u =
        Runs-after (write_from bus polls 0 bs) (λ _ t. Holds bs s t) s
          (erase_all_sectors-Does bus chip polls enough) idle
          λ t (ti, te).
            Runs-mono (write_from bus polls 0 bs t) _ (λ _ w. Holds bs s w)
              (λ _ w (wi, we).
                let (eu, eb, ew) = erasing_lem blank program (nvm s) u in
                let (pu, pc, pk, pw) =
                  programming_from_lem blank program program-blank 0 bs
                    (replay blank program erasing (nvm s)) eu
                    (λ j ge lt. eb j (omega (arith, five))) in
                let n = we ∙ ap (replay blank program (programming_from 0 bs)) te in
                (
                  wi,
                  ap Nvm.unlocked n ∙ pu,
                  ap (λ (v : Nvm). contents 0 5 v.sectors) n ∙ rw five at pc,
                  ap Nvm.wear n ∙ (omega (arith, pw, ew, five)),
                ))
              ((write_from-Does bus chip polls enough 0 bs).runs t ti)

    -- From an idle, unlocked chip, whatever it holds: five sectors that are written are read back,
    -- with more rounds of polling than a command takes; nothing fails, and no loop runs out.
    pub read_sectors-write_sectors :
        (bs : List Sector) (s : State)
        → length bs ≡ 5
        → IsIdle bus chip s
        → (nvm s).unlocked ≡ true
        → Runs ((write_sectors bus polls bs >> read_sectors bus polls) s) (λ l _. l ≡ bs)
    read_sectors-write_sectors bs s five idle u =
        Runs-continue (write_sectors bus polls bs s) _ (λ _ t. Holds bs s t) _
          (write_sectors_lem bs s five idle u)
          λ _ t (ti, tu, tc, tw).
            Runs-mono (read_sectors bus polls t) _ (λ l _. l ≡ bs) (λ l v (kept, e). e ∙ tc)
              (read_sectors_lem t ti tu)
