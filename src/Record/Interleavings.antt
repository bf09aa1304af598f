-- ===== src/Record/Interleavings.antt =====
-- The states that sw/fw/src/systems/record.rs reaches, in any interleaving of `sync_task` with calls
-- that log and publish, under a clock that never runs backwards.
use mathlib.Core.Logic.{◌⊎◌}
use powersupply.Base.{
  ℕ, ◌+◌, ◌≤◌, ◌≡◌, refl, sym, ap, ◌∙◌, false, Option, none, some, List, [], ◌∷◌, arith, unwrap_or,
  inl, inr, Result, ok, err, returns, unwrap, ◌>>=◌, Ensures,
}
use powersupply.Base.Time.{Time}
use powersupply.Storage.{Slot}
use powersupply.Record.{
  Data, default_data, done, Pc, receiving, notified, sleeping, storing, Record, sync_period, init,
  log_overcurrent, publish_immediate, sync_step,
}
use powersupply.Record.Protocol.{
  Phase, Deadline, Flashed, Flashed-logged, Logged, log_overcurrent_lem, Synced, sync_step_lem,
}

-- No two times in the list, the latest first, are closer than the period.
abbrev pub Due : ℕ → List ℕ → ℕ → Type 0
Due period [] at = Unit
Due period (w ∷ ws) at = w + period ≤ at

abbrev pub Spaced : ℕ → List ℕ → Type 0
Spaced period [] = Unit
Spaced period (w ∷ ws) = Due period ws w × Spaced period ws

abbrev pub Past : List ℕ → ℕ → Type 0
Past [] now = Unit
Past (w ∷ ws) now = w ≤ now

Due-later : (period : ℕ) (ws : List ℕ) (a b : ℕ) → Due period ws a → a ≤ b → Due period ws b
Due-later period [] a b h le = tt
Due-later period (w ∷ ws) a b h le = omega arith

Due-Past : (period : ℕ) (ws : List ℕ) (a b : ℕ) → Past ws a → a ≤ b → Due period ws (b + period)
Due-Past period [] a b h le = tt
Due-Past period (w ∷ ws) a b h le = omega arith

pub Past-later : (ws : List ℕ) (a b : ℕ) → Past ws a → a ≤ b → Past ws b
Past-later [] a b h le = tt
Past-later (w ∷ ws) a b h le = omega arith

-- The times at which the task has taken the counters for a write to flash, the latest first.
abbrev pub taken : ℕ → Pc → List ℕ → List ℕ
taken now receiving ws = ws
taken now notified ws = ws
taken now (sleeping _) ws = now ∷ ws
taken now (storing _) ws = ws

-- The times at which the task has called `store`, the latest first.
abbrev pub written : ℕ → Pc → List ℕ → List ℕ
written now receiving ws = ws
written now notified ws = ws
written now (sleeping _) ws = ws
written now (storing _) ws = now ∷ ws

module _ (time : Time) (slot : Slot Data) where
  -- The record, the task, what the clock read last, when the task took the counters, and when it
  -- then wrote them to flash, each the latest first.
  pub record System : Type 0 where
    pub rec : Record time slot
    pub pc : Pc
    pub clock : ℕ
    pub takes : List ℕ
    pub writes : List ℕ

  pub data Reach : System → Type 0 where
    boot :
        (st : slot.State) {r : Record time slot}
        → init time slot st ≡ returns r
        → Reach (record { rec = r; pc = receiving; clock = 0; takes = []; writes = [] })
    log :
        {s : System} {r : Record time slot} (now secs : ℕ)
        → Reach s
        → s.clock ≤ now
        → log_overcurrent time slot now secs s.rec ≡ returns (done r)
        → Reach (record s { rec = r; clock = now })
    publish : {s : System} → Reach s → Reach (record s { rec = publish_immediate time slot s.rec })
    sync :
        {s : System} {pc : Pc} {r : Record time slot} (now : ℕ)
        → Reach s
        → s.clock ≤ now
        → sync_step time slot now s.pc s.rec ≡ returns (done (pc, r))
        → Reach (record {
          rec = r;
          pc = pc;
          clock = now;
          takes = taken now s.pc s.takes;
          writes = written now s.pc s.writes;
        })

  pub record Inv (s : System) : Type 0 where
    pub phase : Phase s.pc s.rec.queued s.rec.sync_at
    pub flashed : Flashed time slot s.pc s.rec
    pub past : Past s.takes s.clock
    pub due : (at : ℕ) → s.rec.sync_at ≡ some at → Due (sync_period time slot) s.takes at
    pub spaced : Spaced (sync_period time slot) s.takes

  boot-Inv :
      (st : slot.State)
      → Ensures
          (init time slot st)
          (λ r. Inv (record { rec = r; pc = receiving; clock = 0; takes = []; writes = [] }))
  unfolding init
  boot-Inv st = after (slot.load st).0 refl
    where
      after :
          (res : Result (Option Data) slot.SlotError)
          → (slot.load st).0 ≡ res
          → Ensures
              (unwrap res >>= λ found. returns (record {
                counters = unwrap_or found default_data;
                sync_at = none;
                storage = (slot.load st).1;
                queued = false;
                published = [];
              }))
              (λ r. Inv (record { rec = r; pc = receiving; clock = 0; takes = []; writes = [] }))
      after (ok y) e = record {
        phase = refl;
        flashed = λ q.
            λ z l. ap (λ (o : Option Data). unwrap_or o default_data) (slot.load-load st y z e l);
        past = tt;
        due = λ at q. tt;
        spaced = tt;
      }
      after (err x) e = tt

  log-Inv :
      (s : System) (r : Record time slot) (now secs : ℕ)
      → Inv s
      → s.clock ≤ now
      → Logged time slot now secs s.pc s.rec (done r)
      → Inv (record s { rec = r; clock = now })
  log-Inv s r now secs i le (counts, ph, some_at, at_or) = record {
    phase = ph;
    flashed = Flashed-logged time slot s.pc r some_at;
    past = Past-later s.takes s.clock now i.past le;
    due = λ at q. due_logged at q at_or;
    spaced = i.spaced;
  }
    where
      due_logged :
          (at : ℕ)
          → r.sync_at ≡ some at
          → (r.sync_at ≡ s.rec.sync_at) ⊎ (r.sync_at ≡ some (now + sync_period time slot))
          → Due (sync_period time slot) s.takes at
      due_logged at q (inl same) = i.due at (sym same ∙ q)
      due_logged at q (inr new) =
          let e : now + sync_period time slot ≡ at = cc in
          rw (← e) (Due-Past (sync_period time slot) s.takes s.clock now i.past le)

  Due-synced :
      (s : System) (now : ℕ) (new : Option ℕ) (at : ℕ)
      → Inv s
      → Deadline time slot now s.pc new s.rec.sync_at
      → new ≡ some at
      → Due (sync_period time slot) (taken now s.pc s.takes) at
  Due-synced s now new at i d q = by_pc s.pc d i.due
    where
      by_pc :
          (pc : Pc)
          → Deadline time slot now pc new s.rec.sync_at
          → ((a : ℕ) → s.rec.sync_at ≡ some a → Due (sync_period time slot) s.takes a)
          → Due (sync_period time slot) (taken now pc s.takes) at
      by_pc receiving e due = due at (sym e ∙ q)
      by_pc notified e due = due at (sym e ∙ q)
      by_pc (sleeping u) e due = absurd (ground arith)
      by_pc (storing d) e due = due at (sym e ∙ q)

  times_synced :
      (s : System) (now : ℕ) (new : Option ℕ)
      → Inv s
      → s.clock ≤ now
      → Deadline time slot now s.pc new s.rec.sync_at
      → Past (taken now s.pc s.takes) now × Spaced (sync_period time slot) (taken now s.pc s.takes)
  times_synced s now new i le d = by_pc s.pc d i.phase
    where
      keep : Past s.takes now × Spaced (sync_period time slot) s.takes
      keep = (Past-later s.takes s.clock now i.past le, i.spaced)

      by_pc :
          (pc : Pc)
          → Deadline time slot now pc new s.rec.sync_at
          → Phase pc s.rec.queued s.rec.sync_at
          → Past (taken now pc s.takes) now × Spaced (sync_period time slot) (taken now pc s.takes)
      by_pc receiving e ph = keep
      by_pc notified e ph = keep
      by_pc (sleeping u) (e, le') (q, a) =
          (omega arith, (Due-later (sync_period time slot) s.takes u now (i.due u a) le', i.spaced))
      by_pc (storing d) e ph = keep

  sync-Inv :
      (s : System) (pc : Pc) (r : Record time slot) (now : ℕ)
      → Inv s
      → s.clock ≤ now
      → Synced time slot now s.pc s.rec (done (pc, r))
      → Inv (record {
        rec = r;
        pc = pc;
        clock = now;
        takes = taken now s.pc s.takes;
        writes = written now s.pc s.writes;
      })
  sync-Inv s pc r now i le (same, ph, fl, d) =
      let (past, spaced) = times_synced s now r.sync_at i le d in
      record {
        phase = ph;
        flashed = fl;
        past = past;
        due = λ at q. Due-synced s now r.sync_at at i d q;
        spaced = spaced;
      }

  Flashed-publish :
      (pc : Pc) (r : Record time slot)
      → Flashed time slot pc r
      → Flashed time slot pc (publish_immediate time slot r)
  unfolding publish_immediate
  Flashed-publish receiving r f = f
  Flashed-publish notified r f = f
  Flashed-publish (sleeping u) r f = f
  Flashed-publish (storing d) r f = f

  pub Reach-Inv : {s : System} → Reach s → Inv s
  unfolding publish_immediate
  Reach-Inv (boot st {r} e) = rw e at (boot-Inv st)
  Reach-Inv (log {s} {r} now secs p le e) =
      let i = Reach-Inv p in
      log-Inv s r now secs i le
        (rw e at (log_overcurrent_lem time slot now secs s.pc s.rec i.phase))
  Reach-Inv (publish {s} p) =
      let i = Reach-Inv p in
      record {
        phase = i.phase;
        flashed = Flashed-publish s.pc s.rec i.flashed;
        past = i.past;
        due = i.due;
        spaced = i.spaced;
      }
  Reach-Inv (sync {s} {pc} {r} now p le e) =
      let i = Reach-Inv p in
      sync-Inv s pc r now i le (rw e at (sync_step_lem time slot now s.pc s.rec i.phase i.flashed))
