-- ===== src/Record/Flush.antt =====
-- sw/fw/src/systems/record.rs: left alone, `sync_task` brings the counters to flash.
use powersupply.Base.{
  ℕ, zero, suc, ◌≤◌, ◌≡◌, refl, ap, ◌∙◌, true, false, Option, none, some, arith, unwrap_or,
  unwrap_option, leb, Option-cases, inl, inr, ok, Returns,
}
use powersupply.Base.Time.{Time}
use powersupply.Storage.{Slot, IsSaved}
use powersupply.Record.{
  Data, default_data, Pc, receiving, notified, sleeping, storing, Record, sync_step, run_alone,
}
use powersupply.Record.Protocol.{Phase, Flashed}
use powersupply.Record.Interleavings.{System, Reach, Reach-Inv}

module _ (time : Time) (slot : Slot Data) where
  open slot use {State, save, load, load-save}

  -- The task waits for the next event, and flash holds the counters.
  abbrev pub Settled : Data → Pc × Record time slot → Type 0
  Settled d (pc, r) =
      (pc ≡ receiving)
      × (r.counters ≡ d)
      × (r.sync_at ≡ none)
      × IsSaved slot default_data d r.storage

  module _ (saves : (d : Data) (st : State) → (save d st).0 ≡ ok tt) (now : ℕ) where
    from_receiving :
        (n : ℕ) (r : Record time slot)
        → r.queued ≡ false
        → r.sync_at ≡ none
        → IsSaved slot default_data r.counters r.storage
        → Returns (run_alone time slot n now receiving r) (Settled r.counters)
    unfolding run_alone sync_step
    from_receiving zero r q a saved = (refl, refl, a, saved)
    from_receiving (suc n) r q a saved = simp q (refl, refl, a, saved)

    from_storing :
        (n : ℕ) (d : Data) (r : Record time slot)
        → r.queued ≡ false
        → r.sync_at ≡ none
        → d ≡ r.counters
        → Returns (run_alone time slot (suc n) now (storing d) r) (Settled r.counters)
    unfolding run_alone sync_step
    from_storing n d r q a e = rw (saves d r.storage) (
        from_receiving n (record r { storage = (save d r.storage).1 }) q a
          (λ y l.
            ap (λ (o : Option Data). unwrap_or o default_data)
              (load-save d r.storage y (saves d r.storage) l)
            ∙ e))

    from_sleeping :
        (n until : ℕ) (r : Record time slot)
        → r.queued ≡ false
        → until ≤ now
        → Returns (run_alone time slot (suc (suc n)) now (sleeping until) r) (Settled r.counters)
    unfolding run_alone sync_step
    from_sleeping n until r q le =
        let due : leb until now ≡ true = ground arith in
        rw due (from_storing n r.counters (record r { sync_at = none }) q refl refl)

    from_notified :
        (n until : ℕ) (r : Record time slot)
        → r.queued ≡ false
        → r.sync_at ≡ some until
        → until ≤ now
        → Returns (run_alone time slot (suc (suc (suc n))) now notified r) (Settled r.counters)
    unfolding run_alone sync_step
    from_notified n until r q a le = simp (a, unwrap_option) (from_sleeping n until r q le)

    from_queued :
        (n until : ℕ) (r : Record time slot)
        → r.queued ≡ true
        → r.sync_at ≡ some until
        → until ≤ now
        → Returns
            (run_alone time slot (suc (suc (suc (suc n)))) now receiving r)
            (Settled r.counters)
    unfolding run_alone sync_step
    from_queued n until r q a le =
        rw q (from_notified n until (record r { queued = false }) refl a le)

    stored_then_queued :
        (d : Data) (until : ℕ) (r : Record time slot)
        → r.queued ≡ true
        → r.sync_at ≡ some until
        → until ≤ now
        → Returns (run_alone time slot 5 now (storing d) r) (Settled r.counters)
    unfolding run_alone sync_step
    stored_then_queued d until r q a le =
        rw (saves d r.storage)
          (from_queued 0 until (record r { storage = (save d r.storage).1 }) q a le)

    from_any :
        (pc : Pc) (r : Record time slot)
        → Phase pc r.queued r.sync_at
        → Flashed time slot pc r
        → ((at : ℕ) → r.sync_at ≡ some at → at ≤ now)
        → Returns (run_alone time slot 5 now pc r) (Settled r.counters)
    from_any receiving r ph fl due = elim (Option-cases r.sync_at) [
      | inl e ↦ from_receiving 5 r (ground arith) e (fl e)
      | inr (at, e) ↦ from_queued 1 at r (ground arith) e (due at e)
    ]
    from_any notified r ph fl due = elim (Option-cases r.sync_at) [
      | inl e ↦ absurd (ground arith)
      | inr (at, e) ↦ from_notified 2 at r ph.0 e (due at e)
    ]
    from_any (sleeping u) r ph fl due = from_sleeping 3 u r ph.0 (due u ph.1)
    from_any (storing d) r ph fl due = elim (Option-cases r.sync_at) [
      | inl e ↦ from_storing 4 d r (ground arith) e (fl e)
      | inr (at, e) ↦ stored_then_queued d at r (ground arith) e (due at e)
    ]

    -- From every reachable state, once the deadline of a pending write (if there is one) has passed
    -- and with a storage that accepts writes: within five steps the task alone, without a panic,
    -- comes to wait for the next event, with no write pending, the counters unchanged, and flash
    -- holding them.
    pub Reach-Settled :
        {s : System time slot}
        → Reach time slot s
        → ((at : ℕ) → s.rec.sync_at ≡ some at → at ≤ now)
        → Returns (run_alone time slot 5 now s.pc s.rec) (Settled s.rec.counters)
    Reach-Settled {s} r due =
        let i = Reach-Inv time slot r in from_any s.pc s.rec i.phase i.flashed due
