-- ===== src/Record/Safety.antt =====
-- What sw/fw/src/systems/record.rs promises in every state that it reaches.
use powersupply.Base.{ℕ, ◌+◌, ◌^◌, ◌<◌, ◌≡◌, refl, arith, ok, Returns, Always, Returns-of-Ensures}
use powersupply.Base.Time.{Time}
use powersupply.Storage.{Slot}
use powersupply.Record.{
  Data, Progress, done, waits, Pc, receiving, notified, sleeping, storing, Record, sync_period,
  log_overcurrent, sync_step,
}
use powersupply.Record.Protocol.{Phase, logged, Logged, log_overcurrent_lem}
use powersupply.Record.Interleavings.{System, Reach, Reach-Inv}

module _ (time : Time) (slot : Slot Data) where
  open time use {add-returns}
  open slot use {save}

  log-returns :
      (now secs : ℕ) (r : Record time slot)
      → now + sync_period time slot < 2 ^ 64
      → Returns (log_overcurrent time slot now secs r) Always
  unfolding log_overcurrent
  log-returns now secs r lt = ground (arith, add-returns now (sync_period time slot))

  Logged-done :
      (now secs : ℕ) (pc : Pc) (r : Record time slot) (p : Progress (Record time slot))
      → Logged time slot now secs pc r p
      → (t : Record time slot) × (p ≡ done t) × (t.counters ≡ logged time slot secs r.counters)
  Logged-done now secs pc r (done t) h = (t, refl, h.0)
  Logged-done now secs pc r waits h = absurd h

  -- In every reachable state, while the clock plus the sync period fits a u64, logging an event
  -- neither panics nor waits for the channel with the lock held: it goes through, and counts the
  -- event and its seconds.
  pub log_overcurrent-progress :
      (now secs : ℕ) {s : System time slot}
      → Reach time slot s
      → now + sync_period time slot < 2 ^ 64
      → Returns (log_overcurrent time slot now secs s.rec) (λ p.
        (t : Record time slot) × (p ≡ done t) × (t.counters ≡ logged time slot secs s.rec.counters))
  log_overcurrent-progress now secs {s} r lt =
      Returns-of-Ensures (log_overcurrent time slot now secs s.rec)
        (Logged time slot now secs s.pc s.rec) _
        (log_overcurrent_lem time slot now secs s.pc s.rec (Reach-Inv time slot r).phase)
        (log-returns now secs s.rec lt) (Logged-done now secs s.pc s.rec)

  sync_step-total :
      (now : ℕ) (pc : Pc) (r : Record time slot)
      → Phase pc r.queued r.sync_at
      → ((d : Data) → pc ≡ storing d → (save d r.storage).0 ≡ ok tt)
      → Returns (sync_step time slot now pc r) Always
  unfolding sync_step
  sync_step-total now receiving r ph saves = tt
  sync_step-total now notified r ph saves = ground arith
  sync_step-total now (sleeping u) r ph saves = tt
  sync_step-total now (storing d) r ph saves = rw (saves d refl) tt

  -- The `unwrap` of the deadline never panics: in every reachable state a step of the task returns,
  -- if what it is about to store, if anything, can be stored.
  pub sync_step-returns :
      (now : ℕ) {s : System time slot}
      → Reach time slot s
      → ((d : Data) → s.pc ≡ storing d → (save d s.rec.storage).0 ≡ ok tt)
      → Returns (sync_step time slot now s.pc s.rec) Always
  sync_step-returns now {s} r saves =
      sync_step-total now s.pc s.rec (Reach-Inv time slot r).phase saves
