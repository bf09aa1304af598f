-- ===== src/Record/Protocol.antt =====
-- The states that sw/fw/src/systems/record.rs can be in, in any interleaving of `sync_task` with
-- calls that log and publish, and what holds in all of them.
use mathlib.Core.Logic.{◌⊎◌}
use powersupply.Base.{
  ℕ, ◌+◌, ◌≤◌, ◌≡◌, refl, sym, ap, ◌∙◌, Bool, true, false, Option, none, some, arith, is_some, leb,
  Bool-cases, Option-cases, unwrap_option, unwrap_or, inl, inr, Result, ok, err, returns, unwrap,
  ◌>>◌, Ensures,
}
use powersupply.Base.Time.{Time}
use powersupply.Storage.{Slot, IsSaved}
use powersupply.Record.{
  Data, default_data, add_u64, Progress, done, waits, Pc, receiving, notified, sleeping, storing,
  Record, sync_period, log_overcurrent, sync_step,
}

-- Who knows that a write is due: the channel, or the task.
abbrev pub Phase : Pc → Bool → Option ℕ → Type 0
Phase receiving queued sync_at = queued ≡ is_some sync_at
Phase notified queued sync_at = (queued ≡ false) × (is_some sync_at ≡ true)
Phase (sleeping until) queued sync_at = (queued ≡ false) × (sync_at ≡ some until)
Phase (storing _) queued sync_at = queued ≡ is_some sync_at

module _ (time : Time) (slot : Slot Data) where
  open time use {add, add_lem}
  open slot use {State, load, save, load-save, load-load}

  abbrev pub logged : ℕ → Data → Data
  logged secs d = record {
    overcurrent_count = add_u64 d.overcurrent_count 1;
    overcurrent_secs = add_u64 d.overcurrent_secs secs;
  }

  -- What a logged event leaves; it never waits.
  abbrev pub Logged : ℕ → ℕ → Pc → Record time slot → Progress (Record time slot) → Type 0
  Logged now secs pc r waits = ⊥
  Logged now secs pc r (done t) =
      (t.counters ≡ logged secs r.counters)
      × Phase pc t.queued t.sync_at
      × (is_some t.sync_at ≡ true)
      × ((t.sync_at ≡ r.sync_at) ⊎ (t.sync_at ≡ some (now + sync_period time slot)))

  pub log_overcurrent_lem :
      (now secs : ℕ) (pc : Pc) (r : Record time slot)
      → Phase pc r.queued r.sync_at
      → Ensures (log_overcurrent time slot now secs r) (Logged now secs pc r)
  unfolding log_overcurrent
  log_overcurrent_lem now secs receiving r ph = ground (arith, add_lem now (sync_period time slot))
  log_overcurrent_lem now secs notified r ph = ground (arith, add_lem now (sync_period time slot))
  log_overcurrent_lem now secs (sleeping u) r ph =
      ground (arith, add_lem now (sync_period time slot))
  log_overcurrent_lem now secs (storing d) r ph =
      ground (arith, add_lem now (sync_period time slot))

  -- What flash holds while no write is due: the counters, or the task is about to store them.
  abbrev pub Flashed : Pc → Record time slot → Type 0
  Flashed receiving r = r.sync_at ≡ none → IsSaved slot default_data r.counters r.storage
  Flashed notified r = r.sync_at ≡ none → IsSaved slot default_data r.counters r.storage
  Flashed (sleeping _) r = r.sync_at ≡ none → IsSaved slot default_data r.counters r.storage
  Flashed (storing d) r = r.sync_at ≡ none → d ≡ r.counters

  pub Flashed-logged : (pc : Pc) (t : Record time slot) → is_some t.sync_at ≡ true → Flashed pc t
  Flashed-logged receiving t h = λ e. absurd (ground arith)
  Flashed-logged notified t h = λ e. absurd (ground arith)
  Flashed-logged (sleeping u) t h = λ e. absurd (ground arith)
  Flashed-logged (storing d) t h = λ e. absurd (ground arith)

  -- The deadline stays, until it has passed and the task takes it.
  abbrev pub Deadline : ℕ → Pc → Option ℕ → Option ℕ → Type 0
  Deadline now receiving new old = new ≡ old
  Deadline now notified new old = new ≡ old
  Deadline now (sleeping until) new old = (new ≡ none) × (until ≤ now)
  Deadline now (storing _) new old = new ≡ old

  -- The task's steps neither panic for want of a deadline nor disturb the rest.
  abbrev pub Synced : ℕ → Pc → Record time slot → Progress (Pc × Record time slot) → Type 0
  Synced now from r waits = Unit
  Synced now from r (done (pc, t)) =
      (t.counters ≡ r.counters)
      × Phase pc t.queued t.sync_at
      × Flashed pc t
      × Deadline now from t.sync_at r.sync_at

  pub sync_step_lem :
      (now : ℕ) (pc : Pc) (r : Record time slot)
      → Phase pc r.queued r.sync_at
      → Flashed pc r
      → Ensures (sync_step time slot now pc r) (Synced now pc r)
  unfolding sync_step
  sync_step_lem now receiving r ph fl = elim (Bool-cases r.queued) [
    | inl q ↦ rw q (refl, (refl, sym ph ∙ q), fl, refl)
    | inr q ↦ rw q tt
  ]
  sync_step_lem now notified r ph fl = elim (Option-cases r.sync_at) [
    | inl e ↦ absurd (ground arith)
    | inr (a, e) ↦ rw (e, unwrap_option) (refl, (ph.0, refl), λ q. cc, refl)
  ]
  sync_step_lem now (sleeping u) r ph fl = elim (Bool-cases (leb u now)) [
    | inl due ↦ rw due (refl, ph.0, λ e. refl, (refl, ground arith))
    | inr early ↦ rw early tt
  ]
  sync_step_lem now (storing d) r ph fl = after (save d r.storage).0 refl
    where
      after :
          (res : Result (Unit {0}) slot.SlotError)
          → (save d r.storage).0 ≡ res
          → Ensures
              (unwrap res
                >> returns (done (receiving, record r { storage = (save d r.storage).1 })))
              (Synced now (storing d) r)
      after (ok _) e = (
        refl,
        ph,
        λ q y l.
            ap (λ (o : Option Data). unwrap_or o default_data) (load-save d r.storage y e l) ∙ fl q,
        refl,
      )
      after (err x) e = tt
