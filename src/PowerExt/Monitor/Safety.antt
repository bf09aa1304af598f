-- ===== src/PowerExt/Monitor/Safety.antt =====
-- What sw/fw/src/systems/power_ext.rs promises in every state that it reaches.
use powersupply.Base.{
  ℕ, ◌+◌, ◌^◌, ◌≤◌, ◌<◌, ◌≡◌, refl, sym, ◌∙◌, Bool, true, false, Option, none, some, [], ◌∷◌, arith,
  ◌⊎◌, inl, inr, Returns-Ensures, Ensures-mono, Ensures-Always, unwrap-Ensures, unwrap_option,
  Bool-cases, Result, ok, returns, unwrap, Returns, Returns-bind, Always, Ensures, Ensures-bind,
  Ensures-after,
}
use powersupply.Base.Time.{Time}
use powersupply.Watchdog.{watchdog_deadline_secs}
use powersupply.Tps55289.{Mode, Status}
use powersupply.PowerExt.{State, disabled, enabled, enabling, ocp, Inner}
use powersupply.PowerExt.Deadline.{earliest_deadline, earliest_deadline-returns}
use powersupply.PowerExt.Monitor.{
  Local, Answers, Outcomes, is_fault, locked_part, on_fault, on_disabled, on_enabled, round,
}
use powersupply.PowerExt.Monitor.Rounds.{output_after, logged, Past, Inv, InOrder, Edge, log_on}
use powersupply.PowerExt.Monitor.Reach.{Supply, Reach, Reach-Inv, round_lem, fault_after_round}

output_by_state :
    (fault : Option (ℕ × ℕ)) (s : State) (l : Local) (output : Bool) (clock : ℕ)
    → Inv fault s l output clock
    → ((s ≡ disabled) ⊎ (s ≡ ocp) → output ≡ false)
      × ((s ≡ enabling) ⊎ (s ≡ enabled) → output ≡ true)
output_by_state fault disabled l output clock i = (λ h. ground arith, λ h. ground arith)
output_by_state fault ocp l output clock i = (λ h. ground arith, λ h. ground arith)
output_by_state fault enabling l output clock i = (λ h. ground arith, λ h. ground arith)
output_by_state fault enabled l output clock i = (λ h. ground arith, λ h. ground arith)

pub Past-later : (o : Option ℕ) (c now : ℕ) → Past o c → c ≤ now → Past o now
Past-later none c now h le = tt
Past-later (some t) c now h le = omega arith

module _ (time : Time) (I2cError : Type 0) where
  -- The published state tells the truth about the output: in every reachable state the bit `oe`
  -- written last is 0 in `Disabled` and `Ocp`, and 1 in `Enabling` and `Enabled`.
  pub Reach-output :
      {s : Supply}
      → Reach time I2cError s
      → ((s.inner.state ≡ disabled) ⊎ (s.inner.state ≡ ocp) → s.output ≡ false)
        × ((s.inner.state ≡ enabling) ⊎ (s.inner.state ≡ enabled) → s.output ≡ true)
  Reach-output {s} r =
      output_by_state s.fault s.inner.state s.local s.output s.clock (Reach-Inv time I2cError r)

  -- A round from a reachable state that returns, the clock not running backwards, changes the
  -- published state only along an edge of the diagram: a fault leads to `Ocp` from everywhere, and
  -- from `Ocp` the way to `Enabled` is through `Enabling`. It logs an over-current exactly when it
  -- goes from `Enabling` to `Enabled` after a fault, with the time since the first fault.
  pub round-Edge :
      (a : Answers I2cError) {s : Supply} {r : Outcomes} {d : ℕ}
      → Reach time I2cError s
      → InOrder time a s.clock
      → round time a s.local s.inner ≡ returns (r, d)
      → Edge s.inner.state r.inner.state
        × (logged r.actions ≡ log_on time a s.inner.state r.inner.state s.local.ocp_since)
  round-Edge a {s} p t e =
      let f =
        (rw e at (
          round_lem time a s.fault s.local s.inner s.output s.clock (Reach-Inv time I2cError p)
            t)).0 in
      (f.edge, f.logs)

  -- The task never sleeps past the watchdog's deadline, nor past the end of a backoff or of the
  -- stabilization: the wake-up time of a round from a reachable state is at most each of them.
  pub round-Wakes :
      (a : Answers I2cError) {s : Supply} {r : Outcomes} {d : ℕ}
      → Reach time I2cError s
      → InOrder time a s.clock
      → round time a s.local s.inner ≡ returns (r, d)
      → (d ≤ a.last + time.from_secs watchdog_deadline_secs)
        × ((u : ℕ) → r.local.backoff_until ≡ some u → d ≤ u)
        × ((u : ℕ) → r.local.stabilized_at ≡ some u → d ≤ u)
  round-Wakes a {s} {r} {d} p t e =
      let w =
        (rw e at (
          round_lem time a s.fault s.local s.inner s.output s.clock (Reach-Inv time I2cError p)
            t)).1 in
      (w.0, (λ u q. ground arith), (λ u q. ground arith))

  fault_after_round-cases :
      (a : Answers I2cError) (backoff : ℕ) (fault : Option (ℕ × ℕ))
      → (fault_after_round time a backoff fault ≡ some (a.first, backoff))
        ⊎ (fault_after_round time a backoff fault ≡ fault)
  fault_after_round-cases a backoff fault = ground arith

  -- After a fault at `t`, with a backoff of `b` at that time, no round from a reachable state turns
  -- the output on again unless the clock has passed `t + b`.
  pub backoff_respected :
      (a : Answers I2cError) {s : Supply} {r : Outcomes} {d t b : ℕ}
      → Reach time I2cError s
      → InOrder time a s.clock
      → round time a s.local s.inner ≡ returns (r, d)
      → s.fault ≡ some (t, b)
      → s.output ≡ false
      → output_after s.output r.actions ≡ true
      → t + b < a.first
  backoff_respected a {s} {r} {d} {t} {b} p o e q off on =
      let f =
        (rw e at (
          round_lem time a s.fault s.local s.inner s.output s.clock (Reach-Inv time I2cError p)
            o)).0 in
      elim (fault_after_round-cases a s.inner.backoff_duration s.fault) [
        | inl now ↦
            absurd (
              omega
                (arith, f.starts_late off on (a.first + s.inner.backoff_duration) (rw now refl)))
        | inr same ↦ f.starts_late off on (t + b) (rw (same, q) refl)
      ]

  -- What a round with a fault has done.
  abbrev Shut : Answers I2cError → Inner → Bool → Outcomes → Type 0
  Shut a inner output r =
      (r.inner.state ≡ ocp)
      × (output_after output r.actions ≡ false)
      × (r.local.backoff_until ≡ some (a.first + inner.backoff_duration))

  locked_part-Shut :
      (a : Answers I2cError) (l : Local) (inner : Inner) (status : Status) (output : Bool)
      → is_fault status ≡ true
      → Ensures (locked_part time a status l inner) (Shut a inner output)
  unfolding locked_part on_fault
  locked_part-Shut a l inner status output f =
      ground (arith, time.add_lem a.first inner.backoff_duration)

  -- A round in which every access to the bus succeeds, and every time computed fits a u64.
  pub record Succeeds (a : Answers I2cError) (inner : Inner) : Type 0 where
    pub status : Status
    pub mode : Mode
    pub status_ok : a.status_read ≡ ok status
    pub mode_ok : a.mode_read ≡ ok mode
    pub written_ok : a.mode_written ≡ ok tt
    pub pin_ok : a.pin_set ≡ ok tt
    pub backoff_fits : a.first + inner.backoff_duration < 2 ^ 64
    pub stabilization_fits : a.second + time.from_millis 100 < 2 ^ 64
    pub deadline_fits : a.last + time.from_secs watchdog_deadline_secs < 2 ^ 64

  pub locked_part-returns :
      (a : Answers I2cError) (l : Local) (inner : Inner)
      → (k : Succeeds a inner) → Past l.ocp_since a.second
      → Returns (locked_part time a k.status l inner) Always
  unfolding locked_part on_fault on_disabled on_enabled
  locked_part-returns a l inner k past = grind (
    arith,
    time.add-returns a.first inner.backoff_duration,
    time.add-returns a.second (time.from_millis 100),
    time.elapsed_lem a.second,
  )

  round-returns :
      (a : Answers I2cError) (l : Local) (inner : Inner)
      → Succeeds a inner
      → Past l.ocp_since a.second
      → Returns (round time a l inner) Always
  unfolding round
  round-returns a l inner k past =
      Returns-bind (unwrap a.status_read) _ (λ st. st ≡ k.status) _ (rw k.status_ok refl)
        λ st e.
          Returns-bind (locked_part time a st l inner) _ Always _
            (rw e (locked_part-returns a l inner k past))
            λ r _.
              Returns-bind (time.add a.last (time.from_secs watchdog_deadline_secs)) _ Always _
                (time.add-returns a.last (time.from_secs watchdog_deadline_secs) k.deadline_fits)
                λ w _.
                  Returns-bind
                    (unwrap_option (
                      earliest_deadline
                        (some w ∷ r.local.backoff_until ∷ r.local.stabilized_at ∷ [])))
                    _ Always _ (earliest_deadline-returns w _) λ d _. tt

  round-Shut :
      (a : Answers I2cError) (l : Local) (inner : Inner) (output : Bool)
      → (k : Succeeds a inner)
      → Ensures (round time a l inner) (λ (r, _). is_fault k.status ≡ true → Shut a inner output r)
  unfolding round
  round-Shut a l inner output k =
      Ensures-bind (unwrap a.status_read) _ (λ st. a.status_read ≡ ok st) _
        (unwrap-Ensures a.status_read)
        λ st e.
          Ensures-bind (locked_part time a st l inner) _
            (λ r. is_fault k.status ≡ true → Shut a inner output r) _
            (by_fault st (sym e ∙ k.status_ok))
            λ r h. Ensures-after (time.add a.last (time.from_secs watchdog_deadline_secs)) _ _ λ w.
              Ensures-after
                (unwrap_option
                  (earliest_deadline (some w ∷ r.local.backoff_until ∷ r.local.stabilized_at ∷ [])))
                _ _ λ d. h
    where
      by_fault :
          (st : Status)
          → ◌≡◌ {A = Result Status I2cError} (ok st) (ok k.status)
          → Ensures
              (locked_part time a st l inner)
              (λ r. is_fault k.status ≡ true → Shut a inner output r)
      by_fault st e = elim (Bool-cases (is_fault k.status)) [
        | inl f ↦
            let q : st ≡ k.status = cc in
            rw q (
              Ensures-mono (locked_part time a k.status l inner) _ _ (λ r h _. h)
                (locked_part-Shut a l inner k.status output f))
        | inr f ↦
            Ensures-mono (locked_part time a st l inner) Always _ (λ r _ h. cc)
              (Ensures-Always (locked_part time a st l inner))
      ]

  -- From every reachable state a round in which the bus works and the times fit returns, whatever
  -- it reads; and if it reads a fault, then the published state is `Ocp`, the output is off, and it
  -- is held off until the backoff has passed.
  pub round-progress :
      (a : Answers I2cError) {s : Supply}
      → Reach time I2cError s
      → InOrder time a s.clock
      → (k : Succeeds a s.inner)
      → Returns (round time a s.local s.inner) (λ (r, _).
        is_fault k.status ≡ true
        → (r.inner.state ≡ ocp)
          × (output_after s.output r.actions ≡ false)
          × (r.local.backoff_until ≡ some (a.first + s.inner.backoff_duration)))
  round-progress a {s} p t k =
      Returns-Ensures (round time a s.local s.inner) _ Always
        (round-Shut a s.local s.inner s.output k)
        (round-returns a s.local s.inner k (
          Past-later s.local.ocp_since s.clock a.second (Reach-Inv time I2cError p).past
            (omega arith)))
