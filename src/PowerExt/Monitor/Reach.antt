-- ===== src/PowerExt/Monitor/Reach.antt =====
-- The states that sw/fw/src/systems/power_ext.rs reaches: rounds of `monitor_task`, with changes of
-- the settings between them, under a clock that never runs backwards.
use mathlib.Core.Path.{subst}
use powersupply.Base.{
  ℕ, ◌+◌, ◌≡◌, refl, Bool, false, Option, none, some, List, [], ◌∷◌, arith, ok, err, returns,
  unwrap, unwrap_option, Ensures, Ensures-bind, unwrap-Ensures, Ensures-after,
}
use powersupply.Base.Time.{Time}
use powersupply.Config.Fields.{Settings}
use powersupply.Watchdog.{watchdog_deadline_secs}
use powersupply.Tps55289.{Status, from_feedback}
use powersupply.PowerExt.{
  disabled, Inner, Action, PersistAnswers, InitAnswers, persist, init, feed_watchdog, feedback,
}
use powersupply.PowerExt.Deadline.{earliest_deadline, earliest_deadline-NoneBefore, NoneBefore}
use powersupply.PowerExt.Monitor.{Local, initial, Answers, Outcomes, locked_part, round}
use powersupply.PowerExt.Monitor.Rounds.{
  output_after, logged, Inv, Fine, InOrder, fault_after, locked_part-Fine,
}

-- The system between two rounds: what `Inner` holds, the task's variables, whether the output is
-- on, the last fault, and what the clock read last.
pub record Supply : Type 0 where
  pub inner : Inner
  pub local : Local
  pub output : Bool
  pub fault : Option (ℕ × ℕ)
  pub clock : ℕ

-- After `PowerExt::init`, before the first round.
abbrev pub booted : Inner → List Action → Supply
booted inner actions = record {
  inner = inner;
  local = initial;
  output = output_after false actions;
  fault = none;
  clock = 0;
}

abbrev pub settled : Supply → Inner → List Action → Supply
settled s inner actions = record s { inner = inner; output = output_after s.output actions }

abbrev pub InvOf : Supply → Type 0
InvOf s = Inv s.fault s.inner.state s.local s.output s.clock

Inv-booted :
    (inner : Inner) (actions : List Action)
    → inner.state ≡ disabled
    → output_after false actions ≡ false
    → InvOf (booted inner actions)
Inv-booted inner actions e o = record {
  fits = rw e (refl, refl, refl, refl);
  shown = o;
  held = λ _. refl;
  past = tt;
}

Inv-settled :
    (s : Supply) (inner : Inner) (actions : List Action)
    → InvOf s
    → inner.state ≡ s.inner.state
    → output_after s.output actions ≡ s.output
    → InvOf (settled s inner actions)
Inv-settled s inner actions i e o = record {
  fits = rw e i.fits;
  shown = rw o i.shown;
  held = i.held;
  past = i.past;
}

module _ (time : Time) {I2cError : Type 0} where
  open time use {add, add_lem, from_secs}

  -- The last fault after a round: when it was seen, and the backoff then.
  abbrev pub fault_after_round : Answers I2cError → ℕ → Option (ℕ × ℕ) → Option (ℕ × ℕ)
  fault_after_round a backoff fault = elim a.status_read [
    | ok status ↦ fault_after time a status backoff fault
    | err _ ↦ fault
  ]

  -- The wait after a round is no longer than the watchdog allows, nor than what is pending.
  abbrev pub Wakes : Answers I2cError → Outcomes → ℕ → Type 0
  Wakes a r d = NoneBefore d (
      some (a.last + from_secs watchdog_deadline_secs)
      ∷ r.local.backoff_until
      ∷ r.local.stabilized_at
      ∷ [])

  fault-eq :
      (a : Answers I2cError) (st : Status) (backoff : ℕ) (fault : Option (ℕ × ℕ))
      → a.status_read ≡ ok st
      → fault_after time a st backoff fault ≡ fault_after_round a backoff fault
  fault-eq a st backoff fault e = ground arith

  pub round_lem :
      (a : Answers I2cError) (fault : Option (ℕ × ℕ)) (l : Local) (inner : Inner) (output : Bool)
      (clock : ℕ)
      → Inv fault inner.state l output clock
      → InOrder time a clock
      → Ensures (round time a l inner) (λ (r, d).
        Fine time a (fault_after_round a inner.backoff_duration fault) inner.state l output r
        × Wakes a r d)
  unfolding round
  round_lem a fault l inner output clock i t =
      Ensures-bind (unwrap a.status_read) _ (λ st. a.status_read ≡ ok st) _
        (unwrap-Ensures a.status_read)
        λ st e.
          Ensures-bind (locked_part time a st l inner) _ _ _
            (locked_part-Fine time a st fault inner.state l inner.backoff_duration output clock i t)
            λ r f.
              Ensures-bind (add a.last (from_secs watchdog_deadline_secs)) _ _ _
                (add_lem a.last (from_secs watchdog_deadline_secs))
                λ w q.
                  Ensures-bind
                    (unwrap_option (
                      earliest_deadline
                        (some w ∷ r.local.backoff_until ∷ r.local.stabilized_at ∷ [])))
                    _ _ _ (earliest_deadline-NoneBefore _)
                    λ d nb. (
                      subst
                          (λ z.
                            Fine time a z inner.state l output
                              (record r { actions = feed_watchdog ∷ r.actions }))
                          (fault-eq a st inner.backoff_duration fault e)
                          (record {
                            inv = f.inv;
                            edge = f.edge;
                            logs = f.logs;
                            starts_late = f.starts_late;
                          }),
                      rw (← q) nb,
                    )

  pub persist-output :
      (settings : Settings) (p : PersistAnswers time I2cError) (inner : Inner)
      → Ensures (persist time I2cError settings p inner) (λ (inner', actions).
        (inner'.state ≡ inner.state)
        × ((b : Bool) → output_after b actions ≡ b)
        × (logged actions ≡ []))
  unfolding persist
  persist-output settings p inner = Ensures-after (from_feedback settings.vout_mv feedback) _ _ λ v.
      Ensures-after (unwrap p.vref_written) _ _ λ _.
        Ensures-after (unwrap p.iout_limit_read) _ _
          λ limit. Ensures-after (unwrap p.iout_limit_written) _ _ λ _. (refl, (λ b. refl), refl)

  abbrev pub rounded : Supply → Answers I2cError → Outcomes → Supply
  rounded s a r = record {
    inner = r.inner;
    local = r.local;
    output = output_after s.output r.actions;
    fault = fault_after_round a s.inner.backoff_duration s.fault;
    clock = a.last;
  }

  pub init-output :
      (settings : Settings) (answers : InitAnswers time I2cError)
      → Ensures
          (init time I2cError settings answers)
          (λ (inner, actions). (inner.state ≡ disabled) × (output_after false actions ≡ false))
  unfolding init
  init-output settings answers = Ensures-after (unwrap answers.mode_read) _ _ λ mode.
      Ensures-after (unwrap answers.mode_written) _ _ λ _.
        Ensures-after (unwrap answers.vout_fs_read) _ _ λ vout_fs.
          Ensures-after (unwrap answers.vout_fs_written) _ _ λ _.
            Ensures-bind
              (persist time I2cError settings answers.persisted
                (record { backoff_duration = 0; state = disabled }))
              _ _ _
              (persist-output settings answers.persisted
                (record { backoff_duration = 0; state = disabled }))
              λ (inner, actions) h. (h.0, h.1 false)

module _ (time : Time) (I2cError : Type 0) where
  pub data Reach : Supply → Type 0 where
    boot :
        (settings : Settings) (answers : InitAnswers time I2cError) {inner : Inner}
        {actions : List Action}
        → init time I2cError settings answers ≡ returns (inner, actions)
        → Reach (booted inner actions)
    configure :
        (settings : Settings) (answers : PersistAnswers time I2cError) {s : Supply} {inner : Inner}
        {actions : List Action}
        → Reach s
        → persist time I2cError settings answers s.inner ≡ returns (inner, actions)
        → Reach (settled s inner actions)
    monitor :
        (a : Answers I2cError) {s : Supply} {r : Outcomes} {d : ℕ}
        → Reach s
        → InOrder time a s.clock
        → round time a s.local s.inner ≡ returns (r, d)
        → Reach (rounded time s a r)

  pub Reach-Inv : {s : Supply} → Reach s → InvOf s
  Reach-Inv (boot settings answers {inner} {actions} e) =
      let h = rw e at (init-output time settings answers) in Inv-booted inner actions h.0 h.1
  Reach-Inv (configure settings answers {s} {inner} {actions} p e) =
      let h = rw e at (persist-output time settings answers s.inner) in
      Inv-settled s inner actions (Reach-Inv p) h.0 (h.1 s.output)
  Reach-Inv (monitor a {s} p t e) =
      (rw e at (round_lem time a s.fault s.local s.inner s.output s.clock (Reach-Inv p) t)).0.inv
