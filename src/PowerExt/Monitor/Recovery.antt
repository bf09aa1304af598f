-- ===== src/PowerExt/Monitor/Recovery.antt =====
-- The way back from a fault in `monitor_task` (sw/fw/src/systems/power_ext.rs).
use powersupply.Base.{
  ℕ, ◌+◌, ◌-◌, ◌≤◌, ◌<◌, ◌≡◌, refl, ap, ◌∙◌, Bool, true, false, none, some, [], ◌∷◌, arith, Outcome,
  returns, unwrap_option, ◌>>=◌, Returns, Returns-bind, Returns-Ensures, Always, Ensures,
}
use powersupply.Base.Time.{Time}
use powersupply.Watchdog.{watchdog_deadline_secs}
use powersupply.Tps55289.{Status}
use powersupply.PowerExt.{enabled, enabling, ocp, Inner, feed_watchdog}
use powersupply.PowerExt.Deadline.{earliest_deadline, earliest_deadline-returns}
use powersupply.PowerExt.Monitor.{
  Local, Answers, Outcomes, is_fault, locked_part, on_disabled, on_enabled, round,
}
use powersupply.PowerExt.Monitor.Rounds.{output_after, logged, Past, InOrder, until_of}
use powersupply.PowerExt.Monitor.Reach.{Supply, Reach, Reach-Inv}
use powersupply.PowerExt.Monitor.Safety.{Succeeds, locked_part-returns, Past-later}

module _ (time : Time) (I2cError : Type 0) where
  open time use {from_millis, as_secs}

  -- What the locked part leaves, a round leaves.
  round-locked :
      (a : Answers I2cError) (l : Local) (inner : Inner) (k : Succeeds time I2cError a inner)
      (Q : Outcomes → Type 0)
      → Past l.ocp_since a.second
      → Ensures
          (locked_part time a k.status l inner)
          (λ r. Q (record r { actions = feed_watchdog ∷ r.actions }))
      → Returns (round time a l inner) (λ (r, _). Q r)
  unfolding round
  round-locked a l inner k Q past h = rw k.status_ok (
      Returns-bind (locked_part time a k.status l inner) _
        (λ r. Q (record r { actions = feed_watchdog ∷ r.actions })) _
        (Returns-Ensures (locked_part time a k.status l inner) _ Always h
          (locked_part-returns time I2cError a l inner k past))
        λ r q.
          Returns-bind (time.add a.last (time.from_secs watchdog_deadline_secs)) _ Always _
            (time.add-returns a.last (time.from_secs watchdog_deadline_secs) k.deadline_fits)
            λ w _.
              Returns-bind
                (unwrap_option
                  (earliest_deadline (some w ∷ r.local.backoff_until ∷ r.local.stabilized_at ∷ [])))
                _ Always _ (earliest_deadline-returns w _) λ d _. q)

  -- The task's variables while the output stabilizes.
  abbrev running : Answers I2cError → Local → Local
  running a l = record {
    enabled = true;
    backoff_until = none;
    stabilized_at = some (a.second + from_millis 100);
    ocp_since = l.ocp_since;
  }

  -- The output goes on again after an over-current.
  abbrev Restarted : Answers I2cError → Local → Inner → Outcomes → Type 0
  Restarted a l inner r =
      (r.inner ≡ record inner { state = enabling })
      × (r.local ≡ running a l)
      × ((b : Bool) → output_after b r.actions ≡ true)
      × (logged r.actions ≡ [])

  locked_part-Restarted :
      (a : Answers I2cError) (status : Status) (l : Local) (inner : Inner) (u : ℕ)
      → is_fault status ≡ false
      → l.enabled ≡ false
      → l.backoff_until ≡ some u
      → u < a.first
      → Ensures
          (locked_part time a status l inner)
          (λ r. Restarted a l inner (record r { actions = feed_watchdog ∷ r.actions }))
  unfolding locked_part on_disabled
  locked_part-Restarted a status l inner u f e b late =
      ground (arith, time.add_lem a.second (from_millis 100))

  -- The output has stabilized after it.
  abbrev Stabilized : Answers I2cError → ℕ → Outcomes → Type 0
  Stabilized a since r =
      (r.inner.state ≡ enabled)
      × (r.local.ocp_since ≡ none)
      × ((b : Bool) → output_after b r.actions ≡ b)
      × (logged r.actions ≡ as_secs (a.second - since) ∷ [])

  locked_part-Stabilized :
      (a : Answers I2cError) (status : Status) (l : Local) (inner : Inner) (at since : ℕ)
      → is_fault status ≡ false
      → l.enabled ≡ true
      → l.stabilized_at ≡ some at
      → l.ocp_since ≡ some since
      → at < a.first
      → since ≤ a.second
      → Ensures
          (locked_part time a status l inner)
          (λ r. Stabilized a since (record r { actions = feed_watchdog ∷ r.actions }))
  unfolding locked_part on_enabled
  locked_part-Stabilized a status l inner at since f e b o late past =
      ground (arith, time.elapsed_lem a.second since)

  -- Two rounds, one after the other: what each of them leaves.
  abbrev pub two_rounds :
      Answers I2cError → Answers I2cError → Supply → Outcome (Outcomes × Outcomes)
  two_rounds a b s = do
    (r, _) ← round time a s.local s.inner
    (r', _) ← round time b r.local r.inner
    returns (r, r')

  -- The way back, from every reachable state in `Ocp` whose over-current began at `since` and whose
  -- backoff ends at `u`: two rounds on a working bus, the first after `u`, the second after the
  -- stabilization, and neither with a fault. They return; the first turns the output on and
  -- publishes `Enabling`, and logs nothing; the second leaves it on, publishes `Enabled`, logs the
  -- over-current once, with its length, and forgets it.
  pub two_rounds-recover :
      (a b : Answers I2cError) (u since : ℕ) {s : Supply}
      → Reach time I2cError s
      → s.inner.state ≡ ocp
      → until_of s.fault ≡ some u
      → s.local.ocp_since ≡ some since
      → InOrder time a s.clock
      → (k : Succeeds time I2cError a s.inner) → is_fault k.status ≡ false
      → u < a.first
      → InOrder time b a.last
      → (m : Succeeds time I2cError b (record (s.inner) { state = enabling }))
      → is_fault m.status ≡ false
      → a.second + from_millis 100 < b.first
      → Returns (two_rounds a b s) (λ (r, r').
        (r.inner.state ≡ enabling)
        × (output_after s.output r.actions ≡ true)
        × (logged r.actions ≡ [])
        × (r'.inner.state ≡ enabled)
        × (output_after true r'.actions ≡ true)
        × (logged r'.actions ≡ as_secs (b.second - since) ∷ [])
        × (r'.local.ocp_since ≡ none))
  two_rounds-recover a b u since {s} p e q o order k f late order' m g later =
      let i = Reach-Inv time I2cError p in
      let fit = rw e at i.fits in
      let started : since ≤ s.clock = rw o at i.past in
      Returns-bind (round time a s.local s.inner) _ (λ (r, _). Restarted a s.local s.inner r) _
        (round-locked a s.local s.inner k (Restarted a s.local s.inner)
          (Past-later s.local.ocp_since s.clock a.second i.past (omega arith))
          (locked_part-Restarted a k.status s.local s.inner u f fit.0 (i.held fit.0 ∙ q) late))
        λ (r, d) (same, l, on, quiet).
          Returns-bind (round time b r.local r.inner) _ (λ (r', _). Stabilized b since r') _
            (rw (same, l)
              (round-locked b (running a s.local) (record (s.inner) { state = enabling }) m
                (Stabilized b since)
                (Past-later s.local.ocp_since s.clock b.second i.past (omega arith))
                (locked_part-Stabilized b m.status (running a s.local)
                  (record (s.inner) { state = enabling }) (a.second + from_millis 100) since g refl
                  refl o later (omega arith))))
            λ (r', d') (st, gone, kept, log).
              (ap (λ (z : Inner). z.state) same, on s.output, quiet, st, kept true, log, gone)
