-- ===== src/Firmware/Monitored/Safety.antt =====
-- What the supply promises together with the systems that it calls
-- (sw/fw/src/systems/power_ext.rs, record.rs, watchdog.rs and usb_pd.rs).
use powersupply.Base.{
  some, ℕ, ◌+◌, ◌%◌, ◌^◌, ◌≤◌, ◌<◌, ◌≡◌, refl, ap, ◌∙◌, Bool, true, false, length, returns, Returns,
  Returns-bind, Returns-mono, Returns-Ensures, Always,
}
use powersupply.Base.Time.{Time}
use powersupply.Storage.{Slot}
use powersupply.Watchdog.{feed, watchdog_deadline_secs}
use powersupply.Record.{Data, Progress, done, waits, sync_period}
use powersupply.Record.Counting.{total, Reach-Counts}
use powersupply.PowerExt.{ocp}
use powersupply.PowerExt.Monitor.{Answers, Outcomes, round, is_fault}
use powersupply.PowerExt.Monitor.Rounds.{InOrder}
use powersupply.PowerExt.Monitor.Reach.{Supply}
use powersupply.PowerExt.Monitor.Safety.{Succeeds, round-progress, round-Wakes}
use powersupply.Firmware.Monitored.{
  Neighbours, World, Reach, after_round, monitor_round, perform, then,
}
use powersupply.Firmware.Monitored.Parts.{Moved, monitor_round-Moved, Reach-Parts}
use powersupply.Firmware.Monitored.Calls.{Called}
use powersupply.Firmware.Monitored.Completion.{perform-progress}

module _ (time : Time) (slot : Slot Data) (I2cError : Type 0) where
  monitor_round-returns :
      (a : Answers I2cError) (now : ℕ) (w : World time slot)
      → Reach time slot I2cError w
      → InOrder time a w.supply.clock
      → w.near.recorder.clock ≤ now
      → Succeeds time I2cError a w.supply.inner
      → now + sync_period time slot < 2 ^ 64
      → Returns (monitor_round time slot a now w) Always
  unfolding monitor_round
  monitor_round-returns a now w p order le k fits =
      let v = Reach-Parts time slot I2cError p in
      Returns-bind (round time a w.supply.local w.supply.inner) _ _ _
        (round-progress time I2cError a v.supplied order k)
        λ (r, deadline) _.
          Returns-bind (perform time slot now w.index r.actions w.near) _ _ _
            (perform-progress time slot now w.index w.loaded fits w.ended r.actions w.near
              ((v.recorded, le), (v.watched, v.issued)))
            (went r deadline)
    where
      went :
          (r : Outcomes) (deadline : ℕ) (m : Progress (Neighbours time slot))
          → Called time slot now w.index w.loaded w.ended r.actions w.near m
          → Returns
              (then time slot {B = World time slot × ℕ} m
                λ n. returns (done (after_round time slot a w r n, deadline)))
              Always
      went r deadline waits h = absurd h
      went r deadline (done n) h = tt

  -- What a round that reads a fault leaves.
  abbrev pub Shut : Answers I2cError → World time slot → World time slot → Type 0
  Shut a w w' =
      (w'.supply.inner.state ≡ ocp)
      × (w'.supply.output ≡ false)
      × (w'.near.pin ≡ false)
      × (w'.supply.local.backoff_until ≡ some (a.first + w.supply.inner.backoff_duration))

  -- From every state that the supply reaches with the systems that it calls, a round of the
  -- monitor in which the bus works and the times fit returns, and waits for none of them: it feeds
  -- the task's ticket, which does not panic; it leaves the pin of the USB-PD controller at the
  -- level of the output; the task is to wake again within 29 seconds; and if a fault was read, the
  -- published state is `Ocp`, the output and the pin are off, and the output is held off until the
  -- backoff has passed.
  pub monitor_round-progress :
      (a : Answers I2cError) (now : ℕ) {w : World time slot}
      → Reach time slot I2cError w
      → InOrder time a w.supply.clock
      → w.near.recorder.clock ≤ now
      → (k : Succeeds time I2cError a w.supply.inner) → now + sync_period time slot < 2 ^ 64
      → Returns (monitor_round time slot a now w) (λ p.
        (w' : World time slot) × (deadline : ℕ) × (p ≡ done (w', deadline))
        × ((f : Bool) × (feed w.index w.near.watchdog ≡ returns (f, w'.near.watchdog)))
        × (w'.near.pin ≡ w'.supply.output)
        × (deadline ≤ a.last + time.from_secs watchdog_deadline_secs)
        × (is_fault k.status ≡ true → Shut a w w'))
  monitor_round-progress a now {w} p order le k fits =
      let v = Reach-Parts time slot I2cError p in
      Returns-mono (monitor_round time slot a now w) (Moved time slot I2cError a w) _ moved (
        Returns-Ensures (monitor_round time slot a now w) _ Always
          (monitor_round-Moved time slot I2cError a now w v order le)
          (monitor_round-returns a now w p order le k fits))
    where
      moved :
          (m : Progress (World time slot × ℕ))
          → Moved time slot I2cError a w m
          → (w' : World time slot) × (deadline : ℕ) × (m ≡ done (w', deadline))
            × ((f : Bool) × (feed w.index w.near.watchdog ≡ returns (f, w'.near.watchdog)))
            × (w'.near.pin ≡ w'.supply.output)
            × (deadline ≤ a.last + time.from_secs watchdog_deadline_secs)
            × (is_fault k.status ≡ true → Shut a w w')
      moved waits h = absurd h
      moved (done (w', deadline)) (v', f, (r, e, q)) =
          let v = Reach-Parts time slot I2cError p in
          let shut = rw e at (round-progress time I2cError a v.supplied order k) in
          (
            w',
            deadline,
            refl,
            f,
            v'.shown,
            (round-Wakes time I2cError a v.supplied order e).0,
            λ b.
                let off = ap (λ (z : Supply). z.output) q ∙ (shut b).1 in
                (
                  ap (λ (z : Supply). z.inner.state) q ∙ (shut b).0,
                  off,
                  v'.shown ∙ off,
                  ap (λ (z : Supply). z.local.backoff_until) q ∙ (shut b).2,
                ),
          )

  -- In every such state the counters are those loaded at boot (each a u64) plus one, and the
  -- seconds, for every over-current that has ended, by the output stabilizing after it, in a
  -- round of the monitor since; modulo 2 ^ 64.
  pub Reach-ended :
      {w : World time slot}
      → Reach time slot I2cError w
      → w.loaded.overcurrent_count < 2 ^ 64
      → w.loaded.overcurrent_secs < 2 ^ 64
      → (w.near.recorder.rec.counters.overcurrent_count
          ≡ (w.loaded.overcurrent_count + length w.ended) % 2 ^ 64)
        × (w.near.recorder.rec.counters.overcurrent_secs
            ≡ (w.loaded.overcurrent_secs + total w.ended) % 2 ^ 64)
  Reach-ended p a b =
      let (q, l, k) = (Reach-Parts time slot I2cError p).recorded in
      rw (← l, ← k) (Reach-Counts time slot q (rw l a) (rw l b))
