-- ===== src/Firmware/Monitored/Completion.antt =====
-- The calls in a round of `monitor_task` (sw/fw/src/systems/power_ext.rs) go through.
use powersupply.Base.{
  ℕ, ◌+◌, ◌^◌, ◌<◌, ◌≡◌, refl, ap, Bool, List, [], ◌∷◌, arith, Outcome, returns, panics, ◌>>=◌,
  Returns, Returns-Ensures, Always,
}
use powersupply.Base.Time.{Time}
use powersupply.Storage.{Slot}
use powersupply.Watchdog.{Inner as Watchdog, feed}
use powersupply.Watchdog.Tickets as tickets
use powersupply.Record.{Data, Progress, done, waits, Record, sync_period, log_overcurrent}
use powersupply.Record.Safety.{log_overcurrent-progress}
use powersupply.Record.Interleavings.{log}
use powersupply.Record.Protocol.{logged}
use powersupply.PowerExt.{Action, feed_watchdog, set_pin}
use powersupply.PowerExt as actions
use powersupply.Firmware.Monitored.{Neighbours, act, perform, then}
use powersupply.Firmware.Monitored.Calls.{Sound, Called, perform-Called}

module _ (time : Time) (slot : Slot Data) (now index : ℕ) (d : Data)
    (fits : now + sync_period time slot < 2 ^ 64) where
  abbrev GoesThrough : List Action → Type 0
  GoesThrough xs =
      (ds : List ℕ) (n : Neighbours time slot)
      → Sound time slot now index d ds n
      → Returns (perform time slot now index xs n) Always

  feed-returns : (xs : List Action) → GoesThrough xs → GoesThrough (feed_watchdog ∷ xs)
  unfolding perform act
  feed-returns xs more ds n (rec, (r, lt)) =
      by_answer (feed index n.watchdog) refl (tickets.feed-count index r lt)
    where
      by_answer :
          (o : Outcome (Bool × Watchdog))
          → feed index n.watchdog ≡ o
          → Returns o (λ (_, t). t.count ≡ n.watchdog.count)
          → Returns
              ((o >>= λ (_, s). returns (done (record n { watchdog = s }))) >>= λ p.
                then time slot p (perform time slot now index xs))
              Always
      by_answer panics e h = absurd h
      by_answer (returns (fed, s)) e h =
          more ds (record n { watchdog = s }) (rec, (tickets.fed r lt e, rw h lt))

  log-returns :
      (secs : ℕ) (xs : List Action)
      → GoesThrough xs
      → GoesThrough (actions.log_overcurrent secs ∷ xs)
  unfolding perform act
  log-returns secs xs more ds n (((q, l, k), le), dog) =
      by_answer (log_overcurrent time slot now secs n.recorder.rec) refl
        (log_overcurrent-progress time slot now secs q fits)
    where
      logs : Record time slot → Neighbours time slot
      logs r = record n { recorder = record n.recorder { rec = r; clock = now } }

      by_answer :
          (o : Outcome (Progress (Record time slot)))
          → log_overcurrent time slot now secs n.recorder.rec ≡ o
          → Returns o (λ p.
            (t : Record time slot) × (p ≡ done t)
            × (t.counters ≡ logged time slot secs n.recorder.rec.counters))
          → Returns
              ((o >>= λ p. then time slot p λ r. returns (done (logs r))) >>= λ p.
                then time slot p (perform time slot now index xs))
              Always
      by_answer panics e h = absurd h
      by_answer (returns waits) e (t, q', _) = cc
      by_answer (returns (done r)) e h =
          more (secs ∷ ds) (logs r)
            (((log now secs q le e, l, ap (λ z. secs ∷ z) k), omega arith), dog)

  perform-returns : (xs : List Action) → GoesThrough xs
  unfolding perform act
  perform-returns [] ds n h = tt
  perform-returns (feed_watchdog ∷ xs) ds n h = feed-returns xs (perform-returns xs) ds n h
  perform-returns (actions.log_overcurrent secs ∷ xs) ds n h =
      log-returns secs xs (perform-returns xs) ds n h
  perform-returns (set_pin level ∷ xs) ds n h = perform-returns xs ds (record n { pin = level }) h
  perform-returns (_ ∷ xs) ds n h = perform-returns xs ds n h

  -- No call of a round panics or waits, while the clock and the period of the writes fit a u64.
  pub perform-progress :
      (ds : List ℕ) (xs : List Action) (n : Neighbours time slot)
      → Sound time slot now index d ds n
      → Returns (perform time slot now index xs n) (Called time slot now index d ds xs n)
  perform-progress ds xs n h =
      Returns-Ensures (perform time slot now index xs n) _ Always
        (perform-Called time slot now index d ds xs n h) (perform-returns xs ds n h)
