-- ===== src/Firmware/Monitored/Calls.antt =====
-- What the calls in a round of `monitor_task` (sw/fw/src/systems/power_ext.rs) do to the other
-- systems.
use powersupply.Base.{
  ℕ, ◌≤◌, ◌<◌, ◌≡◌, refl, ap, Bool, List, [], ◌∷◌, arith, Outcome, returns, ◌>>=◌, Ensures,
  Ensures-mono, panics, Returns,
}
use powersupply.Base.Time.{Time}
use powersupply.Storage.{Slot}
use powersupply.Watchdog.{Inner as Watchdog, feed, run}
use powersupply.Watchdog.Tickets as tickets
use powersupply.Record.{Data, Progress, done, waits, Record, log_overcurrent}
use powersupply.Record.Protocol.{log_overcurrent_lem}
use powersupply.Record.Protocol as protocol
use powersupply.Record.Counting.{loaded, durations}
use powersupply.Record.Interleavings.{System, Reach, log, Reach-Inv}
use powersupply.PowerExt.{Action, feed_watchdog, set_pin}
use powersupply.PowerExt as actions
use powersupply.PowerExt.Monitor.Rounds.{logged}
use powersupply.PowerExt.Monitor.Actions.{pin_after, feeds_of}
use powersupply.Firmware.Monitored.{Neighbours, act, perform, then}

abbrev pub onto : List ℕ → List ℕ → List ℕ
onto [] ds = ds
onto (x ∷ xs) ds = onto xs (x ∷ ds)

module _ (time : Time) (slot : Slot Data) where
  -- A reachable state of the counters, with what was loaded at boot and logged since.
  abbrev pub Recorded : System time slot → Data → List ℕ → Type 0
  Recorded s d ds =
      (q : Reach time slot s) × (loaded time slot q ≡ d) × (durations time slot q ≡ ds)

  -- Both systems are in states that they reach, and the ticket is issued.
  abbrev pub Sound : ℕ → ℕ → Data → List ℕ → Neighbours time slot → Type 0
  Sound now index d ds n =
      (Recorded n.recorder d ds × (n.recorder.clock ≤ now))
      × (tickets.Reach n.watchdog × (index < n.watchdog.count))

  abbrev pub Called :
      ℕ
      → ℕ
      → Data
      → List ℕ
      → List Action
      → Neighbours time slot
      → Progress (Neighbours time slot)
      → Type 0
  Called now index d ds xs n waits = ⊥
  Called now index d ds xs n (done n') =
      Sound now index d (onto (logged xs) ds) n'
      × (n'.pin ≡ pin_after n.pin xs)
      × ((flags : List Bool) × (run (feeds_of index xs) n.watchdog ≡ returns (flags, n'.watchdog)))

  -- The rest of the actions, once the neighbours are these.
  abbrev GoesOn : ℕ → ℕ → Data → List Action → Type 0
  GoesOn now index d xs =
      (ds : List ℕ) (n : Neighbours time slot)
      → Sound now index d ds n
      → Ensures (perform time slot now index xs n) (Called now index d ds xs n)

  Called-feed :
      (now index : ℕ) (d : Data) (ds : List ℕ) (xs : List Action) (n : Neighbours time slot)
      (fed : Bool) (s : Watchdog) (p : Progress (Neighbours time slot))
      → feed index n.watchdog ≡ returns (fed, s)
      → Called now index d ds xs (record n { watchdog = s }) p
      → Called now index d ds (feed_watchdog ∷ xs) n p
  unfolding run
  Called-feed now index d ds xs n fed s waits e h = h
  Called-feed now index d ds xs n fed s (done n') e (sound, pin, (flags, q)) =
      (sound, pin, (fed ∷ flags, rw (e, q) refl))

  perform-feed :
      (now index : ℕ) (d : Data) (ds : List ℕ) (xs : List Action) (n : Neighbours time slot)
      → GoesOn now index d xs
      → Sound now index d ds n
      → Ensures
          (perform time slot now index (feed_watchdog ∷ xs) n)
          (Called now index d ds (feed_watchdog ∷ xs) n)
  unfolding perform act
  perform-feed now index d ds xs n more (rec, (r, lt)) =
      by_answer (feed index n.watchdog) refl (tickets.feed-count index r lt)
    where
      by_answer :
          (o : Outcome (Bool × Watchdog))
          → feed index n.watchdog ≡ o
          → Returns o (λ (_, t). t.count ≡ n.watchdog.count)
          → Ensures
              ((o >>= λ (_, s). returns (done (record n { watchdog = s }))) >>= λ p.
                then time slot p (perform time slot now index xs))
              (Called now index d ds (feed_watchdog ∷ xs) n)
      by_answer panics e h = tt
      by_answer (returns (fed, s)) e h =
          Ensures-mono (perform time slot now index xs (record n { watchdog = s })) _ _
            (λ p c. Called-feed now index d ds xs n fed s p e c)
            (more ds (record n { watchdog = s }) (rec, (tickets.fed r lt e, rw h lt)))

  perform-log :
      (now index : ℕ) (d : Data) (ds : List ℕ) (secs : ℕ) (xs : List Action)
      (n : Neighbours time slot)
      → GoesOn now index d xs
      → Sound now index d ds n
      → Ensures
          (perform time slot now index (actions.log_overcurrent secs ∷ xs) n)
          (Called now index d ds (actions.log_overcurrent secs ∷ xs) n)
  unfolding perform act
  perform-log now index d ds secs xs n more (((q, l, k), le), dog) =
      by_answer (log_overcurrent time slot now secs n.recorder.rec) refl (
        log_overcurrent_lem time slot now secs n.recorder.pc n.recorder.rec
          (Reach-Inv time slot q).phase)
    where
      logs : Record time slot → Neighbours time slot
      logs r = record n { recorder = record n.recorder { rec = r; clock = now } }

      by_answer :
          (o : Outcome (Progress (Record time slot)))
          → log_overcurrent time slot now secs n.recorder.rec ≡ o
          → Ensures o (protocol.Logged time slot now secs n.recorder.pc n.recorder.rec)
          → Ensures
              ((o >>= λ p. then time slot p λ r. returns (done (logs r))) >>= λ p.
                then time slot p (perform time slot now index xs))
              (Called now index d ds (actions.log_overcurrent secs ∷ xs) n)
      by_answer panics e h = tt
      by_answer (returns waits) e h = absurd h
      by_answer (returns (done r)) e h =
          more (secs ∷ ds) (logs r)
            (((log now secs q le e, l, ap (λ z. secs ∷ z) k), omega arith), dog)

  -- The calls go through, if they return.
  pub perform-Called :
      (now index : ℕ) (d : Data) (ds : List ℕ) (xs : List Action) (n : Neighbours time slot)
      → Sound now index d ds n
      → Ensures (perform time slot now index xs n) (Called now index d ds xs n)
  unfolding perform act run
  perform-Called now index d ds [] n h = (h, refl, ([], refl))
  perform-Called now index d ds (feed_watchdog ∷ xs) n h =
      perform-feed now index d ds xs n (λ ds' n'. perform-Called now index d ds' xs n') h
  perform-Called now index d ds (actions.log_overcurrent secs ∷ xs) n h =
      perform-log now index d ds secs xs n (λ ds' n'. perform-Called now index d ds' xs n') h
  perform-Called now index d ds (set_pin level ∷ xs) n h =
      perform-Called now index d ds xs (record n { pin = level }) h
  perform-Called now index d ds (_ ∷ xs) n h = perform-Called now index d ds xs n h
