-- ===== src/Firmware/Monitored/Parts.antt =====
-- A round of `monitor_task` (sw/fw/src/systems/power_ext.rs) moves each of the systems that it
-- calls as that system moves by itself.
use powersupply.Base.{
  ℕ, ◌≤◌, ◌<◌, ◌≡◌, refl, sym, ap, ◌∙◌, Bool, List, [], ◌∷◌, ◌++◌, arith, Outcome, returns, panics,
  ◌>>=◌, Ensures, Ensures-bind, Option, some,
}
use powersupply.Base.Time.{Time}
use powersupply.Storage.{Slot}
use powersupply.Watchdog.{Inner as Watchdog, feed, run}
use powersupply.Watchdog.Tickets as tickets
use powersupply.Record.{Data, Progress, done, waits}
use powersupply.Record.Interleavings as recording
use powersupply.PowerExt.{State, enabled, enabling}
use powersupply.PowerExt.Monitor.{Answers, Outcomes, round}
use powersupply.PowerExt.Monitor.Rounds.{InOrder, log_on, output_after}
use powersupply.PowerExt.Monitor.Actions.{Tidy, round-Tidy}
use powersupply.PowerExt.Monitor.Reach as supplying
use powersupply.PowerExt.Monitor.Reach.{Supply}
use powersupply.PowerExt.Monitor.Safety.{round-Edge}
use powersupply.Firmware.Monitored.{
  Neighbours, World, Reach, after_round, monitor_round, perform, then, boot, configure, publish,
  sync, issue, fed, monitor,
}
use powersupply.Firmware.Monitored.Calls.{Called, onto, Recorded, perform-Called}

run-one :
    (i : ℕ) (s t : Watchdog) (flags : List Bool)
    → run (i ∷ []) s ≡ returns (flags, t)
    → (f : Bool) × (feed i s ≡ returns (f, t))
unfolding run
run-one i s t flags e = by_answer (feed i s) refl e
  where
    by_answer :
        (o : Outcome (Bool × Watchdog))
        → feed i s ≡ o
        → ◌≡◌ {A = Outcome (List Bool × Watchdog)}
            (o >>= λ (f, s'). returns (f ∷ [], s'))
            (returns (flags, t))
        → (f : Bool) × (feed i s ≡ returns (f, t))
    by_answer panics q h = cc
    by_answer (returns (f, s')) q h = (f, q ∙ ground arith)

module _ (time : Time) (slot : Slot Data) where
  module _ {I2cError : Type 0} (a : Answers I2cError) where
    onto-log_on :
        (s s' : State) (since : Option ℕ) (ds : List ℕ)
        → onto (log_on time a s s' since) ds ≡ log_on time a s s' since ++ ds
    onto-log_on enabling enabled (some since) ds = refl
    onto-log_on _ _ _ ds = refl

  module _ (I2cError : Type 0) where
    -- Each system is in a state that it reaches by itself, and the pin shows the output.
    pub record Parts (w : World time slot) : Type 0 where
      pub supplied : supplying.Reach time I2cError w.supply
      pub recorded : Recorded time slot w.near.recorder w.loaded w.ended
      pub watched : tickets.Reach w.near.watchdog
      pub issued : w.index < w.near.watchdog.count
      pub shown : w.near.pin ≡ w.supply.output

    -- What a round leaves; it does not wait for another system.
    abbrev pub Moved : Answers I2cError → World time slot → Progress (World time slot × ℕ) → Type 0
    Moved a w waits = ⊥
    Moved a w (done (w', deadline)) =
        Parts w'
        × ((f : Bool) × (feed w.index w.near.watchdog ≡ returns (f, w'.near.watchdog)))
        × ((r : Outcomes) × (round time a w.supply.local w.supply.inner ≡ returns (r, deadline))
            × (w'.supply ≡ supplying.rounded time w.supply a r))

    module _ (a : Answers I2cError) (now : ℕ) (w : World time slot) (v : Parts w)
        (order : InOrder time a w.supply.clock) (le : w.near.recorder.clock ≤ now) (r : Outcomes)
        (deadline : ℕ)
        (answer : round time a w.supply.local w.supply.inner ≡ returns (r, deadline)) where
      Called-Moved :
          (p : Progress (Neighbours time slot))
          → Called time slot now w.index w.loaded w.ended r.actions w.near p
          → Ensures
              (then time slot p λ n. returns (done (after_round time slot a w r n, deadline)))
              (Moved a w)
      Called-Moved waits h = absurd h
      Called-Moved (done n) ((((q, l, k), _), (dog, lt)), pin, (flags, e)) =
          let tidy : Tidy (λ index. index ∷ []) r =
            rw answer at (round-Tidy time a w.supply.local w.supply.inner) in
          let logs = (round-Edge time I2cError a v.supplied order answer).1 in
          (
            record {
              supplied = supplying.monitor a v.supplied order answer;
              recorded = (
                q,
                l,
                k
                    ∙ ap (λ z. onto z w.ended) logs
                    ∙ onto-log_on a w.supply.inner.state r.inner.state w.supply.local.ocp_since
                        w.ended,
              );
              watched = dog;
              issued = lt;
              shown = pin ∙ tidy.1 w.near.pin ∙ ap (λ b. output_after b r.actions) v.shown;
            },
            run-one w.index w.near.watchdog n.watchdog flags (rw (← tidy.0 w.index) e),
            (r, answer, refl),
          )

    pub monitor_round-Moved :
        (a : Answers I2cError) (now : ℕ) (w : World time slot)
        → Parts w
        → InOrder time a w.supply.clock
        → w.near.recorder.clock ≤ now
        → Ensures (monitor_round time slot a now w) (Moved a w)
    unfolding monitor_round
    monitor_round-Moved a now w v order le =
        by_answer (round time a w.supply.local w.supply.inner) refl
      where
        by_answer :
            (o : Outcome (Outcomes × ℕ))
            → round time a w.supply.local w.supply.inner ≡ o
            → Ensures
                (o >>= λ (r, deadline). perform time slot now w.index r.actions w.near >>= λ p.
                  then time slot p λ n. returns (done (after_round time slot a w r n, deadline)))
                (Moved a w)
        by_answer panics e = tt
        by_answer (returns (r, deadline)) e =
            Ensures-bind (perform time slot now w.index r.actions w.near) _ _ _
              (perform-Called time slot now w.index w.loaded w.ended r.actions w.near
                ((v.recorded, le), (v.watched, v.issued)))
              (Called-Moved a now w v order le r deadline e)

    pub Reach-Parts : {w : World time slot} → Reach time slot I2cError w → Parts w
    Reach-Parts (boot settings answers st e f r t) = record {
      supplied = supplying.boot settings answers e;
      recorded = (recording.boot st f, refl, refl);
      watched = tickets.issue r t;
      issued = omega (arith, tickets.ticket-count r t);
      shown = sym (rw e at (supplying.init-output time settings answers)).1;
    }
    Reach-Parts (configure settings answers {w} p e) =
        let v = Reach-Parts p in
        record {
          supplied = supplying.configure settings answers v.supplied e;
          recorded = v.recorded;
          watched = v.watched;
          issued = v.issued;
          shown =
              v.shown
              ∙ sym (
                  (rw e at (supplying.persist-output time settings answers w.supply.inner)).1
                    w.supply.output);
        }
    Reach-Parts (publish p) =
        let v = Reach-Parts p in
        let (q, l, k) = v.recorded in
        record {
          supplied = v.supplied;
          recorded = (recording.publish q, l, k);
          watched = v.watched;
          issued = v.issued;
          shown = v.shown;
        }
    Reach-Parts (sync now p le e) =
        let v = Reach-Parts p in
        let (q, l, k) = v.recorded in
        record {
          supplied = v.supplied;
          recorded = (recording.sync now q le e, l, k);
          watched = v.watched;
          issued = v.issued;
          shown = v.shown;
        }
    Reach-Parts (issue p e) =
        let v = Reach-Parts p in
        record {
          supplied = v.supplied;
          recorded = v.recorded;
          watched = tickets.issue v.watched e;
          issued = omega (arith, v.issued, tickets.ticket-count v.watched e);
          shown = v.shown;
        }
    Reach-Parts (fed {i} p lt e) =
        let v = Reach-Parts p in
        record {
          supplied = v.supplied;
          recorded = v.recorded;
          watched = tickets.fed v.watched lt e;
          issued = omega (arith, v.issued, rw e at (tickets.feed-count i v.watched lt));
          shown = v.shown;
        }
    Reach-Parts (monitor a {w} {now} p order le e) =
        (rw e at (monitor_round-Moved a now w (Reach-Parts p) order le)).0
