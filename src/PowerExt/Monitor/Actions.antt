-- ===== src/PowerExt/Monitor/Actions.antt =====
-- What a round of `monitor_task` (sw/fw/src/systems/power_ext.rs) calls of the other systems.
use powersupply.Base.{
  ℕ, ◌≡◌, refl, Bool, some, List, [], ◌∷◌, arith, unwrap, unwrap_option, Ensures, Ensures-bind,
  Ensures-after,
}
use powersupply.Base.Time.{Time}
use powersupply.Tps55289.{Status}
use powersupply.Watchdog.{watchdog_deadline_secs}
use powersupply.PowerExt.{Inner, Action, feed_watchdog, set_pin}
use powersupply.PowerExt.Deadline.{earliest_deadline}
use powersupply.PowerExt.Monitor.{
  Local, Answers, Outcomes, locked_part, on_fault, on_disabled, on_enabled, round,
}
use powersupply.PowerExt.Monitor.Rounds.{output_after}

-- The level that `set_pin` is called with last.
abbrev pub pin_after : Bool → List Action → Bool
pin_after b [] = b
pin_after b (set_pin level ∷ xs) = pin_after level xs
pin_after b (_ ∷ xs) = pin_after b xs

-- The feeds by the holder of this ticket.
abbrev pub feeds_of : ℕ → List Action → List ℕ
feeds_of index [] = []
feeds_of index (feed_watchdog ∷ xs) = index ∷ feeds_of index xs
feeds_of index (_ ∷ xs) = feeds_of index xs

-- So many feeds, and the pin goes with the output.
abbrev pub Tidy : (ℕ → List ℕ) → Outcomes → Type 0
Tidy feeds r =
    ((index : ℕ) → feeds_of index r.actions ≡ feeds index)
    × ((b : Bool) → pin_after b r.actions ≡ output_after b r.actions)

module _ (time : Time) {I2cError : Type 0} (a : Answers I2cError) where
  locked_part-Tidy :
      (status : Status) (l : Local) (inner : Inner)
      → Ensures (locked_part time a status l inner) (Tidy (λ _. []))
  unfolding locked_part on_fault on_disabled on_enabled
  locked_part-Tidy status l inner = ground arith

  -- A round feeds the task's ticket once, and sets the pin just where it switches the output.
  pub round-Tidy :
      (l : Local) (inner : Inner)
      → Ensures (round time a l inner) (λ (r, _). Tidy (λ index. index ∷ []) r)
  unfolding round
  round-Tidy l inner = Ensures-after (unwrap a.status_read) _ _ λ status.
      Ensures-bind (locked_part time a status l inner) _ (Tidy (λ _. [])) _
        (locked_part-Tidy status l inner)
        λ r (feeds, pin).
          Ensures-after (time.add a.last (time.from_secs watchdog_deadline_secs)) _ _ λ w.
            Ensures-after
              (unwrap_option
                (earliest_deadline (some w ∷ r.local.backoff_until ∷ r.local.stabilized_at ∷ [])))
              _ _ λ d. ((λ index. rw (feeds index) refl), (λ b. pin b))
