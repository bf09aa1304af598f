-- ===== src/PowerExt/Monitor/Rounds.antt =====
-- What one round of `monitor_task` (sw/fw/src/systems/power_ext.rs) does to the state that it
-- publishes, to its local variables and to the output.
use powersupply.Base.{
  ℕ, ◌+◌, ◌-◌, ◌≤◌, ◌<◌, ◌≡◌, Bool, true, false, Option, none, some, List, [], ◌∷◌, arith,
  if◌then◌else◌, Bool-cases, inl, inr, Ensures,
}
use powersupply.Base.Time.{Time}
use powersupply.Tps55289.{Status}
use powersupply.PowerExt.{
  State, disabled, enabled, enabling, ocp, Action, write_mode, log_overcurrent,
}
use powersupply.PowerExt.Monitor.{
  Local, is_fault, Answers, Outcomes, on_fault, on_disabled, on_enabled, locked_part,
}

-- Whether the converter's output is on: the bit `oe` of the mode written last.
abbrev pub output_after : Bool → List Action → Bool
output_after b [] = b
output_after b (write_mode m ∷ as') = output_after m.oe as'
output_after b (_ ∷ as') = output_after b as'

-- What the published state says of the task's local variables.
abbrev pub Fits : State → Local → Type 0
Fits disabled l =
    (l.enabled ≡ false) × (l.backoff_until ≡ none) × (l.stabilized_at ≡ none) × (l.ocp_since ≡ none)
Fits ocp l =
    (l.enabled ≡ false)
    × ((u : ℕ) × (l.backoff_until ≡ some u))
    × (l.stabilized_at ≡ none)
    × ((u : ℕ) × (l.ocp_since ≡ some u))
Fits enabling l =
    (l.enabled ≡ true) × (l.backoff_until ≡ none) × ((u : ℕ) × (l.stabilized_at ≡ some u))
Fits enabled l =
    (l.enabled ≡ true) × (l.backoff_until ≡ none) × (l.stabilized_at ≡ none) × (l.ocp_since ≡ none)

-- The durations that a list of actions logs.
abbrev pub logged : List Action → List ℕ
logged [] = []
logged (log_overcurrent n ∷ as') = n ∷ logged as'
logged (_ ∷ as') = logged as'

-- The changes of the published state, and the rounds that keep it.
pub data Edge : State → State → Type 0 where
  fault_seen : {s : State} → Edge s ocp
  first_start : Edge disabled enabling
  hold : Edge ocp ocp
  restart : Edge ocp enabling
  settling : Edge enabling enabling
  stable : Edge enabling enabled
  steady : Edge enabled enabled

ruleset edges = (fault_seen, first_start, hold, restart, settling, stable, steady)

-- Nothing is remembered from the future.
abbrev pub Past : Option ℕ → ℕ → Type 0
Past none now = Unit
Past (some t) now = t ≤ now

-- When a fault, with the backoff of its time, lets the output go on again.
abbrev pub until_of : Option (ℕ × ℕ) → Option ℕ
until_of none = none
until_of (some (t, d)) = some (t + d)

-- `fault` is the last round with a fault: when it was, and the backoff then.
pub record Inv (fault : Option (ℕ × ℕ)) (s : State) (l : Local) (output : Bool) (clock : ℕ)
    : Type 0 where
  pub fits : Fits s l
  pub shown : output ≡ l.enabled
  pub held : l.enabled ≡ false → l.backoff_until ≡ until_of fault
  pub past : Past l.ocp_since clock

module _ (time : Time) {I2cError : Type 0} (a : Answers I2cError) where
  open time use {add, add_lem, from_millis, elapsed, elapsed_lem}

  -- The readings of the clock in the round, after what it read before.
  abbrev pub InOrder : ℕ → Type 0
  InOrder clock = (clock ≤ a.first) × (a.first ≤ a.second) × (a.second ≤ a.last)

  -- The over-current is logged when the output has stabilized after it.
  abbrev pub log_on : State → State → Option ℕ → List ℕ
  log_on enabling enabled (some since) = time.as_secs (a.second - since) ∷ []
  log_on _ _ _ = []

  -- What a round may do, from a state to a state.
  pub record Fine (fault : Option (ℕ × ℕ)) (s : State) (l : Local) (output : Bool) (r : Outcomes)
      : Type 0 where
    pub inv : Inv fault r.inner.state r.local (output_after output r.actions) a.last
    pub edge : Edge s r.inner.state
    pub logs : logged r.actions ≡ log_on s r.inner.state l.ocp_since
    pub starts_late :
        output ≡ false
        → output_after output r.actions ≡ true
        → (u : ℕ) → until_of fault ≡ some u
        → u < a.first

  on_fault-Fine :
      (fault : Option (ℕ × ℕ)) (s : State) (l : Local) (backoff : ℕ) (output : Bool) (clock : ℕ)
      → Inv fault s l output clock
      → InOrder clock
      → Ensures
          (on_fault time a l (record { backoff_duration = backoff; state = s }))
          (Fine (some (a.first, backoff)) s l output)
  unfolding on_fault
  on_fault-Fine fault disabled l backoff output clock i t =
      grind (arith, add_lem a.first backoff, edges)
  on_fault-Fine fault ocp l backoff output clock i t = grind (arith, add_lem a.first backoff, edges)
  on_fault-Fine fault enabling l backoff output clock i t =
      grind (arith, add_lem a.first backoff, edges)
  on_fault-Fine fault enabled l backoff output clock i t =
      grind (arith, add_lem a.first backoff, edges)

  on_disabled-Fine :
      (fault : Option (ℕ × ℕ)) (s : State) (l : Local) (backoff : ℕ) (output : Bool) (clock : ℕ)
      → Inv fault s l output clock
      → InOrder clock
      → l.enabled ≡ false
      → Ensures
          (on_disabled time a l (record { backoff_duration = backoff; state = s }))
          (Fine fault s l output)
  unfolding on_disabled
  on_disabled-Fine fault disabled l backoff output clock i t e =
      grind (arith, add_lem a.second (from_millis 100), edges)
  on_disabled-Fine fault ocp l backoff output clock i t e =
      grind (arith, add_lem a.second (from_millis 100), edges)
  on_disabled-Fine fault enabling l backoff output clock i t e = absurd (ground arith)
  on_disabled-Fine fault enabled l backoff output clock i t e = absurd (ground arith)

  on_enabled-Fine :
      (fault : Option (ℕ × ℕ)) (s : State) (l : Local) (backoff : ℕ) (output : Bool) (clock : ℕ)
      → Inv fault s l output clock
      → InOrder clock
      → l.enabled ≡ true
      → Ensures
          (on_enabled time a l (record { backoff_duration = backoff; state = s }))
          (Fine fault s l output)
  unfolding on_enabled
  on_enabled-Fine fault disabled l backoff output clock i t e = absurd (ground arith)
  on_enabled-Fine fault ocp l backoff output clock i t e = absurd (ground arith)
  on_enabled-Fine fault enabling l backoff output clock i t e =
      grind (arith, elapsed_lem a.second, edges)
  on_enabled-Fine fault enabled l backoff output clock i t e = grind (arith, edges)

  -- The fault that a round leaves as the last one.
  abbrev pub fault_after : Status → ℕ → Option (ℕ × ℕ) → Option (ℕ × ℕ)
  fault_after status backoff fault = if is_fault status then some (a.first, backoff) else fault

  pub locked_part-Fine :
      (status : Status) (fault : Option (ℕ × ℕ)) (s : State) (l : Local) (backoff : ℕ)
      (output : Bool) (clock : ℕ)
      → Inv fault s l output clock
      → InOrder clock
      → Ensures
          (locked_part time a status l (record { backoff_duration = backoff; state = s }))
          (Fine (fault_after status backoff fault) s l output)
  unfolding locked_part
  locked_part-Fine status fault s l backoff output clock i t = elim (Bool-cases (is_fault status)) [
    | inl f ↦ simp f (on_fault-Fine fault s l backoff output clock i t)
    | inr f ↦ elim (Bool-cases l.enabled) [
      | inl e ↦ simp (f, e) (on_enabled-Fine fault s l backoff output clock i t e)
      | inr e ↦ simp (f, e) (on_disabled-Fine fault s l backoff output clock i t e)
    ]
  ]
