-- ===== src/Watchdog/Loops.antt =====
-- Loops that feed a ticket of sw/fw/src/systems/watchdog.rs and then sleep, as those of `app`
-- (sw/fw/src/main.rs) and of `monitor_task` (sw/fw/src/systems/power_ext.rs).
use powersupply.Base.{
  ℕ, ◌+◌, ◌*◌, ◌≤◌, ◌<◌, ◌≡◌, true, List, [], ◌∷◌, arith, ◌==◌, if◌then◌else◌, Returns,
}
use powersupply.Watchdog.{Inner, empty_mask, watchdog_deadline_secs}
use powersupply.Watchdog.Timing.{survives, Punctual, fed_now, survives-Punctual}

-- A turn of a loop: when it feeds, its ticket, and how long it sleeps then at most.
pub record Turn : Type 0 where
  pub time : ℕ
  pub index : ℕ
  pub sleep : ℕ

abbrev pub feeds : List Turn → List (ℕ × ℕ)
feeds [] = []
feeds (u ∷ us) = (u.time, u.index) ∷ feeds us

-- From then on, when each loop is to run again.
abbrev pub due_after : Turn → (ℕ → ℕ) → ℕ → ℕ
due_after u due j = if u.index == j then u.time + u.sleep else due j

module _ (second : ℕ) where
  -- The loop of `app`: it feeds, and sleeps for `WATCHDOG_DEADLINE`. It wakes late by as much as
  -- the list says.
  unfoldable pub app_loop : ℕ → ℕ → List ℕ → List Turn
  app_loop index now [] = []
  app_loop index now (late ∷ lates) =
      record { time = now; index = index; sleep = watchdog_deadline_secs * second }
      ∷ app_loop index (now + watchdog_deadline_secs * second + late) lates

  -- With `n` loops: the turns are in order, no sleep is longer than `WATCHDOG_DEADLINE`, and at no
  -- turn is a loop late by a second or more.
  abbrev pub Timely : ℕ → List Turn → ℕ → (ℕ → ℕ) → Type 0
  Timely n [] now due = Unit
  Timely n (u ∷ us) now due =
      (now ≤ u.time)
      × (u.index < n)
      × (u.sleep ≤ watchdog_deadline_secs * second)
      × ((j : ℕ) → j < n → u.time < due j + second)
      × Timely n us u.time (due_after u due)

  due_after-le :
      (u : Turn) (due last : ℕ → ℕ) (j : ℕ)
      → u.sleep ≤ watchdog_deadline_secs * second
      → due j ≤ last j + watchdog_deadline_secs * second
      → due_after u due j ≤ fed_now second u.time u.index last j + watchdog_deadline_secs * second
  due_after-le u due last j h d = ground arith

  -- The wiggle of one second is what a loop may be late.
  Timely-Punctual :
      (n : ℕ) (us : List Turn) (now : ℕ) (due last : ℕ → ℕ)
      → ((j : ℕ) → j < n → due j ≤ last j + watchdog_deadline_secs * second)
      → Timely n us now due
      → Punctual second n (feeds us) now last
  Timely-Punctual n [] now due last d h = tt
  Timely-Punctual n (u ∷ us) now due last d (le, lt, short, soon, rest) = (
    le,
    lt,
    (λ j b. let early = soon j b in let before = d j b in omega arith),
    Timely-Punctual n us u.time (due_after u due) (fed_now second u.time u.index last)
        (λ j b. due_after-le u due last j short (d j b)) rest,
  )

  -- Just after the hardware watchdog was fed, with one to sixteen tickets issued, each held by a
  -- loop that feeds it and then sleeps for at most 29 seconds, and that is to run again within 29
  -- seconds: as long as at no turn a loop is late by a second or more, no feed panics, and the
  -- hardware never waits for 30 seconds.
  pub survives-Timely :
      (us : List Turn) (s : Inner) (at : ℕ) (due : ℕ → ℕ)
      → s.mask ≡ empty_mask
      → 0 < s.count
      → s.count ≤ 16
      → ((j : ℕ) → j < s.count → due j ≤ at + watchdog_deadline_secs * second)
      → Timely s.count us at due
      → Returns (survives second (feeds us) at s) (λ b. b ≡ true)
  survives-Timely us s at due e p few soon h =
      survives-Punctual second (feeds us) s at (λ _. at) e p few (λ j lt. omega arith)
        (Timely-Punctual s.count us at due (λ _. at) soon h)

  -- No wake-up is late by a second or more.
  abbrev pub Prompt : List ℕ → Type 0
  Prompt [] = Unit
  Prompt (late ∷ lates) = (late < second) × Prompt lates

  -- The loop of `app`, alone.
  pub app_loop-Timely :
      (lates : List ℕ) (before now : ℕ) (due : ℕ → ℕ)
      → before ≤ now
      → now < due 0 + second
      → Prompt lates
      → Timely 1 (app_loop 0 now lates) before due
  unfolding app_loop
  app_loop-Timely [] before now due le lt p = tt
  app_loop-Timely (late ∷ lates) before now due le lt (soon, p) = (
    le,
    omega arith,
    omega arith,
    (λ j b. let zero_only : j ≡ 0 = omega arith in rw zero_only lt),
    app_loop-Timely lates now (now + watchdog_deadline_secs * second + late)
        (due_after (record { time = now; index = 0; sleep = watchdog_deadline_secs * second }) due)
        (omega arith) (omega arith) p,
  )
