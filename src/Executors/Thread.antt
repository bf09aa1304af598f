-- ===== src/Executors/Thread.antt =====
-- sw/fw/src/executors/thread.rs: the loop of the thread-mode executor, and its idle statistics.
pub mod Loop
use powersupply.Base.{
  List, [], ◌∷◌, ℕ, ◌+◌, ◌-◌, ◌*◌, ◌/◌, ◌%◌, ◌^◌, ◌≤◌, ◌<◌, ◌≡◌, refl, Bool, true, false, arith,
  ◌==◌, if◌then◌else◌, Outcome, returns, panics, Returns,
}

-- The statics of the file: the signal of the one core, and the counters of the statistics.
pub record Statics : Type 0 where
  pub signal : Bool
  pub sleep_total_ticks : ℕ
  pub sleep_count_from : ℕ

abbrev pub boot : Statics
boot = record { signal = false; sleep_total_ticks = 0; sleep_count_from = 0 }

-- u64 arithmetic in the release profile
abbrev wrap_u64 : ℕ → ℕ
wrap_u64 n = n % 2 ^ 64

-- `wait_impl`, with what the clock reads before and after the `wfi`: whether that is executed, and
-- the statics after it.
unfoldable pub wait_impl : ℕ → ℕ → Statics → Bool × Statics
wait_impl start now s =
    if s.signal
    then (false, record s { signal = false })
    else (true, record s { sleep_total_ticks = wrap_u64 (s.sleep_total_ticks + (now - start)) })

-- `pend_thread_mode`, from an interrupt or a task
unfoldable pub pend : Statics → Statics
pend s = record s { signal = true }

pub record SleepStats : Type 0 where
  pub sleep : ℕ
  pub total : ℕ

-- `current_restart`, which reads the clock twice.
unfoldable pub current_restart : ℕ → ℕ → Statics → SleepStats × Statics
current_restart first second s = (
  record { sleep = s.sleep_total_ticks; total = wrap_u64 (second + 2 ^ 64 - s.sleep_count_from) },
  record s { sleep_total_ticks = 0; sleep_count_from = first },
)

-- `as_permille`; a division by zero panics.
unfoldable pub as_permille : SleepStats → Outcome ℕ
as_permille stats =
    if stats.total == 0 then panics else returns (wrap_u64 (stats.sleep * 1000) / stats.total)

-- What happens to the statics between two waits, in interrupts and in the poll of the tasks: work
-- is pended, and statistics are taken.
pub data Between : Type 0 where
  wakes : Between
  restarts : ℕ → ℕ → Between

unfoldable pub happen : List Between → Statics → Statics
happen [] s = s
happen (wakes ∷ es) s = happen es (pend s)
happen (restarts first second ∷ es) s = happen es (current_restart first second s).1

-- A round of `run`: what happens up to the end of its poll, and what the clock reads in its wait.
pub record Round : Type 0 where
  pub events : List Between
  pub start : ℕ
  pub now : ℕ

run_rounds : List Round → Statics → List Bool × Statics
run_rounds [] s = ([], s)
run_rounds (r ∷ rs) s =
    let (slept, t) = wait_impl r.start r.now (happen r.events s) in
    let (rest, u) = run_rounds rs t in (slept ∷ rest, u)

-- `Executor::run` for so many rounds: `init` spawns the first tasks, and every round polls and then
-- waits. It tells which waits have slept.
unfoldable pub run : List Between → List Round → Statics → List Bool × Statics
unfolding run_rounds
run init rounds s = run_rounds rounds (happen init s)

-- The statics at a time `now`, under a clock that never runs backwards and fits a u64.
pub data Reach : Statics → ℕ → Type 0 where
  booted : Reach boot 0
  pended : {s : Statics} {now : ℕ} → Reach s now → Reach (pend s) now
  waited :
      {s : Statics} {now : ℕ} (before after : ℕ)
      → Reach s now
      → now ≤ before
      → before ≤ after
      → after < 2 ^ 64
      → Reach (wait_impl before after s).1 after
  restarted :
      {s : Statics} {now : ℕ} (first second : ℕ)
      → Reach s now
      → now ≤ first
      → first ≤ second
      → second < 2 ^ 64
      → Reach (current_restart first second s).1 second

-- The sleep counted fits between the start of the count and now.
record Counted (s : Statics) (now : ℕ) : Type 0 where
  fits : s.sleep_count_from + s.sleep_total_ticks ≤ now
  small : now < 2 ^ 64

wait_impl-Counted :
    (s : Statics) (now before after : ℕ)
    → Counted s now
    → now ≤ before
    → before ≤ after
    → after < 2 ^ 64
    → Counted (wait_impl before after s).1 after
unfolding wait_impl
wait_impl-Counted s now before after c p q lt = ground arith

Reach-Counted : {s : Statics} {now : ℕ} → Reach s now → Counted s now
unfolding pend current_restart
Reach-Counted booted = ground arith
Reach-Counted (pended r) = let c = Reach-Counted r in record { fits = c.fits; small = c.small }
Reach-Counted (waited {s} {now} before after r p q lt) =
    wait_impl-Counted s now before after (Reach-Counted r) p q lt
Reach-Counted (restarted first second r p q lt) = ground arith

div_bound : (x t : ℕ) → 0 < t → x ≤ t * 1000 → x / t ≤ 1000
div_bound x t pos h = grind arith

permille_bound :
    (sleep total : ℕ)
    → 0 < total
    → sleep * 1000 < 2 ^ 64
    → sleep ≤ total
    → Returns (as_permille (record { sleep = sleep; total = total })) (λ permille. permille ≤ 1000)
unfolding as_permille
permille_bound sleep total pos small h =
    let e : wrap_u64 (sleep * 1000) ≡ sleep * 1000 = omega arith in
    ground (arith, div_bound (wrap_u64 (sleep * 1000)) total)

-- Idle statistics taken from any reachable state, the clock not running backwards: the sleep counted
-- is at most the time since the last restart, which did not wrap; and as long as a thousand times
-- the sleep fits a u64, the permille is at most 1000, or, exactly if no tick has passed, a panic.
pub Reach-permille :
    {s : Statics} {now : ℕ} (first second : ℕ)
    → Reach s now
    → now ≤ first
    → first ≤ second
    → second < 2 ^ 64
    → let stats = (current_restart first second s).0 in
      (stats.sleep ≤ stats.total)
      × (stats.total ≡ second - s.sleep_count_from)
      × (stats.total ≡ 0 → as_permille stats ≡ panics)
      × (0 < stats.total
          → stats.sleep * 1000 < 2 ^ 64
          → Returns (as_permille stats) (λ permille. permille ≤ 1000))
unfolding current_restart as_permille
Reach-permille {s} {now} first second r p q lt =
    let c = Reach-Counted r in
    let e : wrap_u64 (second + 2 ^ 64 - s.sleep_count_from) ≡ second - s.sleep_count_from =
      omega (arith, c) in
    (
      omega (arith, c),
      e,
      (λ z. ground arith),
      (λ pos small. permille_bound s.sleep_total_ticks _ pos small (omega (arith, c))),
    )
