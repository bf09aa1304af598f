-- ===== src/Executors/Thread/Loop.antt =====
-- sw/fw/src/executors/thread.rs: when the loop of the thread-mode executor sleeps.
use powersupply.Base.{ℕ, ◌≡◌, refl, ap₂, Bool, true, false, not, ◌||◌, List, [], ◌∷◌, arith}
use powersupply.Executors.Thread.{
  Statics, boot, wait_impl, pend, current_restart, Between, wakes, restarts, happen, Round,
  run_rounds, run,
}

-- Work has been pended.
abbrev pub any_wakes : List Between → Bool
any_wakes [] = false
any_wakes (wakes ∷ es) = true
any_wakes (restarts _ _ ∷ es) = any_wakes es

-- The rounds that sleep, by what happened since the wait before.
abbrev pub idle : List Between → List Round → List Bool
idle before [] = []
idle before (r ∷ rs) = not (any_wakes before || any_wakes r.events) ∷ idle [] rs

happen-signal :
    (es : List Between) (s : Statics) → (happen es s).signal ≡ (s.signal || any_wakes es)
unfolding happen pend current_restart
happen-signal [] s = ground arith
happen-signal (wakes ∷ es) s = ground (arith, happen-signal es (pend s))
happen-signal (restarts first second ∷ es) s =
    ground (arith, happen-signal es (current_restart first second s).1)

wait_impl_lem :
    (start now : ℕ) (s : Statics)
    → ((wait_impl start now s).0 ≡ not s.signal) × ((wait_impl start now s).1.signal ≡ false)
unfolding wait_impl
wait_impl_lem start now s = ground arith

run_rounds-idle :
    (before : List Between) (rs : List Round) (s : Statics)
    → s.signal ≡ any_wakes before
    → (run_rounds rs s).0 ≡ idle before rs
unfolding run_rounds
run_rounds-idle before [] s e = refl
run_rounds-idle before (r ∷ rs) s e =
    let t = happen r.events s in
    let w = wait_impl_lem r.start r.now t in
    let u = (wait_impl r.start r.now t).1 in
    ap₂ ◌∷◌ (ground (arith, happen-signal r.events s)) (run_rounds-idle [] rs u w.1)

-- No wake-up is lost, and no wait is skipped without one: in every run from boot, each wait sleeps
-- exactly if no work has been pended since the wait before it (since boot, for the first), be it by
-- the first tasks, in the poll or by an interrupt; whatever statistics are taken in between, and
-- whatever the clock reads.
pub run-idle :
    (init : List Between) (rounds : List Round) → (run init rounds boot).0 ≡ idle init rounds
unfolding run
run-idle init rounds = run_rounds-idle init rounds (happen init boot) (happen-signal init boot)
