-- ===== src/Firmware/Locks/Rounds.antt =====
-- Rounds of the tasks that wait for the locks of the systems (sw/fw/src/systems).
use powersupply.Base.{
  ℕ, zero, suc, ◌<◌, ◌≤◌, ◌≡◌, refl, sym, ◌∙◌, Bool, true, false, ◌&&◌, List, [], ◌∷◌, arith,
  Bool-cases, inl, inr, ◌⊎◌, length,
}
use powersupply.Firmware.Locks.{
  Lock, Op, acquire, release, await_room, Operation, Turn, Task, needs_config, script, can_go,
  advance, step_from, step, steps, tasks,
}
use powersupply.Firmware.Locks.Order.{ordered, all_good, steps-good, tasks-good}
use powersupply.Firmware.Locks.Freedom.{any_pending, is_pending, all_good-go}
use powersupply.Firmware.Locks.Fair.{
  work, everyone, everyone-includes, steps-ready, steps-over, count_of, Ready, any_can_go-Ready,
  steps-count_of, tasks-count_of, work-pending,
}

-- Rounds in each of which every task gets a turn.
abbrev pub all_fair : ℕ → List (List Turn) → Bool
all_fair count [] = true
all_fair count (r ∷ rs) = everyone count r && all_fair count rs

abbrev pub run_rounds : List (List Turn) → List Task → List Task
run_rounds [] ts = ts
run_rounds (r ∷ rs) ts = run_rounds rs (steps r ts)

-- A fair round does something, as long as some task that runs no operation of the configuration
-- has something to do.
round-work :
    (r : List Turn) (ts : List Task)
    → all_good ts ≡ true
    → everyone (count_of ts) r ≡ true
    → (work (steps r ts) < work ts) ⊎ (any_pending (steps r ts) ≡ false)
round-work r ts g f = elim (Bool-cases (any_pending ts)) [
  | inl p ↦ by_ready (any_can_go-Ready ts ts (all_good-go ts g p))
  | inr p ↦ inr (steps-over r ts p)
]
  where
    by_ready : Ready ts ts → (work (steps r ts) < work ts) ⊎ (any_pending (steps r ts) ≡ false)
    by_ready t =
        inl
          (steps-ready r ts t.number t.free (everyone-includes (count_of ts) t.number r t.listed f))

run_rounds-over :
    (rs : List (List Turn)) (ts : List Task)
    → any_pending ts ≡ false
    → any_pending (run_rounds rs ts) ≡ false
run_rounds-over [] ts e = e
run_rounds-over (r ∷ rs) ts e = run_rounds-over rs (steps r ts) (steps-over r ts e)

run_rounds-ends :
    (rs : List (List Turn)) (ts : List Task)
    → all_good ts ≡ true
    → all_fair (count_of ts) rs ≡ true
    → work ts ≤ length rs
    → any_pending (run_rounds rs ts) ≡ false
run_rounds-ends [] ts g f h = work-pending ts (omega arith)
run_rounds-ends (r ∷ rs) ts g f h = elim (round-work r ts g (ground arith)) [
  | inl less ↦
      run_rounds-ends rs (steps r ts) (steps-good r ts g) (rw (steps-count_of r ts) (ground arith))
        (omega arith)
  | inr over ↦ run_rounds-over rs (steps r ts) over
]

run_rounds-good :
    (rs : List (List Turn)) (ts : List Task)
    → all_good ts ≡ true
    → all_good (run_rounds rs ts) ≡ true
run_rounds-good [] ts g = g
run_rounds-good (r ∷ rs) ts g = run_rounds-good rs (steps r ts) (steps-good r ts g)

-- What each of these tasks comes to: it runs an operation of the configuration, or nothing is left
-- for it to do and it holds no lock.
abbrev pub Ended : List (List Operation) → List Task → Type 0
Ended [] [] = Unit
Ended (os ∷ oss) (t ∷ ts) =
    ((needs_config (script os) ≡ true) ⊎ ((t.rest ≡ []) × (t.held ≡ []))) × Ended oss ts
Ended [] (t ∷ ts) = ⊥
Ended (os ∷ oss) [] = ⊥

-- Whether they run operations of the configuration is known of the tasks.
abbrev Known : List (List Operation) → List Task → Type 0
Known [] [] = Unit
Known (os ∷ oss) (t ∷ ts) = (t.shares ≡ needs_config (script os)) × Known oss ts
Known [] (t ∷ ts) = ⊥
Known (os ∷ oss) [] = ⊥

advance-shares : (ops : List Op) (t : Task) → (advance ops t).shares ≡ t.shares
unfolding advance
advance-shares [] t = refl
advance-shares (acquire l ∷ ops) t = refl
advance-shares (release l ∷ ops) t = refl
advance-shares (await_room ∷ ops) t = refl

step_from-Known :
    (room : Bool) (all : List Task) (n : ℕ) (oss : List (List Operation)) (ts : List Task)
    → Known oss ts
    → Known oss (step_from room all n ts)
unfolding step_from
step_from-Known room all n [] [] k = tt
step_from-Known room all n [] (t ∷ ts) k = absurd k
step_from-Known room all n (os ∷ oss) [] k = absurd k
step_from-Known room all zero (os ∷ oss) (t ∷ ts) (e, k) =
    elim (Bool-cases (can_go room all t.rest)) [
      | inl c ↦ rw c (advance-shares t.rest t ∙ e, k)
      | inr c ↦ rw c (e, k)
    ]
step_from-Known room all (suc n) (os ∷ oss) (t ∷ ts) (e, k) =
    (e, step_from-Known room all n oss ts k)

steps-Known :
    (us : List Turn) (oss : List (List Operation)) (ts : List Task)
    → Known oss ts
    → Known oss (steps us ts)
unfolding steps step
steps-Known [] oss ts k = k
steps-Known ((n, room) ∷ us) oss ts k =
    steps-Known us oss (step (n, room) ts) (step_from-Known room ts n oss ts k)

run_rounds-Known :
    (rs : List (List Turn)) (oss : List (List Operation)) (ts : List Task)
    → Known oss ts
    → Known oss (run_rounds rs ts)
run_rounds-Known [] oss ts k = k
run_rounds-Known (r ∷ rs) oss ts k = run_rounds-Known rs oss (steps r ts) (steps-Known r oss ts k)

tasks-Known : (oss : List (List Operation)) → Known oss (tasks oss)
unfolding tasks
tasks-Known [] = tt
tasks-Known (os ∷ oss) = (refl, tasks-Known oss)

ordered-empty :
    (hs : List Lock) (ops : List Op)
    → ordered hs ops ≡ true
    → is_pending ops ≡ false
    → (ops ≡ []) × (hs ≡ [])
ordered-empty [] [] o p = (refl, refl)
ordered-empty (h ∷ hs) [] o p = absurd (ground arith)
ordered-empty hs (op ∷ ops) o p = absurd (ground arith)

Known-Ended :
    (oss : List (List Operation)) (ts : List Task)
    → Known oss ts
    → all_good ts ≡ true
    → any_pending ts ≡ false
    → Ended oss ts
Known-Ended [] [] k g p = tt
Known-Ended [] (t ∷ ts) k g p = absurd k
Known-Ended (os ∷ oss) [] k g p = absurd k
Known-Ended (os ∷ oss) (t ∷ ts) (e, k) g p = elim (Bool-cases t.shares) [
  | inl u ↦ (inl (sym e ∙ u), Known-Ended oss ts k (ground arith) (ground arith))
  | inr u ↦ (
    inr (ordered-empty t.held t.rest (ground arith) (ground arith)),
    Known-Ended oss ts k (ground arith) (ground arith),
  )
]

-- Let any number of tasks run any of the operations, one after the other, while `publish` waits for
-- room in the notifier with the lock of the configuration held, perhaps for ever: whether there is
-- room is given at each turn. When every task gets a turn in each round, in any order and perhaps
-- more than once, then after as many rounds as there are locks to take and to leave and waits for
-- room, every task that runs no operation of the configuration that takes its lock has finished,
-- and holds no lock.
pub run_rounds-Ended :
    (oss : List (List Operation)) (rs : List (List Turn))
    → all_fair (length oss) rs ≡ true
    → work (tasks oss) ≤ length rs
    → Ended oss (run_rounds rs (tasks oss))
run_rounds-Ended oss rs f h =
    Known-Ended oss (run_rounds rs (tasks oss))
      (run_rounds-Known rs oss (tasks oss) (tasks-Known oss))
      (run_rounds-good rs (tasks oss) (tasks-good oss))
      (run_rounds-ends rs (tasks oss) (tasks-good oss) (rw (tasks-count_of oss) f) h)
