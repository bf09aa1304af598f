-- ===== src/Firmware/Locks/Fair.antt =====
-- What a turn does of the work of the tasks that wait for the locks of the systems
-- (sw/fw/src/systems).
use powersupply.Base.{
  ℕ, zero, suc, ◌+◌, ◌<◌, ◌≤◌, ◌≡◌, refl, ap, ◌∙◌, Bool, true, false, not, ◌&&◌, ◌||◌, List, [],
  ◌∷◌, arith, ◌==◌, Bool-cases, inl, inr, length,
}
use powersupply.Firmware.Locks.{
  Lock, Op, acquire, release, await_room, Turn, Operation, Task, can_go, advance, step_from, step,
  steps, tasks,
}
use powersupply.Firmware.Locks.Freedom.{any_pending, is_pending, any_can_go}

abbrev pub op_count : List Op → ℕ
op_count [] = 0
op_count (o ∷ os) = 1 + op_count os

-- The locks that are still to be taken and left.
abbrev pub work : List Task → ℕ
work [] = 0
work (t ∷ ts) = op_count t.rest + work ts

-- The task with this number can take its next step.
abbrev ready : Bool → List Task → ℕ → List Task → Bool
ready room all n [] = false
ready room all zero (t ∷ ts) = can_go room all t.rest
ready room all (suc n) (t ∷ ts) = ready room all n ts

can_go-room :
    (room : Bool) (all : List Task) (ops : List Op)
    → can_go false all ops ≡ true
    → can_go room all ops ≡ true
can_go-room room all [] e = e
can_go-room room all (acquire l ∷ ops) e = e
can_go-room room all (release l ∷ ops) e = e
can_go-room room all (await_room ∷ ops) e = absurd (ground arith)

-- A task that goes on without room in the notifier goes on with it.
ready-room :
    (room : Bool) (all : List Task) (n : ℕ) (ts : List Task)
    → ready false all n ts ≡ true
    → ready room all n ts ≡ true
ready-room room all n [] e = e
ready-room room all zero (t ∷ ts) e = can_go-room room all t.rest e
ready-room room all (suc n) (t ∷ ts) e = ready-room room all n ts e

ops-go :
    (room : Bool) (all : List Task) (t : Task) (ops : List Op)
    → can_go room all ops ≡ true
    → 1 + op_count (advance ops t).rest ≡ op_count ops
unfolding advance
ops-go room all t [] c = absurd (ground arith)
ops-go room all t (acquire l ∷ ops) c = refl
ops-go room all t (release l ∷ ops) c = refl
ops-go room all t (await_room ∷ ops) c = refl

-- A step does one thing, or the task waits and nothing changes.
step_from-ready :
    (room : Bool) (all : List Task) (n : ℕ) (ts : List Task)
    → ready room all n ts ≡ true
    → 1 + work (step_from room all n ts) ≡ work ts
unfolding step_from
step_from-ready room all n [] c = absurd (ground arith)
step_from-ready room all zero (t ∷ ts) c = let less = ops-go room all t t.rest c in ground arith
step_from-ready room all (suc n) (t ∷ ts) c =
    let ih = step_from-ready room all n ts c in omega arith

step_from-waits :
    (room : Bool) (all : List Task) (n : ℕ) (ts : List Task)
    → ready room all n ts ≡ false
    → step_from room all n ts ≡ ts
unfolding step_from
step_from-waits room all n [] c = refl
step_from-waits room all zero (t ∷ ts) c = simp c
step_from-waits room all (suc n) (t ∷ ts) c = ap (λ us. t ∷ us) (step_from-waits room all n ts c)

-- These are the numbers of all tasks below `count`, and maybe others.
abbrev includes : ℕ → List Turn → Bool
includes n [] = false
includes n ((m, _) ∷ ms) = m == n || includes n ms

abbrev pub everyone : ℕ → List Turn → Bool
everyone zero ns = true
everyone (suc count) ns = includes count ns && everyone count ns

pub everyone-includes :
    (count n : ℕ) (ns : List Turn) → n < count → everyone count ns ≡ true → includes n ns ≡ true
everyone-includes zero n ns h e = absurd (omega arith)
everyone-includes (suc count) n ns h e = elim (Bool-cases (n == count)) [
  | inl s ↦ let same : n ≡ count = ground arith in rw same (ground arith)
  | inr d ↦ everyone-includes count n ns (ground arith) (ground arith)
]

step-work : (u : Turn) (ts : List Task) → work (step u ts) ≤ work ts
unfolding step
step-work (n, room) ts = elim (Bool-cases (ready room ts n ts)) [
  | inl c ↦ let less = step_from-ready room ts n ts c in omega arith
  | inr c ↦ let same = ap work (step_from-waits room ts n ts c) in omega arith
]

pub steps-work : (ns : List Turn) (ts : List Task) → work (steps ns ts) ≤ work ts
unfolding steps
steps-work [] ts = omega arith
steps-work (n ∷ ns) ts =
    let first = step-work n ts in let rest = steps-work ns (step n ts) in omega arith

-- A task that can go on gets its turn: then something is done, by it or by one before it.
pub steps-ready :
    (ns : List Turn) (ts : List Task) (n : ℕ)
    → ready false ts n ts ≡ true
    → includes n ns ≡ true
    → work (steps ns ts) < work ts
unfolding steps step
steps-ready [] ts n r i = absurd (ground arith)
steps-ready ((m, room) ∷ ms) ts n r i = elim (Bool-cases (ready room ts m ts)) [
  | inl c ↦
      let first = step_from-ready room ts m ts c in
      let rest = steps-work ms (step (m, room) ts) in omega arith
  | inr c ↦ elim (Bool-cases (m == n)) [
    | inl s ↦
        let same : m ≡ n = ground arith in
        let goes : ready room ts m ts ≡ true = rw same (ready-room room ts n ts r) in
        absurd (ground arith)
    | inr d ↦ rw (step_from-waits room ts m ts c) (steps-ready ms ts n r (ground arith))
  ]
]

abbrev pub count_of : List Task → ℕ
count_of [] = 0
count_of (t ∷ ts) = suc (count_of ts)

-- The number of a task that can take its next step.
pub record Ready (all ts : List Task) : Type 0 where
  pub number : ℕ
  pub listed : number < count_of ts
  pub free : ready false all number ts ≡ true

pub any_can_go-Ready : (all ts : List Task) → any_can_go all ts ≡ true → Ready all ts
any_can_go-Ready all [] e = absurd (ground arith)
any_can_go-Ready all (t ∷ ts) e = elim (Bool-cases (can_go false all t.rest)) [
  | inl c ↦ record { number = 0; listed = omega arith; free = c }
  | inr c ↦ later (any_can_go-Ready all ts (ground arith))
]
  where
    later : Ready all ts → Ready all (t ∷ ts)
    later r =
        let below = r.listed in
        record { number = suc r.number; listed = omega arith; free = r.free }

step_from-count_of :
    (room : Bool) (all : List Task) (n : ℕ) (ts : List Task)
    → count_of (step_from room all n ts) ≡ count_of ts
unfolding step_from
step_from-count_of room all n [] = refl
step_from-count_of room all zero (t ∷ ts) = refl
step_from-count_of room all (suc n) (t ∷ ts) = ap suc (step_from-count_of room all n ts)

pub steps-count_of : (ns : List Turn) (ts : List Task) → count_of (steps ns ts) ≡ count_of ts
unfolding steps step
steps-count_of [] ts = refl
steps-count_of ((n, room) ∷ ns) ts =
    steps-count_of ns (step (n, room) ts) ∙ step_from-count_of room ts n ts

pub tasks-count_of : (oss : List (List Operation)) → count_of (tasks oss) ≡ length oss
unfolding tasks
tasks-count_of [] = refl
tasks-count_of (os ∷ oss) = ap suc (tasks-count_of oss)

abbrev is_over : Task → Bool
is_over t = t.shares || not (is_pending t.rest)

parts-over :
    (u : Bool) (hs : List Lock) (ops : List Op)
    → is_over (record { shares = u; held = hs; rest = ops }) ≡ true
    → is_over (advance ops (record { shares = u; held = hs; rest = ops })) ≡ true
unfolding advance
parts-over u hs [] e = e
parts-over u hs (acquire l ∷ ops) e = ground arith
parts-over u hs (release l ∷ ops) e = ground arith
parts-over u hs (await_room ∷ ops) e = ground arith

step_from-over :
    (room : Bool) (all : List Task) (n : ℕ) (ts : List Task)
    → any_pending ts ≡ false
    → any_pending (step_from room all n ts) ≡ false
unfolding step_from
step_from-over room all n [] e = e
step_from-over room all zero (t ∷ ts) e =
    let kept = parts-over t.shares t.held t.rest in ground arith
step_from-over room all (suc n) (t ∷ ts) e = let ih = step_from-over room all n ts in ground arith

-- A task that is finished stays so.
pub steps-over :
    (ns : List Turn) (ts : List Task) → any_pending ts ≡ false → any_pending (steps ns ts) ≡ false
unfolding steps step
steps-over [] ts e = e
steps-over ((n, room) ∷ ns) ts e = steps-over ns (step (n, room) ts) (step_from-over room ts n ts e)

pub work-pending : (ts : List Task) → work ts ≡ 0 → any_pending ts ≡ false
work-pending [] e = refl
work-pending (t ∷ ts) e = by_ops t.rest (omega arith) (work-pending ts (omega arith))
  where
    by_ops :
        (ops : List Op)
        → op_count ops ≡ 0
        → any_pending ts ≡ false
        → (not t.shares && is_pending ops) || any_pending ts ≡ false
    by_ops [] w p = ground arith
    by_ops (o ∷ os) w p = absurd (omega arith)
