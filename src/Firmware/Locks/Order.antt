-- ===== src/Firmware/Locks/Order.antt =====
-- Every operation of the systems (sw/fw/src/systems) takes its locks in one order.
use powersupply.Base.{
  ℕ, zero, suc, ◌≡◌, refl, Bool, true, false, not, ◌&&◌, ◌||◌, List, [], ◌∷◌, ◌++◌, arith, ltb,
  ◌==◌,
}
use powersupply.Firmware.Locks.{
  Lock, Op, acquire, release, await_room, Operation, Turn, needs_config, config_fetch, locks_of,
  Task, index, without, advance, step_from, step, steps, script, tasks,
}

-- A lock that comes after all those that are held.
abbrev pub above : List Lock → Lock → Bool
above [] l = true
above (h ∷ hs) l = ltb (index h) (index l)

abbrev pub is_top : List Lock → Lock → Bool
is_top [] l = false
is_top (h ∷ hs) l = index h == index l

abbrev pub is_empty : List Lock → Bool
is_empty [] = true
is_empty (h ∷ hs) = false

abbrev pub only_config : List Lock → Bool
only_config [] = true
only_config (h ∷ hs) = index h == 0 && only_config hs

abbrev pub ordered : List Lock → List Op → Bool
ordered hs [] = is_empty hs
ordered hs (acquire l ∷ ops) = above hs l && ordered (l ∷ hs) ops
ordered hs (release l ∷ ops) = is_top hs l && ordered (without l hs) ops
ordered hs (await_room ∷ ops) = only_config hs && ordered hs ops

abbrev pub descending : List Lock → Bool
descending [] = true
descending (h ∷ hs) = above hs h && descending hs

-- Every operation takes its locks upwards, leaves none, and waits for room with no lock but that
-- of the configuration.
locks_of-ordered : (o : Operation) → ordered [] (locks_of o) ≡ true
unfolding locks_of
locks_of-ordered config_fetch = refl
locks_of-ordered _ = refl

ordered-append :
    (hs : List Lock) (xs ys : List Op)
    → ordered hs xs ≡ true
    → ordered [] ys ≡ true
    → ordered hs (xs ++ ys) ≡ true
ordered-append [] [] ys e f = f
ordered-append (h ∷ hs) [] ys e f = ground arith
ordered-append hs (acquire l ∷ xs) ys e f = let ih = ordered-append (l ∷ hs) xs ys in ground arith
ordered-append hs (release l ∷ xs) ys e f =
    let ih = ordered-append (without l hs) xs ys in ground arith
ordered-append hs (await_room ∷ xs) ys e f = let ih = ordered-append hs xs ys in ground arith

script-ordered : (os : List Operation) → ordered [] (script os) ≡ true
script-ordered [] = refl
script-ordered (o ∷ os) =
    ordered-append [] (locks_of o) (script os) (locks_of-ordered o) (script-ordered os)

-- What a task keeps: its locks are in order, and so is what it still does, and it does not run
-- operations of the configuration unless it is known to.
abbrev pub good : Task → Bool
good t = ordered t.held t.rest && (descending t.held && (t.shares || not (needs_config t.rest)))

abbrev task : Bool → List Lock → List Op → Task
task u hs ops = record { shares = u; held = hs; rest = ops }

parts-good :
    (u : Bool) (hs : List Lock) (ops : List Op)
    → good (task u hs ops) ≡ true
    → good (advance ops (task u hs ops)) ≡ true
unfolding advance
parts-good u hs [] e = e
parts-good u hs (acquire l ∷ ops) e = ground arith
parts-good u [] (release l ∷ ops) e = ground arith
parts-good u (h ∷ hs) (release l ∷ ops) e = ground arith
parts-good u hs (await_room ∷ ops) e = ground arith

pub advance-good : (t : Task) → good t ≡ true → good (advance t.rest t) ≡ true
advance-good t e = parts-good t.shares t.held t.rest e

abbrev pub all_good : List Task → Bool
all_good [] = true
all_good (t ∷ ts) = good t && all_good ts

step_from-good :
    (room : Bool) (all : List Task) (n : ℕ) (ts : List Task)
    → all_good ts ≡ true
    → all_good (step_from room all n ts) ≡ true
unfolding step_from
step_from-good room all n [] e = e
step_from-good room all zero (t ∷ ts) e = let kept = advance-good t in ground arith
step_from-good room all (suc n) (t ∷ ts) e = let ih = step_from-good room all n ts in ground arith

pub steps-good :
    (ns : List Turn) (ts : List Task) → all_good ts ≡ true → all_good (steps ns ts) ≡ true
unfolding steps step
steps-good [] ts e = e
steps-good ((n, room) ∷ ns) ts e = steps-good ns (step (n, room) ts) (step_from-good room ts n ts e)

or_not : (b : Bool) → (b || not b) ≡ true
or_not true = refl
or_not false = refl

pub tasks-good : (oss : List (List Operation)) → all_good (tasks oss) ≡ true
unfolding tasks
tasks-good [] = refl
tasks-good (os ∷ oss) =
    let o = script-ordered os in
    let u = or_not (needs_config (script os)) in let ih = tasks-good oss in ground arith

-- Whatever operations the tasks run, at every point of every interleaving each has its locks in
-- order, and takes the next ones upwards.
pub reached-good :
    (oss : List (List Operation)) (ns : List Turn) → all_good (steps ns (tasks oss)) ≡ true
reached-good oss ns = steps-good ns (tasks oss) (tasks-good oss)
