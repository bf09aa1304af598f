-- ===== src/Firmware/Locks/Freedom.antt =====
-- Which tasks that wait for the locks of the systems (sw/fw/src/systems) cannot wait for each other:
-- those that run no operation of the configuration, for that is locked while `update` waits.
use powersupply.Base.{
  ℕ, zero, suc, ◌+◌, ◌<◌, ◌≤◌, ◌≡◌, refl, Bool, true, false, not, ◌&&◌, ◌||◌, List, [], ◌∷◌, arith,
  Bool-cases, inl, inr, ◌⊎◌,
}
use powersupply.Firmware.Locks.{
  Lock, config, Op, acquire, release, await_room, needs_config, Turn, Operation, Task, index, holds,
  is_held, can_go, steps, tasks,
}
use powersupply.Firmware.Locks.Order.{
  above, only_config, ordered, descending, all_good, reached-good,
}

abbrev pub is_pending : List Op → Bool
is_pending [] = false
is_pending (o ∷ os) = true

-- Some task that runs no operation of the configuration has something left to do.
abbrev pub any_pending : List Task → Bool
any_pending [] = false
any_pending (t ∷ ts) = (not t.shares && is_pending t.rest) || any_pending ts

-- Some task of the list can take its next step, without room in the notifier.
abbrev pub any_can_go : List Task → List Task → Bool
any_can_go all [] = false
any_can_go all (t ∷ ts) = can_go false all t.rest || any_can_go all ts

-- A lock that some task holds, beyond this one.
record Beyond (n : ℕ) (all : List Task) : Type 0 where
  pub lock : Lock
  pub later : n < index lock
  pub taken : is_held lock all ≡ true

-- A lock that some task holds, other than that of the configuration.
record Held (all : List Task) : Type 0 where
  pub lock : Lock
  pub beyond : 0 < index lock
  pub taken : is_held lock all ≡ true

-- All the locks held come before the one that may be taken next.
holds-above :
    (hs : List Lock) (l m : Lock)
    → holds l hs ≡ true
    → descending hs ≡ true
    → above hs m ≡ true
    → index l < index m
holds-above [] l m e d a = absurd (ground arith)
holds-above (h ∷ hs) l m e d a = let ih = holds-above hs l h in ground arith

only_config-holds :
    (hs : List Lock) (l : Lock) → holds l hs ≡ true → only_config hs ≡ true → index l ≡ 0
only_config-holds [] l e o = absurd (ground arith)
only_config-holds (h ∷ hs) l e o = let ih = only_config-holds hs l in ground arith

held-good :
    (hs : List Lock) (ops : List Op) (all : List Task) (l : Lock)
    → holds l hs ≡ true
    → ordered hs ops ≡ true
    → descending hs ≡ true
    → 0 < index l
    → (can_go false all ops ≡ true) ⊎ Beyond (index l) all
held-good [] [] all l e o d b = absurd (ground arith)
held-good (h ∷ hs) [] all l e o d b = absurd (ground arith)
held-good hs (release m ∷ ops) all l e o d b = inl refl
held-good hs (await_room ∷ ops) all l e o d b =
    let config_only = only_config-holds hs l e (ground arith) in absurd (omega arith)
held-good hs (acquire m ∷ ops) all l e o d b = elim (Bool-cases (is_held m all)) [
  | inl t ↦ inr (record { lock = m; later = holds-above hs l m e d (ground arith); taken = t })
  | inr f ↦ inl (ground arith)
]

-- A lock is held: its task goes on, or waits for a lock further up that is held.
held-all_good :
    (ts all : List Task) (l : Lock)
    → is_held l ts ≡ true
    → all_good ts ≡ true
    → 0 < index l
    → (any_can_go all ts ≡ true) ⊎ Beyond (index l) all
held-all_good [] all l e g z = absurd (ground arith)
held-all_good (t ∷ ts) all l e g z = elim (Bool-cases (holds l t.held)) [
  | inl h ↦ at_head (held-good t.held t.rest all l h (ground arith) (ground arith) z)
  | inr h ↦ in_tail (held-all_good ts all l (ground arith) (ground arith) z)
]
  where
    at_head :
        (can_go false all t.rest ≡ true) ⊎ Beyond (index l) all
        → (any_can_go all (t ∷ ts) ≡ true) ⊎ Beyond (index l) all
    at_head (inl c) = inl (ground arith)
    at_head (inr b) = inr b

    in_tail :
        (any_can_go all ts ≡ true) ⊎ Beyond (index l) all
        → (any_can_go all (t ∷ ts) ≡ true) ⊎ Beyond (index l) all
    in_tail (inl c) = inl (ground arith)
    in_tail (inr b) = inr b

index-below : (l : Lock) → index l < 8
index-below config = omega arith
index-below _ = omega arith

-- `height` locks are left above a lock that is held.
climb :
    (height : ℕ) (ts : List Task) (l : Lock)
    → 8 ≤ index l + height
    → all_good ts ≡ true
    → is_held l ts ≡ true
    → 0 < index l
    → any_can_go ts ts ≡ true
climb zero ts l h g e z = let low = index-below l in absurd (omega arith)
climb (suc height) ts l h g e z = elim (held-all_good ts ts l e g z) [
  | inl c ↦ c
  | inr b ↦ let later = b.later in climb height ts b.lock (omega arith) g b.taken (omega arith)
]

-- A task that is not finished goes on, or waits for a lock that is held, unless it waits for the
-- configuration.
ops-pending :
    (ops : List Op) (all : List Task)
    → is_pending ops ≡ true
    → needs_config ops ≡ false
    → (can_go false all ops ≡ true) ⊎ Held all
ops-pending [] all e n = absurd (ground arith)
ops-pending (await_room ∷ ops) all e n = absurd (ground arith)
ops-pending (release m ∷ ops) all e n = inl refl
ops-pending (acquire m ∷ ops) all e n = elim (Bool-cases (is_held m all)) [
  | inl t ↦ inr (record { lock = m; beyond = ground arith; taken = t })
  | inr f ↦ inl (ground arith)
]

tasks-pending :
    (ts all : List Task)
    → all_good ts ≡ true
    → any_pending ts ≡ true
    → (any_can_go all ts ≡ true) ⊎ Held all
tasks-pending [] all g e = absurd (ground arith)
tasks-pending (t ∷ ts) all g e = elim (Bool-cases (not t.shares && is_pending t.rest)) [
  | inl p ↦ at_head (ops-pending t.rest all (ground arith) (ground arith))
  | inr p ↦ in_tail (tasks-pending ts all (ground arith) (ground arith))
]
  where
    at_head :
        (can_go false all t.rest ≡ true) ⊎ Held all → (any_can_go all (t ∷ ts) ≡ true) ⊎ Held all
    at_head (inl c) = inl (ground arith)
    at_head (inr b) = inr b

    in_tail : (any_can_go all ts ≡ true) ⊎ Held all → (any_can_go all (t ∷ ts) ≡ true) ⊎ Held all
    in_tail (inl c) = inl (ground arith)
    in_tail (inr b) = inr b

pub all_good-go :
    (ts : List Task) → all_good ts ≡ true → any_pending ts ≡ true → any_can_go ts ts ≡ true
all_good-go ts g e = elim (tasks-pending ts ts g e) [
  | inl c ↦ c
  | inr b ↦ climb 8 ts b.lock (omega arith) g b.taken b.beyond
]

-- Let any number of tasks run any of the operations, one after the other, and let them run in any
-- order up to their next locks, which a task waits for while it is held, by another or by itself.
-- At every point at which a task is not finished that runs no operation of the configuration, some
-- task can take its next step, even if there is no room in the notifier.
steps-go :
    (oss : List (List Operation)) (ns : List Turn)
    → any_pending (steps ns (tasks oss)) ≡ true
    → any_can_go (steps ns (tasks oss)) (steps ns (tasks oss)) ≡ true
steps-go oss ns e = all_good-go (steps ns (tasks oss)) (reached-good oss ns) e
