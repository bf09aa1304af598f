-- ===== src/Executors/Wakers.antt =====
-- From a waker to the poll of its executor: `Bsp::init` (sw/fw/src/bsp/rev1.rs) starts an interrupt
-- executor on software interrupt 2, `main` (sw/fw/src/main.rs) a thread executor, and both are
-- woken through `__pender` (sw/fw/src/executors/mod.rs).
use powersupply.Base.{
  ℕ, zero, suc, get_or, none, ◌≡◌, refl, ap, Bool, true, false, ◌||◌, List, [], ◌∷◌, some, arith,
  ◌==◌, if◌then◌else◌, length, Outcome, returns, ◌>>=◌, Returns, Returns-bind,
}
use powersupply.Executors.{Signals, pender, thread_context, interrupt_context, pender_contexts}
use powersupply.Executors.Interrupt.{
  World, no_executors, no_interrupts, new, start, handle_interrupt,
}

-- The part of `Bsp::init` that starts the executor, on the core that runs it.
unfoldable pub high_prio : ℕ → Outcome World
high_prio core = start 2 core (new no_executors)

-- A task of one of the two executors is woken.
pub data Waker : Type 0 where
  of_thread of_high_prio : Waker

unfoldable pub context_of : Waker → ℕ
context_of of_thread = thread_context 0
context_of of_high_prio = interrupt_context 2

unfoldable pub wake : List Waker → Signals → Outcome Signals
wake [] s = returns s
wake (w ∷ ws) s = do t ← pender (context_of w) s; wake ws t

abbrev pub is_raised : ℕ → List ℕ → Bool
is_raised swi [] = false
is_raised swi (n ∷ ns) = n == swi || is_raised swi ns

-- `SoftwareInterrupt::raise`, any number of times, makes an interrupt pending.
abbrev raised_in : List ℕ → World → World
raised_in raised w = record w {
  pending = is_raised 0 raised ∷ is_raised 1 raised ∷ is_raised 2 raised ∷ is_raised 3 raised ∷ [];
}

-- An interrupt that is pending is taken when a handler is installed for it, and that handler runs.
abbrev take_one : ℕ → World → Outcome World
take_one swi w =
    if get_or w.pending swi false
    then elim (get_or w.handlers swi none) [ some num ↦ handle_interrupt num w | none ↦ returns w ]
    else returns w

-- The interrupts are looked at again and again, as long as some may be pending.
unfoldable pub service : ℕ → World → Outcome World
service zero w = returns w
service (suc n) w = do
  w0 ← take_one 0 w
  w1 ← take_one 1 w0
  w2 ← take_one 2 w1
  w3 ← take_one 3 w2
  service n w3

-- `Bsp::init`, the wakers, and the interrupts that they raise, looked at so often.
unfoldable pub woken : ℕ → ℕ → List Waker → Outcome (Signals × World)
woken looks core ws = do
  w ← high_prio core
  s ← wake ws (record { work = false ∷ []; raised = [] })
  w' ← service looks (raised_in s.raised w)
  returns (s, w')

abbrev pub any_thread : List Waker → Bool
any_thread [] = false
any_thread (of_thread ∷ ws) = true
any_thread (of_high_prio ∷ ws) = any_thread ws

abbrev pub any_high_prio : List Waker → Bool
any_high_prio [] = false
any_high_prio (of_thread ∷ ws) = any_high_prio ws
any_high_prio (of_high_prio ∷ ws) = true

-- Only interrupt 2 is raised.
abbrev Woken : Bool → Bool → Signals → Type 0
Woken thread high s =
    (s.work ≡ thread ∷ [])
    × (is_raised 0 s.raised ≡ false)
    × (is_raised 1 s.raised ≡ false)
    × (is_raised 2 s.raised ≡ high)
    × (is_raised 3 s.raised ≡ false)

or_true : (b : Bool) → (b || true) ≡ true
or_true true = refl
or_true false = refl

wake-Woken :
    (ws : List Waker) (thread high : Bool) (s : Signals)
    → Woken thread high s
    → Returns (wake ws s) (Woken (thread || any_thread ws) (high || any_high_prio ws))
unfolding wake context_of
wake-Woken [] thread high s h = ground arith
wake-Woken (of_thread ∷ ws) thread high s (w, r0, r1, r2, r3) =
    let one : length s.work ≡ 1 = ap length w in
    rw ((pender_contexts s one).1, or_true thread)
      (wake-Woken ws true high (record s { work = true ∷ [] }) (refl, r0, r1, r2, r3))
wake-Woken (of_high_prio ∷ ws) thread high s (w, r0, r1, r2, r3) =
    let one : length s.work ≡ 1 = ap length w in
    rw ((pender_contexts s one).0 2 (omega arith), or_true high)
      (wake-Woken ws thread true (record s { raised = 2 ∷ s.raised }) (w, r0, r1, refl, r3))

-- What the start leaves: interrupt 2 has its handler, which polls executor 2.
abbrev Ready : World → Type 0
Ready w =
    (w.slots ≡ none ∷ none ∷ some 2 ∷ none ∷ [])
    × (w.handlers ≡ none ∷ none ∷ some 2 ∷ none ∷ [])
    × (w.polls ≡ [])

abbrev polls_of : Bool → List ℕ
polls_of high = if high then 2 ∷ [] else []

-- No interrupt is pending any more, and the executor was polled so often.
abbrev Served : Bool → World → Type 0
Served high w = (w.pending ≡ no_interrupts) × (w.polls ≡ polls_of high)

abbrev idle : ℕ → List ℕ → World
idle core polls = record {
  core = core;
  slots = none ∷ none ∷ some 2 ∷ none ∷ [];
  handlers = none ∷ none ∷ some 2 ∷ none ∷ [];
  pending = no_interrupts;
  polls = polls;
}

service_quiet : (n : ℕ) (w : World) → w.pending ≡ no_interrupts → service n w ≡ returns w
unfolding service
service_quiet zero w e = refl
service_quiet (suc n) w e = simp e (service_quiet n w e)

service-Served :
    (n : ℕ) (raised : List ℕ) (high : Bool) (w : World)
    → Ready w
    → is_raised 0 raised ≡ false
    → is_raised 1 raised ≡ false
    → is_raised 2 raised ≡ high
    → is_raised 3 raised ≡ false
    → Returns (service (suc n) (raised_in raised w)) (Served high)
unfolding service handle_interrupt
service-Served n raised true w (s, h, p) a b c d =
    simp (a, b, c, d, s, h, p) (rw (service_quiet n (idle w.core (2 ∷ [])) refl) (refl, refl))
service-Served n raised false w (s, h, p) a b c d =
    simp (a, b, c, d, s, h, p) (rw (service_quiet n (idle w.core []) refl) (refl, refl))

high_prio-Ready : (core : ℕ) → Returns (high_prio core) Ready
unfolding high_prio start
high_prio-Ready core = (refl, refl, refl)

-- From the start of both executors on: whichever of their tasks are woken, in any number and order,
-- nothing panics; the signal of the thread executor is set exactly if one of its tasks is among
-- them; and however often, but at least once, the interrupts are looked at then, the handlers that
-- are installed poll the high-priority executor once if one of its tasks was woken, and nothing
-- otherwise, and leave no interrupt pending.
pub woken_lem :
    (looks core : ℕ) (ws : List Waker)
    → Returns (woken (suc looks) core ws) (λ (s, w).
      (s.work ≡ any_thread ws ∷ [])
      × (w.pending ≡ no_interrupts)
      × (w.polls ≡ (if any_high_prio ws then 2 ∷ [] else [])))
unfolding woken
woken_lem looks core ws = Returns-bind (high_prio core) _ Ready _ (high_prio-Ready core) λ w ready.
    Returns-bind (wake ws (record { work = false ∷ []; raised = [] })) _
      (Woken (any_thread ws) (any_high_prio ws)) _
      (wake-Woken ws false false (record { work = false ∷ []; raised = [] })
        (refl, refl, refl, refl, refl))
      λ s (work, r0, r1, r2, r3).
        Returns-bind (service (suc looks) (raised_in s.raised w)) _ (Served (any_high_prio ws)) _
          (service-Served looks s.raised (any_high_prio ws) w ready r0 r1 r2 r3)
          (λ t (quiet, p). (work, quiet, p))
