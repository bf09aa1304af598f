-- ===== src/Executors/Interrupt.antt =====
-- sw/fw/src/executors/interrupt.rs: starting an interrupt executor, and the handler that polls it.
use powersupply.Base.{
  ℕ, ◌-◌, ◌^◌, ◌<◌, ◌≡◌, ◌≢◌, refl, Bool, false, Option, none, some, List, [], ◌∷◌, arith, ltb,
  ◌==◌, if◌then◌else◌, length, get_or, set, replicate, length-set, get_or-set_self, get_or-set_ne,
  Outcome, returns, panics, ◌>>=◌, ◌>>◌, assert, unwrap_option, Returns,
}

-- `usize::MAX` of the 32-bit target: the executor has not been started.
abbrev pub usize_max : ℕ
usize_max = 2 ^ 32 - 1

-- `EXECUTORS`: the executor that each of the four software interrupts polls, or null. An executor
-- is known by its software interrupt `SWI`.
abbrev pub Slots : Type 0
Slots = List (Option ℕ)

abbrev pub no_executors : Slots
no_executors = replicate 4 none

-- The handler of each of the four software interrupts: `some k` is `swi_handlerk`.
abbrev pub no_handlers : List (Option ℕ)
no_handlers = replicate 4 none

abbrev pub no_interrupts : List Bool
no_interrupts = replicate 4 false

-- An `InterruptExecutor`, with the statics, the handlers that are installed, and which software
-- interrupts are pending. `polls` are the executors polled, the last one first.
pub record World : Type 0 where
  pub core : ℕ
  pub slots : Slots
  pub handlers : List (Option ℕ)
  pub pending : List Bool
  pub polls : List ℕ

abbrev pub new : Slots → World
new slots = record {
  core = usize_max;
  slots = slots;
  handlers = no_handlers;
  pending = no_interrupts;
  polls = [];
}

-- `start` on the core `this_core`, for the software interrupt `swi`
unfoldable pub start : ℕ → ℕ → World → Outcome World
start swi this_core w = do
  assert (w.core == usize_max)
  assert (ltb swi (length w.slots))
  assert (ltb swi 4)
  returns (record w {
    core = this_core;
    slots = set w.slots swi (some swi);
    handlers = set w.handlers swi (some swi);
  })

-- `spawner`
unfoldable pub spawner : World → Outcome (Unit {0})
spawner w = if w.core == usize_max then panics else returns tt

-- `SoftwareInterrupt::reset`
abbrev pub reset : ℕ → World → World
reset num w = record w { pending = set w.pending num false }

-- `handle_interrupt::<NUM>`: the interrupt is reset; the null pointer and the index are checked.
unfoldable pub handle_interrupt : ℕ → World → Outcome World
handle_interrupt num w = do
  assert (ltb num (length w.slots))
  executor ← unwrap_option (get_or w.slots num none)
  returns (record (reset num w) { polls = executor ∷ w.polls })

abbrev started : ℕ → ℕ → Slots → World
started swi this_core slots = record {
  core = this_core;
  slots = set slots swi (some swi);
  handlers = set no_handlers swi (some swi);
  pending = no_interrupts;
  polls = [];
}

start-new :
    (swi this_core : ℕ) (slots : Slots)
    → length slots ≡ 4
    → swi < 4
    → start swi this_core (new slots) ≡ returns (started swi this_core slots)
unfolding start
start-new swi this_core slots four lt = ground arith

-- A fresh executor starts on one of the four software interrupts, and on a core whose number is
-- not `usize::MAX`: before that `spawner` panics and, if no executor has that interrupt, so does
-- its handler. After it `spawner` returns, the handler installed for the interrupt resets the
-- interrupt and polls this executor, a second
-- start panics, and the other interrupts poll what they did.
pub start_lem :
    (swi this_core : ℕ) (slots : Slots)
    → length slots ≡ 4
    → swi < 4
    → this_core ≢ usize_max
    → get_or slots swi none ≡ none
    → (spawner (new slots) ≡ panics)
      × (handle_interrupt swi (new slots) ≡ panics)
      × Returns (start swi this_core (new slots)) (λ w.
        (spawner w ≡ returns tt)
        × (get_or w.handlers swi none ≡ some swi)
        × (handle_interrupt swi w ≡ returns (record (reset swi w) { polls = swi ∷ w.polls }))
        × ((again : ℕ) → start swi again w ≡ panics)
        × ((j : ℕ) → swi ≢ j → get_or w.slots j none ≡ get_or slots j none))
unfolding start spawner handle_interrupt
start_lem swi c slots four lt ne free = (
  refl,
  ground arith,
  rw (start-new swi c slots four lt)
      (ground arith, installed, polled, (λ again. ground arith), others),
)
  where
    installed : get_or (set no_handlers swi (some swi)) swi none ≡ some swi
    installed = get_or-set_self no_handlers swi (some swi) none lt

    polled :
        handle_interrupt swi (started swi c slots)
        ≡ returns (record (reset swi (started swi c slots)) { polls = swi ∷ [] })
    polled =
        ground (arith, length-set slots swi (some swi), get_or-set_self slots swi (some swi) none)

    others : (j : ℕ) → swi ≢ j → get_or (set slots swi (some swi)) j none ≡ get_or slots j none
    others j n = get_or-set_ne slots swi j (some swi) none n
