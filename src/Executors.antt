-- ===== src/Executors.antt =====
-- sw/fw/src/executors/mod.rs: how a context word tells the executors apart when work is pended.
pub mod Thread
pub mod Interrupt
pub mod Wakers
use powersupply.Base.{
  ℕ, zero, suc, ◌+◌, ◌*◌, ◌/◌, ◌%◌, ◌^◌, ◌≤◌, ◌<◌, ◌≡◌, ◌≢◌, refl, Bool, true, false, List, [], ◌∷◌,
  arith, ltb, leb, ◌==◌, if◌then◌else◌, length, set, Outcome, returns, panics, ◌>>=◌, ◌>>◌, assert,
}

abbrev pub thread_mode_context : ℕ
thread_mode_context = 16

-- `SIGNAL_WORK_THREAD_MODE`, and the software interrupts raised, the last one first.
pub record Signals : Type 0 where
  pub work : List Bool
  pub raised : List ℕ

-- `pend_thread_mode` of executors/thread.rs; the index is checked.
pend_thread_mode : ℕ → Signals → Outcome Signals
pend_thread_mode core s = do
  assert (ltb core (length s.work))
  returns (record s { work = set s.work core true })

-- The first two bytes of `to_le_bytes` of a 32-bit usize.
abbrev byte_0 : ℕ → ℕ
byte_0 context = context % 256

abbrev byte_1 : ℕ → ℕ
byte_1 context = context / 256 % 256

abbrev raise : ℕ → Signals → Signals
raise swi s = record s { raised = swi ∷ s.raised }

-- `__pender`
unfoldable pub pender : ℕ → Signals → Outcome Signals
unfolding pend_thread_mode
pender context s =
    if leb (byte_0 context) 3
    then returns (raise (byte_0 context) s)
    else do assert (byte_0 context == thread_mode_context); pend_thread_mode (byte_1 context) s

-- The context of a thread-mode executor on a core: `usize::from_le_bytes([16, core as u8, 0, 0])`.
unfoldable pub thread_context : ℕ → ℕ
thread_context core = thread_mode_context + 256 * (core % 256)

-- The context of an interrupt executor is the number of its software interrupt.
abbrev pub interrupt_context : ℕ → ℕ
interrupt_context swi = swi

set-one : (w : List Bool) → length w ≡ 1 → set w 0 true ≡ true ∷ []
set-one [] h = absurd (omega arith)
set-one (b ∷ []) h = refl
set-one (b ∷ c ∷ w) h = absurd (omega arith)

-- What a waker pends by the context of its executor: for an interrupt executor its own software
-- interrupt and nothing else; for the thread executor of core 0 the signal of that core, of any
-- other core (up to 255) a panic, since there is one signal. On a context whose low byte is neither
-- 0 to 3 nor 16, a panic.
pub pender_contexts :
    (s : Signals)
    → length s.work ≡ 1
    → ((swi : ℕ)
        → swi < 4
        → pender (interrupt_context swi) s ≡ returns (record s { raised = swi ∷ s.raised }))
      × (pender (thread_context 0) s ≡ returns (record s { work = true ∷ [] }))
      × ((core : ℕ) → 0 < core → core < 256 → pender (thread_context core) s ≡ panics)
      × ((context : ℕ) → 3 < context % 256 → context % 256 ≢ 16 → pender context s ≡ panics)
unfolding pender thread_context
pender_contexts s e = (
  (λ swi lt. ground arith),
  ground (arith, set-one s.work e),
  (λ core lo hi. ground arith),
  (λ context lo ne. ground arith),
)
