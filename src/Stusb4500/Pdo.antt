-- ===== src/Stusb4500/Pdo.antt =====
-- sw/fw/src/drivers/stusb4500/mod.rs: the power data object of a fixed supply, and the states of
-- the policy engine.
use powersupply.Base.{
  ℕ, ◌+◌, ◌*◌, ◌/◌, ◌%◌, ◌^◌, ◌<◌, ◌≡◌, refl, arith, Option, none, some, ◌==◌, if◌then◌else◌,
}

-- `PolicyEngineFSMState`
pub data FsmState : Type 0 where
  init soft_reset hard_reset send_soft_reset c_bist snk_startup snk_discovery : FsmState
  snk_wait_for_capabilities snk_evaluate_capabilities snk_select_capabilities : FsmState
  snk_transition_sink snk_ready snk_ready_sending hard_reset_shutdown : FsmState
  hard_reset_recovery error_recovery : FsmState

unfoldable pub to_u8 : FsmState → ℕ
to_u8 init = 0x00
to_u8 soft_reset = 0x01
to_u8 hard_reset = 0x02
to_u8 send_soft_reset = 0x03
to_u8 c_bist = 0x04
to_u8 snk_startup = 0x12
to_u8 snk_discovery = 0x13
to_u8 snk_wait_for_capabilities = 0x14
to_u8 snk_evaluate_capabilities = 0x15
to_u8 snk_select_capabilities = 0x16
to_u8 snk_transition_sink = 0x17
to_u8 snk_ready = 0x18
to_u8 snk_ready_sending = 0x19
to_u8 hard_reset_shutdown = 0x3A
to_u8 hard_reset_recovery = 0x3B
to_u8 error_recovery = 0x40

-- `TryFromPrimitive`
unfoldable pub fsm_state_from : ℕ → Option FsmState
fsm_state_from n =
    if n == 0x00
    then some init
    else if n == 0x01
    then some soft_reset
    else if n == 0x02
    then some hard_reset
    else if n == 0x03
    then some send_soft_reset
    else if n == 0x04
    then some c_bist
    else if n == 0x12
    then some snk_startup
    else if n == 0x13
    then some snk_discovery
    else if n == 0x14
    then some snk_wait_for_capabilities
    else if n == 0x15
    then some snk_evaluate_capabilities
    else if n == 0x16
    then some snk_select_capabilities
    else if n == 0x17
    then some snk_transition_sink
    else if n == 0x18
    then some snk_ready
    else if n == 0x19
    then some snk_ready_sending
    else if n == 0x3A
    then some hard_reset_shutdown
    else if n == 0x3B
    then some hard_reset_recovery
    else if n == 0x40
    then some error_recovery
    else none

-- `set_voltage`, bits 19 to 10, and `set_current`, bits 9 to 0, of the 32 bits.
abbrev pub set_voltage : ℕ → ℕ → ℕ
set_voltage voltage pdo = pdo / 2 ^ 20 * 2 ^ 20 + voltage % 2 ^ 10 * 2 ^ 10 + pdo % 2 ^ 10

abbrev pub set_current : ℕ → ℕ → ℕ
set_current current pdo = pdo / 2 ^ 10 * 2 ^ 10 + current % 2 ^ 10

-- `FixedPdo::new`
unfoldable pub fixed_pdo : ℕ → ℕ → ℕ
fixed_pdo voltage current = set_current current (set_voltage voltage 0)

abbrev pub voltage_of : ℕ → ℕ
voltage_of pdo = pdo / 2 ^ 10 % 2 ^ 10

abbrev pub current_of : ℕ → ℕ
current_of pdo = pdo % 2 ^ 10

-- A state is read back from its byte, and a byte that is read as a state is that of the state.
pub fsm_state_from-to_u8 :
    (n : ℕ) (s : FsmState)
    → (fsm_state_from (to_u8 s) ≡ some s) × (fsm_state_from n ≡ some s → to_u8 s ≡ n)
unfolding fsm_state_from to_u8
fsm_state_from-to_u8 n init = (refl, λ h. ground arith)
fsm_state_from-to_u8 n soft_reset = (refl, λ h. ground arith)
fsm_state_from-to_u8 n hard_reset = (refl, λ h. ground arith)
fsm_state_from-to_u8 n send_soft_reset = (refl, λ h. ground arith)
fsm_state_from-to_u8 n c_bist = (refl, λ h. ground arith)
fsm_state_from-to_u8 n snk_startup = (refl, λ h. ground arith)
fsm_state_from-to_u8 n snk_discovery = (refl, λ h. ground arith)
fsm_state_from-to_u8 n snk_wait_for_capabilities = (refl, λ h. ground arith)
fsm_state_from-to_u8 n snk_evaluate_capabilities = (refl, λ h. ground arith)
fsm_state_from-to_u8 n snk_select_capabilities = (refl, λ h. ground arith)
fsm_state_from-to_u8 n snk_transition_sink = (refl, λ h. ground arith)
fsm_state_from-to_u8 n snk_ready = (refl, λ h. ground arith)
fsm_state_from-to_u8 n snk_ready_sending = (refl, λ h. ground arith)
fsm_state_from-to_u8 n hard_reset_shutdown = (refl, λ h. ground arith)
fsm_state_from-to_u8 n hard_reset_recovery = (refl, λ h. ground arith)
fsm_state_from-to_u8 n error_recovery = (refl, λ h. ground arith)

-- The voltage and the current, of ten bits each, are read back from the object, and all its other
-- bits are 0.
pub fixed_pdo_lem :
    (voltage current : ℕ)
    → voltage < 2 ^ 10
    → current < 2 ^ 10
    → (voltage_of (fixed_pdo voltage current) ≡ voltage)
      × (current_of (fixed_pdo voltage current) ≡ current)
      × (fixed_pdo voltage current < 2 ^ 20)
unfolding fixed_pdo
fixed_pdo_lem voltage current v c = (omega arith, omega arith, omega arith)
