-- ===== src/Net/Radio.antt =====
-- sw/fw/src/systems/net.rs: `connection_task`, which keeps the radio connected. The controller of
-- the crate esp-wifi is a parameter.
use powersupply.Base.{
  ℕ, zero, suc, ◌≡◌, refl, Bool, true, false, List, [], ◌∷◌, if◌then◌else◌, Result, ok, err,
  Outcome, returns, unwrap, assert, ◌>>=◌, ◌>>◌, Returns, Returns-bind,
}

-- `WifiController`, `get_wifi_state` and the timer, which time and the radio change. A controller
-- that has been started says so.
pub record Controller : Type 1 where
  pub State : Type 0
  pub WifiError : Type 0
  pub is_connected : State → Bool
  pub wait_disconnected : State → State
  pub sleep : ℕ → State → State
  pub is_started : State → Result Bool WifiError
  pub set_configuration : State → Result (Unit {0}) WifiError × State
  pub start : State → Result (Unit {0}) WifiError × State
  pub connect : State → Result (Unit {0}) WifiError × State
  pub is_started-start : (s : State) → (start s).0 ≡ ok tt → is_started (start s).1 ≡ ok true

module _ (controller : Controller) (fits : Bool) where
  open controller use {
    State, WifiError, is_connected, wait_disconnected, sleep, is_started, set_configuration, start,
    connect, is_started-start,
  }

  -- `matches!(controller.is_started(), Ok(true))`
  abbrev pub says_started : Result Bool WifiError → Bool
  says_started (ok b) = b
  says_started (err _) = false

  -- The start of the controller. `fits` says that the name and the password of the network have room
  -- in the configuration.
  unfoldable pub configure_and_start : State → Outcome State
  configure_and_start s = do
    assert fits
    let (configured, t) = set_configuration s
    unwrap configured
    let (started, u) = start t
    unwrap started
    returns u

  -- A round up to `connect`
  unfoldable pub before_connect : State → Outcome State
  unfolding configure_and_start
  before_connect s =
      let t = if is_connected s then sleep 1000 (wait_disconnected s) else s in
      if says_started (is_started t) then returns t else configure_and_start t

  unfoldable pub after_connect : Result (Unit {0}) WifiError × State → State
  after_connect (ok _, s) = s
  after_connect (err _, s) = sleep 5000 s

  -- So many rounds of `connection_task`: the states in which `connect` is called.
  unfoldable pub connection_task : ℕ → State → Outcome (List State)
  unfolding before_connect after_connect
  connection_task zero s = returns []
  connection_task (suc n) s = do
    t ← before_connect s
    ts ← connection_task n (after_connect (connect t))
    returns (t ∷ ts)

  abbrev pub IsStarted : State → Type 0
  IsStarted s = is_started s ≡ ok true

  abbrev pub All : (State → Type 0) → List State → Type 0
  All P [] = Unit
  All P (s ∷ ss) = P s × All P ss

  abbrev pub HasLength : ℕ → List State → Type 0
  HasLength zero [] = Unit
  HasLength (suc n) (_ ∷ ss) = HasLength n ss
  HasLength _ _ = ⊥

  configure_and_start-IsStarted :
      fits ≡ true
      → ((t : State) → (set_configuration t).0 ≡ ok tt)
      → ((t : State) → (start t).0 ≡ ok tt)
      → (s : State) → Returns (configure_and_start s) IsStarted
  unfolding configure_and_start
  configure_and_start-IsStarted f c u s =
      let t = (set_configuration s).1 in rw (f, c s, u t) (is_started-start t (u t))

  before_connect-IsStarted :
      fits ≡ true
      → ((t : State) → (set_configuration t).0 ≡ ok tt)
      → ((t : State) → (start t).0 ≡ ok tt)
      → (s : State) → Returns (before_connect s) IsStarted
  unfolding before_connect
  before_connect-IsStarted f c u s = by_answer _ (is_started _) refl
    where
      by_answer :
          (t : State) (r : Result Bool WifiError)
          → is_started t ≡ r
          → Returns (if says_started r then returns t else configure_and_start t) IsStarted
      by_answer t (ok true) e = e
      by_answer t (ok false) e = configure_and_start-IsStarted f c u t
      by_answer t (err x) e = configure_and_start-IsStarted f c u t

  -- With a name and a password that fit, and a controller that takes its configuration and starts,
  -- whatever else it answers and however often it loses the network or fails to connect: the task
  -- does not panic, each of its rounds calls `connect` once, and always on a controller that says
  -- that it is started.
  pub connection_task-IsStarted :
      (n : ℕ) (s : State)
      → fits ≡ true
      → ((t : State) → (set_configuration t).0 ≡ ok tt)
      → ((t : State) → (start t).0 ≡ ok tt)
      → Returns (connection_task n s) (λ ts. HasLength n ts × All IsStarted ts)
  unfolding connection_task
  connection_task-IsStarted zero s f c u = (tt, tt)
  connection_task-IsStarted (suc n) s f c u =
      Returns-bind (before_connect s) _ IsStarted _ (before_connect-IsStarted f c u s) λ t started.
        Returns-bind (connection_task n (after_connect (connect t))) _
          (λ ts. HasLength n ts × All IsStarted ts) _
          (connection_task-IsStarted n (after_connect (connect t)) f c u)
          λ ts (l, a). (l, (started, a))
