-- ===== src/Record.antt =====
-- sw/fw/src/systems/record.rs: the counters of over-current events, and the task that writes them
-- to flash. The task and its callers interleave at every `await`; the lock is held between.
pub mod Protocol
pub mod Interleavings
pub mod Safety
pub mod Flush
pub mod Writes
pub mod Counting
use powersupply.Base.{
  ℕ, zero, suc, ◌+◌, ◌%◌, ◌^◌, Bool, true, false, Option, none, some, List, [], ◌∷◌, if◌then◌else◌,
  leb, unwrap_or, Outcome, returns, unwrap, unwrap_option, ◌>>=◌, ◌>>◌,
}
use powersupply.Base.Time.{Time}
use powersupply.Storage.{Slot}

-- `Data`: both fields are u64.
pub record Data : Type 0 where
  pub overcurrent_count : ℕ
  pub overcurrent_secs : ℕ

abbrev pub default_data : Data
default_data = record { overcurrent_count = 0; overcurrent_secs = 0 }

-- `+=` on a u64, which wraps in the release profile
abbrev pub add_u64 : ℕ → ℕ → ℕ
add_u64 a b = (a + b) % 2 ^ 64

abbrev pub sync_period_secs : ℕ
sync_period_secs = 10

-- A call that has gone through, or that waits for room in a channel.
pub data Progress (A : Type 0) : Type 0 where
  done : A → Progress A
  waits : Progress A

-- Where `sync_task` stands, with the local variable that is live there.
pub data Pc : Type 0 where
  receiving : Pc  -- before `sync_notifier.receive()`
  notified : Pc  -- before `sync_at` is read
  sleeping : (until : ℕ) → Pc  -- in `Timer::at`
  storing : (data' : Data) → Pc  -- before `storage.store`

module _ (time : Time) (slot : Slot Data) where
  open time use {add, from_secs}
  open slot use {State, load, save}

  abbrev pub sync_period : ℕ
  sync_period = from_secs sync_period_secs

  -- `Record` with its `Inner`. The channel `sync_notifier` has one place: `queued` says that it is
  -- taken. The last published message comes first.
  pub record Record : Type 0 where
    pub counters : Data
    pub sync_at : Option ℕ
    pub storage : State
    pub queued : Bool
    pub published : List Data

  unfoldable pub init : State → Outcome Record
  init st = do
    let (r, st') = load st
    found ← unwrap r
    returns (record {
      counters = unwrap_or found default_data;
      sync_at = none;
      storage = st';
      queued = false;
      published = [];
    })

  -- `sync_notifier.send(())`
  send : Record → Progress Record
  send r = if r.queued then waits else done (record r { queued = true })

  -- `schedule_sync`, when the clock reads `now`
  schedule_sync : ℕ → Record → Outcome (Progress Record)
  unfolding send
  schedule_sync now r =
      let r' = record r { published = r.counters ∷ r.published } in
      elim r.sync_at [
        | some _ ↦ returns (done r')
        | none ↦ add now sync_period >>= λ at. returns (send (record r' { sync_at = some at }))
      ]

  unfoldable pub log_overcurrent : ℕ → ℕ → Record → Outcome (Progress Record)
  unfolding schedule_sync
  log_overcurrent now duration_secs r = schedule_sync now (record r {
    counters = record {
      overcurrent_count = add_u64 r.counters.overcurrent_count 1;
      overcurrent_secs = add_u64 r.counters.overcurrent_secs duration_secs;
    };
  })

  unfoldable pub publish_immediate : Record → Record
  publish_immediate r = record r { published = r.counters ∷ r.published }

  -- A round of `push_task`: a publication of another task came first, or the timer did.
  unfoldable pub push_round : Bool → Record → Record
  unfolding publish_immediate
  push_round timer_first r = if timer_first then publish_immediate r else r

  -- `sync_task` up to its next `await`, when the clock reads `now`.
  unfoldable pub sync_step : ℕ → Pc → Record → Outcome (Progress (Pc × Record))
  sync_step now receiving r =
      returns (if r.queued then done (notified, record r { queued = false }) else waits)
  sync_step now notified r = do
    sync_at ← unwrap_option r.sync_at
    returns (done (sleeping sync_at, r))
  sync_step now (sleeping until) r =
      returns
        (if leb until now then done (storing r.counters, record r { sync_at = none }) else waits)
  sync_step now (storing data') r = do
    let (res, st) = save data' r.storage
    unwrap res
    returns (done (receiving, record r { storage = st }))

  -- `sync_task` alone, for at most so many steps, the clock standing at `now`: it ends where the
  -- task waits.
  unfoldable pub run_alone : ℕ → ℕ → Pc → Record → Outcome (Pc × Record)
  run_alone zero now pc r = returns (pc, r)
  run_alone (suc n) now pc r = sync_step now pc r >>= λ p. elim p [
    | waits ↦ returns (pc, r)
    | done (pc', r') ↦ run_alone n now pc' r'
  ]
