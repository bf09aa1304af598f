-- ===== src/Firmware/Locks.antt =====
-- The locks of the systems (sw/fw/src/systems), in the order in which each operation takes and
-- leaves them, and tasks that run operations and wait for locks.
pub mod Order
pub mod Freedom
pub mod Fair
pub mod Rounds
use powersupply.Base.{
  ℕ, zero, suc, Bool, true, false, not, ◌&&◌, ◌||◌, List, [], ◌∷◌, ◌++◌, ltb, ◌==◌, if◌then◌else◌,
}

-- The `Mutex`es, and the bus that is shared by both chips.
pub data Lock : Type 0 where
  config storage power_ext record_lock watchdog usb_pd i2c_bus stats : Lock

pub data Op : Type 0 where
  acquire release : Lock → Op
  -- room in the notifier of the configuration, for which `publish` waits
  await_room : Op

-- The operations that take locks, those with branches by the branch.
pub data Operation : Type 0 where
  config_fetch config_update config_unchanged config_publish storage_call : Operation
  log_overcurrent record_publish sync_round : Operation
  watchdog_ticket watchdog_feed set_pin state_round : Operation
  power_persist power_state : Operation
  monitor_fault monitor_activate monitor_stabilize monitor_idle : Operation
  stats_round latest_data : Operation

-- `lock` for one statement or one block
abbrev alone : Lock → List Op
alone l = acquire l ∷ release l ∷ []

-- `operation` with the lock held
abbrev under : Lock → List Op → List Op
under l ops = acquire l ∷ ops ++ release l ∷ []

-- An access to a register of either chip: a transaction, which takes the bus.
abbrev access : List Op
access = alone i2c_bus

-- A modification reads and writes.
abbrev modify : List Op
modify = access ++ access

-- `set_pin`
abbrev set_level : List Op
set_level = under usb_pd access

-- A round of `state_task`: two registers are read.
abbrev read_state : List Op
read_state = under usb_pd (access ++ access)

-- `persist`: the reference is written, and the limit modified.
abbrev persist_power : List Op
persist_power = under power_ext (access ++ modify)

-- A round of `monitor_task` up to its branch: the status is read, and the ticket fed.
abbrev monitored : List Op → List Op
monitored branch = under power_ext (access ++ alone watchdog ++ branch)

-- `update`: changed settings are stored and published with the lock held.
abbrev update_config : Bool → List Op
update_config changed = under config (if changed then alone storage ++ await_room ∷ [] else [])

-- A round of `sync_task`: the lock is left before the counters are stored.
abbrev sync_record : List Op
sync_record = alone record_lock ++ alone record_lock ++ alone storage

-- A round of the task of the statistics
abbrev measure : List Op
measure = alone power_ext ++ alone stats

unfoldable pub locks_of : Operation → List Op
locks_of config_fetch = alone config
locks_of config_update = update_config true
locks_of config_unchanged = update_config false
locks_of config_publish = alone config
locks_of storage_call = alone storage
locks_of log_overcurrent = alone record_lock
locks_of record_publish = alone record_lock
locks_of sync_round = sync_record
locks_of watchdog_ticket = alone watchdog
locks_of watchdog_feed = alone watchdog
locks_of set_pin = set_level
locks_of state_round = read_state
locks_of power_persist = persist_power
locks_of power_state = alone power_ext
locks_of monitor_fault = monitored (modify ++ set_level)
locks_of monitor_activate = monitored (modify ++ set_level)
locks_of monitor_stabilize = monitored (alone record_lock)
locks_of monitor_idle = monitored []
locks_of stats_round = measure
locks_of latest_data = alone stats

-- A task: whether it runs operations of the configuration, the locks that it holds, the last one
-- first, and what it still does.
pub record Task : Type 0 where
  pub shares : Bool
  pub held : List Lock
  pub rest : List Op

abbrev pub index : Lock → ℕ
index config = 0
index storage = 1
index power_ext = 2
index record_lock = 3
index watchdog = 4
index usb_pd = 5
index i2c_bus = 6
index stats = 7

abbrev pub holds : Lock → List Lock → Bool
holds l [] = false
holds l (h ∷ hs) = index h == index l || holds l hs

abbrev pub is_held : Lock → List Task → Bool
is_held l [] = false
is_held l (t ∷ ts) = holds l t.held || is_held l ts

abbrev pub without : Lock → List Lock → List Lock
without l [] = []
without l (h ∷ hs) = if index h == index l then hs else h ∷ without l hs

-- A task takes its next step: a lock is taken when no task holds it, and the notifier has room or
-- not, whatever that depends on.
abbrev pub can_go : Bool → List Task → List Op → Bool
can_go room ts [] = false
can_go room ts (release l ∷ ops) = true
can_go room ts (acquire l ∷ ops) = not (is_held l ts)
can_go room ts (await_room ∷ ops) = room

unfoldable pub advance : List Op → Task → Task
advance [] t = t
advance (release l ∷ ops) t = record t { held = without l t.held; rest = ops }
advance (acquire l ∷ ops) t = record t { held = l ∷ t.held; rest = ops }
advance (await_room ∷ ops) t = record t { rest = ops }

-- The task with this number runs up to its next lock, or waits.
unfoldable pub step_from : Bool → List Task → ℕ → List Task → List Task
unfolding advance
step_from room all n [] = []
step_from room all zero (t ∷ ts) = (if can_go room all t.rest then advance t.rest t else t) ∷ ts
step_from room all (suc n) (t ∷ ts) = t ∷ step_from room all n ts

-- A task, and whether the notifier has room then.
abbrev pub Turn : Type 0
Turn = ℕ × Bool

unfoldable pub step : Turn → List Task → List Task
unfolding step_from
step (n, room) ts = step_from room ts n ts

unfoldable pub steps : List Turn → List Task → List Task
unfolding step
steps [] ts = ts
steps (u ∷ us) ts = steps us (step u ts)

-- Takes the lock of the configuration, or waits for room in its notifier.
abbrev pub needs_config : List Op → Bool
needs_config [] = false
needs_config (acquire l ∷ ops) = index l == 0 || needs_config ops
needs_config (release l ∷ ops) = needs_config ops
needs_config (await_room ∷ ops) = true

abbrev pub script : List Operation → List Op
script [] = []
script (o ∷ os) = locks_of o ++ script os

-- Tasks that run these operations, one after the other.
unfoldable pub tasks : List (List Operation) → List Task
tasks [] = []
tasks (os ∷ oss) =
    record { shares = needs_config (script os); held = []; rest = script os } ∷ tasks oss
