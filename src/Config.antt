-- ===== src/Config.antt =====
-- sw/fw/src/systems/config.rs: the settings in memory, on flash and as published.
pub mod Fields
pub mod Durability
pub mod Reboot
pub mod Delivery
use powersupply.Base.{
  Bool, true, false, List, [], ◌∷◌, if◌then◌else◌, unwrap_or, Outcome, returns, unwrap, ◌>>=◌, ◌>>◌,
}
use powersupply.Storage.{Slot}
use powersupply.Config.Fields.{Settings, default_settings, settings_eq}

module _ (slot : Slot Settings) where
  open slot use {State, load, save}

  -- `inner`, `storage` and `notifier`: of the notifier, the messages published, the last one first.
  pub record Config : Type 0 where
    pub settings : Settings
    pub storage : State
    pub published : List Settings

  -- `Config::init`; the task that it spawns is `push_task` below.
  unfoldable pub init : State → Outcome Config
  init st = do
    let (r, st') = load st
    data' ← unwrap r
    returns (record { settings = unwrap_or data' default_settings; storage = st'; published = [] })

  -- What `update` does under the lock when the settings have changed: persist, and publish.
  persist : Config → Outcome Config
  persist c = do
    let (r, st) = save c.settings c.storage
    unwrap r
    returns (record c { storage = st; published = c.settings ∷ c.published })

  -- `Config::update`
  unfoldable pub update : (Settings → Settings) → Config → Outcome Config
  unfolding persist
  update f c =
      let c' = record c { settings = f c.settings } in
      if settings_eq c.settings c'.settings then returns c' else persist c'

  -- `Config::publish_immediate`
  unfoldable pub publish_immediate : Config → Config
  publish_immediate c = record c { published = c.settings ∷ c.published }

  -- A round of `push_task`: the message of another publication came first, or the timer did.
  unfoldable pub push_round : Bool → Config → Config
  unfolding publish_immediate
  push_round timer_first c = if timer_first then publish_immediate c else c

  -- The calls that the other parts of the firmware make, in the order in which they get the lock.
  pub data Call : Type 0 where
    update_by : (Settings → Settings) → Call
    publish : Call
    push : Bool → Call

  unfoldable pub call : Call → Config → Outcome Config
  call (update_by f) c = update f c
  call publish c = returns (publish_immediate c)
  call (push timer_first) c = returns (push_round timer_first c)

  unfoldable pub run : List Call → Config → Outcome Config
  run [] c = returns c
  run (k ∷ ks) c = call k c >>= run ks
