-- ===== src/Events.antt =====
-- sw/fw/src/systems/events.rs: what is forwarded between the systems, message by message. The
-- interleavings of these tasks with the network and the configuration are in the modules below.
pub mod Channels
pub mod Deadlock
pub mod Echo
use powersupply.Base.{ℕ, List, Option, none, some, Result, Outcome, returns, panics, unwrap, ◌>>=◌}
use powersupply.Base.Time.{Time}
use powersupply.Storage.{Slot}
use powersupply.Net.{Message, Topic, stats_topic, record_topic, config_topic, new}
use powersupply.Net.Link.{Event, connected_wifi, connected_mqtt}
use powersupply.Config.Fields.{Settings}
use powersupply.Config.{Config, publish_immediate as publish_settings}
use powersupply.Record.{Record, publish_immediate as publish_record, Data as RecordData}
use powersupply.Stats.{Data as StatsData}

-- `WaitResult` of a subscriber
pub data WaitResult (A : Type 0) : Type 0 where
  lagged : WaitResult A
  message : A → WaitResult A

-- `Either3` of the subscriptions of `publish_task`
pub data Either3 : Type 0 where
  first : WaitResult StatsData → Either3
  second : WaitResult RecordData → Either3
  third : WaitResult Settings → Either3

-- `serde_json_core::to_slice` at each of the types, into a buffer of so many bytes
pub record Json : Type 0 where
  pub stats : StatsData → ℕ → Option (List ℕ)
  pub record_data : RecordData → ℕ → Option (List ℕ)
  pub settings : Settings → ℕ → Option (List ℕ)

module _ (json : Json) where
  open json use {stats, record_data, settings}

  abbrev message_new : Topic → (ℕ → Option (List ℕ)) → Outcome (Option Message)
  message_new topic to_slice = unwrap (new topic to_slice) >>= λ m. returns (some m)

  -- A round of `publish_task`, up to the message that `net.send` is given.
  unfoldable pub publish_round : Either3 → Outcome (Option Message)
  publish_round (first (message m)) = message_new stats_topic (stats m)
  publish_round (second (message m)) = message_new record_topic (record_data m)
  publish_round (third (message m)) = message_new config_topic (settings m)
  publish_round _ = returns none

module _ (time : Time) (records : Slot RecordData) (slot : Slot Settings) where
  -- A round of `net_task`.
  unfoldable pub net_round :
      WaitResult Event → Record time records × Config slot → Record time records × Config slot
  net_round (message connected_mqtt) (r, c) =
      (publish_record time records r, publish_settings slot c)
  net_round _ s = s
