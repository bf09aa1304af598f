-- ===== src/Events/Channels.antt =====
-- sw/fw/src/systems/events.rs, with the round of sw/fw/src/systems/net.rs and `update` of
-- sw/fw/src/systems/config.rs: the tasks between the subscriptions and the broker, each up to its
-- next `await`. Of the messages only their topics are kept.
use powersupply.Base.{
  ℕ, suc, Bool, true, false, not, ◌&&◌, List, [], ◌∷◌, Option, none, some, if◌then◌else◌,
}
use powersupply.Net.{Topic, stats_topic, record_topic, config_topic}

-- Where the network's task stands in `mqtt_connected`: in `select`, or in `publish` of
-- `Config::update`, with the settings stored and the lock of the configuration held.
pub data NetPc : Type 0 where
  listening publishing : NetPc

-- Where `publish_task` stands: in `select3`, or in `net.send`.
pub data PublishPc : Type 0 where
  selecting : PublishPc
  sending : Topic → PublishPc

-- The outgoing channel has one place. A subscription has a message that is not read yet, or none;
-- those of the configuration are of power_ext, of `push_task` and of `publish_task`. `parked`: the
-- timer of `push_task` has run out, and it waits for the lock, and reads nothing.
pub record World : Type 0 where
  pub net : NetPc
  pub publisher : PublishPc
  pub outgoing : Option Topic
  pub stats : Bool
  pub record_data : Bool
  pub to_power : Bool
  pub to_push : Bool
  pub to_publish : Bool
  pub parked : Bool
  pub feeds : ℕ

abbrev pub boot : World
boot = record {
  net = listening;
  publisher = selecting;
  outgoing = none;
  stats = false;
  record_data = false;
  to_power = false;
  to_push = false;
  to_publish = false;
  parked = false;
  feeds = 0;
}

-- What the client has received for the network's task: nothing yet, settings that change those in
-- memory, or anything else.
pub data Received : Type 0 where
  nothing settings other : Received

-- A task that runs: the network's with what is received, `push_task` with whether its timer has run
-- out. `publish_settings` is the call of `publish_immediate` in `net_task` of events.rs. A task that
-- waits for the lock stays as it is while that is held.
pub data Task : Type 0 where
  net_task : Received → Task
  push_task : (elapsed : Bool) → Task
  publish_task config_task : Task
  publish_settings publish_stats publish_record : Task

abbrev pub is_some : Option Topic → Bool
is_some none = false
is_some (some _) = true

-- All subscriptions of the configuration get a message.
abbrev pub notify : World → World
notify w = record w { to_power = true; to_push = true; to_publish = true }

abbrev pub feed : World → World
feed w = record w { feeds = suc w.feeds }

-- The queue of the notifier has one place, free when every subscriber has read its message.
abbrev pub has_room : World → Bool
has_room w = not w.to_power && (not w.to_push && not w.to_publish)

-- A round of `mqtt_connected`, which prefers the outgoing channel, and then feeds its ticket. With
-- nothing to send and nothing received it waits, and does not feed.
abbrev pub net_step : Received → World → World
net_step received w = elim w.net [
  | listening ↦ elim w.outgoing [
    | some _ ↦ feed (record w { outgoing = none })
    | none ↦ elim received [
      | nothing ↦ w
      | settings ↦ record w { net = publishing }
      | other ↦ feed w
    ]
  ]
  | publishing ↦ if has_room w then feed (notify (record w { net = listening })) else w
]

-- `publish_task`: the subscriptions in the order of `select3`, or the channel.
abbrev pub publish_step : World → World
publish_step w = elim w.publisher [
  | selecting ↦
      if w.stats
      then record w { publisher = sending stats_topic; stats = false }
      else (if w.record_data
          then record w { publisher = sending record_topic; record_data = false }
          else (if w.to_publish
              then record w { publisher = sending config_topic; to_publish = false }
              else w))
  | sending topic ↦ elim w.outgoing [
    | none ↦ record w { publisher = selecting; outgoing = some topic }
    | some _ ↦ w
  ]
]

-- `Config::publish_immediate`, which waits for the lock and overwrites what was not read.
abbrev pub publish_immediate : World → World
publish_immediate w = elim w.net [ listening ↦ notify w | publishing ↦ w ]

-- `push_task` takes the lock that it waits for, or stays; or it is in `select`, which looks at the
-- subscription before the timer.
abbrev pub push_step : Bool → World → World
push_step elapsed w =
    if w.parked
    then elim w.net [ listening ↦ notify (record w { parked = false }) | publishing ↦ w ]
    else if w.to_push
    then record w { to_push = false }
    else if elapsed
    then elim w.net [ listening ↦ notify w | publishing ↦ record w { parked = true } ]
    else w

-- A task runs up to its next `await`; one that waits stays where it is.
unfoldable pub step : Task → World → World
step (net_task received) w = net_step received w
step publish_task w = publish_step w
step config_task w = record w { to_power = false }
step (push_task elapsed) w = push_step elapsed w
step publish_settings w = publish_immediate w
step publish_stats w = record w { stats = true }
step publish_record w = record w { record_data = true }

unfoldable pub steps : List Task → World → World
unfolding step
steps [] w = w
steps (t ∷ ts) w = steps ts (step t w)
