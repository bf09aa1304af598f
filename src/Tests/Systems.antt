-- ===== src/Tests/Systems.antt =====
-- The settings, the storage and a session with the broker.
use powersupply.Base.{
  if◌then◌else◌, false, ℕ, suc, ◌≡◌, ◌≢◌, refl, ◌⊎◌, true, none, some, List, [], ◌∷◌, arith, ok,
  err, returns, Returns, Ensures, ◌>>=◌,
}
use powersupply.Storage.{Slot, StorageEntry, marker_entry, Inner, fetch, store, ensure_initialized}
use powersupply.Storage.Key.{StorageKey, marker, record_data, config_settings}
use powersupply.Storage.Laws.{IsMarked, stored, ensure_initialized-stored}
use powersupply.Config.Fields.{Settings, settings_eq, SettingsBuilder, default_settings, integrate}
use powersupply.Config.{Config, Call, update_by, publish, push, init, run}
use powersupply.Config.Durability.{Agrees, updated, run-Agrees}
use powersupply.Config.{update}
use powersupply.Config.Delivery.{
  is_locked_up, LockedUp, Applied, push_task, go_on, World, booted, publish_settings,
  update_by as change, steps, catch_up, steps-Applied,
}
use powersupply.Config.Reboot.{IsReliable, reboot_restores}
use powersupply.Net.{
  Message, implementation_specific_error, network_error, ReasonCode, Client, Parser,
}
use powersupply.Net.Session.{
  Either, first, second, Session, mqtt_connected, live, asked, mqtt_connected_lem,
}
use powersupply.Net.Link.Rounds.{all_asked, net_round_lem}
use powersupply.Net.Link.{
  refused, session, link_down, Answers, Link, connected_wifi, connected_mqtt, net_round,
}
use powersupply.Tests.Instances.{cell, flash, erased, unit_codec, byte_codec}

abbrev to_12_volts : SettingsBuilder
to_12_volts = record { vout_mv = some 12_000; iout_ma = none; backoff_ms = none }

abbrev raised : Settings
raised = record default_settings { vout_mv = 12_000 }

abbrev slot : Slot Settings
slot = cell Settings

abbrev config : Config slot
config = record { settings = default_settings; storage = none; published = [] }

abbrev calls : List (Call slot)
calls = update_by (λ s. integrate s to_12_volts) ∷ push true ∷ publish ∷ []

IsReliable-slot : IsReliable slot
IsReliable-slot = record { saves = λ d s. refl; loads = λ s. (s, refl) }

reboot_restores_example : Returns (init slot none) (λ c.
    Returns
      (run slot calls c)
      (λ c'. Returns (init slot c'.storage) (λ c''. c''.settings ≡ updated slot calls c.settings)))
reboot_restores_example = reboot_restores slot IsReliable-slot calls none

nothing_saved : Agrees slot default_settings config
nothing_saved = record { saved = λ y l. ground arith; published = refl }

run-Agrees_example :
    Ensures
      (run slot calls config)
      (λ c'. Agrees slot default_settings c' × (c'.settings ≡ updated slot calls default_settings))
run-Agrees_example = run-Agrees slot default_settings calls config nothing_saved

abbrev entry : StorageEntry ℕ
entry = record { key = record_data; codec = byte_codec }

abbrev empty : Inner flash
empty = record {
  storage = erased;
  partition = record { offset = 0x9000; size = 0x6000; is_nvs = true };
}

abbrev other_entry : StorageEntry ℕ
other_entry = record { key = config_settings; codec = byte_codec }

ensure_initialized-stored_example :
    let found = (fetch flash (marker_entry unit_codec) empty).0 in
    ((found ≡ ok (some tt))
      × ((j : StorageKey)
          → stored flash (ensure_initialized flash unit_codec empty).1 j ≡ stored flash empty j))
    ⊎ ((found ≢ ok (some tt))
        × ((j : StorageKey)
            → j ≢ marker
            → stored flash (ensure_initialized flash unit_codec empty).1 j ≡ none)
        × IsMarked flash unit_codec (ensure_initialized flash unit_codec empty).1)
unfolding ensure_initialized fetch store
ensure_initialized-stored_example = ensure_initialized-stored flash unit_codec empty refl

-- A client that sends whatever it is given, and a parser that knows one message.
abbrev quiet : Client
quiet = record { State = ℕ; send_message = λ topic content retain n. (ok tt, suc n) }

abbrev parser : Parser
parser = λ bytes. some to_12_volts

abbrev events : List Either
events =
    second (ok ("slakkotron/config", 1 ∷ []))
    ∷ first (record { topic = "slakkotron/stats"; content = [] })
    ∷ second (err implementation_specific_error)
    ∷ second (err network_error)
    ∷ second (ok ("slakkotron/config", 2 ∷ []))
    ∷ []

abbrev held : Session slot quiet parser
held = record { mqtt = 0; config = config; feeds = 0 }

mqtt_connected_lem_example : mqtt_connected slot quiet parser events held ≡ (
    run slot (asked slot quiet parser (live slot quiet parser events)) config >>= λ c.
    returns (true, record { mqtt = 1; config = c; feeds = 4 }))
unfolding powersupply.Net.send_message_qos1
mqtt_connected_lem_example = mqtt_connected_lem slot quiet parser events held

-- The third poll finds the link up, the second one an address; the broker refuses the first socket.
abbrev answers : Answers
answers = record {
  links = false ∷ false ∷ true ∷ [];
  addresses = false ∷ true ∷ [];
  rounds = refused ∷ session events ∷ link_down ∷ [];
}

abbrev offline : Link slot quiet parser 0
offline = record { config = config; feeds = 0; events = []; slept = 0 }

net_round_lem_example : net_round slot quiet parser 0 answers offline ≡ (
    run slot (all_asked slot quiet parser 0 answers.rounds) config >>= λ c. returns (
      true,
      record { config = c; feeds = 6; events = connected_mqtt ∷ connected_wifi ∷ []; slept = 150 },
    ))
net_round_lem_example = net_round_lem slot quiet parser 0 answers offline refl refl

-- The settings are published, and changed before anyone has read them.
abbrev waiting : World slot
waiting = record (booted slot (record config { published = default_settings ∷ [] })) {
  config = record {
    settings = raised;
    storage = some raised;
    published = raised ∷ default_settings ∷ [];
  };
  waiting = true;
  to_power = true;
  to_push = true;
  to_publish = true;
}

waited :
    steps slot (publish_settings ∷ change (λ s. integrate s to_12_volts) ∷ []) (booted slot config)
    ≡ returns waiting
unfolding steps update integrate settings_eq
waited = refl

steps-Applied_example :
    Returns
      (steps slot (if is_locked_up slot waiting then [] else catch_up slot) waiting)
      (λ v. if is_locked_up slot waiting then LockedUp slot waiting v else Applied slot waiting v)
steps-Applied_example =
    steps-Applied slot (publish_settings ∷ change (λ s. integrate s to_12_volts) ∷ []) [] config
      waited

-- During one update the timer of `push_task` runs out; a second update follows at once.
locks_up :
    Returns
      (steps slot
        (change (λ s. integrate s to_12_volts)
          ∷ push_task true
          ∷ go_on
          ∷ change (λ s. default_settings)
          ∷ push_task false
          ∷ [])
        (booted slot config))
      (λ v. is_locked_up slot v ≡ true)
unfolding steps update integrate settings_eq
locks_up = refl
