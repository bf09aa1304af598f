-- ===== src/Firmware.antt =====
-- sw/fw/src/main.rs: the task `app`, which starts the systems one after the other.
pub mod Boot
pub mod Monitored
pub mod Locks
use powersupply.Base.{
  ℕ, Bool, List, [], ◌∷◌, Option, none, some, Result, Outcome, returns, panics, ◌>>=◌, ◌>>◌,
}
use powersupply.Base.Time.{Time}
use powersupply.Stusb4500.{Bus}
use powersupply.Storage.{Inner}
use powersupply.Storage as store
use powersupply.Storage.Crates.{Postcard, Flash}
use powersupply.Storage.Partition.{PartitionEntry}
use powersupply.Storage.Laws.{slot}
use powersupply.Storage.Shared.{of_settings, of_data}
use powersupply.Config.Fields.{Settings}
use powersupply.Config.{Config, init as init_config}
use powersupply.Record.{Record, Data, init as init_record}
use powersupply.Storage.{init as init_storage}
use powersupply.Watchdog.{Inner as Watchdog, init as init_watchdog, ticket, run}
use powersupply.UsbPd.{init as init_usb_pd}

-- What is done once the controller has started.
abbrev pub and_then :
    {S A : Type 0} → Option (Outcome (Unit {0} × S)) → (S → Outcome A) → Option (Outcome A)
and_then none k = none
and_then (some o) k = some (o >>= λ (_, s). k s)

module _ (bus : Bus) (polls : ℕ) (lib : Flash) (time : Time) (settings_codec : Postcard Settings)
    (data_codec : Postcard Data) where
  -- The systems that run. What the last fetch left of the storage is with the counters.
  pub record Systems : Type 0 where
    pub usb_pd : bus.State
    pub config : Config (slot lib (of_settings lib settings_codec data_codec))
    pub counters : Record time (slot lib (of_data lib settings_codec data_codec))
    pub watchdog : Watchdog
    pub app_ticket : ℕ
    pub net_ticket : ℕ

  -- What follows the start of the USB-PD controller, up to the loop.
  unfoldable pub start_systems :
      {E : Type 0}
      → Postcard (Unit {0})
      → List (Result PartitionEntry E)
      → lib.Memory
      → ℕ
      → Watchdog
      → bus.State
      → Outcome Systems
  start_systems marker_codec table m app_ticket w usb = do
    storage ← init_storage lib marker_codec table m
    config ← init_config (slot lib (of_settings lib settings_codec data_codec)) storage
    counters ← init_record time (slot lib (of_data lib settings_codec data_codec)) config.storage
    (net_ticket, _, w') ← ticket w
    returns (record {
      usb_pd = usb;
      config = config;
      counters = counters;
      watchdog = w';
      app_ticket = app_ticket;
      net_ticket = net_ticket;
    })

  -- `app` up to its loop, with the memory that is found and so many attempts to reach the
  -- controller; none while a poll of the controller goes on.
  unfoldable pub boot :
      {E : Type 0}
      → ℕ
      → Postcard (Unit {0})
      → List (Result PartitionEntry E)
      → lib.Memory
      → bus.State
      → Option (Outcome Systems)
  unfolding start_systems
  boot attempts marker_codec table m s = elim (ticket init_watchdog) [
    | panics ↦ some panics
    | returns (app_ticket, _, w) ↦
        and_then (init_usb_pd bus polls attempts s)
          (start_systems marker_codec table m app_ticket w)
  ]
