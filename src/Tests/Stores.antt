-- ===== src/Tests/Stores.antt =====
-- One store for the settings and the counters, and the start of the firmware.
use powersupply.Base.{
  ℕ, ◌≡◌, refl, true, arith, Result, ok, List, [], ◌∷◌, Option, none, some, Returns,
}
use powersupply.Storage.{Inner}
use powersupply.Storage.Crates.{Postcard}
use powersupply.Storage.Partition.{PartitionEntry}
use powersupply.Storage.Shared.{
  Call, fetch_settings, fetch_data, store_settings, store_data, Cells, replay, serve, Shows,
  serve-replay,
}
use powersupply.Config.Fields.{Settings, default_settings}
use powersupply.Record.{Data}
use powersupply.UsbPd.Boot.{Booted}
use powersupply.Watchdog.{run}
use powersupply.Watchdog.Rounds.{any_true}
use powersupply.Firmware.{boot}
use powersupply.Firmware.Boot.{Boots, Started, later, boot-Started}
use powersupply.Tests.Instances.{flash, erased, clock, unit_codec}
use powersupply.Tests.Chips.{bus, chip, empty as blank_chip}

abbrev settings_of : List ℕ → Option Settings
settings_of (v ∷ i ∷ b ∷ []) = some (record { vout_mv = v; iout_ma = i; backoff_ms = b })
settings_of _ = none

abbrev data_of : List ℕ → Option Data
data_of (n ∷ secs ∷ []) = some (record { overcurrent_count = n; overcurrent_secs = secs })
data_of _ = none

settings_back :
    (x : Settings) (bs : List ℕ)
    → ◌≡◌ {A = Option (List ℕ)} (some (x.vout_mv ∷ x.iout_ma ∷ x.backoff_ms ∷ [])) (some bs)
    → settings_of bs ≡ some x
settings_back x bs h = let e : bs ≡ x.vout_mv ∷ x.iout_ma ∷ x.backoff_ms ∷ [] = cc in rw e refl

data_back :
    (x : Data) (bs : List ℕ)
    → ◌≡◌ {A = Option (List ℕ)} (some (x.overcurrent_count ∷ x.overcurrent_secs ∷ [])) (some bs)
    → data_of bs ≡ some x
data_back x bs h = let e : bs ≡ x.overcurrent_count ∷ x.overcurrent_secs ∷ [] = cc in rw e refl

abbrev settings_codec : Postcard Settings
settings_codec = record {
  to_slice = λ x n. some (x.vout_mv ∷ x.iout_ma ∷ x.backoff_ms ∷ []);
  from_bytes = settings_of;
  from_bytes-to_slice = λ x n bs h. settings_back x bs h;
}

abbrev data_codec : Postcard Data
data_codec = record {
  to_slice = λ x n. some (x.overcurrent_count ∷ x.overcurrent_secs ∷ []);
  from_bytes = data_of;
  from_bytes-to_slice = λ x n bs h. data_back x bs h;
}

abbrev empty : Inner flash
empty = record {
  storage = erased;
  partition = record { offset = 0x9000; size = 0x6000; is_nvs = true };
}

abbrev no_cells : Cells
no_cells = record { settings_cell = none; data_cell = none }

abbrev calls : List Call
calls =
    fetch_data
    ∷ fetch_settings
    ∷ store_settings (record default_settings { vout_mv = 12_000 })
    ∷ store_data (record { overcurrent_count = 1; overcurrent_secs = 7 })
    ∷ fetch_settings
    ∷ fetch_data
    ∷ []

serve-replay_example : Returns (serve flash settings_codec data_codec calls empty) (λ r.
    (r.0 ≡ (replay calls no_cells).0)
    × Shows flash settings_codec data_codec r.1 (replay calls no_cells).1)
unfolding powersupply.Storage.fetch powersupply.Storage.store
serve-replay_example =
    serve-replay flash settings_codec data_codec calls empty no_cells (refl, refl)
      (tt, (tt, (tt, (tt, (tt, (tt, tt))))))

abbrev nvs : PartitionEntry
nvs = record { offset = 0x9000; size = 0x6000; is_nvs = true }

abbrev table : List (Result PartitionEntry (Unit {0}))
table = ok nvs ∷ []

boot-Started_example :
    Boots
      (boot bus 3 flash clock settings_codec data_codec 1 unit_codec table erased (blank_chip, 0))
      (λ y.
        Booted bus chip (blank_chip, 0) y.usb_pd
        × Started bus chip 3 (omega arith) flash clock settings_codec data_codec no_cells y
        × Returns
            (run (y.app_ticket ∷ 0 ∷ 0 ∷ 1 ∷ []) y.watchdog)
            (λ (flags, _). any_true (later flags) ≡ true))
unfolding powersupply.Storage.ensure_initialized powersupply.Storage.fetch powersupply.Storage.store
    powersupply.Storage.Partition.find_partition
boot-Started_example =
    boot-Started bus chip 3 (omega arith) flash clock settings_codec data_codec 0 unit_codec table
      nvs erased (blank_chip, 0) no_cells (0 ∷ 0 ∷ 1 ∷ []) refl refl refl (refl, refl)
      (tt, (tt, tt)) (omega arith, (omega arith, (omega arith, tt)))
