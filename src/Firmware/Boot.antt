-- ===== src/Firmware/Boot.antt =====
-- sw/fw/src/main.rs: what the start of the firmware leaves.
use powersupply.Base.{
  ℕ, suc, ◌<◌, ◌≡◌, refl, ap, ◌∙◌, arith, Bool, true, List, [], ◌∷◌, Option, none, some, Result, ok,
  unwrap_or, set, Outcome, returns, panics, unwrap, ◌>>=◌, ◌>>◌, Returns, Returns-bind,
  Returns-mono,
}
use powersupply.Base.Time.{Time}
use powersupply.Stusb4500.{Bus}
use powersupply.Stusb4500.Chip.{Chip}
use powersupply.Stusb4500.Sectors.{IsIdle}
use powersupply.Storage.{StorageEntry, Inner, fetch, ensure_initialized, init as init_storage}
use powersupply.Storage.Crates.{Postcard, Flash}
use powersupply.Storage.Partition.{PartitionEntry, find_partition}
use powersupply.Storage.Laws.{slot}
use powersupply.Storage.Shared.{
  Cells, Shows, Succeeds, fetch_settings, fetch_data, of_settings, of_data, IsOk, fetch-Returns,
  Shows-fetch,
}
use powersupply.Config.Fields.{Settings, default_settings}
use powersupply.Config.{init as init_config}
use powersupply.Record.{Data, default_data, init as init_record}
use powersupply.Watchdog.{Inner as Watchdog, init as init_watchdog, ticket, feed, run, empty_mask}
use powersupply.Watchdog.Rounds.{any_true, covers, AllBelow}
use powersupply.Watchdog.Tickets.{fed_iff_covers}
use powersupply.UsbPd.{init as init_usb_pd}
use powersupply.UsbPd.Boot.{Booted, Ends, init-Booted}
use powersupply.Firmware.{Systems, and_then, start_systems, boot}

-- It ends, and without a panic.
abbrev pub Boots : {A : Type 0} → Option (Outcome A) → (A → Type 0) → Type 0
Boots none Q = ⊥
Boots (some o) Q = Returns o Q

Returns-eq : {A : Type 0} (o : Outcome A) (a : A) → o ≡ returns a → Returns o (λ b. b ≡ a)
Returns-eq o a e = rw e refl

module _ (lib : Flash) (settings_codec : Postcard Settings) (data_codec : Postcard Data) where
  abbrev e_settings : StorageEntry Settings
  e_settings = of_settings lib settings_codec data_codec

  abbrev e_data : StorageEntry Data
  e_data = of_data lib settings_codec data_codec

  abbrev Shown : Inner lib → Cells → Type 0
  Shown = Shows lib settings_codec data_codec

  -- The memory after the storage's start.
  abbrev pub initialized : Postcard (Unit {0}) → PartitionEntry → lib.Memory → Inner lib
  initialized c p m = (ensure_initialized lib c (record { storage = m; partition = p })).1

  init_storage-returns :
      {E : Type 0} (c : Postcard (Unit {0})) (table : List (Result PartitionEntry E))
      (p : PartitionEntry) (m : lib.Memory)
      → find_partition table ≡ returns p
      → (ensure_initialized lib c (record { storage = m; partition = p })).0 ≡ ok tt
      → init_storage lib c table m ≡ returns (initialized c p m)
  unfolding init_storage
  init_storage-returns c table p m found up =
      ap
        (λ o. o >>= λ q.
          unwrap (ensure_initialized lib c (record { storage = m; partition = q })).0
          >> returns (initialized c q m))
        found
      ∙ ap (λ r. unwrap r >> returns (initialized c p m)) up

  init_config-Returns :
      (s : Inner lib) (c : Cells)
      → Shown s c
      → IsOk lib settings_codec data_codec (fetch lib e_settings s).0
      → Returns (init_config (slot lib e_settings) s) (λ r.
        (r.settings ≡ unwrap_or c.settings_cell default_settings)
        × (r.storage ≡ (fetch lib e_settings s).1))
  unfolding init_config
  init_config-Returns s c h k =
      Returns-bind (unwrap (fetch lib e_settings s).0) _ (λ y. y ≡ c.settings_cell) _
        (fetch-Returns lib settings_codec data_codec e_settings s c.settings_cell h.0 k)
        λ y e. (ap (λ z. unwrap_or z default_settings) e, refl)

  init_record-Returns :
      (time : Time) (s : Inner lib) (c : Cells)
      → Shown s c
      → IsOk lib settings_codec data_codec (fetch lib e_data s).0
      → Returns (init_record time (slot lib e_data) s) (λ r.
        (r.counters ≡ unwrap_or c.data_cell default_data) × (r.storage ≡ (fetch lib e_data s).1))
  unfolding init_record
  init_record-Returns time s c h k =
      Returns-bind (unwrap (fetch lib e_data s).0) _ (λ y. y ≡ c.data_cell) _
        (fetch-Returns lib settings_codec data_codec e_data s c.data_cell h.1 k)
        λ y e. (ap (λ z. unwrap_or z default_data) e, refl)

Boots-then :
    {S A : Type 0} (o : Option (Outcome (Unit {0} × S))) (k : S → Outcome A) (B : S → Type 0)
    (Q : A → Type 0)
    → Ends o B
    → ((s : S) → B s → Returns (k s) Q)
    → Boots (and_then o k) Q
Boots-then none k B Q h r = h
Boots-then (some panics) k B Q h r = h
Boots-then (some (returns (_, s))) k B Q h r = r s h

-- The watchdog when `app` has its ticket, and when the network has one too.
abbrev pub one_ticket : Watchdog
one_ticket = record { mask = empty_mask; count = 1 }

abbrev pub two_tickets : Watchdog
two_tickets = record { mask = set empty_mask 1 true; count = 2 }

abbrev pub later : List Bool → List Bool
later [] = []
later (_ ∷ flags) = flags

-- From the first feed of `app` on, both must feed.
app-feeds :
    (es : List ℕ)
    → AllBelow 2 es
    → Returns (run (0 ∷ es) two_tickets) (λ (flags, _). any_true (later flags) ≡ covers 2 es)
unfolding run feed
app-feeds es b =
    Returns-bind (run es (record { mask = empty_mask; count = 2 })) _ _ _
      (fed_iff_covers es (record { mask = empty_mask; count = 2 }) refl (omega arith) (omega arith)
        b)
      λ r e. e

module _ (bus : Bus) (chip : Chip bus) (polls : ℕ) (enough : chip.rounds < polls) (lib : Flash)
    (time : Time) (settings_codec : Postcard Settings) (data_codec : Postcard Data) where
  abbrev System : Type 0
  System = Systems bus polls lib time settings_codec data_codec

  -- The settings and the counters of memory that shows these cells, and two tickets.
  abbrev pub Started : Cells → System → Type 0
  Started c y =
      (y.config.settings ≡ unwrap_or c.settings_cell default_settings)
      × (y.counters.counters ≡ unwrap_or c.data_cell default_data)
      × Shows lib settings_codec data_codec y.counters.storage c
      × (y.app_ticket ≡ 0)
      × (y.watchdog ≡ two_tickets)

  start_systems-Started :
      {E : Type 0} (mc : Postcard (Unit {0})) (table : List (Result PartitionEntry E))
      (p : PartitionEntry) (m : lib.Memory) (usb : bus.State) (c : Cells)
      → find_partition table ≡ returns p
      → (ensure_initialized lib mc (record { storage = m; partition = p })).0 ≡ ok tt
      → Shows lib settings_codec data_codec (initialized lib settings_codec data_codec mc p m) c
      → Succeeds lib settings_codec data_codec
          (fetch_settings ∷ fetch_data ∷ [])
          (initialized lib settings_codec data_codec mc p m)
      → Returns
          (start_systems bus polls lib time settings_codec data_codec mc table m 0 one_ticket usb)
          (λ y. Started c y × (y.usb_pd ≡ usb))
  unfolding start_systems ticket feed
  start_systems-Started mc table p m usb c found up shows (k, l) =
      let s = initialized lib settings_codec data_codec mc p m in
      let e = of_settings lib settings_codec data_codec in
      let s' = (fetch lib e s).1 in
      rw (init_storage-returns lib settings_codec data_codec mc table p m found up) (
        Returns-bind (init_config (slot lib e) s) _ _ _
          (init_config-Returns lib settings_codec data_codec s c shows k)
          λ conf (loaded, kept).
            let shows' : Shows lib settings_codec data_codec conf.storage c =
              rw kept (Shows-fetch lib settings_codec data_codec e s c shows) in
            let d = of_data lib settings_codec data_codec in
            Returns-bind (init_record time (slot lib d) conf.storage) _ _ _
              (init_record-Returns lib settings_codec data_codec time conf.storage c shows'
                (rw kept l.0))
              λ counters (counted, left). (
                (
                  loaded,
                  counted,
                  rw left (Shows-fetch lib settings_codec data_codec d conf.storage c shows'),
                  refl,
                  refl,
                ),
                refl,
              ))

  -- On a working, idle controller, with a partition table that has a partition for the store, a
  -- storage that starts and whose two fetches meet no error: `app` reaches its loop without a
  -- panic, given more rounds of polling than a command of the controller takes. The controller's
  -- memory is locked and holds the wanted data; the settings and the counters are those on flash,
  -- or the defaults, and still on flash. The task and the network have a ticket of the watchdog
  -- each, and after the next feed of the task any feeds of theirs feed the hardware watchdog
  -- exactly when both are among them.
  pub boot-Started :
      {E : Type 0} (attempts : ℕ) (mc : Postcard (Unit {0}))
      (table : List (Result PartitionEntry E)) (p : PartitionEntry) (m : lib.Memory) (s : bus.State)
      (c : Cells) (es : List ℕ)
      → IsIdle bus chip s
      → find_partition table ≡ returns p
      → (ensure_initialized lib mc (record { storage = m; partition = p })).0 ≡ ok tt
      → Shows lib settings_codec data_codec (initialized lib settings_codec data_codec mc p m) c
      → Succeeds lib settings_codec data_codec
          (fetch_settings ∷ fetch_data ∷ [])
          (initialized lib settings_codec data_codec mc p m)
      → AllBelow 2 es
      → Boots (boot bus polls lib time settings_codec data_codec (suc attempts) mc table m s) (λ y.
        Booted bus chip s y.usb_pd
        × Started c y
        × Returns
            (run (y.app_ticket ∷ es) y.watchdog)
            (λ (flags, _). any_true (later flags) ≡ covers 2 es))
  unfolding boot ticket feed init_watchdog
  boot-Started attempts mc table p m s c es idle found up shows h below =
      Boots-then (init_usb_pd bus polls (suc attempts) s) _
        (λ t.
          Booted bus chip s t
          × Ends (init_usb_pd bus polls (suc attempts) t)
              (λ u. Booted bus chip t u × ((chip.nvm u).wear ≡ (chip.nvm t).wear)))
        _ (init-Booted bus chip attempts polls enough s idle)
        λ usb b.
          Returns-mono
            (start_systems bus polls lib time settings_codec data_codec mc table m 0 one_ticket usb)
            _ _
            (λ y (started, same).
              (rw same b.0, started, rw (started.3, started.4) (app-feeds es below)))
            (start_systems-Started mc table p m usb c found up shows h)
