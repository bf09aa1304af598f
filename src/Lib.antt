-- ===== src/Lib.antt =====
-- The firmware of a bench power supply (sw/fw/src): a TPS55289 converter whose output is
-- switched, watched and configured over MQTT, with settings and counters kept on flash.
--
-- The parts, and the files that model them:
-- - PowerExt (systems/power_ext.rs): `init`, `persist` and, in PowerExt/Monitor, a round of
--   `monitor_task` (`round`, by its branches `on_fault`, `on_disabled` and `on_enabled`). What the
--   bus and the clock answer in a round is the record `Answers`; writes and calls of other systems
--   leave as a list of `Action`s. PowerExt/Monitor/Reach has the states that are reached by rounds
--   and by `config_task` (`configure`), and the theorems are in PowerExt/Monitor/Safety,
--   PowerExt/Monitor/Recovery, PowerExt/Limits and PowerExt/Deadline (`earliest_deadline`).
--   PowerExt/Monitor/Actions tells which other systems a round calls.
-- - Watchdog (systems/watchdog.rs): `ticket` and `feed`; Watchdog/Rounds is the independent view of
--   a feed by the history of the round, Watchdog/Tickets what it promises the tasks, and
--   Watchdog/Timing and Watchdog/Stalled the hardware behind them in time; in Watchdog/Loops the
--   tickets are held by loops that sleep, as that of `app`.
-- - Record (systems/record.rs): the counters. `sync_task` is a step function on a program counter
--   (`sync_step`), since callers run at each of its `await`s; Record/Protocol and
--   Record/Interleavings have the invariant, Record/Safety, Record/Counting, Record/Flush and
--   Record/Writes the theorems.
-- - Config (systems/config.rs): the settings; `update` and the periodic publication. Config/Fields
--   has the data, Config/Durability and Config/Reboot the theorems; Config/Delivery is the way of
--   the settings through the notifier to the converter (`config_task` of systems/power_ext.rs), with
--   the state in which `update` and `push_task` wait for each other.
-- - Storage (systems/storage.rs): the key-value store; Storage/Key the encoding of keys,
--   Storage/Partition the scan of the partition table, Storage/Laws, Storage/Sequences and
--   Storage/Shared (both systems on one store) the theorems.
-- - Net (systems/net.rs): topics, messages and the retry of a send; Net/Session the loop with a
--   broker (`mqtt_connected`), which calls Config, Net/Link the loops around it (`link_up` and
--   `net_task`; theorem in Net/Link/Rounds), and Net/Radio `connection_task`.
-- - Events (systems/events.rs): the rounds of both tasks; Events/Channels the steps of the tasks
--   between the subscriptions and the broker, Events/Deadlock the states in which they wait for
--   each other or for `push_task`, and Events/Echo the settings that come back from the broker.
-- - Stusb4500 (drivers/stusb4500): the registers by their fields and the calls on a chip;
--   Stusb4500/Pdo the conversions of mod.rs, Stusb4500/Commands the calls of hl.rs. Stusb4500/Chip
--   is the interface of a chip that works, Stusb4500/Replay what a list of accesses does to its
--   memory, and Stusb4500/Sectors and Stusb4500/Roundtrip what the calls do. Stusb4500/Fields has
--   the values that are written to fields, and Stusb4500/Agreement the calls on a bus that refuses
--   those that do not fit.
-- - UsbPd (systems/usb_pd.rs): `init`, `set_pin` and a round of `state_task`; UsbPd/Boot the
--   boot, with the comparison of the memory in UsbPd/Equality, and UsbPd/Values the values that it
--   writes.
-- - Tps55289 (drivers/tps55289/mod.rs, ll.rs): the reference voltage, and the registers by their
--   fields. Units (util.rs) has the numbers.
-- - Transactions (drivers/tps55289/ll.rs, drivers/stusb4500/ll.rs): the bytes that both drivers
--   write to the bus, and in Transactions/Reads what they read. Registers is the description of
--   their registers, as the macro `implement_device!` is given it; the theorem is in
--   Registers/Layout.
-- - Logger (logger.rs): which records are logged, and what a line shows. SerialNumber
--   (serialnumber.rs): how the number is shown.
-- - Firmware (main.rs): the task `app`, which starts the systems; Firmware/Boot what it leaves.
--   Firmware/Monitored puts `monitor_task` together with the systems that `PowerExt::init` is given
--   (`act` and `perform` run the actions of a round on Record, Watchdog and the pin of UsbPd), with
--   the steps of their other tasks between the rounds; the proofs are in Firmware/Monitored/Calls,
--   Completion and Parts, the theorems in Firmware/Monitored/Safety. Firmware/Locks has the locks
--   of all systems and of the bus: `locks_of` lists what each operation takes and leaves, in the
--   order of its code, and tasks run any operations in turn (`steps`). Each operation takes its locks
--   in one order (Firmware/Locks/Order). `update` waits for room in its notifier with the lock of the
--   configuration held (`await_room`), perhaps for ever, and then so do the tasks that take this
--   lock; the proofs about the others are in Firmware/Locks/Freedom and Fair, the theorem in Rounds.
--   A transaction is taken to end; the send of Record with the lock held does not wait
--   (`log_overcurrent-progress` of Record/Safety).
-- - Executors (executors/mod.rs), with Executors/Thread (`run` and its wait; theorem in
--   Executors/Thread/Loop), Executors/Interrupt, and in Executors/Wakers the way from a waker to
--   the poll, through the handlers that are installed, with the executor that bsp/rev1.rs starts. An
--   interrupt that is raised is pending until it is reset, as esp-hal documents.
-- - Stats (systems/stats.rs): polling of the converter, and a round of the task.
-- - Base: names of the libraries passed on, panics (`Outcome`), Rust's `Result`, and the interface
--   of the clock. Tests: runs at concrete inputs.
--
-- How they interact: PowerExt and Net hold tickets of Watchdog; PowerExt logs over-currents in
-- Record and takes its settings from Config, which Net updates; Record and Config see the storage
-- as a `Slot` of one type, which Storage/Laws fills (`slot`) from the interface `Flash`. Events
-- forwards what Record, Config and Stats publish to Net, and UsbPd calls Stusb4500.
--
-- Parameters, since their code is not in the repository: the clock of embassy-time (Base/Time),
-- sequential-storage and postcard (Storage/Crates), the client of rust-mqtt and the JSON of
-- serde_json_core (Net, Events), the bus and the STUSB4500 chip behind it (`Bus` and `Chip`), the
-- controller of esp-wifi (Net/Radio), the crate hex (SerialNumber), the broker that delivers what
-- it is sent (Events/Echo), each with what its documentation promises where a theorem needs it.
-- Locks, channels and publications of embassy are what their documentation says: a locked section
-- is one step, a channel of one place is a flag, a publication is a list of messages. The wait of
-- `Config::update` for room in its notifier, with the lock held, is a step of its own in
-- Events/Channels and in Config/Delivery, and so is that of `push_task` for the lock. main.rs has the calls of PowerExt, Stats and Events commented out in this
-- commit; they are modelled as their `init` functions put them together. Arithmetic
-- wraps, as in the release profile of sw/fw/Cargo.toml, which has no overflow checks.
--
-- Bounds: `attempts` counts the five attempts of the source; `run_alone` has five steps, which are
-- enough from every reachable state (Record/Flush); `poll_until_ready` is given more rounds than
-- the converter blocks. The loop that polls the STUSB4500 is given more rounds than a command takes
-- (`Chip.rounds`), the one that reads its identifier as many attempts as fit in the timeout; the
-- loops of Net run over the answers of the stack, the socket and the broker.
--
-- Not modelled: the task of the TCP/IP stack in systems/net.rs, which only calls the stack, the
-- placing of a register's fields in its bytes (a macro of another crate; Registers has what it is
-- given), the printing of a line, and most of bsp (rev1.rs sets up the peripherals by calls of
-- esp-hal; the start of the high-priority executor is in Executors/Wakers).
pub mod Base
pub mod Units
pub mod Tps55289
pub mod Transactions
pub mod Registers
pub mod PowerExt
pub mod Events
pub mod Executors
pub mod Stats
pub mod Watchdog
pub mod Storage
pub mod Config
pub mod Record
pub mod Net
pub mod Stusb4500
pub mod UsbPd
pub mod Firmware
pub mod Logger
pub mod SerialNumber
pub mod Tests
