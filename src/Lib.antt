-- ===== src/Lib.antt =====
-- rig-exporter reads a gaming PC's sensors on Windows and hands them to MQTT, HTTP and InfluxDB. The
-- parts modelled here are those with the most logic of their own: the parsers of what other programs and
-- the hardware publish, the collector's handling of games and of sources that hang or panic, the
-- manager of the program's own updates with the transaction that installs them, and the rows of the
-- dashboard that linger.
--
-- Rtss (internal/rtss/rtss.go) parses the shared memory block of RivaTuner Statistics Server: Parse is
-- `Rtss.parse`, MappingSize `mapping_size`, SelectActive `select_active`. The collector takes its frame
-- rate and its game from the entry that is selected. A block is a list of bytes; the ANSI decoder of
-- ansi_windows.go is a parameter.
-- Afterburner (internal/hardware/afterburner/afterburner.go) parses MSI Afterburner's block of sensors and
-- graphics cards and looks sensors up by name: `parse`, `mapping_size`, `find`, `find_gpu`.
-- Collector (internal/collector/collector.go) decides which game is open (`open_game` in Collector.Data) and adds the
-- readings of a poll for the game and its frame rate (`add_game_readings`, called by `collect_rtss`), with
-- metrics.Set.Add and metrics.Details of internal/metrics/metrics.go.
-- Guard (internal/collector/guard.go) calls one optional source under its deadline: `collect`. A run of
-- the source is what it appends and how it ends; Guard.Slices has Go's slices, arrays and append, for the
-- clipped slice that a late source goes on writing to, and Guard.Loop the loop of `Collect` over all
-- sources.
-- Smbios (internal/hardware/ram/smbios.go) walks the firmware's table and sums up the memory modules:
-- `structures` in Smbios.Table, `parse_module`, `parse`.
-- Zen (internal/hardware/pawnio/amd.go) decodes the thermal and energy registers of AMD processors.
-- Kraken (internal/hardware/cooling/kraken.go) decodes a water cooler's status report.
-- Updater (internal/updater/manager.go) is the update manager: its state is a record with the count of
-- running installs and checks and of the calls of SetCheckEnabled under way, and the log of the
-- listeners' calls; each critical section with its notification is one function, and Updater.Invariant has the step relation of their interleavings.
-- Updater.Data has the state, Updater.Summary is the release summary, Updater.Source (internal/updater/source.go) the release source
-- with its bounded download.
-- Apply (internal/updater/apply_windows.go) is the transaction that replaces the running executable. Its
-- actions are functions from a world, with the seven files, the faults to come and the disks so far, to a
-- result and a world (Apply.Files); Apply.Schedule is scheduleApplyWithTimeouts, Apply itself the helper,
-- Apply.Recovery recoverInterruptedApplyWith. Apply.Moves and Apply.Stages have the rules for chains of
-- actions; a crash is the choice of one disk of the history. Apply.Artifacts has the names of the files
-- and the clean-up of leftovers.
-- Panel (internal/webui/linger.go) is the memory of one panel of the dashboard: `keep` is one poll of it.
-- Config (internal/config/config.go) has the settings: the record and its defaults, `normalize`, and in child
-- modules the bounds of a number, `Slug`, the lists of texts, the topics, and the files, where each call of the
-- operating system fails or not as a list says (Config.Storage: `save`, `load`, `migrate_legacy`).
-- Publisher (internal/hamqtt/publisher.go) is the connection to Home Assistant. Its record has the fields of the
-- code's `Publisher`, the replies to come and the log of what the broker saw (Publisher.Broker); a reply says
-- how a call of the MQTT client ends and what happens before it returns. Publisher.Updates is the update
-- channel, Publisher.Entities the discovery of the readings, Publisher.Life the callbacks and the moves of
-- a run. A message that the client sends after its call has timed out is not modelled, nor a
-- new connection that is made while a call waits.
-- Base has what they share: native-number tests and lists, calls that end with a value, an error or a
-- panic (`Outcome`), bounds-checked reads of bytes, and the parameter for the Unicode tables.
--
-- Integers are natural numbers, with `% 2 ^ 32` and `% 2 ^ 64` written out where the code's types wrap; a
-- read or a slice out of bounds is `panic`. The loops over slots and entries run on their count. The two
-- loops of Smbios run on fuel, one more than the table's length, and panic when it is used up: every
-- round moves forward, so it is never. Decimal digits run on fuel above the number. The loop of the update channel runs on rounds,
-- and three more than the replies to come are enough. A temperature is a
-- whole number of thousandths or tenths of a degree; elsewhere floating point is a parameter.
--
-- Not modelled: calls of Windows and of vendor libraries, HTTP, the MQTT client and files, whose answers
-- are inputs here; the user interface; the rest of the dashboard, the game identification, the exporters,
-- the payloads of the discovery, and of the update helper the check of a plan, the error reports and the locks.
mod Base
pub mod Panel
pub mod Publisher
pub mod Rtss
pub mod Afterburner
pub mod Updater
pub mod Apply
pub mod Guard
pub mod Smbios
pub mod Zen
pub mod Kraken
pub mod Collector
pub mod Config
