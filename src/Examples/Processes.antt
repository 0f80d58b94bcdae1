-- ===== src/Examples/Processes.antt =====
-- The command that rewrites Codex's configuration, beside a concrete agent.
use codex_monitor_group.Base.{◌≡◌, ◌++◌, refl, true, String, [], ◌∷◌, some, none, ok}
use codex_monitor_group.Base.Text.{codes}
use codex_monitor_group.Store.{json, succeeds, write_tmp, replace}
use codex_monitor_group.Protocol.{null}
use codex_monitor_group.Queue.{Item, decode}
use codex_monitor_group.Config
use codex_monitor_group.Config.{Config, unix}
use codex_monitor_group.Client.{RawMessage, enqueue}
use codex_monitor_group.Client.Sequences.{Events, number}
use codex_monitor_group.Telemetry.Status.{
  CodexFiles, Tools, configure_telemetry, telemetry_fingerprint, telemetry_status, status_of,
}
use codex_monitor_group.Commands.{ConfigureInput, configure_loaded}
use codex_monitor_group.Commands.Beside.{configure_reuses_number}
use codex_monitor_group.Examples.{all_fine, marking, enrolled}
use codex_monitor_group.Examples.Clients.{keys, start, start-InStep, start-level}
use codex_monitor_group.Examples.Agents.{event, queued, refreshing, bare}

abbrev tools : Tools
tools = record {
  unmarshal = λ s. some (record { log_user_prompt = none; exporters = [] });
  is_print = λ c. true;
  sha256 = λ s. "00";
}

abbrev configuring : ConfigureInput
configuring = record {
  disk = bare;
  candidates = [];
  telemetry = refreshing.telemetry;
  save = all_fine;
}

abbrev no_files : String → CodexFiles
no_files home = record { config = none; backup = none }

loaded : (Config.load marking unix succeeds start.config_file).0 ≡ ok enrolled
unfolding Config.load Config.defaults Config.or_text Config.or_int Config.at_least Config.or_one
loaded = refl

finished :
    (configure_loaded unix marking tools configuring no_files enrolled
      (enqueue unix marking keys event "/api/v1/events" null start).1.config_file).0
    ≡ ok tt
unfolding configure_loaded configure_telemetry telemetry_fingerprint telemetry_status status_of
    Config.save Config.disk_form Config.write_file write_tmp replace
finished = refl

configure_reuses_number_example :
    let b = enqueue unix marking keys event "/api/v1/events" null start in
    (d : Config) × (kept : Events) × (item : Item RawMessage) × ((configure_loaded unix marking
        tools configuring no_files enrolled b.1.config_file).1.target
      ≡ json d)
    × (decode b.1.queue.file.target ≡ ok (kept ++ item ∷ []))
    × (number (codes d.device_id) item.envelope ≡ some d.next_sequence)
configure_reuses_number_example =
    configure_reuses_number unix marking keys tools start start-InStep enrolled event
      "/api/v1/events" null configuring no_files start-level loaded queued finished
