-- ===== src/Agent.antt =====
-- The reports of the agent: `refreshCodexHome`, `Heartbeat` and `SecurityEvent` of
-- internal/agent/client.go, `Usage` of usage.go, `OTelUsage` of otel.go, `Integrity` of integrity.go,
-- and `Cycle` of run.go. They run one after the other in the main goroutine.
pub mod Inputs
pub mod Payloads
pub mod Survival
pub mod Delivery
pub mod Loop
pub mod Running
use codex_monitor_group.Base.{
  ℕ, suc, length, Bool, true, false, String, List, [], ◌∷◌, Option, none, some, Result, Done, Exec,
  ok, err, Error, killed, str_eq, if◌then◌else◌, ◌||◌, ◌*◌,
}
use codex_monitor_group.Base.Text.{Text, codes, utf8}
use codex_monitor_group.Store.{Slot, Io, Answer}
use codex_monitor_group.Protocol.{Value, Crypto}
use codex_monitor_group.Queue
use codex_monitor_group.Queue.{Item}
use codex_monitor_group.Config
use codex_monitor_group.Config.{Config, Platform, Dpapi}
use codex_monitor_group.Client.{
  Client, EnqueueInput, Round, Flushed, RawMessage, enqueue, flush, save_config,
}
use codex_monitor_group.Home.{
  Disk, CodexHomeCandidate, CodexHomeResolution, resolve_codex_home, path_key,
}
use codex_monitor_group.Integrity
use codex_monitor_group.Integrity.{Payload, State}
use codex_monitor_group.Integrity.Discover.{Root}
use codex_monitor_group.Integrity.Snapshot.{scan_integrity}
use codex_monitor_group.Otel.{OtelStore, NormalizedUsage}
use codex_monitor_group.Otel.Ingest.{load_otel_store}
use codex_monitor_group.Posture.{MonitorPosture}
use codex_monitor_group.Quota.{
  QuotaCache, QuotaSnapshot, LogReader, Handle, is_recent, cached_quota, latest_quota,
}
use codex_monitor_group.Quota.Files.{QuotaFile}
use codex_monitor_group.Telemetry.Status.{
  CodexFiles, TelemetryIo, Tools, TelemetryStatus, configure_telemetry, telemetry_status,
  codex_version, ccusage_version,
}
use codex_monitor_group.Usage.{UsageTool, collect_usage}
use codex_monitor_group.Agent.Payloads.{
  Numbers, HeartbeatFacts, heartbeat_payload, usage_payload, integrity_payload, security_payload,
}
use codex_monitor_group.Agent.Inputs.{
  Agent, Machine, RefreshInput, ReportInput, QuotaLogs, HeartbeatInput, UsageInput, OtelUsageInput,
  IntegrityInput, home_refresh_interval,
}

-- What a method returns and the agent behind it; `none` would be a flush that goes on for ever.
abbrev pub Outcome : Type 0
Outcome = Option (Done × Agent)

-- `if err != nil { return err }`
abbrev pub and_report : Done × Agent → (Agent → Outcome) → Outcome
and_report (ok _, a) k = k a
and_report (err e, a) k = some (err e, a)

abbrev with_client : Agent → Option Flushed → Outcome
with_client a none = none
with_client a (some f) = some (f.result, record a { client = f.client })

abbrev pub on_client : Agent → Done × Client → Done × Agent
on_client a (r, c) = (r, record a { client = c })

-- `if _, err := os.Open`, the hash otherwise.
abbrev sha_file : (List ℕ → String) → Option (List ℕ) → String
sha_file sha256_hex none = "unavailable"
sha_file sha256_hex (some bytes) = sha256_hex bytes

-- `hash` replaces the expected one unless there was an error.
abbrev pub expected_hash : Result String → String → String
expected_hash (ok hash) old = hash
expected_hash (err _) old = old

abbrev pub moved_config : String → Result String → Config → Config
moved_config path telemetry c = record c {
  codex_home = path;
  expected_config_hash = expected_hash telemetry c.expected_config_hash;
}

-- The fields that change with the home before it is saved.
abbrev pub moved : String → Result String → CodexFiles → Agent → Agent
moved path telemetry files a = record a {
  client = record a.client { config = moved_config path telemetry a.client.config };
  home_auto = true;
  cache = record { quota = none; read_at = none };
  codex = λ p. if str_eq p path then files else a.codex p;
}

-- As many rounds of a flush as there are events, and one more.
abbrev rounds_for : Result (List (Item RawMessage)) → ℕ
rounds_for (ok items) = suc (length items)
rounds_for (err _) = 1

unfoldable pub flush_fuel : Client → ℕ
flush_fuel a = rounds_for (Queue.decode a.queue.file.target)

module _ (platform : Platform) (dpapi : Dpapi) (machine : Machine) where
  abbrev flush_all : (ℕ → Round) → Client → Option Flushed
  flush_all rounds a = flush platform dpapi (flush_fuel a) rounds a

  abbrev pub flush_behind : (ℕ → Round) → Done × Client → Option Flushed
  flush_behind rounds (ok _, a) = flush_all rounds a
  flush_behind rounds (err e, a) = some (record { result = err e; client = a; delivered = [] })

  -- `a.enqueue` and `return a.Flush()`
  unfoldable pub report : ReportInput → String → Value → Agent → Outcome
  report input endpoint payload a = with_client a (
      flush_behind input.rounds
        (enqueue platform dpapi machine.crypto input.event endpoint payload a.client))

  -- The process may die in ConfigureTelemetry; every other error of it is dropped.
  abbrev move_home : RefreshInput → String → Result String × CodexFiles → Agent → Done × Agent
  move_home input path (err killed, files) a =
      (err killed, record a { codex = λ p. if str_eq p path then files else a.codex p })
  move_home input path (telemetry, files) a =
      on_client (moved path telemetry files a)
        (save_config platform dpapi input.save (moved path telemetry files a).client)

  abbrev settle_home : RefreshInput → CodexHomeResolution → Agent → Done × Agent
  settle_home input resolution a =
      if str_eq resolution.path ""
        || str_eq (path_key input.disk resolution.path)
            (path_key input.disk a.client.config.codex_home)
      then (ok tt, a)
      else move_home input resolution.path
          (configure_telemetry machine.tools input.telemetry (codes a.client.config.otlp_token)
            (a.codex resolution.path))
          a

  unfoldable pub refresh_codex_home : RefreshInput → Agent → Done × Agent
  refresh_codex_home input a =
      if is_recent input.now home_refresh_interval a.home_read
      then (ok tt, a)
      else let resolution =
          resolve_codex_home input.disk a.client.config.codex_home input.candidates in
        settle_home input resolution
          (record a { home_read = some input.now; home_source = resolution.source })

  unfoldable pub facts_of : HeartbeatInput → Agent → HeartbeatFacts
  facts_of input a =
      let c = a.client.config in
      let sha256_hex = machine.numbers.digests.sha256_hex in
      let status =
        telemetry_status machine.tools input.status_read (codes c.otlp_token)
          (a.codex c.codex_home) in
      record {
        agent_sha256 = sha_file sha256_hex (input.file c.agent_path);
        ccusage_version = ccusage_version (input.version c.ccusage_path);
        ccusage_sha256 = sha_file sha256_hex (input.file c.ccusage_path);
        codex_version = codex_version (input.version c.codex_path);
        codex_home = sha256_hex (utf8 (codes (machine.clean c.codex_home)));
        codex_home_source = a.home_source;
        codex_home_auto_discovered = a.home_auto;
        config_fingerprint = status.hash;
        telemetry_config_ok = status.is_valid;
        uptime_seconds = input.uptime_seconds;
        os = machine.os;
        arch = machine.arch;
      }

  abbrev quota_of : HeartbeatInput → Agent → Option QuotaSnapshot × QuotaCache
  quota_of input a =
      let logs = input.logs a.client.config.codex_home in
      cached_quota input.now (latest_quota machine.reader logs.sessions logs.archived logs.handles)
        a.cache

  -- `Heartbeat`, `Usage` and `Integrity` behind the refresh.
  abbrev pub heartbeat_behind : HeartbeatInput → Agent → Outcome
  heartbeat_behind input b =
      report input.report "/api/v1/heartbeat"
        (heartbeat_payload machine.numbers (facts_of input b) (quota_of input b).0)
        (record b { cache = (quota_of input b).1 })

  unfoldable pub heartbeat : HeartbeatInput → Agent → Outcome
  heartbeat input a = and_report (refresh_codex_home input.refresh a) (heartbeat_behind input)

  unfoldable pub security_event : ReportInput → String → Value → Agent → Outcome
  security_event input event_type details a =
      report input "/api/v1/events" (security_payload event_type details) a

  abbrev report_usage : ReportInput → String → Result (List NormalizedUsage) → Agent → Outcome
  report_usage input source (err e) a = some (err e, a)
  report_usage input source (ok days) a =
      report input "/api/v1/usage" (usage_payload machine.numbers source days) a

  abbrev pub usage_behind : UsageInput → Agent → Outcome
  usage_behind input b =
      let c = b.client.config in
      report_usage input.report "local"
        (collect_usage machine.usage c.ccusage_path c.codex_home c.timezone c.retention_days) b

  unfoldable pub usage : UsageInput → Agent → Outcome
  usage input a = and_report (refresh_codex_home input.refresh a) (usage_behind input)

  abbrev days_of : List (Text × NormalizedUsage) → List NormalizedUsage
  days_of [] = []
  days_of ((_, day) ∷ rest) = day ∷ days_of rest

  abbrev report_days : ReportInput → List (Text × NormalizedUsage) → Agent → Outcome
  report_days input [] a = some (ok tt, a)
  report_days input days a = report_usage input "otel" (ok (days_of days)) a

  unfoldable pub otel_usage : OtelUsageInput → Agent → Outcome
  otel_usage input a =
      report_days input.report (load_otel_store input.read input.left a.otel_file.target).days a

  abbrev report_scan : IntegrityInput → Result Payload × Slot State → Agent → Outcome
  report_scan input (err e, s) a = some (err e, record a { integrity_file = s })
  report_scan input (ok payload, s) a =
      report input.report "/api/v1/integrity"
        (integrity_payload machine.numbers payload (input.posture a.client.config))
        (record a { integrity_file = s })

  abbrev scan : IntegrityInput → Agent → Result Payload × Slot State
  scan input b =
      let home = b.client.config.codex_home in
      scan_integrity machine.numbers.digests input.read input.answers input.drawn input.ids
        (input.sessions home) (input.archived_sessions home) b.integrity_file

  abbrev pub integrity_behind : IntegrityInput → Agent → Outcome
  integrity_behind input b = report_scan input (scan input b) b

  unfoldable pub integrity : IntegrityInput → Agent → Outcome
  integrity input a = and_report (refresh_codex_home input.refresh a) (integrity_behind input)
