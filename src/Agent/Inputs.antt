-- ===== src/Agent/Inputs.antt =====
-- The agent as the reports see it, the machine that it runs on, and what each report meets.
use codex_monitor_group.Base.{ℕ, Bool, String, List, Option, ◌*◌}
use codex_monitor_group.Base.Text.{Text}
use codex_monitor_group.Store.{Slot, Io, Answer}
use codex_monitor_group.Protocol.{Crypto}
use codex_monitor_group.Config.{Config}
use codex_monitor_group.Client.{Client, EnqueueInput, Round}
use codex_monitor_group.Home.{Visit, Disk, CodexHomeCandidate}
use codex_monitor_group.Integrity.{State}
use codex_monitor_group.Integrity.Discover.{Root}
use codex_monitor_group.Otel.{OtelStore}
use codex_monitor_group.Posture.{MonitorPosture}
use codex_monitor_group.Quota.{QuotaCache, LogReader, Handle}
use codex_monitor_group.Quota.Files.{QuotaFile}
use codex_monitor_group.Telemetry.Status.{CodexFiles, TelemetryIo, Tools}
use codex_monitor_group.Usage.{UsageTool}
use codex_monitor_group.Agent.Payloads.{Numbers}

-- The client with the fields that the reports use, and the files of the agent and of Codex that they
-- read and write. `home_read` is `none` for the zero time.
pub record Agent : Type 0 where
  pub client : Client
  pub home_read : Option ℕ
  pub home_source : String
  pub home_auto : Bool
  pub cache : QuotaCache
  pub otel_file : Slot OtelStore
  pub integrity_file : Slot State
  pub codex : String → CodexFiles

-- What the reports take from the machine that does not change between them.
pub record Machine : Type 1 where
  pub crypto : Crypto
  pub numbers : Numbers
  pub tools : Tools
  pub reader : LogReader
  pub usage : UsageTool
  pub clean : String → String
  pub os : String
  pub arch : String

-- 5*time.Minute
abbrev pub home_refresh_interval : ℕ
home_refresh_interval = 300 * 1_000_000_000

pub record RefreshInput : Type 0 where
  pub now : ℕ
  pub disk : Disk
  pub candidates : List CodexHomeCandidate
  pub telemetry : TelemetryIo
  pub save : Io

-- The enqueue of a report and the rounds of its flush.
pub record ReportInput : Type 0 where
  pub event : EnqueueInput
  pub rounds : ℕ → Round

-- The session logs under a home, for LatestQuota.
pub record QuotaLogs : Type 0 where
  pub sessions : List (String × Visit)
  pub archived : List (String × Visit)
  pub handles : QuotaFile → Handle

-- `file` is what can be read of a file, `version` the output of a tool.
pub record HeartbeatInput : Type 0 where
  pub refresh : RefreshInput
  pub status_read : Answer
  pub now : ℕ
  pub file : String → Option (List ℕ)
  pub version : String → Option Text
  pub logs : String → QuotaLogs
  pub uptime_seconds : ℕ
  pub report : ReportInput

pub record UsageInput : Type 0 where
  pub refresh : RefreshInput
  pub report : ReportInput

pub record OtelUsageInput : Type 0 where
  pub read : Answer
  pub left : OtelStore
  pub report : ReportInput

pub record IntegrityInput : Type 0 where
  pub refresh : RefreshInput
  pub read : Answer
  pub answers : Io
  pub drawn : String
  pub ids : String → String
  pub sessions : String → Root
  pub archived_sessions : String → Root
  pub posture : Config → MonitorPosture
  pub report : ReportInput
