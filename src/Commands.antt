-- ===== src/Commands.antt =====
-- cmd/codex-guard/main.go, and `Watchdog` of internal/agent/service_other.go and service_windows.go:
-- the commands, each a process of its own over the agent's files. The parsing of the flags is package
-- flag's.
pub mod Beside
use codex_monitor_group.Base.{
  ℕ, ltb, ◌==◌, Bool, true, false, not, ◌||◌, ◌&&◌, String, List, [], ◌∷◌, ◌++◌, Option, none, some,
  Result, Done, ok, err, Error, incomplete, unsupported, io, str_eq, if◌then◌else◌, map,
}
use codex_monitor_group.Base.Text.{Text, codes, decimal, contains}
use codex_monitor_group.Store.{Io, Slot, Answer}
use codex_monitor_group.Protocol.{Value, bool, text}
use codex_monitor_group.Config
use codex_monitor_group.Config.{Config, Holder, Platform, Dpapi}
use codex_monitor_group.Client.{RegisterReply}
use codex_monitor_group.Client.Enroll
use codex_monitor_group.Client.Enroll.{EnrollInput}
use codex_monitor_group.Home.{Disk, CodexHomeCandidate, CodexHomeResolution, resolve_codex_home}
use codex_monitor_group.Posture.{MonitorPosture, Unix, linux, darwin, other, upper}
use codex_monitor_group.Telemetry.{trim_space}
use codex_monitor_group.Telemetry.Status.{CodexFiles, TelemetryIo, Tools, configure_telemetry}
use codex_monitor_group.Agent.{Outcome, security_event, heartbeat}
use codex_monitor_group.Agent.Inputs.{Agent, Machine, ReportInput, HeartbeatInput}
use codex_monitor_group.Agent.Loop.{is_killed}
use codex_monitor_group.Agent.Payloads.{object_of}

pub data Command : Type 0 where
  enroll_command run_command once_command status_command configure_command : Command
  watchdog_command uninstall_notice_command version_command : Command

-- The words of the switch.
abbrev pub words : List (String × Command)
words =
    ("enroll", enroll_command)
    ∷ ("run", run_command)
    ∷ ("once", once_command)
    ∷ ("status", status_command)
    ∷ ("configure-telemetry", configure_command)
    ∷ ("watchdog", watchdog_command)
    ∷ ("uninstall-notice", uninstall_notice_command)
    ∷ ("version", version_command)
    ∷ ("--version", version_command)
    ∷ ("-v", version_command)
    ∷ []

abbrev among : String → List (String × Command) → Option Command
among word [] = none
among word ((name, c) ∷ rest) = if str_eq word name then some c else among word rest

abbrev exit_code : Done → ℕ
exit_code (ok _) = 0
exit_code (err _) = 1

abbrev exit_with : (Command → Done) → Option Command → ℕ
exit_with execute none = 2
exit_with execute (some version_command) = 0
exit_with execute (some c) = exit_code (execute c)

-- The status that `main` exits with over its arguments.
unfoldable pub main : (Command → Done) → List String → ℕ
main execute [] = 2
main execute (word ∷ _) = exit_with execute (among word words)

-- The flags of `enroll`; `blank` is what strings.TrimSpace empties.
pub record EnrollFlags : Type 0 where
  pub name : Text
  pub device_label : Text
  pub input : EnrollInput

abbrev is_blank : Text → Bool
is_blank s = elim (trim_space s) [ [] ↦ true | _ ∷ _ ↦ false ]

-- Whether a required flag is missing.
unfoldable pub is_incomplete : EnrollFlags → Bool
is_incomplete f =
    str_eq f.input.server ""
    || is_blank f.name
    || is_blank f.device_label
    || str_eq f.input.codex_home ""

-- The texts of `status`.
unfoldable pub telemetry_text : Bool → Done → String
telemetry_text true (ok _) = "enabled"
telemetry_text _ _ = "changed/not configured"

unfoldable pub local_agent_text : Bool → String
local_agent_text true = "running"
local_agent_text false = "not running"

-- The status of the answer of `/healthz`, if there was one.
unfoldable pub server_text : Option ℕ → Text
server_text none = codes "unreachable"
server_text (some status) =
    if status == 200 then codes "connected" else codes "HTTP " ++ decimal status

unfoldable pub logs_text : CodexHomeResolution → Text
logs_text r =
    if ltb 0 r.log_count
    then codes "found (" ++ decimal r.log_count ++ codes " JSONL)"
    else codes "not found"

-- Behind an event whose error is kept or dropped; a process that died goes no further.
abbrev and_after : Outcome → (Done → Agent → Outcome) → Outcome
and_after none next = none
and_after (some (r, a)) next = if is_killed r then some (r, a) else next r a

-- What `configure-telemetry` meets behind the load of the configuration.
pub record ConfigureInput : Type 0 where
  pub disk : Disk
  pub candidates : List CodexHomeCandidate
  pub telemetry : TelemetryIo
  pub save : Io

abbrev pub with_home : String → Config → Config
with_home path c = if str_eq path "" then c else record c { codex_home = path }

abbrev pub saved_at : Done × Holder → Done × Slot Config
saved_at (r, h) = (r, h.file)

module _ (platform : Platform) (dpapi : Dpapi) where
  unfoldable pub enroll :
      EnrollFlags → RegisterReply → Io → Slot Config → Result Config × Slot Config
  enroll f reply answers file =
      if is_incomplete f
      then (err incomplete, file)
      else Enroll.enroll platform dpapi f.input reply answers file

  abbrev save_hash : ConfigureInput → Config → Result String → Slot Config → Done × Slot Config
  save_hash input c (err e) file = (err e, file)
  save_hash input c (ok hash) file = saved_at (
      Config.save dpapi platform input.save
        (record { config = record c { expected_config_hash = hash }; file = file }))

  -- `configure` behind config.Load: what is then saved is the configuration that was loaded.
  unfoldable pub configure_loaded :
      Tools → ConfigureInput → (String → CodexFiles) → Config → Slot Config → Done × Slot Config
  configure_loaded tools input codex loaded file =
      let resolution = resolve_codex_home input.disk loaded.codex_home input.candidates in
      let c = with_home resolution.path loaded in
      save_hash input c
        (configure_telemetry tools input.telemetry (codes c.otlp_token) (codex c.codex_home)).0 file

module _ (platform : Platform) (dpapi : Dpapi) (machine : Machine) where
  unfoldable pub once : HeartbeatInput → Agent → Outcome
  once input a = heartbeat platform dpapi machine input a

  unfoldable pub uninstall_notice : ReportInput → Agent → Outcome
  uninstall_notice input a =
      security_event platform dpapi machine input "AGENT_UNINSTALL_REQUESTED"
        (object_of (("requested", bool true) ∷ [])) a

  abbrev stopped_details : MonitorPosture → Value
  stopped_details p = object_of (
      ("service_installed", bool p.service_installed)
      ∷ ("service_running", bool p.service_running)
      ∷ ("auto_start_ok", bool p.auto_start_ok)
      ∷ ("restart_policy_ok", bool p.restart_policy_ok)
      ∷ ("service_fingerprint", text (codes p.service_fingerprint))
      ∷ [])

  abbrev report_stopped : ReportInput → MonitorPosture → Agent → Outcome
  report_stopped input p a =
      security_event platform dpapi machine input "SERVICE_STOPPED_OR_MODIFIED" (stopped_details p)
        a

  -- The second event of a watchdog, whose error is dropped, and the error of the restart.
  abbrev report_failed : ReportInput → MonitorPosture → Agent → Outcome
  report_failed input p a =
      and_after
        (security_event platform dpapi machine input "SERVICE_RESTART_FAILED"
          (object_of (("service_fingerprint", text (codes p.service_fingerprint)) ∷ [])) a)
        λ r b. some (err io, b)

  abbrev restarts : Unix → ReportInput → MonitorPosture → Bool → Done → Agent → Outcome
  restarts (other name) second p started r a = some (err unsupported, a)
  restarts os second p true r a = some (r, a)
  restarts os second p false r a = report_failed second p a

  -- `Watchdog` of service_other.go; `started` is what the command that starts the service returns.
  unfoldable pub watchdog_unix :
      Unix → ReportInput → ReportInput → MonitorPosture → Bool → Agent → Outcome
  watchdog_unix os first second p started a =
      if p.service_running
      then some (ok tt, a)
      else and_after (report_stopped first p a) (restarts os second p started)

  abbrev starts : ReportInput → MonitorPosture → Option Text → Done → Agent → Outcome
  starts second p none r a = some (r, a)
  starts second p (some output) r a =
      if contains (map upper output) (codes "RUNNING")
      then some (r, a)
      else report_failed second p a

  -- `Watchdog` of service_windows.go; `failed` is the output of `sc.exe start` where it failed.
  unfoldable pub watchdog_windows :
      ReportInput → ReportInput → MonitorPosture → Option Text → Agent → Outcome
  watchdog_windows first second p failed a =
      if p.service_running
      then some (ok tt, a)
      else and_after (report_stopped first p a)
          λ r b. if not p.service_installed then some (err io, b) else starts second p failed r b
