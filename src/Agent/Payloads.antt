-- ===== src/Agent/Payloads.antt =====
-- The payloads of the reports, as the JSON values that are signed.
use codex_monitor_group.Base.{
  ℕ, ◌++◌, Bool, String, List, [], ◌∷◌, Option, none, some, str_eq, if◌then◌else◌,
}
use codex_monitor_group.Base.Int.{ℤ, pos}
use codex_monitor_group.Base.Text.{Text, codes}
use codex_monitor_group.Protocol.{
  Value, text, number, bool, array, object, Items, nil, cons, Fields, end, field,
}
use codex_monitor_group.Integrity.{Payload}
use codex_monitor_group.Integrity.Snapshot.{Digests, metadata_items, finding_items}
use codex_monitor_group.Otel.{NormalizedUsage}
use codex_monitor_group.Posture.{MonitorPosture}
use codex_monitor_group.Quota.{Float64, RateLimitWindow, QuotaSnapshot}

abbrev agent_version : Text
agent_version = codes "1.5.0"

-- Fields in front of others.
abbrev add_fields : List (String × Value) → Fields → Fields
add_fields [] rest = rest
add_fields ((key, value) ∷ more) rest = field (codes key) value (add_fields more rest)

abbrev pub object_of : List (String × Value) → Value
object_of fields = object (add_fields fields end)

abbrev string : String → Value
string s = text (codes s)

-- What a heartbeat says, in the order of the source.
pub record HeartbeatFacts : Type 0 where
  pub agent_sha256 : String
  pub ccusage_version : Text
  pub ccusage_sha256 : String
  pub codex_version : Text
  pub codex_home : String
  pub codex_home_source : String
  pub codex_home_auto_discovered : Bool
  pub config_fingerprint : String
  pub telemetry_config_ok : Bool
  pub uptime_seconds : ℕ
  pub os : String
  pub arch : String

-- The decimal texts that canonical JSON shows for numbers.
pub record Numbers : Type 0 where
  pub digests : Digests
  pub float_text : Float64 → Text

module _ (numbers : Numbers) where
  abbrev integer : ℤ → Value
  integer n = number (numbers.digests.float_text n)

  abbrev window_value : RateLimitWindow → Value
  window_value w = object_of (
      ("used_percent", number (numbers.float_text w.used_percent))
      ∷ ("window_minutes", integer w.window_minutes)
      ∷ ("resets_at", integer w.resets_at)
      ∷ [])

  abbrev window_field : String → Option RateLimitWindow → List (String × Value)
  window_field key none = []
  window_field key (some w) = (key, window_value w) ∷ []

  abbrev text_field : String → String → List (String × Value)
  text_field key s = if str_eq s "" then [] else (key, string s) ∷ []

  unfoldable pub quota_value : QuotaSnapshot → Value
  quota_value s = object_of (
      text_field "plan_type" s.plan_type
      ++ window_field "primary" s.primary
      ++ window_field "secondary" s.secondary
      ++ ("observed_at", string s.observed_at) ∷ [])

  abbrev quota_field : Option QuotaSnapshot → List (String × Value)
  quota_field none = []
  quota_field (some s) = ("quota", quota_value s) ∷ []

  unfoldable pub heartbeat_payload : HeartbeatFacts → Option QuotaSnapshot → Value
  heartbeat_payload f quota = object_of (
      ("agent_version", text agent_version)
      ∷ ("agent_sha256", string f.agent_sha256)
      ∷ ("ccusage_version", text f.ccusage_version)
      ∷ ("ccusage_sha256", string f.ccusage_sha256)
      ∷ ("codex_version", text f.codex_version)
      ∷ ("codex_home", string f.codex_home)
      ∷ ("codex_home_source", string f.codex_home_source)
      ∷ ("codex_home_auto_discovered", bool f.codex_home_auto_discovered)
      ∷ ("config_fingerprint", string f.config_fingerprint)
      ∷ ("telemetry_config_ok", bool f.telemetry_config_ok)
      ∷ ("uptime_seconds", integer (pos f.uptime_seconds))
      ∷ ("os", string f.os)
      ∷ ("arch", string f.arch)
      ∷ quota_field quota)

  unfoldable pub usage_value : NormalizedUsage → Value
  usage_value day = object_of (
      ("date", text day.date)
      ∷ ("input_tokens", integer (pos day.input_tokens))
      ∷ ("cached_input_tokens", integer (pos day.cached_input_tokens))
      ∷ ("output_tokens", integer (pos day.output_tokens))
      ∷ ("reasoning_output_tokens", integer (pos day.reasoning_output_tokens))
      ∷ ("total_tokens", integer (pos day.total_tokens))
      ∷ [])

  abbrev usage_items : List NormalizedUsage → Items
  usage_items [] = nil
  usage_items (day ∷ days) = cons (usage_value day) (usage_items days)

  unfoldable pub usage_payload : String → List NormalizedUsage → Value
  usage_payload source days =
      object_of (("source", string source) ∷ ("days", array (usage_items days)) ∷ [])

  unfoldable pub posture_value : MonitorPosture → Value
  posture_value p = object_of (
      ("os", text p.os)
      ∷ ("service_manager", text p.service_manager)
      ∷ ("service_installed", bool p.service_installed)
      ∷ ("service_running", bool p.service_running)
      ∷ ("auto_start_ok", bool p.auto_start_ok)
      ∷ ("restart_policy_ok", bool p.restart_policy_ok)
      ∷ ("watchdog_expected", bool p.watchdog_expected)
      ∷ ("watchdog_ok", bool p.watchdog_ok)
      ∷ ("agent_permissions_ok", bool p.agent_permissions_ok)
      ∷ ("config_permissions_ok", bool p.config_permissions_ok)
      ∷ ("key_protection", string p.key_protection)
      ∷ ("service_fingerprint", string p.service_fingerprint)
      ∷ [])

  unfoldable pub integrity_payload : Payload → MonitorPosture → Value
  integrity_payload p posture = object_of (
      ("files_checked", integer (pos p.files_checked))
        ∷ ("status", string p.status)
        ∷ ("findings", array (finding_items numbers.digests p.findings))
        ∷ ("file_metadata", array (metadata_items numbers.digests p.file_metadata))
        ∷ ("state_id", string p.state_id)
        ∷ ("scan_sequence", integer (pos p.scan_sequence))
        ∷ text_field "previous_snapshot_hash" p.previous_snapshot_hash
      ++ ("snapshot_hash", string p.snapshot_hash)
        ∷ ("monitor_posture", posture_value posture)
        ∷ [])

unfoldable pub security_payload : String → Value → Value
security_payload event_type details =
    object_of (("event_type", string event_type) ∷ ("details", details) ∷ [])
