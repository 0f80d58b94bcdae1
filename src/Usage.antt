-- ===== src/Usage.antt =====
-- `CollectUsage` of internal/agent/usage.go; the program that it runs, the clock and the time zones
-- are a parameter.
use codex_monitor_group.Base.{
  ℕ, String, List, Option, none, some, Result, ok, err, bad_timezone, io, invalid_json, map, on_ok,
}
use codex_monitor_group.Base.Int.{ℤ}
use codex_monitor_group.Base.Text.{Text}
use codex_monitor_group.Config
use codex_monitor_group.Otel.{NormalizedUsage}

pub record UsageDay : Type 0 where
  pub date : Text
  pub input_tokens : ℕ
  pub cache_read_tokens : ℕ
  pub output_tokens : ℕ
  pub reasoning_output_tokens : ℕ
  pub total_tokens : ℕ

-- The first and the last day to ask for: today in a time zone, so many days ago and now, if there is
-- the zone; the output of the program for a path, a home, a zone and these days; and its JSON.
pub record UsageTool : Type 1 where
  pub Output : Type 0
  pub days : String → ℤ → Option (Text × Text)
  pub run : String → String → String → Text → Text → Option Output
  pub unmarshal : Output → Option (List UsageDay)

unfoldable pub normalized : UsageDay → NormalizedUsage
normalized day = record {
  date = day.date;
  input_tokens = day.input_tokens;
  cached_input_tokens = day.cache_read_tokens;
  output_tokens = day.output_tokens;
  reasoning_output_tokens = day.reasoning_output_tokens;
  total_tokens = day.total_tokens;
}

module _ (tool : UsageTool) where
  abbrev daily : tool.Output → Result (List NormalizedUsage)
  daily output =
      on_ok (Config.or_error invalid_json (tool.unmarshal output))
        (λ days. ok (map normalized days))

  abbrev between : String → String → String → Option (Text × Text) → Result (List NormalizedUsage)
  between path home timezone none = err bad_timezone
  between path home timezone (some (since, until)) =
      on_ok (Config.or_error io (tool.run path home timezone since until)) daily

  unfoldable pub collect_usage : String → String → String → ℤ → Result (List NormalizedUsage)
  collect_usage path home timezone retention_days =
      between path home timezone (tool.days timezone retention_days)
