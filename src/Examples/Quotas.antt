-- ===== src/Examples/Quotas.antt =====
-- The newest rate limits of concrete logs.
use codex_monitor_group.Base.{
  true, false, String, List, [], ◌∷◌, Option, some, none, ◌==◌, if◌then◌else◌,
}
use codex_monitor_group.Base.Int.{pos}
use codex_monitor_group.Base.Text.{Text, codes}
use codex_monitor_group.Home.{Visit, entry, modified}
use codex_monitor_group.Quota.{RateLimitWindow, QuotaSnapshot, QuotaLogEntry, LogReader, Handle}
use codex_monitor_group.Quota.Files.{QuotaFile}
use codex_monitor_group.Quota.Newest.{Newest}

abbrev half : RateLimitWindow
half = record {
  used_percent = record { mantissa = pos 50; exponent = pos 0 };
  window_minutes = pos 300;
  resets_at = pos 7;
}

-- A window that does not count, of no minutes.
abbrev none_used : RateLimitWindow
none_used = record half { window_minutes = pos 0 }

-- A line that begins with x tells the quota; others are of another kind.
abbrev line_entry : Text → Option QuotaLogEntry
line_entry [] = none
line_entry (c ∷ _) = some (record {
  timestamp = "t";
  entry_type = if c == b'x' then "event_msg" else "response_item";
  payload_type = "token_count";
  rate_limits = some (record {
    plan_type = if c == b'x' then "plus" else "free";
    primary = some half;
    secondary = some none_used;
  });
})

abbrev pub log_reader : LogReader
log_reader = record { unmarshal = line_entry; parse_time = λ s. none; format = λ at. "time" }

abbrev two_logs : List (String × Visit)
two_logs =
    ("/a", entry false (codes "a.jsonl") (modified 5))
    ∷ ("/b", entry false (codes "b.jsonl") (modified 9))
    ∷ []

abbrev pub handles : QuotaFile → Handle
handles file = record {
  opens = true;
  size = some 4;
  seeks = true;
  content = codes "y\nx\n";
  reads = true;
}

abbrev found : QuotaSnapshot
found = record { plan_type = "plus"; primary = some half; secondary = none; observed_at = "time" }
