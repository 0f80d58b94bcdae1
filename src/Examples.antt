-- ===== src/Examples.antt =====
-- The theorems at concrete inputs: the values that the examples share.
mod Queues
mod Configs
mod Scans
mod Clients
mod Homes
mod Texts
mod Enrollments
mod Otels
mod Quotas
mod Telemetries
mod Agents
mod Processes
use codex_monitor_group.Base.{
  ℕ, String, Bool, true, false, List, [], ◌∷◌, Option, none, some, ok, str_eq, if◌then◌else◌, ◌==◌,
}
use codex_monitor_group.Base.Int.{ℤ, pos}
use codex_monitor_group.Store.{
  Io, Slot, Content, absent, json, succeeds, written, renamed, dying, stops, emptied,
  renamed_then_dead,
}
use codex_monitor_group.Config.{Config, Dpapi}

-- Every call succeeds.
abbrev pub all_fine : Io
all_fine = record {
  mkdir = succeeds;
  marshals = true;
  write = written;
  chmod = succeeds;
  rename = renamed;
}

-- The process dies while it writes, or behind the rename.
abbrev pub dies_writing : Io
dies_writing = record all_fine { write = emptied dying }

abbrev pub dies_behind : Io
dies_behind = record all_fine { rename = renamed_then_dead }

-- A configuration that is enrolled.
abbrev pub enrolled : Config
enrolled = record {
  server_url = "https://example.org";
  device_id = "device";
  student_name = "name";
  device_label = "label";
  private_key = "key";
  protected_private_key = "";
  public_key = "public";
  otlp_token = "token";
  protected_otlp_token = "";
  key_protection = "";
  codex_home = "/home/a/.codex";
  codex_path = "codex";
  ccusage_path = "ccusage";
  agent_path = "agent";
  state_dir = "/state";
  timezone = "UTC";
  heartbeat_seconds = pos 60;
  usage_seconds = pos 300;
  integrity_seconds = pos 300;
  retention_days = pos 30;
  next_sequence = 7;
  expected_config_hash = "";
  otel_listen = "127.0.0.1:9464";
}

-- A sealing that marks a text and takes the mark away.
abbrev pub unseal_mark : String → Option String
unseal_mark String.[] = none
unseal_mark (String.◌∷◌ c s) = some s

abbrev pub marking : Dpapi
marking = record {
  Blob = String;
  seal = λ s. some s;
  unseal = λ b. some b;
  encode = λ b. String.◌∷◌ "=" b;
  decode = unseal_mark;
}
