-- ===== src/Examples/Agents.antt =====
-- The reports of an agent at concrete inputs.
use codex_monitor_group.Base.{
  ℕ, ◌+◌, ◌*◌, ◌≡◌, ◌++◌, refl, true, false, String, List, [], ◌∷◌, some, none, ok, arith, length,
  select,
}
use codex_monitor_group.Base.Text.{codes}
use codex_monitor_group.Store.{absent, succeeds, write_tmp, replace}
use codex_monitor_group.Protocol.{null}
use codex_monitor_group.Queue
use codex_monitor_group.Queue.{is_fresh, decode}
use codex_monitor_group.Config.{unix, Config}
use codex_monitor_group.Client.{
  Client, EnqueueInput, Round, enqueue, signed_item, queue_signed, save_config, bump_sequence,
}
use codex_monitor_group.Client.Delivery.{Accepts}
use codex_monitor_group.Home.{Disk}
use codex_monitor_group.Integrity.Discover.{missing}
use codex_monitor_group.Posture.{Services, linux, inspect_unix}
use codex_monitor_group.Telemetry.Status.{whole}
use codex_monitor_group.Agent.{report, flush_behind}
use codex_monitor_group.Agent.Inputs.{
  Agent, Machine, RefreshInput, ReportInput, HeartbeatInput, IntegrityInput,
}
use codex_monitor_group.Agent.Loop.{RoundInput, run_rounds, start_schedule}
use codex_monitor_group.Agent.Running.{Fares, run_rounds-Fares}
use codex_monitor_group.Agent.Delivery.{report-Delivers}
use codex_monitor_group.Examples.{all_fine, marking, enrolled}
use codex_monitor_group.Examples.Clients.{keys, own_event, start, start-InStep, input, accepting}
use codex_monitor_group.Examples.Quotas.{log_reader, handles}

abbrev machine : Machine
machine = record {
  crypto = keys;
  numbers = record {
    digests = record { sha256_hex = λ bytes. "00"; float_text = λ n. codes "0" };
    float_text = λ x. codes "0";
  };
  tools = record { unmarshal = λ s. none; is_print = λ c. true; sha256 = λ s. "00" };
  reader = log_reader;
  usage = record {
    Output = String;
    days = λ zone n. some (codes "2024-01-01", codes "2024-01-02");
    run = λ path home zone since until. some "{}";
    unmarshal = λ out. some [];
  };
  clean = λ path. path;
  os = "linux";
  arch = "amd64";
}

abbrev agent : Agent
agent = record {
  client = start;
  home_read = none;
  home_source = "";
  home_auto = false;
  cache = record { quota = none; read_at = none };
  otel_file = record { target = absent; tmp = absent };
  integrity_file = record { target = absent; tmp = absent };
  codex = λ home. record { config = none; backup = none };
}

abbrev pub event : EnqueueInput
event = record input { push = all_fine }

-- The server accepts every event.
abbrev accepts : ℕ → Round
accepts n = record (accepting n) { pop = all_fine }

abbrev to_server : ReportInput
to_server = record { event = event; rounds = accepts }

accepts-Accepts : (n : ℕ) → Accepts (accepts n)
accepts-Accepts n = record {
  peek = refl;
  request = refl;
  status = 200;
  body = [];
  reply = refl;
  success = refl;
  pop_read = refl;
  pop = record { mkdir = refl; marshals = refl; write = refl; rename = refl };
}

readable : decode start.queue.file.target ≡ ok (own_event ∷ [])
unfolding decode
readable = refl

pub queued : (enqueue unix marking keys event "/api/v1/events" null start).0 ≡ ok tt
unfolding enqueue queue_signed save_config bump_sequence Queue.push Queue.load Queue.save decode
    codex_monitor_group.Config.save codex_monitor_group.Config.disk_form
    codex_monitor_group.Config.write_file write_tmp replace
queued = refl

report-Delivers_example :
    (key : String) × (id : List ℕ) × (b : Client) × (some enrolled.private_key ≡ some key)
    × (event.event_id ≡ some id)
    × (report unix marking machine to_server "/api/v1/events" null agent
        ≡ some (ok tt, record agent { client = b }))
    × (flush_behind unix marking machine accepts
          (enqueue unix marking keys event "/api/v1/events" null start)
        ≡ some (record {
          result = ok tt;
          client = b;
          delivered =
              select
                (is_fresh (Queue.cutoff event.pushed_at start.queue.retention))
                (own_event ∷ [])
              ++ signed_item keys event "/api/v1/events" null key id enrolled ∷ [];
        }))
    × (decode b.queue.file.target ≡ ok [])
report-Delivers_example =
    report-Delivers unix marking machine to_server "/api/v1/events" null agent (own_event ∷ [])
      readable queued accepts-Accepts

abbrev pub bare : Disk
bare = record {
  abs = λ path. some path;
  clean = λ path. path;
  to_lower = λ path. path;
  windows = false;
  blank = λ path. false;
  is_dir = λ path. false;
  sessions = λ path. [];
  archived_sessions = λ path. [];
  has_config = λ path. false;
}

abbrev pub refreshing : RefreshInput
refreshing = record {
  now = 5;
  disk = bare;
  candidates = [];
  telemetry = record {
    mkdir = succeeds;
    read = succeeds;
    back_up = whole;
    write = whole;
    read_again = succeeds;
  };
  save = all_fine;
}

abbrev services : Services
services = record {
  definition = none;
  is_running = true;
  is_enabled = true;
  watchdog = none;
  watchdog_is_enabled = false;
}

abbrev beating : HeartbeatInput
beating = record {
  refresh = refreshing;
  status_read = succeeds;
  now = 5;
  file = λ path. none;
  version = λ path. none;
  logs = λ home. record { sessions = []; archived = []; handles = handles };
  uptime_seconds = 60;
  report = to_server;
}

abbrev scanning : IntegrityInput
scanning = record {
  refresh = refreshing;
  read = succeeds;
  answers = all_fine;
  drawn = "state";
  ids = λ path. path;
  sessions = λ home. missing;
  archived_sessions = λ home. missing;
  posture = λ c. inspect_unix (λ bytes. "00") linux services none none "";
  report = to_server;
}

-- A round in which every report is due.
abbrev busy : RoundInput
busy = record {
  now = 5;
  calls = record {
    usage = record { refresh = refreshing; report = to_server };
    otel_usage = record {
      read = succeeds;
      left = record { days = []; seen = [] };
      report = to_server;
    };
    integrity = scanning;
    heartbeat = beating;
  };
}

run_rounds-Fares_example :
    Fares
      (start.config.next_sequence + 4 * length (busy ∷ busy ∷ []))
      (run_rounds unix marking machine (busy ∷ busy ∷ []) agent start_schedule)
run_rounds-Fares_example =
    run_rounds-Fares unix marking machine (busy ∷ busy ∷ []) agent start_schedule start-InStep
      (0, omega arith, omega arith) (omega arith)
