-- ===== src/Examples/Clients.antt =====
-- The client's theorems at concrete inputs.
use codex_monitor_group.Base.{ℕ, ◌≡◌, refl, String, true, [], ◌∷◌, some, ok, arith, ◌*◌}
use codex_monitor_group.Base.Int.{pos}
use codex_monitor_group.Base.Text.{codes, text_eq}
use codex_monitor_group.Store.{absent, json, succeeds}
use codex_monitor_group.Protocol.{Crypto, null}
use codex_monitor_group.Queue.{Item, day_ns, decode}
use codex_monitor_group.Config
use codex_monitor_group.Config.{Config, unix}
use codex_monitor_group.Client.{
  is_unknown_device, Client, RawMessage, envelope, EnqueueInput, EnrollResponse, replied,
  ReEnrollInput, answered, Round, Flushed, enqueue, flush, save_config,
}
use codex_monitor_group.Client.Flush.{InOrder, flush-InOrder}
use codex_monitor_group.Client.Sequences.{InStep}
use codex_monitor_group.Client.Enqueue.{enqueue-InStep}
use codex_monitor_group.Client.Restart.{Survives, restart-InStep, InStep-Restartable}
use codex_monitor_group.Client.Lifetime.{
  flush-Survives, born, enqueued, moved, restarted, Life-InStep,
}
use codex_monitor_group.Examples.{all_fine, dies_behind, dies_writing, enrolled, marking}

abbrev pub keys : Crypto
keys = record {
  Key = String;
  read_key = λ s. some s;
  sha256_hex = λ bytes. "00";
  sign = λ key message. codes "signature";
}

abbrev pub own_event : Item RawMessage
own_event = record {
  endpoint = "/api/v1/events";
  created_at = pos 1;
  envelope = envelope (record {
    device_id = codes "device";
    sequence = 6;
    timestamp = codes "t";
    event_id = codes "e";
    payload = null;
    signature = codes "s";
  });
}

abbrev pub start : Client
start = record {
  config = enrolled;
  config_file = record { target = json enrolled; tmp = absent };
  queue = record {
    retention = pos (30 * day_ns);
    file = record { target = json (own_event ∷ []); tmp = absent };
  };
}

pub start-InStep : InStep start
unfolding decode text_eq
start-InStep = record {
  disk = enrolled;
  items = own_event ∷ [];
  in_file = refl;
  in_queue = refl;
  same_device = refl;
  not_above = omega arith;
  ascending = (omega arith, omega arith);
}

pub start-level : start-InStep.disk.next_sequence ≡ start.config.next_sequence
unfolding start-InStep
start-level = refl

-- The process dies while it queues the event.
abbrev pub input : EnqueueInput
input = record {
  event_id = some (codes "id");
  timestamp = codes "t";
  created_at = pos 2;
  pushed_at = pos 2;
  save = all_fine;
  marshals = true;
  read = succeeds;
  push = dies_behind;
}

abbrev response : EnrollResponse
response = record {
  device_id = "new";
  student_name = "name";
  device_label = "label";
  otlp_token = "token";
  heartbeat_seconds = pos 60;
  usage_seconds = pos 300;
  integrity_seconds = pos 300;
  classroom_timezone = "UTC";
}

abbrev re_enrollment : ReEnrollInput
re_enrollment = record {
  reply = replied 200 (some response);
  telemetry = ok "fingerprint";
  clear = all_fine;
  save = dies_behind;
}

abbrev pub accepting : ℕ → Round
accepting n = record {
  peek = succeeds;
  request = true;
  reply = answered 200 [];
  pop_read = succeeds;
  pop = dies_writing;
  re_enroll = re_enrollment;
}

enqueue-InStep_example : InStep (enqueue unix marking keys input "/api/v1/events" null start).1
enqueue-InStep_example =
    enqueue-InStep unix marking keys input "/api/v1/events" null start start-InStep (omega arith)

restart-InStep_example : InStep (restarted start enrolled)
unfolding Config.load Config.defaults Config.or_text Config.or_int Config.at_least Config.or_one
restart-InStep_example =
    restart-InStep unix marking succeeds start enrolled (InStep-Restartable start start-InStep) refl

flush-Survives_example :
    (f : Flushed) × (flush unix marking 2 accepting start ≡ some f) × Survives f.result f.client
unfolding start-InStep
flush-Survives_example = flush-Survives unix marking 2 accepting start start-InStep (omega arith)

flush-InOrder_example :
    (f : Flushed) × (flush unix marking 2 accepting start ≡ some f)
    × InOrder (own_event ∷ []) f.delivered f.result f.client
unfolding decode is_unknown_device
flush-InOrder_example =
    flush-InOrder unix marking 2 accepting start (own_event ∷ []) (λ n. refl) refl (omega arith)

-- The agent queues an event, and then finds another Codex home.
abbrev queued : Client
queued = (enqueue unix marking keys input "/api/v1/events" null start).1

abbrev at_home : Client
at_home =
    (save_config unix marking all_fine (record queued {
      config = record queued.config { codex_home = "/b"; expected_config_hash = "h" };
    })).1

Life-InStep_example : InStep at_home
Life-InStep_example =
    Life-InStep unix marking keys start at_home start-InStep (
      moved queued all_fine "/b" "h"
        (enqueued start input "/api/v1/events" null born (omega arith)))
