-- ===== src/Examples/Enrollments.antt =====
-- The first registration at a concrete input.
use codex_monitor_group.Base.{err, incomplete, ◌≡◌, refl, ok, some}
use codex_monitor_group.Base.Int.{pos}
use codex_monitor_group.Store.{Slot, absent, succeeds, write_tmp, replace}
use codex_monitor_group.Config
use codex_monitor_group.Config.{
  Config, unix, defaults, or_text, or_int, at_least, or_one, write_file, disk_form,
}
use codex_monitor_group.Config.Storage.{unsealed}
use codex_monitor_group.Client.{EnrollResponse, replied, register}
use codex_monitor_group.Client.Enroll.{
  EnrollInput, new_config, enroll, enroll-load, load_refuses, save_new, trim_slashes,
}
use codex_monitor_group.Examples.{all_fine, marking}
use codex_monitor_group.Examples.Configs.{marking-DpapiLaws}

abbrev arguments : EnrollInput
arguments = record {
  server = "https://example.org/";
  keys = some ("public", "private");
  codex_home = "/home/a/.codex";
  codex_path = "";
  ccusage_path = "ccusage";
  agent_path = "agent";
  state_dir = "/state";
}

abbrev response : EnrollResponse
response = record {
  device_id = "device";
  student_name = "name";
  device_label = "label";
  otlp_token = "token";
  heartbeat_seconds = pos 0;
  usage_seconds = pos 0;
  integrity_seconds = pos 60;
  classroom_timezone = "UTC";
}

abbrev no_file : Slot Config
no_file = record { target = absent; tmp = absent }

abbrev agent : Config
agent = record (defaults (new_config arguments "public" "private" response)) {
  key_protection = "root-owned-file";
}

enroll-load_example :
    (agent.device_id ≡ "device")
    × (agent.next_sequence ≡ 1)
    × ((c' : Config) × ((Config.load marking unix succeeds
            (enroll unix marking arguments (replied 200 (some response)) all_fine no_file).1).0
          ≡ ok c')
        × (unsealed c' ≡ unsealed agent))
unfolding enroll register trim_slashes save_new Config.save disk_form write_file write_tmp replace
    new_config defaults or_text or_int at_least or_one
enroll-load_example =
    enroll-load unix marking marking-DpapiLaws arguments (replied 200 (some response)) all_fine
      no_file "public" "private" response agent refl refl refl refl refl refl refl

abbrev nameless : EnrollResponse
nameless = record response { device_id = "" }

load_refuses_example :
    (Config.load marking unix succeeds
      (enroll unix marking arguments (replied 200 (some nameless)) all_fine no_file).1).0
    ≡ err incomplete
unfolding enroll register trim_slashes save_new Config.save disk_form write_file write_tmp replace
    new_config defaults or_text or_int at_least or_one
load_refuses_example =
    load_refuses marking arguments (replied 200 (some nameless)) all_fine no_file "public" "private"
      nameless (record agent { device_id = "" }) refl refl refl refl
