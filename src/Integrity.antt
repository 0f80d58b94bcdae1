-- ===== src/Integrity.antt =====
-- internal/agent/integrity.go: the records of the append-only check of the Codex session logs, and
-- the state that one scan leaves for the next.
pub mod Discover
pub mod Scan
pub mod Snapshot
pub mod Chain
pub mod Verdicts
pub mod Alarms
pub mod Deletions
pub mod Records
use codex_monitor_group.Base.{
  ℕ, Bool, String, List, [], Option, Result, ok, err, io, invalid_json, str_eq, if◌then◌else◌, Exec,
  lift,
}
use codex_monitor_group.Base.Int.{ℤ}
use codex_monitor_group.Store.{
  Content, absent, blank, garbage, json, Slot, Answer, succeeds, stops, stop_error,
}

-- Sizes are never negative.
pub record Checkpoint : Type 0 where
  pub opaque_file_id : String
  pub relative_path : String
  pub size : ℕ
  pub prefix_sha256 : String
  pub full_sha256 : String
  pub archived : Bool
  pub mtime_unix : ℤ

-- The Go map `Files`, in the order in which a `range` over it goes.
abbrev pub FileMap : Type 0
FileMap = List (String × Checkpoint)

pub record State : Type 0 where
  pub state_id : String
  pub scan_sequence : ℕ
  pub last_snapshot_hash : String
  pub files : FileMap

pub data EventType : Type 0 where
  archived_log_modified log_truncated log_prefix_modified log_deleted : EventType

-- Every finding of a scan is CRITICAL.
pub record Finding : Type 0 where
  pub event_type : EventType
  pub opaque_file_id : String
  pub old_size : Option ℕ
  pub new_size : Option ℕ

pub record FileMetadata : Type 0 where
  pub opaque_file_id : String
  pub size : ℕ
  pub prefix_size : ℕ
  pub prefix_sha256 : String
  pub full_sha256 : String
  pub archived : Bool
  pub mtime_unix : ℤ

pub record Payload : Type 0 where
  pub files_checked : ℕ
  pub status : String
  pub findings : List Finding
  pub file_metadata : List FileMetadata
  pub state_id : String
  pub scan_sequence : ℕ
  pub previous_snapshot_hash : String
  pub snapshot_hash : String

abbrev or_fresh : String → String → String
or_fresh id drawn = if str_eq id "" then drawn else id

-- `drawn` is the identifier that opaqueID would return.
unfoldable pub decode : String → Content State → Result State
decode drawn absent =
    ok (record { state_id = drawn; scan_sequence = 0; last_snapshot_hash = ""; files = [] })
decode drawn blank = err invalid_json
decode drawn garbage = err invalid_json
decode drawn (json state) = ok (record state { state_id = or_fresh state.state_id drawn })

unfoldable pub load_integrity_state : String → Answer → Exec (Slot State) State
unfolding decode
load_integrity_state drawn succeeds s = (decode drawn s.target, s)
load_integrity_state drawn (stops why) s = (err (stop_error why), s)
