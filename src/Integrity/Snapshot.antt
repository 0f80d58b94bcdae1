-- ===== src/Integrity/Snapshot.antt =====
-- The second half of `ScanIntegrity` of internal/agent/integrity.go: the metadata, the hash that
-- chains one snapshot to the next, and the state that is saved.
use codex_monitor_group.Base.{
  ℕ, ◌+◌, ◌%◌, ◌^◌, Bool, String, List, [], ◌∷◌, ◌++◌, Option, none, some, Result, ok, Exec, str_eq,
  if◌then◌else◌, ◌>>=◌, ◌>>◌, pure, lift, on_ok, length,
}
use codex_monitor_group.Base.Int.{ℤ, pos}
use codex_monitor_group.Base.Sort.{sort_by, text_ltb}
use codex_monitor_group.Base.Text.{Text, codes, utf8}
use codex_monitor_group.Store.{Slot, Io, Answer, call, marshal, write_tmp, replace}
use codex_monitor_group.Protocol.{
  Value, text, number, bool, array, object, Items, nil, cons, Fields, end, field, write_canonical,
}
use codex_monitor_group.Integrity.{
  Checkpoint, FileMap, State, Finding, EventType, archived_log_modified, log_truncated,
  log_prefix_modified, log_deleted, FileMetadata, Payload, load_integrity_state,
}
use codex_monitor_group.Integrity.Discover.{Log, Root, discover_logs}
use codex_monitor_group.Integrity.Scan.{scan_logs, deleted, by_relative, relatives}

-- What a scan takes from Go's libraries: the hash of bytes as lower-case hex, and the text in which
-- canonical JSON shows an integer that went through a float64.
pub record Digests : Type 0 where
  pub sha256_hex : List ℕ → String
  pub float_text : ℤ → Text

abbrev pub event_name : EventType → String
event_name archived_log_modified = "ARCHIVED_LOG_MODIFIED"
event_name log_truncated = "LOG_TRUNCATED"
event_name log_prefix_modified = "LOG_PREFIX_MODIFIED"
event_name log_deleted = "LOG_DELETED"

unfoldable pub metadata_of : Checkpoint → FileMetadata
metadata_of cp = record {
  opaque_file_id = cp.opaque_file_id;
  size = cp.size;
  prefix_size = cp.size;
  prefix_sha256 = cp.prefix_sha256;
  full_sha256 = cp.full_sha256;
  archived = cp.archived;
  mtime_unix = cp.mtime_unix;
}

abbrev by_id : FileMetadata → FileMetadata → Bool
by_id a b = text_ltb (codes a.opaque_file_id) (codes b.opaque_file_id)

all_metadata : FileMap → List FileMetadata
all_metadata [] = []
all_metadata ((name, cp) ∷ rest) = metadata_of cp ∷ all_metadata rest

-- The loop over `next` and sort.Slice by the identifier.
unfoldable pub sorted_metadata : FileMap → List FileMetadata
unfolding all_metadata
sorted_metadata next = sort_by by_id (all_metadata next)

-- A field that `omitempty` leaves out.
abbrev string_field : String → String → Fields → Fields
string_field key value rest =
    if str_eq value "" then rest else field (codes key) (text (codes value)) rest

abbrev pub status_of : List Finding → String
status_of [] = "OK"
status_of (_ ∷ _) = "TAMPER"

module _ (digests : Digests) where
  size_field : String → Option ℕ → Fields → Fields
  size_field key none rest = rest
  size_field key (some n) rest = field (codes key) (number (digests.float_text (pos n))) rest

  finding_value : Finding → Value
  unfolding size_field
  finding_value f = object (
      field (codes "event_type") (text (codes (event_name f.event_type))) (
        field (codes "severity") (text (codes "CRITICAL")) (
          string_field "opaque_file_id" f.opaque_file_id
            (size_field "old_size" f.old_size (size_field "new_size" f.new_size end)))))

  metadata_value : FileMetadata → Value
  metadata_value m = object (
      field (codes "opaque_file_id") (text (codes m.opaque_file_id)) (
        field (codes "size") (number (digests.float_text (pos m.size))) (
          field (codes "prefix_size") (number (digests.float_text (pos m.prefix_size))) (
            field (codes "prefix_sha256") (text (codes m.prefix_sha256)) (
              string_field "full_sha256" m.full_sha256 (
                field (codes "archived") (bool m.archived)
                  (field (codes "mtime_unix") (number (digests.float_text m.mtime_unix)) end)))))))

  pub metadata_items : List FileMetadata → Items
  unfolding metadata_value
  metadata_items [] = nil
  metadata_items (m ∷ ms) = cons (metadata_value m) (metadata_items ms)

  pub finding_items : List Finding → Items
  unfolding finding_value
  finding_items [] = nil
  finding_items (f ∷ fs) = cons (finding_value f) (finding_items fs)

  unfoldable pub chain_input : String → ℕ → String → List FileMetadata → List Finding → Value
  unfolding metadata_items finding_items
  chain_input state_id sequence previous_hash files findings = object (
      field (codes "state_id") (text (codes state_id)) (
        field (codes "sequence") (number (digests.float_text (pos sequence))) (
          field (codes "previous_hash") (text (codes previous_hash)) (
            field (codes "files") (array (metadata_items files))
              (field (codes "findings") (array (finding_items findings)) end)))))

  unfoldable pub snapshot_hash : Value → String
  snapshot_hash value = digests.sha256_hex (utf8 (write_canonical value))

  -- The findings of both loops, and the checkpoints of the logs that are there.
  unfoldable pub compare_logs :
      (String → String) → FileMap → List Log → Result (List Finding × FileMap)
  compare_logs ids files logs =
      on_ok
        (scan_logs digests.sha256_hex files ids (sort_by by_relative logs)
          (record { findings = []; next = []; used = [] }))
        λ p. ok (p.findings ++ deleted p.used (relatives logs) files, p.next)

  -- `state.ScanSequence + 1` in a uint64
  abbrev pub next_sequence : State → ℕ
  next_sequence state = (state.scan_sequence + 1) % 2 ^ 64

  unfoldable pub payload_of : State → List Finding → FileMap → Payload
  payload_of state findings next =
      let metadata = sorted_metadata next in
      record {
        files_checked = length next;
        status = status_of findings;
        findings = findings;
        file_metadata = metadata;
        state_id = state.state_id;
        scan_sequence = next_sequence state;
        previous_snapshot_hash = state.last_snapshot_hash;
        snapshot_hash = snapshot_hash (
            chain_input state.state_id (next_sequence state) state.last_snapshot_hash metadata
              findings);
      }

  abbrev pub next_state : State → List Finding → FileMap → State
  next_state state findings next = record {
    state_id = state.state_id;
    scan_sequence = next_sequence state;
    last_snapshot_hash = (payload_of state findings next).snapshot_hash;
    files = next;
  }

  unfoldable pub save_integrity_state : Io → State → Exec (Slot State) (Unit {0})
  save_integrity_state answers state = do
    call answers.mkdir
    marshal answers.marshals
    write_tmp answers.write state
    replace answers.rename

  -- What a scan reports and saves, given the recorded state and the logs.
  unfoldable pub scan_result : (String → String) → State → List Log → Result (Payload × State)
  scan_result ids state logs =
      on_ok (compare_logs ids state.files logs)
        λ (findings, next). ok (payload_of state findings next, next_state state findings next)

  -- `drawn` and `ids` are what opaqueID draws for the state and for the logs.
  unfoldable pub scan_integrity :
      Answer → Io → String → (String → String) → Root → Root → Exec (Slot State) Payload
  scan_integrity read answers drawn ids sessions archived_sessions = do
    state ← load_integrity_state drawn read
    logs ← lift (discover_logs sessions archived_sessions)
    found ← lift (scan_result ids state logs)
    save_integrity_state answers found.1
    pure found.0
