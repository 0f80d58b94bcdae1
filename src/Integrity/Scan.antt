-- ===== src/Integrity/Scan.antt =====
-- `ScanIntegrity` of internal/agent/integrity.go up to the findings: the loop over the discovered
-- logs in the order of their paths, then the loop over the recorded files. The logs do not shrink
-- or change under the scan but by appending.
use codex_monitor_group.Base.{
  ℕ, ◌==◌, ltb, Bool, true, false, not, ◌&&◌, ◌||◌, String, List, [], ◌∷◌, ◌++◌, Option, none, some,
  Result, ok, err, io, str_eq, if◌then◌else◌, on_ok,
}
use codex_monitor_group.Base.Sort.{text_ltb}
use codex_monitor_group.Base.Text.{codes}
use codex_monitor_group.Integrity.{
  Checkpoint, FileMap, Finding, EventType, archived_log_modified, log_truncated,
  log_prefix_modified, log_deleted,
}
use codex_monitor_group.Integrity.Discover.{Log, LogFile, hash_prefix}

unfoldable pub lookup : String → FileMap → Option Checkpoint
lookup key [] = none
lookup key ((name, cp) ∷ rest) = if str_eq name key then some cp else lookup key rest

-- A map[string]bool that holds only true.
unfoldable pub is_in : String → List String → Bool
is_in key [] = false
is_in key (name ∷ rest) = if str_eq name key then true else is_in key rest

-- What the first loop has built so far.
pub record Progress : Type 0 where
  pub findings : List Finding
  pub next : FileMap
  pub used : List String

abbrev pub checkpoint_of : String → Log → String → Checkpoint
checkpoint_of id log hash = record {
  opaque_file_id = id;
  relative_path = log.relative;
  size = log.file.size;
  prefix_sha256 = hash;
  full_sha256 = if log.archived then hash else "";
  archived = log.archived;
  mtime_unix = log.file.mtime_unix;
}

abbrev pub finding_of : EventType → Checkpoint → ℕ → Finding
finding_of event previous size = record {
  event_type = event;
  opaque_file_id = previous.opaque_file_id;
  old_size = some previous.size;
  new_size = some size;
}

abbrev pub append_option {ℓ} : {A : Type ℓ} → List A → Option A → List A
append_option xs none = xs
append_option xs (some x) = xs ++ x ∷ []

module _ (sha256_hex : List ℕ → String) where
  -- The verdict on a log whose path is recorded; `current` is the hash of the whole log.
  unfoldable pub inspect : Checkpoint → LogFile → String → Result (Option Finding)
  inspect previous file current =
      if previous.archived
      then ok (
          if not (file.size == previous.size) || not (str_eq current previous.full_sha256)
          then some (finding_of archived_log_modified previous file.size)
          else none)
      else if ltb file.size previous.size
      then ok (some (finding_of log_truncated previous file.size))
      else on_ok (hash_prefix sha256_hex file previous.size) λ prefix. ok (
          if str_eq prefix previous.prefix_sha256
          then none
          else some (finding_of log_prefix_modified previous file.size))

  unfoldable pub known_log : Checkpoint → Log → Progress → Result Progress
  known_log previous log p = on_ok (hash_prefix sha256_hex log.file log.file.size) λ current.
      on_ok (inspect previous log.file current) λ found. ok (record {
        findings = append_option p.findings found;
        next = p.next ++ (log.relative, checkpoint_of previous.opaque_file_id log current) ∷ [];
        used = log.relative ∷ p.used;
      })

  -- `prefix, _ := hashPrefix(…)`
  unfoldable pub hash_or_empty : Result String → String
  hash_or_empty (ok hash) = hash
  hash_or_empty (err _) = ""

  -- A recorded active file whose content the new archived log starts with.
  unfoldable pub is_origin : Log → List String → String × Checkpoint → Bool
  unfolding hash_or_empty
  is_origin log used (name, old) =
      not (is_in name used || old.archived || ltb log.file.size old.size)
      && str_eq (hash_or_empty (hash_prefix sha256_hex log.file old.size)) old.prefix_sha256

  unfoldable pub find_origin : Log → List String → FileMap → Option (String × Checkpoint)
  find_origin log used [] = none
  find_origin log used (entry ∷ rest) =
      if is_origin log used entry then some entry else find_origin log used rest

  -- The identifier of a new log, and `used`, once the search for its origin is over.
  abbrev pub id_from : Option (String × Checkpoint) → String → String
  id_from none drawn = drawn
  id_from (some (name, old)) drawn = if str_eq name "" then drawn else old.opaque_file_id

  abbrev pub used_from : Option (String × Checkpoint) → List String → List String
  used_from none used = used
  used_from (some (name, old)) used = if str_eq name "" then used else name ∷ used

  abbrev pub origin : FileMap → Log → List String → Option (String × Checkpoint)
  origin files log used = if log.archived then find_origin log used files else none

  -- A log whose path is not recorded; `drawn` is what opaqueID returns.
  unfoldable pub new_log : FileMap → String → Log → Progress → Result Progress
  new_log files drawn log p = on_ok (hash_prefix sha256_hex log.file log.file.size) λ full.
      let found = origin files log p.used in
      ok (record {
        findings = p.findings;
        next = p.next ++ (log.relative, checkpoint_of (id_from found drawn) log full) ∷ [];
        used = used_from found p.used;
      })

  unfoldable pub log_round : FileMap → String → Option Checkpoint → Log → Progress → Result Progress
  log_round files drawn (some previous) log p = known_log previous log p
  log_round files drawn none log p = new_log files drawn log p

  -- One round of the first loop; `ids` gives the identifiers that opaqueID draws.
  unfoldable pub scan_log : FileMap → (String → String) → Log → Progress → Result Progress
  unfolding log_round
  scan_log files ids log p =
      if log.file.stats
      then log_round files (ids log.relative) (lookup log.relative files) log p
      else err io

  unfoldable pub scan_logs : FileMap → (String → String) → List Log → Progress → Result Progress
  scan_logs files ids [] p = ok p
  scan_logs files ids (log ∷ logs) p =
      on_ok (scan_log files ids log p) (λ p'. scan_logs files ids logs p')

-- A recorded file that no log was reconciled with and that is not there any more.
abbrev pub is_deleted : List String → List String → String × Checkpoint → Bool
is_deleted used paths (name, previous) = not (is_in name used) && not (is_in name paths)

abbrev pub deletion : Checkpoint → Finding
deletion previous = record {
  event_type = log_deleted;
  opaque_file_id = previous.opaque_file_id;
  old_size = some previous.size;
  new_size = none;
}

unfoldable pub deleted : List String → List String → FileMap → List Finding
deleted used paths [] = []
deleted used paths (entry ∷ rest) =
    if is_deleted used paths entry
    then deletion entry.1 ∷ deleted used paths rest
    else deleted used paths rest

abbrev pub by_relative : Log → Log → Bool
by_relative a b = text_ltb (codes a.relative) (codes b.relative)

abbrev pub relatives : List Log → List String
relatives [] = []
relatives (log ∷ logs) = log.relative ∷ relatives logs
