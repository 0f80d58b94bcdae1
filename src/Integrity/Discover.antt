-- ===== src/Integrity/Discover.antt =====
-- `discoverLogs` and `hashPrefix` of internal/agent/integrity.go, over what the file system answers.
use codex_monitor_group.Base.{
  ℕ, Bool, true, false, not, ◌||◌, String, List, [], ◌∷◌, ◌++◌, Result, ok, err, io, short_read,
  length, take, ltb, if◌then◌else◌, map,
}
use codex_monitor_group.Base.Int.{ℤ}
use codex_monitor_group.Base.Text.{Text, codes, lower, has_suffix}

-- A log as the scan meets it: the answers of os.Stat and os.Open, the size and the time that
-- os.Stat returned, and the bytes that were there when it was read, maybe more by then.
pub record LogFile : Type 0 where
  pub stats : Bool
  pub opens : Bool
  pub size : ℕ
  pub mtime_unix : ℤ
  pub bytes : List ℕ

-- One entry that filepath.WalkDir visits: its path relative to the Codex home, and its own name.
pub record Entry : Type 0 where
  pub relative : String
  pub name : Text
  pub is_dir : Bool
  pub file : LogFile

-- What os.Stat and the walk say of `sessions` or `archived_sessions`.
pub data Root : Type 0 where
  missing not_stated not_dir walk_fails : Root
  dir : List Entry → Root

pub record Log : Type 0 where
  pub relative : String
  pub file : LogFile
  pub archived : Bool

abbrev pub is_log : Entry → Bool
is_log entry = not (entry.is_dir || not (has_suffix (map lower entry.name) (codes ".jsonl")))

unfoldable pub walk : Bool → List Entry → List Log
walk archived [] = []
walk archived (entry ∷ rest) =
    if is_log entry
    then record { relative = entry.relative; file = entry.file; archived = archived }
      ∷ walk archived rest
    else walk archived rest

unfoldable pub discover_root : Bool → Root → Result (List Log)
unfolding walk
discover_root archived missing = ok []
discover_root archived not_stated = err io
discover_root archived not_dir = ok []
discover_root archived walk_fails = err io
discover_root archived (dir entries) = ok (walk archived entries)

both : Result (List Log) → Result (List Log) → Result (List Log)
both (err e) r = err e
both (ok logs) (err e) = err e
both (ok logs) (ok more) = ok (logs ++ more)

unfoldable pub discover_logs : Root → Root → Result (List Log)
unfolding both
discover_logs sessions archived_sessions =
    both (discover_root false sessions) (discover_root true archived_sessions)

-- io.CopyN stops early where the file is shorter.
module _ (sha256_hex : List ℕ → String) where
  unfoldable pub hash_prefix : LogFile → ℕ → Result String
  hash_prefix file size =
      if not file.opens
      then err io
      else if ltb (length file.bytes) size
      then err short_read
      else ok (sha256_hex (take size file.bytes))
