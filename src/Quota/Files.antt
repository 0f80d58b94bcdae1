-- ===== src/Quota/Files.antt =====
-- `quotaFiles` of internal/agent/quota.go: the files that changed last.
use codex_monitor_group.Base.{
  ℕ, ltb, Bool, not, ◌||◌, String, List, [], ◌∷◌, ◌++◌, Option, none, some, Result, ok, err, io,
  if◌then◌else◌, map, take,
}
use codex_monitor_group.Base.Text.{codes, lower, has_suffix}
use codex_monitor_group.Base.Sort.{sort_by}
use codex_monitor_group.Home.{FsError, Info, no_info, modified, Visit, walk_error, entry}

pub record QuotaFile : Type 0 where
  pub path : String
  pub mod_time : ℕ

abbrev pub quota_file_limit : ℕ
quota_file_limit = 8

-- One call of the function that filepath.WalkDir is given: the error it returns, and `files`.
abbrev add_file : String → Info → List QuotaFile → Option FsError × List QuotaFile
add_file path (no_info e) files = (some e, files)
add_file path (modified at) files = (none, files ++ (record { path = path; mod_time = at }) ∷ [])

abbrev visit : String → Visit → List QuotaFile → Option FsError × List QuotaFile
visit path (walk_error e) files = (if e.is_not_exist then none else some e, files)
visit path (entry is_dir name info) files =
    if is_dir || not (has_suffix (map lower name) (codes ".jsonl"))
    then (none, files)
    else add_file path info files

unfoldable pub walk : List (String × Visit) → List QuotaFile → Option FsError × List QuotaFile
walk [] files = (none, files)
walk ((path, v) ∷ vs) files =
    let rest = walk vs (visit path v files).1 in
    elim (visit path v files).0 [ none ↦ rest | some e ↦ (some e, (visit path v files).1) ]

abbrev walked : Option FsError × List QuotaFile → Result (List QuotaFile)
walked (none, files) = ok files
walked (some e, files) = if e.is_not_exist then ok files else err io

abbrev then_walk : List (String × Visit) → Result (List QuotaFile) → Result (List QuotaFile)
then_walk visits (err e) = err e
then_walk visits (ok files) = walked (walk visits files)

-- files[i].modTime.After(files[j].modTime)
abbrev pub is_newer : QuotaFile → QuotaFile → Bool
is_newer i j = ltb j.mod_time i.mod_time

abbrev newest_files : Result (List QuotaFile) → Result (List QuotaFile)
newest_files (err e) = err e
newest_files (ok files) = ok (take quota_file_limit (sort_by is_newer files))

-- `quotaFiles`; files of one time may come in any order from its sort, here in that of the walk.
unfoldable pub quota_files : List (String × Visit) → List (String × Visit) → Result (List QuotaFile)
quota_files sessions archived = newest_files (then_walk archived (then_walk sessions (ok [])))
