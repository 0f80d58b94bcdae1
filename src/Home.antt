-- ===== src/Home.antt =====
-- internal/agent/codexhome.go: which directory is the Codex home. What the file system and package
-- filepath answer is a parameter, and so is the list of the platform's candidates. Times are
-- nanoseconds since time.Time{}, the first instant of the year 1.
pub mod Candidates
pub mod Choice
pub mod Valid
use codex_monitor_group.Base.{
  ℕ, suc, ◌==◌, ltb, Bool, true, false, not, ◌&&◌, ◌||◌, String, List, [], ◌∷◌, Option, none, some,
  Result, ok, err, io, str_eq, if◌then◌else◌, map,
}
use codex_monitor_group.Base.Text.{Text, codes, lower, has_suffix}
use codex_monitor_group.Base.Sort.{sort_by}

pub record CodexHomeResolution : Type 0 where
  pub path : String
  pub source : String
  pub log_count : ℕ
  pub latest_log : ℕ

pub record CodexHomeCandidate : Type 0 where
  pub path : String
  pub source : String

-- An error of the file system, and whether os.IsNotExist holds of it.
pub record FsError : Type 0 where
  pub is_not_exist : Bool

-- entry.Info(): an error, or the time of the last change.
pub data Info : Type 0 where
  no_info : FsError → Info
  modified : ℕ → Info

-- What filepath.WalkDir hands to its function: an error, or an entry.
pub data Visit : Type 0 where
  walk_error : FsError → Visit
  entry : Bool → Text → Info → Visit

pub record Summary : Type 0 where
  pub count : ℕ
  pub latest : ℕ

-- filepath.Abs, `none` where it fails, filepath.Clean, and strings.ToLower; `blank` is a path that
-- strings.TrimSpace empties, and `windows` whether the agent was built for Windows. The rest are
-- the answers of os.Stat and filepath.WalkDir.
pub record Disk : Type 0 where
  pub abs : String → Option String
  pub clean : String → String
  pub to_lower : String → String
  pub windows : Bool
  pub blank : String → Bool
  pub is_dir : String → Bool
  pub sessions : String → List Visit
  pub archived_sessions : String → List Visit
  pub has_config : String → Bool

abbrev counted : Info → Summary → Option FsError × Summary
counted (no_info e) s = (some e, s)
counted (modified at) s =
    (none, record { count = suc s.count; latest = if ltb s.latest at then at else s.latest })

abbrev visit : Visit → Summary → Option FsError × Summary
visit (walk_error e) s = (if e.is_not_exist then none else some e, s)
visit (entry is_dir name info) s =
    if is_dir || not (has_suffix (map lower name) (codes ".jsonl"))
    then (none, s)
    else counted info s

-- The walk ends with the first error that the function returns.
walk : List Visit → Summary → Option FsError × Summary
walk [] s = (none, s)
walk (v ∷ vs) s =
    let rest = walk vs (visit v s).1 in
    elim (visit v s).0 [ none ↦ rest | some e ↦ (some e, (visit v s).1) ]

-- A walk that ended over a missing file counts as far as it came.
walked : Option FsError × Summary → Result Summary
walked (none, s) = ok s
walked (some e, s) = if e.is_not_exist then ok s else err io

then_walk : List Visit → Result Summary → Result Summary
unfolding walk walked
then_walk visits (err e) = err e
then_walk visits (ok s) = walked (walk visits s)

unfoldable pub session_log_summary : List Visit → List Visit → Result Summary
unfolding then_walk
session_log_summary sessions archived =
    then_walk archived (then_walk sessions (ok (record { count = 0; latest = 0 })))

abbrev pub summed : Bool → String → String → Result Summary → Option CodexHomeResolution
summed has_config path source (err e) = none
summed has_config path source (ok s) =
    if s.count == 0 && not has_config
    then none
    else some (record { path = path; source = source; log_count = s.count; latest_log = s.latest })

abbrev pub inspect_at : Disk → String → Option String → Option CodexHomeResolution
inspect_at disk source none = none
inspect_at disk source (some abs) =
    let path = disk.clean abs in
    if not (disk.is_dir path)
    then none
    else summed (disk.has_config path) path source
        (session_log_summary (disk.sessions path) (disk.archived_sessions path))

unfoldable pub inspect_codex_home : Disk → CodexHomeCandidate → Option CodexHomeResolution
inspect_codex_home disk candidate = inspect_at disk candidate.source (disk.abs candidate.path)

-- pathKey
unfoldable pub path_key : Disk → String → String
path_key disk path = if disk.windows then disk.to_lower (disk.clean path) else disk.clean path

abbrev is_seen : String → List String → Bool
is_seen key [] = false
is_seen key (k ∷ ks) = str_eq key k || is_seen key ks

abbrev keep : Option CodexHomeResolution → List CodexHomeResolution → List CodexHomeResolution
keep none valid = valid
keep (some r) valid = r ∷ valid

-- The candidates that are Codex homes, each path once.
unfoldable pub valid_homes : Disk → List String → List CodexHomeCandidate → List CodexHomeResolution
valid_homes disk seen [] = []
valid_homes disk seen (candidate ∷ rest) =
    let key = path_key disk candidate.path in
    let skipped = valid_homes disk seen rest in
    let others = valid_homes disk (key ∷ seen) rest in
    if disk.blank candidate.path
    then skipped
    else if is_seen key seen
    then skipped
    else keep (inspect_codex_home disk candidate) others

abbrev pub has_logs : CodexHomeResolution → Bool
has_logs r = ltb 0 r.log_count

abbrev pub is_configured : CodexHomeResolution → Bool
is_configured r = str_eq r.source "configured"

unfoldable pub find_pinned : List CodexHomeResolution → Option CodexHomeResolution
find_pinned [] = none
find_pinned (r ∷ rest) =
    let later = find_pinned rest in if is_configured r && has_logs r then some r else later

abbrev xor : Bool → Bool → Bool
xor true b = not b
xor false b = b

-- The order of the sort.
unfoldable pub before : CodexHomeResolution → CodexHomeResolution → Bool
before i j =
    if xor (has_logs i) (has_logs j)
    then has_logs i
    else if not (i.latest_log == j.latest_log)
    then ltb j.latest_log i.latest_log
    else is_configured i

-- `valid[0]` behind the sort; the list is not empty there.
abbrev pub first_or : CodexHomeResolution → List CodexHomeResolution → CodexHomeResolution
first_or default [] = default
first_or default (r ∷ _) = r

abbrev or_best : Option CodexHomeResolution → CodexHomeResolution → CodexHomeResolution
or_best none best = best
or_best (some r) best = r

abbrev or_empty : Option String → String
or_empty none = ""
or_empty (some s) = s

abbrev pub fallback : Disk → String → CodexHomeResolution
fallback disk configured = record {
  path = disk.clean (or_empty (disk.abs configured));
  source = "configured";
  log_count = 0;
  latest_log = 0;
}

unfoldable pub choose : CodexHomeResolution → List CodexHomeResolution → CodexHomeResolution
choose default [] = default
choose default (r ∷ rest) =
    or_best (find_pinned (r ∷ rest)) (first_or default (sort_by before (r ∷ rest)))

unfoldable pub resolve_codex_home : Disk → String → List CodexHomeCandidate → CodexHomeResolution
resolve_codex_home disk configured candidates =
    choose (fallback disk configured)
      (valid_homes disk [] (record { path = configured; source = "configured" } ∷ candidates))
