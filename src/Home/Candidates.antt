-- ===== src/Home/Candidates.antt =====
-- `platformCodexHomeCandidates` and `ResolveCodexHome` of internal/agent/codexhome.go. The environment
-- and the answers of package filepath are parameters.
use codex_monitor_group.Base.{
  Bool, true, false, ◌&&◌, String, List, [], ◌∷◌, ◌++◌, Option, none, some, str_eq, if◌then◌else◌,
  map,
}
use codex_monitor_group.Home.{Disk, CodexHomeCandidate, CodexHomeResolution, resolve_codex_home}
use codex_monitor_group.Telemetry.{is_space}
use Prim.Native.Char.{Char, code}

-- os.Getenv, os.UserHomeDir (`none` for an error), filepath.SplitList, filepath.Join with `.codex`,
-- and filepath.Glob: of the profiles of a drive, and of a pattern.
pub record Environment : Type 0 where
  pub getenv : String → String
  pub user_home : Option String
  pub split_list : String → List String
  pub join_codex : String → String
  pub windows_profiles : String → List String
  pub glob : String → List String

abbrev is_empty : String → Bool
is_empty s = str_eq s ""

-- A character in front of the first part.
abbrev add_first : Char → List String → List String
add_first c [] = String.◌∷◌ c "" ∷ []
add_first c (part ∷ parts) = String.◌∷◌ c part ∷ parts

-- strings.Split(value, ",")
unfoldable pub split_commas : String → List String
split_commas String.[] = "" ∷ []
split_commas (String.◌∷◌ c s) =
    let rest = split_commas s in
    if str_eq (String.◌∷◌ c "") "," then "" ∷ rest else add_first c rest

-- strings.TrimSpace
unfoldable pub trim_left : String → String
trim_left String.[] = ""
trim_left (String.◌∷◌ c s) = if is_space (code c) then trim_left s else String.◌∷◌ c s

unfoldable pub trim_right : String → String
trim_right String.[] = ""
trim_right (String.◌∷◌ c s) =
    let rest = trim_right s in if is_empty rest && is_space (code c) then "" else String.◌∷◌ c rest

abbrev trim : String → String
trim s = trim_right (trim_left s)

abbrev pub not_empty : List String → List String
not_empty [] = []
not_empty (path ∷ paths) = if is_empty path then not_empty paths else path ∷ not_empty paths

abbrev all_of : (String → List String) → List String → List String
all_of f [] = []
all_of f (s ∷ rest) = f s ++ all_of f rest

abbrev candidates_from : String → List String → List CodexHomeCandidate
candidates_from source paths = map (λ path. record { path = path; source = source }) paths

abbrev at_home : (String → String) → Option String → List CodexHomeCandidate
at_home join none = []
at_home join (some home) =
    if is_empty home then [] else candidates_from "current-user" (join home ∷ [])

abbrev at_profile : (String → String) → String → List CodexHomeCandidate
at_profile join profile =
    if is_empty profile then [] else candidates_from "USERPROFILE" (join profile ∷ [])

abbrev or_c : String → String
or_c drive = if is_empty drive then "C:" else drive

module _ (e : Environment) where
  unfoldable pub split_codex_homes : String → List String
  split_codex_homes value = not_empty (map trim (all_of e.split_list (split_commas value)))

  abbrev from_variable : String → List CodexHomeCandidate
  from_variable value =
      if is_empty value then [] else candidates_from "CODEX_HOME" (split_codex_homes value)

  abbrev local_profiles : Bool → List CodexHomeCandidate
  local_profiles true =
      at_profile e.join_codex (e.getenv "USERPROFILE")
      ++ candidates_from "windows-profile" (e.windows_profiles (or_c (e.getenv "SystemDrive")))
  local_profiles false =
      candidates_from "local-profile" (e.glob "/home/*/.codex")
      ++ candidates_from "local-profile" (e.glob "/Users/*/.codex")

  unfoldable pub platform_codex_home_candidates : Bool → List CodexHomeCandidate
  platform_codex_home_candidates windows =
      from_variable (e.getenv "CODEX_HOME")
      ++ (at_home e.join_codex e.user_home ++ local_profiles windows)

  -- `ResolveCodexHome`
  unfoldable pub resolve_on_platform : Disk → String → CodexHomeResolution
  resolve_on_platform disk configured =
      resolve_codex_home disk configured (platform_codex_home_candidates disk.windows)
