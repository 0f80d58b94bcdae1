-- ===== src/Examples/Homes.antt =====
-- The choice of the Codex home at concrete inputs.
use codex_monitor_group.Base.{ℕ, ◌≡◌, refl, true, false, List, [], ◌∷◌, some, str_eq, if◌then◌else◌}
use codex_monitor_group.Base.Text.{codes, has_suffix, lower}
use codex_monitor_group.Home.{
  CodexHomeResolution, CodexHomeCandidate, Disk, Visit, entry, modified, resolve_codex_home,
  inspect_codex_home, fallback, session_log_summary,
}
use codex_monitor_group.Home.Choice.{Resolved, resolve-Chosen, resolve_pinned}

abbrev log_at : ℕ → List Visit
log_at at = entry false (codes "a.jsonl") (modified at) ∷ []

-- Two homes; the second has the later log.
abbrev machine : Disk
machine = record {
  abs = λ path. some path;
  clean = λ path. path;
  to_lower = λ path. path;
  windows = false;
  blank = λ path. str_eq path "";
  is_dir = λ path. true;
  sessions = λ path. if str_eq path "/a" then log_at 5 else log_at 9;
  archived_sessions = λ path. [];
  has_config = λ path. false;
}

abbrev other : CodexHomeCandidate
other = record { path = "/b"; source = "current-user" }

abbrev pinned_home : CodexHomeResolution
pinned_home = record { path = "/a"; source = "configured"; log_count = 1; latest_log = 5 }

resolve-Chosen_example :
    Resolved machine
      (fallback machine "/a")
      (record { path = "/a"; source = "configured" } ∷ other ∷ [])
      (resolve_codex_home machine "/a" (other ∷ []))
resolve-Chosen_example = resolve-Chosen machine "/a" (other ∷ [])

resolve_pinned_example : resolve_codex_home machine "/a" (other ∷ []) ≡ pinned_home
unfolding inspect_codex_home session_log_summary has_suffix lower
resolve_pinned_example = resolve_pinned machine "/a" (other ∷ []) pinned_home refl refl refl
