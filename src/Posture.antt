-- ===== src/Posture.antt =====
-- internal/agent/posture.go, posture_other.go and posture_windows.go: what the agent reports of its
-- own service. What the service managers, the files and the permissions answer are inputs; texts are
-- code points.
use codex_monitor_group.Base.{
  ℕ, zero, suc, ◌+◌, ◌-◌, ◌==◌, leb, Bool, true, false, not, ◌&&◌, ◌||◌, String, List, [], ◌∷◌,
  ◌++◌, Option, none, some, if◌then◌else◌, map, length, ◌/◌, ◌%◌,
}
use codex_monitor_group.Base.Text.{Text, codes, contains, starts_with, utf8}
use codex_monitor_group.Telemetry.{trim_space}

pub record MonitorPosture : Type 0 where
  pub os : Text
  pub service_manager : Text
  pub service_installed : Bool
  pub service_running : Bool
  pub auto_start_ok : Bool
  pub restart_policy_ok : Bool
  pub watchdog_expected : Bool
  pub watchdog_ok : Bool
  pub agent_permissions_ok : Bool
  pub config_permissions_ok : Bool
  pub key_protection : String
  pub service_fingerprint : String

-- strings.ReplaceAll(part, "\r\n", "\n")
unfoldable pub replace_crlf : Text → Text
replace_crlf [] = []
replace_crlf (c ∷ []) = c ∷ []
replace_crlf (c ∷ d ∷ cs) =
    let rest = replace_crlf (d ∷ cs) in if c == 13 && d == 10 then rest else c ∷ rest

-- strings.Join(clean, "\n---\n")
abbrev join_parts : List Text → Text
join_parts [] = []
join_parts (p ∷ []) = p
join_parts (p ∷ q ∷ ps) = p ++ codes "\n---\n" ++ join_parts (q ∷ ps)

abbrev clean_part : Text → Text
clean_part part = trim_space (replace_crlf part)

-- The code points that unicode.ToUpper takes to an ASCII letter: a to z, U+0131 and U+017F. Every
-- other one stays as it is here; what it is raised to is never compared with.
unfoldable pub upper : ℕ → ℕ
upper c =
    if leb b'a' c && leb c b'z'
    then c - 32
    else if c == 0x131
    then b'I'
    else if c == 0x17f
    then b'S'
    else c

-- strings.Count of a part that is not empty: occurrences that do not overlap, behind so many
-- characters that belong to the last one.
unfoldable pub count_behind : ℕ → Text → Text → ℕ
count_behind skip part [] = 0
count_behind (suc skip) part (c ∷ cs) = count_behind skip part cs
count_behind zero part (c ∷ cs) =
    let found = starts_with part (c ∷ cs) in
    (if found then 1 else 0) + count_behind (if found then length part - 1 else 0) part cs

-- os.Stat of a file: its permissions and whether its owner is root.
pub record FileInfo : Type 0 where
  pub mode : ℕ
  pub is_root : Bool

-- `info.Mode().Perm()&0022 != 0`: the group's or the others' bit for writing.
unfoldable pub has_broad_write : ℕ → Bool
has_broad_write mode = not (mode / 16 % 2 == 0) || not (mode / 2 % 2 == 0)

unfoldable pub root_owned_not_writable_by_users : Option FileInfo → Bool
root_owned_not_writable_by_users none = false
root_owned_not_writable_by_users (some info) = not (has_broad_write info.mode) && info.is_root

-- A service and its watchdog: the definitions that can be read, and what the commands that ask for
-- the state return.
pub record Services : Type 0 where
  pub definition : Option Text
  pub is_running : Bool
  pub is_enabled : Bool
  pub watchdog : Option Text
  pub watchdog_is_enabled : Bool

abbrev is_there : Option Text → Bool
is_there none = false
is_there (some _) = true

abbrev or_nothing : Option Text → Text
or_nothing none = []
or_nothing (some s) = s

-- runtime.GOOS of a build that is not for Windows.
pub data Unix : Type 0 where
  linux darwin : Unix
  other : Text → Unix

abbrev pub goos : Unix → Text
goos linux = codes "linux"
goos darwin = codes "darwin"
goos (other name) = name

-- The tools of `sc.exe` and the others, as texts, and the SDDL of two files.
pub record WindowsOutputs : Type 0 where
  pub query : Text
  pub qc : Text
  pub failure : Text
  pub watchdog : Text
  pub agent_sddl : Text
  pub config_sddl : Text

unfoldable pub protected_windows_acl : Text → Bool
protected_windows_acl sddl =
    let all = map upper sddl in
    contains all (codes ";;;SY)")
    && contains all (codes ";;;BA)")
    && not (
        contains all (codes ";;;BU)")
        || contains all (codes ";;;WD)")
        || contains all (codes ";;;AU)"))

module _ (sha256_hex : List ℕ → String) where
  unfoldable pub posture_fingerprint : List Text → String
  posture_fingerprint parts = sha256_hex (utf8 (join_parts (map clean_part parts)))

  -- What both systems have in common.
  abbrev unix_posture :
      Unix
      → Services
      → Option FileInfo
      → Option FileInfo
      → String
      → Text
      → Bool
      → Bool
      → Bool
      → MonitorPosture
  unix_posture os services agent config key_protection manager auto_start restart watchdog =
      record {
        os = goos os;
        service_manager = manager;
        service_installed = is_there services.definition;
        service_running = services.is_running;
        auto_start_ok = auto_start;
        restart_policy_ok = restart;
        watchdog_expected = true;
        watchdog_ok = is_there services.watchdog && watchdog && services.watchdog_is_enabled;
        agent_permissions_ok = root_owned_not_writable_by_users agent;
        config_permissions_ok = root_owned_not_writable_by_users config;
        key_protection = key_protection;
        service_fingerprint =
            posture_fingerprint (
              goos os ∷ (or_nothing services.definition ++ 10 ∷ or_nothing services.watchdog) ∷ []);
      }

  -- `inspectMonitorPosture` of posture_other.go, over the two files and the key protection.
  unfoldable pub inspect_unix :
      Unix → Services → Option FileInfo → Option FileInfo → String → MonitorPosture
  inspect_unix linux services agent config key_protection =
      let definition = or_nothing services.definition in
      unix_posture linux services agent config key_protection (codes "systemd") services.is_enabled
        (contains definition (codes "Restart=always")
          && contains definition (codes "RestartSec=5")
          && contains definition (codes "NoNewPrivileges=true"))
        (contains (or_nothing services.watchdog) (codes "OnUnitActiveSec=2min"))
  inspect_unix darwin services agent config key_protection =
      let definition = or_nothing services.definition in
      unix_posture darwin services agent config key_protection (codes "launchd")
        (contains definition (codes "<key>RunAtLoad</key><true/>"))
        (contains definition (codes "<key>KeepAlive</key><true/>"))
        (contains (or_nothing services.watchdog)
          (codes "<key>StartInterval</key><integer>120</integer>"))
  inspect_unix (other name) services agent config key_protection = record {
    os = name;
    service_manager = codes "unsupported";
    service_installed = false;
    service_running = false;
    auto_start_ok = false;
    restart_policy_ok = false;
    watchdog_expected = false;
    watchdog_ok = true;
    agent_permissions_ok = root_owned_not_writable_by_users agent;
    config_permissions_ok = root_owned_not_writable_by_users config;
    key_protection = key_protection;
    service_fingerprint = posture_fingerprint (name ∷ [] ∷ []);
  }

  -- `inspectMonitorPosture` of posture_windows.go.
  unfoldable pub inspect_windows : WindowsOutputs → String → MonitorPosture
  inspect_windows outputs key_protection =
      let qc = map upper outputs.qc in
      let watchdog = map upper outputs.watchdog in
      record {
        os = codes "windows";
        service_manager = codes "windows-scm";
        service_installed = contains qc (codes "SERVICE_NAME") && contains qc (codes "CODEXGUARD");
        service_running = contains (map upper outputs.query) (codes "RUNNING");
        auto_start_ok = contains qc (codes "AUTO_START");
        restart_policy_ok = leb 2 (count_behind 0 (codes "RESTART") (map upper outputs.failure));
        watchdog_expected = true;
        watchdog_ok =
            contains watchdog (codes "CODEX-GUARD.EXE") && contains watchdog (codes "WATCHDOG");
        agent_permissions_ok = protected_windows_acl outputs.agent_sddl;
        config_permissions_ok = protected_windows_acl outputs.config_sddl;
        key_protection = key_protection;
        service_fingerprint =
            posture_fingerprint (outputs.qc ∷ outputs.failure ∷ outputs.watchdog ∷ []);
      }
