-- ===== src/Config.antt =====
-- internal/config: the agent's configuration, its defaults, and its file on the two kinds of
-- platform. The data protection service of Windows (golang.org/x/sys/windows) is a parameter,
-- with the base64 text that its blobs are written in.
pub mod Defaults
pub mod Storage
pub mod RoundTrip
pub mod Secrets
pub mod Identity
use codex_monitor_group.Base.{
  ℕ, ◌==◌, String, Bool, true, false, ◌&&◌, not, Option, none, some, Error, Result, io, killed,
  invalid_json, incomplete, secret_unavailable, ok, err, Done, Exec, ◌>>=◌, ◌>>◌, lift, str_eq,
  if◌then◌else◌,
}
use codex_monitor_group.Base.Int.{ℤ, pos, ltb_ℤ, eqb_ℤ}
use codex_monitor_group.Store.{
  Content, absent, blank, garbage, json, Slot, Io, Answer, succeeds, stops, stop_error, call,
  marshal, write_tmp, replace,
}

pub record Config : Type 0 where
  pub server_url : String
  pub device_id : String
  pub student_name : String
  pub device_label : String
  pub private_key : String
  pub protected_private_key : String
  pub public_key : String
  pub otlp_token : String
  pub protected_otlp_token : String
  pub key_protection : String
  pub codex_home : String
  pub codex_path : String
  pub ccusage_path : String
  pub agent_path : String
  pub state_dir : String
  pub timezone : String
  pub heartbeat_seconds : ℤ
  pub usage_seconds : ℤ
  pub integrity_seconds : ℤ
  pub retention_days : ℤ
  pub next_sequence : ℕ
  pub expected_config_hash : String
  pub otel_listen : String

abbrev pub is_empty : String → Bool
is_empty s = str_eq s ""

unfoldable pub or_text : String → String → String
or_text s default = if is_empty s then default else s

unfoldable pub or_int : ℤ → ℕ → ℤ
or_int n default = if eqb_ℤ n (pos 0) then pos default else n

unfoldable pub at_least : ℕ → ℤ → ℤ
at_least low n = if ltb_ℤ n (pos low) then pos low else n

unfoldable pub or_one : ℕ → ℕ
or_one n = if n == 0 then 1 else n

-- Every field that `Defaults` sets depends on its own old value alone.
unfoldable pub defaults : Config → Config
defaults c = record c {
  heartbeat_seconds = or_int c.heartbeat_seconds 60;
  usage_seconds = or_int c.usage_seconds 300;
  integrity_seconds = at_least 300 c.integrity_seconds;
  retention_days = or_int c.retention_days 30;
  timezone = or_text c.timezone "UTC";
  codex_path = or_text c.codex_path "codex";
  next_sequence = or_one c.next_sequence;
  otel_listen = or_text c.otel_listen "127.0.0.1:9464";
}

-- secrets_other.go and secrets_windows.go
pub data Platform : Type 0 where
  unix windows : Platform

-- CryptProtectData and CryptUnprotectData on the local machine, and base64.StdEncoding.
pub record Dpapi : Type 1 where
  pub Blob : Type 0
  pub seal : String → Option Blob
  pub unseal : Blob → Option String
  pub encode : Blob → String
  pub decode : String → Option Blob

abbrev pub or_error {ℓ} : {A : Type ℓ} → Error → Option A → Result A
or_error e none = err e
or_error e (some a) = ok a

abbrev pub protection_name : Platform → String
protection_name unix = "root-owned-file"
protection_name windows = "windows-dpapi-machine"

-- The configuration that a caller holds, and the file at the path of its configuration.
pub record Holder : Type 0 where
  pub config : Config
  pub file : Slot Config

unfoldable pub check_complete : Config → Result Config
check_complete c =
    if is_empty c.server_url
    then err incomplete
    else if is_empty c.device_id
    then err incomplete
    else if is_empty c.private_key
    then err incomplete
    else ok c

-- os.ReadFile and json.Unmarshal; unlike the queue's, an absent or empty file is an error.
unfoldable pub parse : Content Config → Result Config
parse absent = err io
parse blank = err invalid_json
parse garbage = err invalid_json
parse (json c) = ok c

abbrev pub disk_unix : Config → Config
disk_unix c = record c {
  protected_private_key = "";
  protected_otlp_token = "";
  key_protection = protection_name unix;
}

abbrev pub disk_windows : Config → String → String → Config
disk_windows c key token = record c {
  private_key = "";
  protected_private_key = key;
  otlp_token = "";
  protected_otlp_token = token;
  key_protection = protection_name windows;
}

-- The token is sealed once the key has been.
pub seal_both : Config → Result String → Result String → Result Config
seal_both c (err e) token = err e
seal_both c (ok key) (err e) = err e
seal_both c (ok key) (ok token) = ok (disk_windows c key token)

-- From json.MarshalIndent on.
unfoldable pub write_file : Io → Config → Exec (Slot Config) (Unit {0})
write_file answers disk = do
  marshal answers.marshals
  write_tmp answers.write disk
  call answers.chmod
  replace answers.rename

on_file : Holder → Done × Slot Config → Done × Holder
on_file h (r, s) = (r, record h { file = s })

save_disk : Platform → Io → Result Config → Holder → Done × Holder
unfolding on_file
save_disk platform answers (err e) h = (err e, h)
save_disk platform answers (ok disk) h =
    on_file (record h { config = record h.config { key_protection = protection_name platform } })
      (write_file answers disk h.file)

module _ (dpapi : Dpapi) where
  sealed_text : Option dpapi.Blob → Result String
  sealed_text none = err secret_unavailable
  sealed_text (some blob) = ok (dpapi.encode blob)

  unfoldable pub protect_secret : Platform → String → Result String
  unfolding sealed_text
  protect_secret unix value = err secret_unavailable
  protect_secret windows value = sealed_text (dpapi.seal value)

  unsealed_text : Option dpapi.Blob → Result String
  unsealed_text none = err secret_unavailable
  unsealed_text (some blob) = or_error secret_unavailable (dpapi.unseal blob)

  unfoldable pub unprotect_secret : Platform → String → Result String
  unfolding unsealed_text
  unprotect_secret unix value = err secret_unavailable
  unprotect_secret windows value = unsealed_text (dpapi.decode value)

  -- A secret that is missing in plain text is taken from its sealed form, if there is one.
  unfoldable pub opened : Platform → String → String → Result String
  opened platform plain sealed =
      if is_empty plain && not (is_empty sealed) then unprotect_secret platform sealed else ok plain

  unfoldable pub load : Platform → Answer → Exec (Slot Config) Config
  unfolding parse opened check_complete
  load platform (stops why) s = (err (stop_error why), s)
  load platform succeeds s =
      (do
        c ← lift (parse s.target)
        private_key ← lift (opened platform c.private_key c.protected_private_key)
        otlp_token ← lift (opened platform c.otlp_token c.protected_otlp_token)
        let whole = record c { private_key = private_key; otlp_token = otlp_token }
        lift (check_complete (defaults whole)))
        s

  -- The sealed form of a secret that is there; that of a missing one stays what it was.
  unfoldable pub sealed : Platform → String → String → Result String
  sealed platform plain old = if is_empty plain then ok old else protect_secret platform plain

  -- What is to be written; the caller's configuration gets the defaults and, unless a secret
  -- cannot be sealed, the name of the protection.
  unfoldable pub disk_form : Platform → Config → Result Config
  unfolding seal_both
  disk_form unix c = ok (disk_unix c)
  disk_form windows c =
      seal_both c (sealed windows c.private_key c.protected_private_key)
        (sealed windows c.otlp_token c.protected_otlp_token)

  -- The first answer is that to os.MkdirAll.
  save_from : Platform → Io → Answer → Holder → Done × Holder
  unfolding save_disk
  save_from platform answers (stops why) h = (err (stop_error why), h)
  save_from platform answers succeeds h = save_disk platform answers (disk_form platform h.config) h

  unfoldable pub save : Platform → Io → Exec Holder (Unit {0})
  unfolding save_from
  save platform answers h =
      save_from platform answers answers.mkdir (record h { config = defaults h.config })
