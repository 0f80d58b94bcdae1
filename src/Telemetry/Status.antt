-- ===== src/Telemetry/Status.antt =====
-- The file that `ConfigureTelemetry` rewrites, what `TelemetryStatus` says of it, and the versions of
-- the tools.
use codex_monitor_group.Base.{
  ℕ, Bool, true, false, not, ◌&&◌, String, List, [], ◌∷◌, ◌++◌, Option, none, some, Result, killed,
  io, telemetry_failed, ok, err, if◌then◌else◌, Exec, Done, take, ◌>>=◌, ◌>>◌, on_ok,
}
use codex_monitor_group.Base.Text.{Text, codes, text_eq}
use codex_monitor_group.Store.{Answer, succeeds, stops, stop_error, Stop}
use codex_monitor_group.Telemetry.{configured, trim_space, is_space}

-- A file with no bytes or none at all reads as the empty text.
abbrev pub text_of : Option Text → Text
text_of none = []
text_of (some s) = s

-- os.WriteFile over a file in place: what a write that stops leaves of the text.
pub data TextWrite : Type 0 where
  whole : TextWrite
  unopened : Stop → TextWrite
  part : ℕ → Stop → TextWrite

abbrev pub write_text : TextWrite → Text → Option Text → Done × Option Text
write_text whole s old = (ok tt, some s)
write_text (unopened why) s old = (err (stop_error why), old)
write_text (part n why) s old = (err (stop_error why), some (take n s))

-- `config.toml` and `config.toml.codex-guard.bak`
pub record CodexFiles : Type 0 where
  pub config : Option Text
  pub backup : Option Text

pub record Exporter : Type 0 where
  pub endpoint : Text
  pub protocol : Text
  pub headers : List (Text × Text)

pub record Document : Type 0 where
  pub log_user_prompt : Option Bool
  pub exporters : List (Text × Exporter)

-- toml.Unmarshal into the document, strconv.IsPrint, and the hexadecimal SHA-256 of a text.
pub record Tools : Type 0 where
  pub unmarshal : Text → Option Document
  pub is_print : ℕ → Bool
  pub sha256 : Text → String

pub record TelemetryStatus : Type 0 where
  pub hash : String
  pub is_valid : Bool
  pub result : Done

-- The answers to the calls of one ConfigureTelemetry.
pub record TelemetryIo : Type 0 where
  pub mkdir : Answer
  pub read : Answer
  pub back_up : TextWrite
  pub write : TextWrite
  pub read_again : Answer

abbrev text_or_empty : Text → List (Text × Text) → Text
text_or_empty key [] = []
text_or_empty key ((name, value) ∷ rest) =
    if text_eq name key then value else text_or_empty key rest

abbrev exporter_at : Text → List (Text × Exporter) → Exporter
exporter_at key [] = record { endpoint = []; protocol = []; headers = [] }
exporter_at key ((name, value) ∷ rest) = if text_eq name key then value else exporter_at key rest

abbrev is_disabled : Option Bool → Bool
is_disabled none = false
is_disabled (some b) = not b

abbrev shown : Bool → Text
shown true = codes "true"
shown false = codes "false"

-- A write whose error is dropped; only the death of the process ends the method.
abbrev unless_dead : Done × CodexFiles → Done × CodexFiles
unless_dead (err killed, f) = (err killed, f)
unless_dead (_, f) = (ok tt, f)

abbrev on_backup : CodexFiles → Done × Option Text → Done × CodexFiles
on_backup f (r, s) = (r, record f { backup = s })

abbrev on_config : CodexFiles → Done × Option Text → Done × CodexFiles
on_config f (r, s) = (r, record f { config = s })

abbrev pub back_up_config : TextWrite → Text → CodexFiles → Done × CodexFiles
back_up_config write [] f = (ok tt, f)
back_up_config write data_read f = unless_dead (on_backup f (write_text write data_read f.backup))

-- os.ReadFile, a missing file being no error.
abbrev pub read_config : Answer → Exec CodexFiles Text
read_config succeeds f = (ok (text_of f.config), f)
read_config (stops why) f = (err (stop_error why), f)

abbrev pub answered : Answer → Exec CodexFiles (Unit {0})
answered succeeds f = (ok tt, f)
answered (stops why) f = (err (stop_error why), f)

module _ (tools : Tools) where
  unfoldable pub status_of : Text → Option Document → TelemetryStatus
  status_of token none = record {
    hash = "invalid";
    is_valid = false;
    result = err telemetry_failed;
  }
  status_of token (some parsed) =
      let exporter = exporter_at (codes "otlp-http") parsed.exporters in
      let auth = text_or_empty (codes "Authorization") exporter.headers in
      let prompt_disabled = is_disabled parsed.log_user_prompt in
      record {
        hash = tools.sha256 (
            codes "endpoint="
            ++ exporter.endpoint
            ++ codes "\nprotocol="
            ++ exporter.protocol
            ++ codes "\nlog_user_prompt="
            ++ shown (not prompt_disabled)
            ++ codes "\nauth_sha256="
            ++ codes (tools.sha256 auth));
        is_valid =
            prompt_disabled
            && text_eq exporter.endpoint (codes "http://127.0.0.1:9464/v1/logs")
            && text_eq exporter.protocol (codes "json")
            && text_eq auth (codes "Bearer " ++ token);
        result = ok tt;
      }

  abbrev status_in : Text → Option Text → TelemetryStatus
  status_in token none = record { hash = "missing"; is_valid = false; result = err io }
  status_in token (some s) = status_of token (tools.unmarshal s)

  unfoldable pub telemetry_status : Answer → Text → CodexFiles → TelemetryStatus
  telemetry_status succeeds token f = status_in token f.config
  telemetry_status (stops why) token f = record {
    hash = "missing";
    is_valid = false;
    result = err (stop_error why);
  }

  abbrev hash_if_ok : TelemetryStatus → Result String
  hash_if_ok s = on_ok s.result (λ _. ok s.hash)

  unfoldable pub telemetry_fingerprint : Answer → Text → CodexFiles → Result String
  telemetry_fingerprint read token f = hash_if_ok (telemetry_status read token f)

  abbrev pub write_config : TextWrite → Text → Text → Exec CodexFiles (Unit {0})
  write_config write token old f =
      on_config f (write_text write (configured tools.is_print token old) f.config)

  unfoldable pub configure_telemetry : TelemetryIo → Text → Exec CodexFiles String
  configure_telemetry input token = do
    answered input.mkdir
    old ← read_config input.read
    back_up_config input.back_up old
    write_config input.write token old
    λ f. (telemetry_fingerprint input.read_again token f, f)

-- The combined output of a tool under `--version`, `none` where it could not be run.
unfoldable pub codex_version : Option Text → Text
codex_version none = codes "not-detected"
codex_version (some out) = trim_space out

-- strings.Fields
abbrev add_to_field : ℕ → Bool × List Text → List Text
add_to_field c (false, fields) = (c ∷ []) ∷ fields
add_to_field c (true, []) = (c ∷ []) ∷ []
add_to_field c (true, f ∷ fields) = (c ∷ f) ∷ fields

-- The fields, and whether the first one starts at the first character.
unfoldable pub fields_from : Text → Bool × List Text
fields_from [] = (false, [])
fields_from (c ∷ cs) =
    let rest = fields_from cs in if is_space c then (false, rest.1) else (true, add_to_field c rest)

abbrev last_or : Text → List Text → Text
last_or default [] = default
last_or default (f ∷ []) = f
last_or default (f ∷ g ∷ fs) = last_or default (g ∷ fs)

abbrev version_in : Text → List Text → Text
version_in out [] = trim_space out
version_in out (f ∷ []) = trim_space out
version_in out fields = last_or [] fields

unfoldable pub ccusage_version : Option Text → Text
ccusage_version none = codes "not-detected"
ccusage_version (some out) = version_in out (fields_from out).1
