-- ===== src/Examples/Telemetries.antt =====
-- A configuration of Codex with tables of its own and of the agent.
use codex_monitor_group.Base.{
  All, String, true, none, some, ok, ◌⊎◌, ◌≡◌, ◌++◌, List, [], ◌∷◌, false,
}
use codex_monitor_group.Base.Text.{Text, codes}
use codex_monitor_group.Telemetry.{kept_lines, configured}
use codex_monitor_group.Store.{succeeds, dying}
use codex_monitor_group.Telemetry.Status.{
  Tools, CodexFiles, TelemetryIo, whole, part, text_of, configure_telemetry,
}
use codex_monitor_group.Telemetry.Backup.{configure_telemetry-Kept}
use codex_monitor_group.Telemetry.Tables.{
  Table, lines_of, NoHeader, IsTable, Kept, kept_lines-Sections,
}

abbrev config_lines : List Text
config_lines =
    codes "model = 1"
    ∷ codes "[otel]"
    ∷ codes "environment = 2"
    ∷ codes "[mine] # kept"
    ∷ codes "x = 3"
    ∷ []

kept_lines-Sections_example :
    (preamble : List Text) × (tables : List Table) × (kept : List Table) × (config_lines
      ≡ preamble ++ lines_of tables)
    × All NoHeader preamble
    × All IsTable tables
    × Kept tables kept
    × (kept_lines false config_lines ≡ preamble ++ lines_of kept)
    × (kept_lines false (kept_lines false config_lines) ≡ kept_lines false config_lines)
kept_lines-Sections_example = kept_lines-Sections config_lines

-- The process dies behind three characters of the new text.
abbrev torn : TelemetryIo
torn = record {
  mkdir = succeeds;
  read = succeeds;
  back_up = whole;
  write = part 3 dying;
  read_again = succeeds;
}

abbrev no_parser : Tools
no_parser = record { unmarshal = λ s. none; is_print = λ c. true; sha256 = λ s. "00" }

abbrev own_file : CodexFiles
own_file = record { config = some (codes "model = 1"); backup = none }

configure_telemetry-Kept_example :
    let done = configure_telemetry no_parser torn (codes "token") own_file in
    ((hash : String)
      → done.0 ≡ ok hash
      → done.1.config
        ≡ some (configured no_parser.is_print (codes "token") (text_of own_file.config)))
    × (torn.back_up ≡ whole
        → (done.1.config ≡ own_file.config) ⊎ (done.1.backup ≡ some (text_of own_file.config)))
configure_telemetry-Kept_example =
    configure_telemetry-Kept no_parser torn (codes "token") own_file (λ e. absurd (cc e))
