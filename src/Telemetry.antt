-- ===== src/Telemetry.antt =====
-- internal/agent/detect.go: the versions of the tools, and the telemetry section of Codex's
-- config.toml. Texts are code points; the regular expression of the section headers is written out,
-- and the TOML parser is a parameter.
pub mod Headers
pub mod Tables
pub mod Status
pub mod Backup
use codex_monitor_group.Base.{
  ℕ, zero, suc, ◌+◌, ◌-◌, ◌/◌, ◌%◌, ◌==◌, ltb, leb, Bool, true, false, not, ◌&&◌, ◌||◌, String,
  List, [], ◌∷◌, ◌++◌, Option, none, some, Result, Error, io, invalid_json, telemetry_failed, ok,
  err, if◌then◌else◌, Exec, Done, on_ok, take,
}
use codex_monitor_group.Base.Text.{Text, codes, text_eq, starts_with}
use codex_monitor_group.Store.{Answer, succeeds, stops, Write, stop_error, Stop}
use mathlib.Core.List.{reverse}

-- `\s` of package regexp
unfoldable pub is_blank : ℕ → Bool
is_blank c = c == 9 || c == 10 || c == 12 || c == 13 || c == 32

unfoldable pub skip_blanks : Text → Text
unfolding is_blank
skip_blanks [] = []
skip_blanks (c ∷ cs) = if is_blank c then skip_blanks cs else c ∷ cs

-- The run of characters other than `]`, and what stands behind it.
abbrev add_first : ℕ → Text × Text → Text × Text
add_first c (name, rest) = (c ∷ name, rest)

unfoldable pub until_bracket : Text → Text × Text
until_bracket [] = ([], [])
until_bracket (c ∷ cs) =
    let rest = until_bracket cs in if c == b']' then ([], c ∷ cs) else add_first c rest

-- `\s*(?:#.*)?$` in a line
abbrev is_comment : Text → Bool
is_comment [] = true
is_comment (c ∷ _) = c == b'#'

abbrev closed : Text × Text → Option Text
closed ([], _) = none
closed (name, []) = none
closed (name, _ ∷ rest) = if is_comment (skip_blanks rest) then some name else none

abbrev opened : Text → Option Text
opened [] = none
opened (c ∷ cs) = if c == b'[' then closed (until_bracket cs) else none

-- The first group of `^\s*\[([^]]+)\]\s*(?:#.*)?$`, `none` where a line does not match.
unfoldable pub section_name : Text → Option Text
section_name line = opened (skip_blanks line)

unfoldable pub is_otel : Text → Bool
is_otel name = text_eq name (codes "otel") || starts_with (codes "otel.") name

-- `inOtel` behind the test of a line.
unfoldable pub in_otel_after : Bool → Option Text → Bool
in_otel_after in_otel none = in_otel
in_otel_after in_otel (some name) = is_otel name

-- The loop over the lines.
unfoldable pub kept_lines : Bool → List Text → List Text
kept_lines in_otel [] = []
kept_lines in_otel (line ∷ lines) =
    let now = in_otel_after in_otel (section_name line) in
    let rest = kept_lines now lines in if now then rest else line ∷ rest

-- strings.Split(s, "\n") and strings.Join(lines, "\n")
abbrev prepend : ℕ → List Text → List Text
prepend c [] = (c ∷ []) ∷ []
prepend c (l ∷ ls) = (c ∷ l) ∷ ls

unfoldable pub split_lines : Text → List Text
split_lines [] = [] ∷ []
split_lines (c ∷ cs) = let rest = split_lines cs in if c == 10 then [] ∷ rest else prepend c rest

unfoldable pub join_lines : List Text → Text
join_lines [] = []
join_lines (l ∷ []) = l
join_lines (l ∷ m ∷ ls) = l ++ 10 ∷ join_lines (m ∷ ls)

-- unicode.IsSpace
unfoldable pub is_space : ℕ → Bool
is_space c =
    leb 9 c && leb c 13
    || c == 32
    || c == 0x85
    || c == 0xa0
    || c == 0x1680
    || leb 0x2000 c && leb c 0x200a
    || c == 0x2028
    || c == 0x2029
    || c == 0x202f
    || c == 0x205f
    || c == 0x3000

unfoldable pub trim_left : Text → Text
unfolding is_space
trim_left [] = []
trim_left (c ∷ cs) = if is_space c then trim_left cs else c ∷ cs

-- strings.TrimSpace
unfoldable pub trim_space : Text → Text
unfolding trim_left
trim_space s = reverse (trim_left (reverse (trim_left s)))

hex_digit : ℕ → ℕ
hex_digit n = if ltb n 10 then b'0' + n else b'a' + (n - 10)

-- The last hexadecimal digits of a number, so many of them.
abbrev hex : ℕ → ℕ → Text → Text
hex zero n rest = rest
hex (suc k) n rest = hex k (n / 16) (hex_digit (n % 16) ∷ rest)

module _ (is_print : ℕ → Bool) where
  -- One character under fmt's %q; `is_print` is strconv.IsPrint.
  unfoldable pub quote_char : ℕ → Text
  unfolding hex_digit
  quote_char c =
      if c == b'"' || c == 0x5c
      then 0x5c ∷ c ∷ []
      else if is_print c
      then c ∷ []
      else if c == 7
      then codes "\\a"
      else if c == 8
      then codes "\\b"
      else if c == 12
      then codes "\\f"
      else if c == 10
      then codes "\\n"
      else if c == 13
      then codes "\\r"
      else if c == 9
      then codes "\\t"
      else if c == 11
      then codes "\\v"
      else if ltb c 32 || c == 127
      then codes "\\x" ++ hex 2 c []
      else if ltb c 0x10000
      then codes "\\u" ++ hex 4 c []
      else codes "\\U" ++ hex 8 c []

  unfoldable pub quote_chars : Text → Text
  quote_chars [] = []
  quote_chars (c ∷ cs) = quote_char c ++ quote_chars cs

  abbrev quote : Text → Text
  quote s = b'"' ∷ quote_chars s ++ b'"' ∷ []

  -- `telemetryBlock`; its server has no part in it.
  unfoldable pub telemetry_block : Text → Text
  telemetry_block token =
      codes
        "[otel]\nenvironment = \"classroom\"\nlog_user_prompt = false\nexporter = { otlp-http = { endpoint = "
      ++ quote (codes "http://127.0.0.1:9464/v1/logs")
      ++ codes ", protocol = \"json\", headers = { Authorization = "
      ++ quote (codes "Bearer " ++ token)
      ++ codes " } } }\n"

  abbrev with_gap : Text → Text
  with_gap [] = []
  with_gap content = content ++ 10 ∷ 10 ∷ []

  -- What ConfigureTelemetry writes over a file.
  unfoldable pub configured : Text → Text → Text
  configured token old =
      with_gap (trim_space (join_lines (kept_lines false (split_lines old))))
      ++ telemetry_block token
