-- ===== src/Telemetry/Tables.antt =====
-- The loop of `ConfigureTelemetry` against the document's tables.
use codex_monitor_group.Base.{
  ◌≡◌, refl, sym, All, ap, Bool, Bool-cases, inl, inr, true, false, List, [], ◌∷◌, ◌++◌, Option,
  none, some, if◌then◌else◌,
}
use codex_monitor_group.Base.Text.{Text}
use codex_monitor_group.Telemetry.{section_name, is_otel, in_otel_after, kept_lines}
use codex_monitor_group.Telemetry.Headers.{
  IsHeader, IsOtel, section_name-IsHeader, IsHeader-section_name, is_otel-IsOtel, is_otel-not,
}

-- A section: its header line, the name there, and the lines up to the next header.
pub record Table : Type 0 where
  pub name : Text
  pub header : Text
  pub body : List Text

-- The lines in front of the first header, and the tables.
record Sections : Type 0 where
  preamble : List Text
  tables : List Table

abbrev add_line : Text → Option Text → Sections → Sections
add_line line none d = record d { preamble = line ∷ d.preamble }
add_line line (some name) d = record {
  preamble = [];
  tables = record { name = name; header = line; body = d.preamble } ∷ d.tables;
}

abbrev sections : List Text → Sections
sections [] = record { preamble = []; tables = [] }
sections (line ∷ lines) = add_line line (section_name line) (sections lines)

abbrev pub lines_of : List Table → List Text
lines_of [] = []
lines_of (t ∷ ts) = t.header ∷ t.body ++ lines_of ts

-- The tables other than otel and those under it.
abbrev others : List Table → List Table
others [] = []
others (t ∷ ts) = if is_otel t.name then others ts else t ∷ others ts

abbrev if_not : Bool → List Text → List Text
if_not true lines = []
if_not false lines = lines

one_line :
    (in_otel : Bool) (line : Text) (name : Option Text) (rest : List Text) (d : Sections)
    → rest ≡ if_not (in_otel_after in_otel name) d.preamble ++ lines_of (others d.tables)
    → (if in_otel_after in_otel name then rest else line ∷ rest)
      ≡ if_not in_otel (add_line line name d).preamble
        ++ lines_of (others (add_line line name d).tables)
unfolding in_otel_after
one_line true line none rest d h = h
one_line false line none rest d h = ap (◌∷◌ line) h
one_line true line (some name) rest d h = elim (Bool-cases (is_otel name)) [
  | inl e ↦ rw e (rw e at h)
  | inr e ↦ rw e (ap (◌∷◌ line) (rw e at h))
]
one_line false line (some name) rest d h = elim (Bool-cases (is_otel name)) [
  | inl e ↦ rw e (rw e at h)
  | inr e ↦ rw e (ap (◌∷◌ line) (rw e at h))
]

kept_lines-sections :
    (in_otel : Bool) (lines : List Text)
    → kept_lines in_otel lines
      ≡ if_not in_otel (sections lines).preamble ++ lines_of (others (sections lines).tables)
unfolding kept_lines
kept_lines-sections true [] = refl
kept_lines-sections false [] = refl
kept_lines-sections in_otel (line ∷ lines) =
    one_line in_otel line (section_name line) _ (sections lines)
      (kept_lines-sections (in_otel_after in_otel (section_name line)) lines)

whole_line :
    (line : Text) (name : Option Text) (d : Sections) (lines : List Text)
    → d.preamble ++ lines_of d.tables ≡ lines
    → (add_line line name d).preamble ++ lines_of (add_line line name d).tables ≡ line ∷ lines
whole_line line none d lines h = ap (◌∷◌ line) h
whole_line line (some name) d lines h = ap (◌∷◌ line) h

all_lines :
    (lines : List Text) → (sections lines).preamble ++ lines_of (sections lines).tables ≡ lines
all_lines [] = refl
all_lines (line ∷ lines) =
    whole_line line (section_name line) (sections lines) lines (all_lines lines)

-- Behind a line that is kept, the loop is outside otel; so it is with that line from outside.
outside :
    (in_otel : Bool) (name : Option Text)
    → in_otel_after in_otel name ≡ false
    → in_otel_after false name ≡ false
unfolding in_otel_after
outside in_otel none h = refl
outside in_otel (some name) h = h

kept_again :
    (in_otel : Bool) (lines : List Text)
    → kept_lines false (kept_lines in_otel lines) ≡ kept_lines in_otel lines
unfolding kept_lines
kept_again in_otel [] = refl
kept_again in_otel (line ∷ lines) =
    let now = in_otel_after in_otel (section_name line) in
    elim (Bool-cases now) [
      | inl e ↦ rw e (kept_again true lines)
      | inr e ↦
          let still = outside in_otel (section_name line) e in
          rw e (rw still (ap (◌∷◌ line) (kept_again false lines)))
    ]

-- A line that is no header, whatever the name.
abbrev pub NoHeader : Text → Type 0
NoHeader line = (name : Text) → ¬ IsHeader line name

abbrev pub IsTable : Table → Type 0
IsTable t = IsHeader t.header t.name × All NoHeader t.body

-- The second list is the first one less the tables of otel.
pub data Kept : List Table → List Table → Type 0 where
  none_left : Kept [] []
  stays :
      {t : Table} {ts kept : List Table} → ¬ IsOtel t.name → Kept ts kept → Kept (t ∷ ts) (t ∷ kept)
  goes : {t : Table} {ts kept : List Table} → IsOtel t.name → Kept ts kept → Kept (t ∷ ts) kept

no_name : (line : Text) → section_name line ≡ none → NoHeader line
no_name line h name header = absurd (cc (h, IsHeader-section_name line name header))

add_line-tables :
    (line : Text) (name : Option Text) (d : Sections)
    → section_name line ≡ name
    → All NoHeader d.preamble
    → All IsTable d.tables
    → All NoHeader (add_line line name d).preamble × All IsTable (add_line line name d).tables
add_line-tables line none d h plain tables = ((no_name line h, plain), tables)
add_line-tables line (some name) d h plain tables =
    (tt, ((section_name-IsHeader line name h, plain), tables))

sections-tables :
    (lines : List Text)
    → All NoHeader (sections lines).preamble × All IsTable (sections lines).tables
sections-tables [] = (tt, tt)
sections-tables (line ∷ lines) =
    let (plain, tables) = sections-tables lines in
    add_line-tables line (section_name line) (sections lines) refl plain tables

others-Kept : (ts : List Table) → Kept ts (others ts)
others-Kept [] = none_left
others-Kept (t ∷ ts) = elim (Bool-cases (is_otel t.name)) [
  | inl e ↦ rw e (goes (is_otel-IsOtel t.name e) (others-Kept ts))
  | inr e ↦ rw e (stays (is_otel-not t.name e) (others-Kept ts))
]

-- The lines of a document are those in front of its first header and its tables, each a header with
-- the lines up to the next one. A header is a line `[name]` with blanks around it and a comment at
-- most behind it, where the name is not empty and has no `]`; so a line `[[name]]` is none, and
-- belongs to the table above it. The loop keeps the lines in front and the tables whose name is not
-- otel and does not begin with `otel.`, in their order, and drops the others whole; and a second
-- pass drops nothing more.
pub kept_lines-Sections :
    (lines : List Text)
    → (preamble : List Text) × (tables : List Table) × (kept : List Table) × (lines
        ≡ preamble ++ lines_of tables)
      × All NoHeader preamble
      × All IsTable tables
      × Kept tables kept
      × (kept_lines false lines ≡ preamble ++ lines_of kept)
      × (kept_lines false (kept_lines false lines) ≡ kept_lines false lines)
kept_lines-Sections lines =
    let d = sections lines in
    let (plain, tables) = sections-tables lines in
    (
      d.preamble,
      d.tables,
      others d.tables,
      sym (all_lines lines),
      plain,
      tables,
      others-Kept d.tables,
      kept_lines-sections false lines,
      kept_again false lines,
    )
