-- ===== src/Quota/Newest.antt =====
-- The snapshot that `LatestQuota` returns is the first of the newest ones.
use codex_monitor_group.Base.{ℕ, ◌≡◌, ◌≡◌, List, [], ◌∷◌, ◌++◌, Option, none, some, All}
use codex_monitor_group.Base.Int.{ℤ, ◌≤ℤ◌, ◌<ℤ◌}
use codex_monitor_group.Base.Text.{Text}
use codex_monitor_group.Quota.{QuotaSnapshot, Handle, LogReader, Observed, from_line}
use codex_monitor_group.Quota.Lines.{read_lines}
use codex_monitor_group.Quota.Files.{QuotaFile}
use codex_monitor_group.Quota.Windows.{HasQuota}

abbrev listed : Option Observed → List Observed
listed none = []
listed (some x) = x ∷ []

-- The same of a snapshot alone, which is in range.
abbrev pub Newest : List Observed → Option QuotaSnapshot → Type 0
Newest xs none = xs ≡ []
Newest xs (some s) =
    (before after : List Observed) × (at : ℤ) × (xs ≡ before ++ (s, at) ∷ after)
    × All (λ y. y.1 <ℤ at) before
    × All (λ y. y.1 ≤ℤ at) after
    × HasQuota s.primary s.secondary

abbrev IsInRange : Observed → Type 0
IsInRange x = HasQuota x.0.primary x.0.secondary

module _ (reader : LogReader) where
  -- The snapshots that lines hold, in their order.
  abbrev pub in_lines : QuotaFile → List Text → List Observed
  in_lines file [] = []
  in_lines file (line ∷ rest) = listed (from_line reader file line) ++ in_lines file rest

  abbrev in_tail : QuotaFile → Handle → Option ℕ → List Observed
  in_tail file h none = []
  in_tail file h (some size) = in_lines file (read_lines h size)

  -- The snapshots in the lines that count, in the order of the files and of the lines.
  abbrev pub in_files : List (QuotaFile × Handle) → List Observed
  in_files [] = []
  in_files ((file, h) ∷ rest) = in_tail file h h.size ++ in_files rest
