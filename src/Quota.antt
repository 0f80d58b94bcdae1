-- ===== src/Quota.antt =====
-- internal/agent/quota.go: the newest rate limits in the Codex session logs. What json.Unmarshal
-- makes of a line and package time of a timestamp are parameters. A file is its bytes; times are
-- nanoseconds, those of files and of the clock never before time.Time{}.
pub mod Files
pub mod Order
pub mod Lines
pub mod Newest
pub mod Windows
use codex_monitor_group.Base.{
  ℕ, ◌+◌, ◌-◌, ◌*◌, ◌^◌, ◌==◌, ltb, Bool, true, false, not, ◌&&◌, ◌||◌, String, List, [], ◌∷◌, ◌++◌,
  Option, none, some, Result, ok, err, io, str_eq, if◌then◌else◌, map, take, drop, length,
}
use codex_monitor_group.Base.Int.{ℤ, pos, negsuc, ltb_ℤ}
use codex_monitor_group.Base.Text.{Text, codes, lower, has_suffix}
use codex_monitor_group.Base.Sort.{sort_by}
use codex_monitor_group.Home.{FsError, Info, no_info, modified, Visit, walk_error, entry}
use codex_monitor_group.Quota.Files.{QuotaFile, quota_files}

-- A finite float64, the mantissa times 2 to the exponent.
pub record Float64 : Type 0 where
  pub mantissa : ℤ
  pub exponent : ℤ

abbrev above : ℤ → ℕ → ℤ → Bool
above (negsuc _) limit e = false
above (pos m) limit (pos e) = ltb limit (m * 2 ^ e)
above (pos m) limit (negsuc e) = ltb (limit * 2 ^ (e + 1)) m

-- `x > limit`
unfoldable pub is_above : Float64 → ℕ → Bool
is_above x limit = above x.mantissa limit x.exponent

-- `x < 0`
unfoldable pub is_negative : Float64 → Bool
is_negative x = ltb_ℤ x.mantissa (pos 0)

pub record RateLimitWindow : Type 0 where
  pub used_percent : Float64
  pub window_minutes : ℤ
  pub resets_at : ℤ

pub record QuotaSnapshot : Type 0 where
  pub plan_type : String
  pub primary : Option RateLimitWindow
  pub secondary : Option RateLimitWindow
  pub observed_at : String

pub record RateLimits : Type 0 where
  pub plan_type : String
  pub primary : Option RateLimitWindow
  pub secondary : Option RateLimitWindow

pub record QuotaLogEntry : Type 0 where
  pub timestamp : String
  pub entry_type : String
  pub payload_type : String
  pub rate_limits : Option RateLimits

-- json.Unmarshal of a line, time.Parse and Format of the layouts RFC3339Nano and RFC3339.
pub record LogReader : Type 0 where
  pub unmarshal : Text → Option QuotaLogEntry
  pub parse_time : String → Option ℤ
  pub format : ℤ → String

-- os.Open, Stat, Seek, what is read from the handle until its end or an error, and whether there was
-- no error. The file may have grown behind the Stat.
pub record Handle : Type 0 where
  pub opens : Bool
  pub size : Option ℕ
  pub seeks : Bool
  pub content : Text
  pub reads : Bool

abbrev pub quota_tail_bytes : ℕ
quota_tail_bytes = 4 * 2 ^ 20

abbrev pub quota_refresh_interval : ℕ
quota_refresh_interval = 5 * (60 * 1_000_000_000)

-- The condition under which a window is dropped.
unfoldable pub is_invalid : RateLimitWindow → Bool
is_invalid w =
    is_negative w.used_percent || is_above w.used_percent 100 || ltb_ℤ w.window_minutes (pos 1)

unfoldable pub checked : Option RateLimitWindow → Option RateLimitWindow
checked none = none
checked (some w) = if is_invalid w then none else some w

-- A snapshot with the time that it is compared by.
abbrev pub Observed : Type 0
Observed = QuotaSnapshot × ℤ

-- `latest == nil || observedAt.After(latestAt)`
unfoldable pub keep_newer : Option Observed → Observed → Option Observed
keep_newer none x = some x
keep_newer (some (latest, latest_at)) (s, at) =
    if ltb_ℤ latest_at at then some (s, at) else some (latest, latest_at)

-- The scanner's lines: ended by a newline or the end of the input, without a carriage return.
abbrev pub prepend : ℕ → List Text → List Text
prepend c [] = (c ∷ []) ∷ []
prepend c (l ∷ ls) = (c ∷ l) ∷ ls

unfoldable pub raw_lines : Text → List Text
raw_lines [] = []
raw_lines (c ∷ cs) = let rest = raw_lines cs in if c == b'\n' then [] ∷ rest else prepend c rest

unfoldable pub drop_cr : Text → Text
drop_cr [] = []
drop_cr (c ∷ []) = if c == b'\r' then [] else c ∷ []
drop_cr (c ∷ d ∷ cs) = c ∷ drop_cr (d ∷ cs)

-- bufio.ErrTooLong: the line does not fit into the scanner's buffer.
unfoldable pub is_too_long : List Text → Bool
is_too_long [] = false
is_too_long (l ∷ ls) = ltb quota_tail_bytes (length l) || is_too_long ls

unfoldable pub tail_start : ℕ → ℕ
tail_start size = size - quota_tail_bytes

-- The lines behind the partial first one.
abbrev whole_lines : ℕ → List Text → List Text
whole_lines start lines = if ltb 0 start then drop 1 lines else lines

abbrev observed_at : QuotaFile → Option ℤ → ℤ
observed_at file (some at) = at
observed_at file none = pos file.mod_time

abbrev pub take_newer : Option Observed → Option Observed → Option Observed
take_newer latest none = latest
take_newer latest (some x) = keep_newer latest x

abbrev pub tail_lines : Handle → ℕ → List Text
tail_lines h size = raw_lines (drop (tail_start size) h.content)

abbrev pub next_file :
    (Option Observed → Result (Option Observed))
    → Option Observed
    → Result (Option Observed)
    → Result (Option Observed)
next_file loop latest (err e) = err e
next_file loop latest (ok found) = loop (take_newer latest found)

abbrev pub opened : (QuotaFile → Handle) → List QuotaFile → List (QuotaFile × Handle)
opened disk files = map (λ file. (file, disk file)) files

abbrev snapshot_of : Result (Option Observed) → Result (Option QuotaSnapshot)
snapshot_of (err e) = err e
snapshot_of (ok none) = ok none
snapshot_of (ok (some (s, at))) = ok (some s)

module _ (reader : LogReader) where
  abbrev snapshot :
      QuotaFile
      → String
      → String
      → Option RateLimitWindow
      → Option RateLimitWindow
      → Option Observed
  snapshot file timestamp plan none none = none
  snapshot file timestamp plan primary secondary =
      let at = observed_at file (reader.parse_time timestamp) in
      some (
        record {
          plan_type = plan;
          primary = primary;
          secondary = secondary;
          observed_at = reader.format at;
        },
        at,
      )

  abbrev from_limits : QuotaFile → QuotaLogEntry → Option RateLimits → Option Observed
  from_limits file e none = none
  from_limits file e (some rate) =
      if not (str_eq e.entry_type "event_msg") || not (str_eq e.payload_type "token_count")
      then none
      else snapshot file e.timestamp rate.plan_type (checked rate.primary) (checked rate.secondary)

  abbrev from_entry : QuotaFile → Option QuotaLogEntry → Option Observed
  from_entry file none = none
  from_entry file (some e) = from_limits file e e.rate_limits

  -- What a round of the loop takes from a line, `none` at its `continue`.
  unfoldable pub from_line : QuotaFile → Text → Option Observed
  from_line file line = from_entry file (reader.unmarshal (drop_cr line))

  unfoldable pub scan_lines : QuotaFile → List Text → Option Observed → Option Observed
  scan_lines file [] latest = latest
  scan_lines file (line ∷ rest) latest =
      scan_lines file rest (take_newer latest (from_line file line))

  abbrev from_handle : QuotaFile → Handle → Option ℕ → Result (Option Observed)
  from_handle file h none = err io
  from_handle file h (some size) =
      if not h.seeks || not h.reads || is_too_long (tail_lines h size)
      then err io
      else ok (scan_lines file (whole_lines (tail_start size) (tail_lines h size)) none)

  unfoldable pub quota_from_file : QuotaFile → Handle → Result (Option Observed)
  quota_from_file file h = if not h.opens then err io else from_handle file h h.size

  -- The loop over the files, each with what the system answers about it.
  unfoldable pub latest_of : List (QuotaFile × Handle) → Option Observed → Result (Option Observed)
  latest_of [] latest = ok latest
  latest_of ((file, h) ∷ rest) latest = next_file (latest_of rest) latest (quota_from_file file h)

  abbrev pub latest_among :
      (QuotaFile → Handle) → Result (List QuotaFile) → Result (Option Observed)
  latest_among disk (err e) = err e
  latest_among disk (ok files) = latest_of (opened disk files) none

  unfoldable pub latest_quota :
      List (String × Visit)
      → List (String × Visit)
      → (QuotaFile → Handle)
      → Result (Option QuotaSnapshot)
  latest_quota sessions archived disk =
      snapshot_of (latest_among disk (quota_files sessions archived))

-- `quota` and `quotaRead`, `none` for the zero time.
pub record QuotaCache : Type 0 where
  pub quota : Option QuotaSnapshot
  pub read_at : Option ℕ

-- `!read.IsZero() && time.Since(read) < interval`
unfoldable pub is_recent : ℕ → ℕ → Option ℕ → Bool
is_recent now interval none = false
is_recent now interval (some at) = ltb (now - at) interval

abbrev refreshed : Result (Option QuotaSnapshot) → Option QuotaSnapshot → Option QuotaSnapshot
refreshed (ok (some quota)) old = some quota
refreshed _ old = old

-- `cachedQuota` at a time; the last argument but one is what LatestQuota would return.
unfoldable pub cached_quota :
    ℕ → Result (Option QuotaSnapshot) → QuotaCache → Option QuotaSnapshot × QuotaCache
cached_quota now latest cache =
    if is_recent now quota_refresh_interval cache.read_at
    then (cache.quota, cache)
    else let quota = refreshed latest cache.quota in
      (quota, record { quota = quota; read_at = some now })
