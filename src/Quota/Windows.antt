-- ===== src/Quota/Windows.antt =====
-- A window that passes the test of `quotaFromFile` is in range.
use codex_monitor_group.Base.{
  ℕ, ◌+◌, ◌||◌, ◌*◌, ◌^◌, ◌≤◌, ◌≡◌, Bool-cases, inl, inr, false, Option, none, some, String, arith,
  not, str_eq,
}
use codex_monitor_group.Base.Int.{ℤ, pos, negsuc, ◌≤ℤ◌}
use codex_monitor_group.Base.Text.{Text}
use codex_monitor_group.Quota.{
  is_above, is_negative, RateLimitWindow, is_invalid, checked, QuotaLogEntry, LogReader, Observed,
  from_line, RateLimits, snapshot, from_entry, from_limits, drop_cr,
}
use codex_monitor_group.Quota.Files.{QuotaFile}

abbrev Between : ℤ → ℕ → ℤ → Type 0
Between (negsuc _) limit e = ⊥
Between (pos m) limit (pos e) = m * 2 ^ e ≤ limit
Between (pos m) limit (negsuc e) = m ≤ limit * 2 ^ (e + 1)

-- From 0 to 100 percent, over a minute or more.
pub record InRange (w : RateLimitWindow) : Type 0 where
  pub percent : Between w.used_percent.mantissa 100 w.used_percent.exponent
  pub minutes : pos 1 ≤ℤ w.window_minutes

abbrev pub InRangeIfAny : Option RateLimitWindow → Type 0
InRangeIfAny none = Unit
InRangeIfAny (some w) = InRange w

-- At least one window, and none out of range.
abbrev pub HasQuota : Option RateLimitWindow → Option RateLimitWindow → Type 0
HasQuota none none = ⊥
HasQuota p s = InRangeIfAny p × InRangeIfAny s

percent_lem :
    (m e : ℤ)
    → is_negative (record { mantissa = m; exponent = e }) ≡ false
    → is_above (record { mantissa = m; exponent = e }) 100 ≡ false
    → Between m 100 e
unfolding is_negative is_above
percent_lem (negsuc m) e h k = ground arith
percent_lem (pos m) (pos e) h k = ground arith
percent_lem (pos m) (negsuc e) h k = ground arith

valid-InRange : (w : RateLimitWindow) → is_invalid w ≡ false → InRange w
unfolding is_invalid
valid-InRange w h = record {
  percent =
      percent_lem w.used_percent.mantissa w.used_percent.exponent (ground (arith, h))
        (ground (arith, h));
  minutes = ground (arith, h);
}

checked-InRange : (o : Option RateLimitWindow) → InRangeIfAny (checked o)
unfolding checked
checked-InRange none = tt
checked-InRange (some w) = elim (Bool-cases (is_invalid w)) [
  | inl e ↦ rw e tt
  | inr e ↦ rw e (valid-InRange w e)
]

-- What a line yields is in range.
abbrev pub YieldsInRange : Option Observed → Type 0
YieldsInRange none = Unit
YieldsInRange (some x) = HasQuota x.0.primary x.0.secondary

module _ (reader : LogReader) where
  snapshot-InRange :
      (file : QuotaFile) (at plan : String) (p s : Option RateLimitWindow)
      → InRangeIfAny p
      → InRangeIfAny s
      → YieldsInRange (snapshot reader file at plan p s)
  snapshot-InRange file at plan none none h k = tt
  snapshot-InRange file at plan (some p) none h k = (h, k)
  snapshot-InRange file at plan none (some s) h k = (h, k)
  snapshot-InRange file at plan (some p) (some s) h k = (h, k)

  limits-InRange :
      (file : QuotaFile) (e : QuotaLogEntry) (o : Option RateLimits)
      → YieldsInRange (from_limits reader file e o)
  limits-InRange file e none = tt
  limits-InRange file e (some rate) =
      elim (Bool-cases
        (not (str_eq e.entry_type "event_msg") || not (str_eq e.payload_type "token_count"))) [
          | inl b ↦ rw b tt
          | inr b ↦ rw b (
              snapshot-InRange file e.timestamp rate.plan_type (checked rate.primary)
                (checked rate.secondary) (checked-InRange rate.primary)
                (checked-InRange rate.secondary))
        ]

  entry-InRange :
      (file : QuotaFile) (o : Option QuotaLogEntry) → YieldsInRange (from_entry reader file o)
  entry-InRange file none = tt
  entry-InRange file (some e) = limits-InRange file e e.rate_limits

  pub from_line-InRange :
      (file : QuotaFile) (line : Text) → YieldsInRange (from_line reader file line)
  unfolding from_line
  from_line-InRange file line = entry-InRange file (reader.unmarshal (drop_cr line))
