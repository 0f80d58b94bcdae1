-- ===== src/Agent/Loop.antt =====
-- The order of the reports: `Cycle` and the loop of `Run` in internal/agent/run.go. Durations are
-- nanoseconds, and so are the readings of the monotonic clock.
use codex_monitor_group.Base.{
  ℕ, ◌*◌, ◌-◌, ltb, Bool, true, false, not, String, Option, none, some, Done, ok, err, killed,
  if◌then◌else◌, List, [], ◌∷◌, ◌^◌,
}
use codex_monitor_group.Base.Int.{ℤ, pos, int64, ◌*ℤ◌, ltb_ℤ}
use codex_monitor_group.Config.{Platform, Dpapi}
use codex_monitor_group.Protocol.{Value}
use codex_monitor_group.Agent.{Outcome, heartbeat, usage, otel_usage, integrity, security_event}
use codex_monitor_group.Agent.Inputs.{
  Agent, Machine, ReportInput, HeartbeatInput, UsageInput, OtelUsageInput, IntegrityInput,
}

-- One call of a report, with what it meets.
pub data Call : Type 0 where
  call_heartbeat : HeartbeatInput → Call
  call_usage : UsageInput → Call
  call_otel_usage : OtelUsageInput → Call
  call_integrity : IntegrityInput → Call
  call_security_event : ReportInput → String → Value → Call

-- What the calls of one `Cycle` meet.
pub record CycleInput : Type 0 where
  pub usage : UsageInput
  pub otel_usage : OtelUsageInput
  pub integrity : IntegrityInput
  pub heartbeat : HeartbeatInput

-- `if err != nil && first == nil { first = err }`
abbrev pub first_error : Done → Done → Done
first_error (err e) r = err e
first_error (ok _) r = r

-- The process died.
unfoldable pub is_killed : Done → Bool
is_killed (err killed) = true
is_killed _ = false

abbrev pub with_first : Done → Outcome → Outcome
with_first first none = none
with_first first (some (r, a)) = some (if is_killed r then r else first_error first r, a)

-- The next call of a cycle, behind the first error so far.
abbrev pub then_call : Outcome → (Agent → Outcome) → Outcome
then_call none next = none
then_call (some (first, a)) next =
    if is_killed first then some (first, a) else with_first first (next a)

-- The variables of `Run`; `none` is the zero time.
pub record Schedule : Type 0 where
  pub backoff : ℕ
  pub last_usage : Option ℕ
  pub last_integrity : Option ℕ

abbrev pub second : ℕ
second = 1_000_000_000

abbrev pub start_schedule : Schedule
start_schedule = record { backoff = second; last_usage = none; last_integrity = none }

-- `now.Sub(last) >= time.Duration(seconds)*time.Second`, the product an int64; from the zero time on
-- it is the longest duration.
abbrev pub elapsed : ℕ → Option ℕ → ℤ
elapsed now none = pos (2 ^ 63 - 1)
elapsed now (some last) = pos (now - last)

unfoldable pub is_due : ℕ → Option ℕ → ℤ → Bool
is_due now last seconds = not (ltb_ℤ (elapsed now last) (int64 (seconds *ℤ pos second)))

-- The back-off behind a heartbeat: doubled below 30 seconds after an error, one second otherwise.
unfoldable pub next_backoff : Done → ℕ → ℕ
next_backoff (ok _) backoff = second
next_backoff (err _) backoff = if ltb backoff (30 * second) then backoff * 2 else backoff

-- One round of `Run` at a time.
pub record RoundInput : Type 0 where
  pub now : ℕ
  pub calls : CycleInput

-- The agent and the variables behind a round, or the end of the process.
pub data Went : Type 0 where
  gone : Agent → Went
  on : Agent → Schedule → Went

-- Behind a call whose error is only printed.
abbrev pub and_on : Outcome → (Done → Agent → Option Went) → Option Went
and_on none next = none
and_on (some (r, a)) next = if is_killed r then some (gone a) else next r a

module _ (platform : Platform) (dpapi : Dpapi) (machine : Machine) where
  unfoldable pub perform : Call → Agent → Outcome
  perform (call_heartbeat input) a = heartbeat platform dpapi machine input a
  perform (call_usage input) a = usage platform dpapi machine input a
  perform (call_otel_usage input) a = otel_usage platform dpapi machine input a
  perform (call_integrity input) a = integrity platform dpapi machine input a
  perform (call_security_event input event_type details) a =
      security_event platform dpapi machine input event_type details a

  unfoldable pub cycle : CycleInput → Agent → Outcome
  cycle input a =
      then_call
        (then_call
          (then_call (usage platform dpapi machine input.usage a)
            (otel_usage platform dpapi machine input.otel_usage))
          (integrity platform dpapi machine input.integrity))
        (heartbeat platform dpapi machine input.heartbeat)

  abbrev pub beat : RoundInput → Schedule → Agent → Option Went
  beat input s a =
      and_on (heartbeat platform dpapi machine input.calls.heartbeat a)
        λ r b. some (on b (record s { backoff = next_backoff r s.backoff }))

  abbrev pub check_integrity : RoundInput → Schedule → Agent → Option Went
  check_integrity input s a =
      if is_due input.now s.last_integrity a.client.config.integrity_seconds
      then and_on (integrity platform dpapi machine input.calls.integrity a)
          (λ r b. beat input (record s { last_integrity = some input.now }) b)
      else beat input s a

  abbrev pub collect : RoundInput → Schedule → Agent → Option Went
  collect input s a =
      if is_due input.now s.last_usage a.client.config.usage_seconds
      then and_on (usage platform dpapi machine input.calls.usage a)
          (λ r b. check_integrity input (record s { last_usage = some input.now }) b)
      else check_integrity input s a

  -- A round of the loop, up to the wait for the next one.
  unfoldable pub run_round : RoundInput → Schedule → Agent → Option Went
  run_round input s a =
      and_on (otel_usage platform dpapi machine input.calls.otel_usage a) λ r b. collect input s b

  abbrev pub run_on : (Agent → Schedule → Option Went) → Option Went → Option Went
  run_on rest none = none
  run_on rest (some (gone a)) = some (gone a)
  run_on rest (some (on a s)) = rest a s

  -- The loop over the rounds until the context is done.
  unfoldable pub run_rounds : List RoundInput → Agent → Schedule → Option Went
  run_rounds [] a s = some (on a s)
  run_rounds (input ∷ rest) a s = run_on (run_rounds rest) (run_round input s a)

  -- `Run`, behind an error of StartOTelServer, if there is one.
  unfoldable pub run : Done → List RoundInput → Agent → Option Went
  run (err e) inputs a = some (gone a)
  run (ok _) inputs a = run_rounds inputs a start_schedule
