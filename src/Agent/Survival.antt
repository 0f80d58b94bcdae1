-- ===== src/Agent/Survival.antt =====
-- The reports keep the events in step, whatever they meet.
use codex_monitor_group.Base.{
  ℕ, suc, ◌<◌, ◌≤◌, ◌^◌, ◌≡◌, refl, sym, subst, inl, inr, String, Option, none, some, Done, Result,
  ok, err, killed, arith, Bool-cases, length, ◌||◌, [], ◌∷◌, List, str_eq,
}
use codex_monitor_group.Config.{Platform, Dpapi}
use codex_monitor_group.Protocol.{Value}
use codex_monitor_group.Client.{Client, Round, Flushed, save_config}
use codex_monitor_group.Client.Sequences.{InStep}
use codex_monitor_group.Client.Enqueue.{enqueue-InStep}
use codex_monitor_group.Client.Saves.{resaved-InStep}
use codex_monitor_group.Client.Numbers.{flush-upto, enqueue-upto}
use codex_monitor_group.Client.Lifetime.{flush-Survives}
use codex_monitor_group.Client.Restart.{Survives}
use codex_monitor_group.Agent.{
  Outcome, report, flush_fuel, refresh_codex_home, with_client, flush_behind, and_report,
  CodexHomeResolution, IntegrityInput, CodexFiles, is_recent, List, Text, Payload, on_client,
  settle_home, home_refresh_interval, NormalizedUsage, move_home, moved, report_usage, report_days,
  Slot, str_eq, moved_config, ◌∷◌, State, report_scan, path_key, heartbeat, resolve_codex_home,
  usage, otel_usage, integrity, security_event, heartbeat_behind, usage_behind, integrity_behind,
}
use codex_monitor_group.Agent.Loop.{
  perform, Call, call_heartbeat, call_usage, call_otel_usage, call_integrity, call_security_event,
}
use codex_monitor_group.Agent.Inputs.{Agent, Machine, ReportInput, RefreshInput}

-- A method that returns, with the client in step and at most this number next, or dead with files to
-- start from.
abbrev pub Ends : ℕ → Outcome → Type 0
Ends n none = ⊥
Ends n (some (r, a)) = Survives r a.client × (a.client.config.next_sequence ≤ n)

enough : (a : Client) (was : InStep a) → length was.items < flush_fuel a
unfolding flush_fuel
enough a was = rw was.in_queue (omega arith)

module _ (platform : Platform) (dpapi : Dpapi) (machine : Machine) where
  flushed-Ends :
      (n : ℕ) (a : Agent) (o : Option Flushed) (f : Flushed)
      → o ≡ some f
      → Survives f.result f.client
      → f.client.config.next_sequence ≤ n
      → Ends n (with_client a o)
  flushed-Ends n a o f found safe below =
      subst (λ x. Ends n (with_client a x)) (sym found) (safe, below)

  behind-Ends :
      (n : ℕ) (rounds : ℕ → Round) (a : Agent) (r : Done) (c : Client)
      → InStep c
      → 1 ≤ n
      → c.config.next_sequence ≤ n
      → Ends n (with_client a (flush_behind platform dpapi machine rounds (r, c)))
  behind-Ends n rounds a (err e) c was positive below = (inl was, below)
  behind-Ends n rounds a (ok _) c was positive below =
      let (f, found, safe) =
        flush-Survives platform dpapi (flush_fuel c) rounds c was (enough c was) in
      flushed-Ends n a _ f found safe
        (flush-upto platform dpapi n (flush_fuel c) rounds c f positive below found)

  report-Ends :
      (n : ℕ) (input : ReportInput) (endpoint : String) (payload : Value) (a : Agent)
      → InStep a.client
      → a.client.config.next_sequence < n
      → n < 2 ^ 64
      → Ends n (report platform dpapi machine input endpoint payload a)
  unfolding report
  report-Ends n input endpoint payload a was below small =
      let fits : suc a.client.config.next_sequence < 2 ^ 64 = omega (arith, below, small) in
      behind-Ends n input.rounds a _ _
        (enqueue-InStep platform dpapi machine.crypto input.event endpoint payload a.client was
          fits)
        (omega (arith, below))
        (omega (
          arith,
          below,
          enqueue-upto platform dpapi machine.crypto input.event endpoint payload a.client fits,
        ))

  -- The client is in step and takes the same number next.
  abbrev Refreshed : Agent → Done × Agent → Type 0
  Refreshed a (r, b) =
      InStep b.client × (b.client.config.next_sequence ≡ a.client.config.next_sequence)

  moved-Refreshed :
      (input : RefreshInput) (path : String) (telemetry : Result String) (files : CodexFiles)
      (a : Agent)
      → InStep a.client
      → Refreshed a (
          on_client
            (moved path telemetry files a)
            (save_config platform dpapi input.save (moved path telemetry files a).client))
  moved-Refreshed input path telemetry files a was =
      resaved-InStep platform dpapi input.save a.client was
        (moved_config path telemetry a.client.config) refl refl

  move_home-Refreshed :
      (input : RefreshInput) (path : String) (outcome : Result String × CodexFiles) (a : Agent)
      → InStep a.client
      → Refreshed a (move_home platform dpapi machine input path outcome a)
  move_home-Refreshed input path (ok hash, files) a was =
      moved-Refreshed input path (ok hash) files a was
  move_home-Refreshed input path (err killed, files) a was = (was, refl)
  move_home-Refreshed input path (err e, files) a was =
      moved-Refreshed input path (err e) files a was

  settle_home-Refreshed :
      (input : RefreshInput) (resolution : CodexHomeResolution) (a : Agent)
      → InStep a.client
      → Refreshed a (settle_home platform dpapi machine input resolution a)
  settle_home-Refreshed input resolution a was =
      elim (Bool-cases (
        str_eq resolution.path ""
        || str_eq (path_key input.disk resolution.path)
            (path_key input.disk a.client.config.codex_home))) [
              | inl e ↦ rw e (was, refl)
              | inr e ↦ rw e (move_home-Refreshed input resolution.path _ a was)
            ]

  refresh-Refreshed :
      (input : RefreshInput) (a : Agent)
      → InStep a.client
      → Refreshed a (refresh_codex_home platform dpapi machine input a)
  unfolding refresh_codex_home
  refresh-Refreshed input a was =
      elim (Bool-cases (is_recent input.now home_refresh_interval a.home_read)) [
        | inl e ↦ rw e (was, refl)
        | inr e ↦
            let resolution =
              resolve_codex_home input.disk a.client.config.codex_home input.candidates in
            rw e (
              settle_home-Refreshed input resolution
                (record a { home_read = some input.now; home_source = resolution.source }) was)
      ]

  -- What a report does behind the refresh.
  behind_refresh-Ends :
      (n : ℕ) (a b : Agent) (r : Done) (k : Agent → Outcome)
      → Refreshed a (r, b)
      → a.client.config.next_sequence < n
      → ((c : Agent) → InStep c.client → c.client.config.next_sequence < n → Ends n (k c))
      → Ends n (and_report (r, b) k)
  behind_refresh-Ends n a b (err e) k (now, level) below h = (inl now, omega (arith, level, below))
  behind_refresh-Ends n a b (ok _) k (now, level) below h = h b now (omega (arith, level, below))

  refreshing-Ends :
      (n : ℕ) (input : RefreshInput) (a : Agent) (k : Agent → Outcome)
      → InStep a.client
      → a.client.config.next_sequence < n
      → ((c : Agent) → InStep c.client → c.client.config.next_sequence < n → Ends n (k c))
      → Ends n (and_report (refresh_codex_home platform dpapi machine input a) k)
  refreshing-Ends n input a k was below h =
      behind_refresh-Ends n a _ (refresh_codex_home platform dpapi machine input a).0 k
        (refresh-Refreshed input a was) below h

  report_usage-Ends :
      (n : ℕ) (input : ReportInput) (source : String) (days : Result (List NormalizedUsage))
      (a : Agent)
      → InStep a.client
      → a.client.config.next_sequence < n
      → n < 2 ^ 64
      → Ends n (report_usage platform dpapi machine input source days a)
  report_usage-Ends n input source (err e) a was below small = (inl was, omega (arith, below))
  report_usage-Ends n input source (ok days) a was below small =
      report-Ends n input _ _ a was below small

  report_days-Ends :
      (n : ℕ) (input : ReportInput) (days : List (Text × NormalizedUsage)) (a : Agent)
      → InStep a.client
      → a.client.config.next_sequence < n
      → n < 2 ^ 64
      → Ends n (report_days platform dpapi machine input days a)
  report_days-Ends n input [] a was below small = (inl was, omega (arith, below))
  report_days-Ends n input (day ∷ days) a was below small =
      report-Ends n input _ _ a was below small

  report_scan-Ends :
      (n : ℕ) (input : IntegrityInput) (r : Result Payload) (s : Slot State) (a : Agent)
      → InStep a.client
      → a.client.config.next_sequence < n
      → n < 2 ^ 64
      → Ends n (report_scan platform dpapi machine input (r, s) a)
  report_scan-Ends n input (err e) s a was below small = (inl was, omega (arith, below))
  report_scan-Ends n input (ok payload) s a was below small =
      report-Ends n input.report _ _ _ was below small

  -- Each of the reports, over a client in step that takes a number below a bound of 64 bits next,
  -- whatever it meets: it returns, the next number is at most the bound, and the client is in step,
  -- or the process died in the report and the files are such that a start is in step.
  pub perform-Ends :
      (n : ℕ) (call : Call) (a : Agent)
      → InStep a.client
      → a.client.config.next_sequence < n
      → n < 2 ^ 64
      → Ends n (perform platform dpapi machine call a)
  unfolding perform heartbeat usage otel_usage integrity security_event
  perform-Ends n (call_heartbeat input) a was below small =
      refreshing-Ends n input.refresh a (heartbeat_behind platform dpapi machine input) was below
        λ b now under. report-Ends n input.report _ _ _ now under small
  perform-Ends n (call_usage input) a was below small =
      refreshing-Ends n input.refresh a (usage_behind platform dpapi machine input) was below
        λ b now under. report_usage-Ends n input.report "local" _ b now under small
  perform-Ends n (call_otel_usage input) a was below small =
      report_days-Ends n input.report _ a was below small
  perform-Ends n (call_integrity input) a was below small =
      refreshing-Ends n input.refresh a (integrity_behind platform dpapi machine input) was below
        λ b now under. report_scan-Ends n input _ _ b now under small
  perform-Ends n (call_security_event input event_type details) a was below small =
      report-Ends n input _ _ a was below small
