-- ===== src/Agent/Running.antt =====
-- The loop of `Run` and `Cycle` go on whatever their reports meet.
use codex_monitor_group.Base.{
  zero, refl, ℕ, ◌+◌, ◌*◌, ◌<◌, ◌≤◌, ◌^◌, ◌≡◌, inl, inr, List, [], ◌∷◌, Option, none, some, Done,
  arith, Bool-cases, length, true, false, ap, subst, sym,
}
use codex_monitor_group.Config.{Platform, Dpapi}
use codex_monitor_group.Client.Sequences.{InStep}
use codex_monitor_group.Client.Restart.{Survives, Restartable, InStep-Restartable}
use codex_monitor_group.Agent.{
  Outcome, heartbeat, usage, otel_usage, integrity, ok, err, Error, suc,
}
use codex_monitor_group.Agent.Inputs.{Agent, Machine}
use codex_monitor_group.Agent.Loop.{
  perform, call_heartbeat, call_usage, call_otel_usage, call_integrity, CycleInput, RoundInput,
  Schedule, Went, gone, on, and_on, beat, check_integrity, collect, run_round, run_on, run_rounds,
  is_due, then_call, with_first, cycle, is_killed, next_backoff, second,
}
use codex_monitor_group.Agent.Survival.{Ends, perform-Ends}

-- A power of two seconds, from 1 to 32.
abbrev pub IsBackoff : ℕ → Type 0
IsBackoff b = (k : ℕ) × (k ≤ 5) × (b ≡ 2 ^ k * second)

doubled : (e : Error) (k : ℕ) → k ≤ 5 → IsBackoff (next_backoff (err e) (2 ^ k * second))
unfolding next_backoff
doubled e zero h = (1, omega arith, refl)
doubled e (suc zero) h = (2, omega arith, refl)
doubled e (suc (suc zero)) h = (3, omega arith, refl)
doubled e (suc (suc (suc zero))) h = (4, omega arith, refl)
doubled e (suc (suc (suc (suc zero)))) h = (5, omega arith, refl)
doubled e (suc (suc (suc (suc (suc zero))))) h = (5, omega arith, refl)
doubled e (suc (suc (suc (suc (suc (suc k)))))) h = absurd (omega (arith, h))

next-IsBackoff : (r : Done) (b : ℕ) → IsBackoff b → IsBackoff (next_backoff r b)
next-IsBackoff (ok _) b h = unfold next_backoff in (0, omega arith, omega arith)
next-IsBackoff (err e) b (k, small, same) =
    subst (λ x. IsBackoff (next_backoff (err e) x)) (sym same) (doubled e k small)

-- A round that comes to an end: in step with at most this number next, or dead with files to start
-- from.
abbrev pub Fares : ℕ → Option Went → Type 0
Fares n none = ⊥
Fares n (some (gone a)) = Restartable a.client
Fares n (some (on a s)) =
    InStep a.client × (a.client.config.next_sequence ≤ n) × IsBackoff s.backoff

revived : (r : Done) (a : Agent) → Survives r a.client → Restartable a.client
revived r a (inl was) = InStep-Restartable a.client was
revived r a (inr (dead, there)) = there

alive : (r : Done) (a : Agent) → is_killed r ≡ false → Survives r a.client → InStep a.client
unfolding is_killed
alive r a not_dead (inl was) = was
alive r a not_dead (inr (dead, there)) =
    absurd (let same : is_killed r ≡ true = ap is_killed dead in cc (same, not_dead))

-- Behind a report whose error is printed.
and_on-Fares :
    (n m : ℕ) (o : Outcome) (next : Done → Agent → Option Went)
    → Ends n o
    → ((r : Done) (a : Agent)
        → InStep a.client
        → a.client.config.next_sequence ≤ n
        → Fares m (next r a))
    → Fares m (and_on o next)
and_on-Fares n m none next safe h = elim safe [ ]
and_on-Fares n m (some (r, a)) next (safe, below) h = elim (Bool-cases (is_killed r)) [
  | inl e ↦ rw e (revived r a safe)
  | inr e ↦ rw e (h r a (alive r a e safe) below)
]

with_first-Ends : (m : ℕ) (first : Done) (o : Outcome) → Ends m o → Ends m (with_first first o)
with_first-Ends m first none safe = safe
with_first-Ends m first (some (r, a)) (safe, below) = elim (Bool-cases (is_killed r)) [
  | inl e ↦ rw e (safe, below)
  | inr e ↦ rw e (inl (alive r a e safe), below)
]

Fares-below : (n m : ℕ) (o : Option Went) → n ≤ m → Fares n o → Fares m o
Fares-below n m none less h = h
Fares-below n m (some (gone a)) less h = h
Fares-below n m (some (on a s)) less (was, below, fine) = (was, omega (arith, less, below), fine)

-- The next call of a cycle.
then_call-Ends :
    (n m : ℕ) (o : Outcome) (next : Agent → Outcome)
    → n ≤ m
    → Ends n o
    → ((a : Agent) → InStep a.client → a.client.config.next_sequence ≤ n → Ends m (next a))
    → Ends m (then_call o next)
then_call-Ends n m none next less safe h = elim safe [ ]
then_call-Ends n m (some (r, a)) next less (safe, below) h = elim (Bool-cases (is_killed r)) [
  | inl e ↦ rw e (safe, omega (arith, below, less))
  | inr e ↦ rw e (with_first-Ends m r (next a) (h a (alive r a e safe) below))
]

module _ (platform : Platform) (dpapi : Dpapi) (machine : Machine) where
  beat-Fares :
      (n : ℕ) (input : RoundInput) (s : Schedule) (a : Agent)
      → InStep a.client
      → IsBackoff s.backoff
      → a.client.config.next_sequence < n
      → n < 2 ^ 64
      → Fares n (beat platform dpapi machine input s a)
  unfolding perform
  beat-Fares n input s a was fine below small =
      and_on-Fares n n (heartbeat platform dpapi machine input.calls.heartbeat a) _
        (perform-Ends platform dpapi machine n (call_heartbeat input.calls.heartbeat) a was below
          small)
        λ r b now under. (now, under, next-IsBackoff r s.backoff fine)

  check_integrity-Fares :
      (n : ℕ) (input : RoundInput) (s : Schedule) (a : Agent)
      → InStep a.client
      → IsBackoff s.backoff
      → a.client.config.next_sequence + 1 < n
      → n < 2 ^ 64
      → Fares n (check_integrity platform dpapi machine input s a)
  unfolding perform
  check_integrity-Fares n input s a was fine below small =
      let m = a.client.config.next_sequence + 1 in
      elim (Bool-cases (is_due input.now s.last_integrity a.client.config.integrity_seconds)) [
        | inl e ↦ rw e (
            and_on-Fares m n (integrity platform dpapi machine input.calls.integrity a) _
              (perform-Ends platform dpapi machine m (call_integrity input.calls.integrity) a was
                (omega arith) (omega (arith, below, small)))
              λ r b now under.
                beat-Fares n input (record s { last_integrity = some input.now }) b now fine
                  (omega (arith, under, below)) small)
        | inr e ↦ rw e (beat-Fares n input s a was fine (omega (arith, below)) small)
      ]

  collect-Fares :
      (n : ℕ) (input : RoundInput) (s : Schedule) (a : Agent)
      → InStep a.client
      → IsBackoff s.backoff
      → a.client.config.next_sequence + 2 < n
      → n < 2 ^ 64
      → Fares n (collect platform dpapi machine input s a)
  unfolding perform
  collect-Fares n input s a was fine below small =
      let m = a.client.config.next_sequence + 1 in
      elim (Bool-cases (is_due input.now s.last_usage a.client.config.usage_seconds)) [
        | inl e ↦ rw e (
            and_on-Fares m n (usage platform dpapi machine input.calls.usage a) _
              (perform-Ends platform dpapi machine m (call_usage input.calls.usage) a was
                (omega arith) (omega (arith, below, small)))
              λ r b now under.
                check_integrity-Fares n input (record s { last_usage = some input.now }) b now fine
                  (omega (arith, under, below)) small)
        | inr e ↦ rw e (check_integrity-Fares n input s a was fine (omega (arith, below)) small)
      ]

  -- A round takes at most four numbers.
  run_round-Fares :
      (n : ℕ) (input : RoundInput) (s : Schedule) (a : Agent)
      → InStep a.client
      → IsBackoff s.backoff
      → a.client.config.next_sequence + 3 < n
      → n < 2 ^ 64
      → Fares n (run_round platform dpapi machine input s a)
  unfolding run_round perform
  run_round-Fares n input s a was fine below small =
      let m = a.client.config.next_sequence + 1 in
      and_on-Fares m n (otel_usage platform dpapi machine input.calls.otel_usage a) _
        (perform-Ends platform dpapi machine m (call_otel_usage input.calls.otel_usage) a was
          (omega arith) (omega (arith, below, small)))
        λ r b now under. collect-Fares n input s b now fine (omega (arith, under, below)) small

  run_on-Fares :
      (n m : ℕ) (rest : Agent → Schedule → Option Went) (o : Option Went)
      → Fares n o
      → ((a : Agent) (s : Schedule)
          → InStep a.client
          → a.client.config.next_sequence ≤ n
          → IsBackoff s.backoff
          → Fares m (rest a s))
      → Fares m (run_on platform dpapi machine rest o)
  run_on-Fares n m rest none fares h = elim fares [ ]
  run_on-Fares n m rest (some (gone a)) fares h = fares
  run_on-Fares n m rest (some (on a s)) (now, below, fine) h = h a s now below fine

  -- Any rounds of the loop of `Run` over a client in step, with four sequence numbers of 64 bits
  -- left for each round, whatever the reports meet: every round comes to an end, and behind the
  -- last one the client is in step, its next number has grown by at most four for each, and the
  -- back-off is 1, 2, 4, 8, 16 or 32 seconds where it was one of these before; or the process died
  -- and the files are such that a start is in step.
  pub run_rounds-Fares :
      (inputs : List RoundInput) (a : Agent) (s : Schedule)
      → InStep a.client
      → IsBackoff s.backoff
      → a.client.config.next_sequence + 4 * length inputs < 2 ^ 64
      → Fares
          (a.client.config.next_sequence + 4 * length inputs)
          (run_rounds platform dpapi machine inputs a s)
  unfolding run_rounds
  run_rounds-Fares [] a s was fine small = (was, omega arith, fine)
  run_rounds-Fares (input ∷ rest) a s was fine small =
      let n = a.client.config.next_sequence + 4 in
      run_on-Fares n _ (run_rounds platform dpapi machine rest)
        (run_round platform dpapi machine input s a)
        (run_round-Fares n input s a was fine (omega arith) (omega (arith, small)))
        λ b t now under fine'.
          Fares-below (b.client.config.next_sequence + 4 * length rest) _
            (run_rounds platform dpapi machine rest b t) (omega (arith, under))
            (run_rounds-Fares rest b t now fine' (omega (arith, under, small)))

  -- A `Cycle` takes at most four numbers and comes to an end in the same way.
  pub cycle-Ends :
      (n : ℕ) (input : CycleInput) (a : Agent)
      → InStep a.client
      → a.client.config.next_sequence + 3 < n
      → n < 2 ^ 64
      → Ends n (cycle platform dpapi machine input a)
  unfolding cycle perform
  cycle-Ends n input a was below small =
      let k = a.client.config.next_sequence in
      then_call-Ends (k + 3) n _ _ (omega (arith, below))
        (then_call-Ends (k + 2) (k + 3) _ _ (omega arith)
          (then_call-Ends (k + 1) (k + 2) (usage platform dpapi machine input.usage a)
            (otel_usage platform dpapi machine input.otel_usage) (omega arith)
            (perform-Ends platform dpapi machine (k + 1) (call_usage input.usage) a was
              (omega arith) (omega (arith, below, small)))
            (λ b now under.
              perform-Ends platform dpapi machine (k + 2) (call_otel_usage input.otel_usage) b now
                (omega (arith, under)) (omega (arith, below, small))))
          (λ b now under.
            perform-Ends platform dpapi machine (k + 3) (call_integrity input.integrity) b now
              (omega (arith, under)) (omega (arith, below, small))))
        (λ b now under.
          perform-Ends platform dpapi machine n (call_heartbeat input.heartbeat) b now
            (omega (arith, under, below)) small)
