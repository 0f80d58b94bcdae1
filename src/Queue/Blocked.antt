-- ===== src/Queue/Blocked.antt =====
-- The queue over a file that is not a queue in JSON.
use codex_monitor_group.Base.{
  ◌≡◌, refl, sym, ap, List, [], ◌∷◌, Error, invalid_json, ok, err, subst, Done, All,
}
use codex_monitor_group.Store.{Io, Answer, stop_error, succeeds, stops, garbage}
use codex_monitor_group.Store.Crash.{Saved-ok}
use codex_monitor_group.Queue.{Queue, decode, load, push, pop, peek, clear}
use codex_monitor_group.Queue.Laws.{clear-Saved}
use codex_monitor_group.Queue.History.{Op, pushes, pops, clears, step, run, results}

module _ {ℓ} {E : Type ℓ} where
  -- A push or a pop.
  abbrev pub NotClear : Op E × (Answer × Io) → Type 0
  NotClear (clears, _) = ⊥
  NotClear _ = Unit

  -- A call that returned an error, or in which the process died.
  abbrev pub Failed : Op E × Done → Type 0
  Failed (_, r) = (e : Error) × (r ≡ err e)

  step_blocked :
      (op : Op E) (answers : Answer × Io) (q : Queue E)
      → q.file.target ≡ garbage
      → NotClear (op, answers)
      → (e : Error) × (step op answers q ≡ (err e, q))
  unfolding push pop load
  step_blocked (pushes now item) (succeeds, answers) q bad h = (invalid_json, rw (bad, decode))
  step_blocked (pushes now item) (stops why, answers) q bad h = (stop_error why, refl)
  step_blocked pops (succeeds, answers) q bad h = (invalid_json, rw (bad, decode))
  step_blocked pops (stops why, answers) q bad h = (stop_error why, refl)
  step_blocked clears answers q bad h = elim h [ ]

  -- What calls over such a file come to: all failed, nothing changed, no item to send, and a clear
  -- that returns no error ends it.
  abbrev pub Blocked : Queue E → List (Op E × Done) → Queue E → Type ℓ
  Blocked q outcomes last =
      All Failed outcomes
      × (last ≡ q)
      × (peek succeeds last ≡ (err invalid_json, last))
      × ((answers : Io)
          → (clear answers last).0 ≡ ok tt
          → decode (clear answers last).1.file.target ≡ ok [])

  -- Over a file that is not a queue in JSON, in whatever order pushes and pops are called and
  -- whatever the system answers to them: every call fails, and the queue stays as it is, so that it
  -- has no item to send either; a clear that returns no error empties it.
  pub garbage_blocks :
      (calls : List (Op E × (Answer × Io))) (q : Queue E)
      → q.file.target ≡ garbage
      → All NotClear calls
      → Blocked q (results calls q) (run calls q)
  unfolding peek load decode
  garbage_blocks [] q bad h = (
    tt,
    refl,
    rw (bad, decode),
    λ answers fine. ap decode (Saved-ok q.file.target [] _ _ (clear-Saved answers q) fine),
  )
  garbage_blocks ((op, answers) ∷ calls) q bad (h, hs) =
      let (e, same) = step_blocked op answers q bad h in
      let (failed, kept, peeked, cleared) =
        subst (λ (x : Queue E). Blocked q (results calls x) (run calls x))
          (sym (ap (λ (x : Done × Queue E). x.1) same)) (garbage_blocks calls q bad hs) in
      (((e, ap (λ (x : Done × Queue E). x.0) same), failed), kept, peeked, cleared)
