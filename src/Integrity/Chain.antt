-- ===== src/Integrity/Chain.antt =====
-- The snapshots of one device form a chain, and a scan that fails leaves the recorded state alone.
use codex_monitor_group.Base.{
  ◌+◌, ◌%◌, ◌^◌, ◌≡◌, refl, sym, ◌∙◌, ap, false, String, List, [], ◌∷◌, Result, ok, err, Error,
  killed, inl, inr, str_eq, Done, Exec, pure, ◌>>=◌, ◌>>◌, and_then, ◌⊎◌, lift,
}
use codex_monitor_group.Store.{Slot, Io, Answer, succeeds, stops, Saved, json, Content, stop_error}
use codex_monitor_group.Store.Crash.{save_all-Saved}
use codex_monitor_group.Integrity.{State, Payload, load_integrity_state}
use codex_monitor_group.Integrity.Discover.{Log, Root, discover_logs}
use codex_monitor_group.Integrity.Snapshot.{
  Digests, payload_of, scan_result, scan_integrity, save_integrity_state,
}
use codex_monitor_group.Integrity.Alarms.{scan_result_parts}

-- One attempt to scan: what the system answers, what is drawn at random, what is on the disk.
pub record Attempt : Type 0 where
  pub read : Answer
  pub answers : Io
  pub drawn : String
  pub ids : String → String
  pub sessions : Root
  pub archived_sessions : Root

-- A payload that follows the recorded state.
pub record Follows (state : State) (payload : Payload) : Type 0 where
  pub state_id : payload.state_id ≡ state.state_id
  pub previous : payload.previous_snapshot_hash ≡ state.last_snapshot_hash
  pub sequence : payload.scan_sequence ≡ (state.scan_sequence + 1) % 2 ^ 64

-- A state that records the payload.
pub record Keeps (payload : Payload) (state : State) : Type 0 where
  pub state_id : state.state_id ≡ payload.state_id
  pub hash : state.last_snapshot_hash ≡ payload.snapshot_hash
  pub sequence : state.scan_sequence ≡ payload.scan_sequence

-- What a scan over a recorded state must come to.
abbrev pub Scanned : State → Result Payload × Slot State → Type 0
Scanned state (ok payload, s) =
    Follows state payload × ((next : State) × (s.target ≡ json next) × Keeps payload next)
Scanned state (err killed, s) =
    (s.target ≡ json state)
    ⊎ ((payload : Payload) × (next : State) × (s.target ≡ json next)
        × Follows state payload
        × Keeps payload next)
Scanned state (err _, s) = s.target ≡ json state

unchanged-Scanned :
    (state : State) (why : Error) (s : Slot State)
    → s.target ≡ json state
    → Scanned state (err why, s)
unchanged-Scanned state killed s e = inl e
unchanged-Scanned state _ s e = e

module _ (digests : Digests) where
  save_integrity_state-Saved :
      (answers : Io) (state : State) (s : Slot State)
      → Saved s.target state (save_integrity_state digests answers state s)
  unfolding save_integrity_state
  save_integrity_state-Saved answers state s = save_all-Saved answers state s

  result_links :
      (ids : String → String) (state : State) (logs : List Log) (payload : Payload) (next : State)
      → scan_result digests ids state logs ≡ ok (payload, next)
      → Follows state payload × Keeps payload next
  unfolding payload_of
  result_links ids state logs payload next h =
      let (p, scanned, made, kept) = scan_result_parts digests ids state logs payload next h in
      (
        record {
          state_id = ap (λ (q : Payload). q.state_id) made;
          previous = ap (λ (q : Payload). q.previous_snapshot_hash) made;
          sequence = ap (λ (q : Payload). q.scan_sequence) made;
        },
        record {
          state_id =
              ap (λ (t : State). t.state_id) kept ∙ sym (ap (λ (q : Payload). q.state_id) made);
          hash =
              ap (λ (t : State). t.last_snapshot_hash) kept
              ∙ sym (ap (λ (q : Payload). q.snapshot_hash) made);
          sequence =
              ap (λ (t : State). t.scan_sequence) kept
              ∙ sym (ap (λ (q : Payload). q.scan_sequence) made);
        },
      )

  Saved-Scanned :
      (state next : State) (payload : Payload) (old : Content State) (r : Done) (s : Slot State)
      → old ≡ json state
      → Follows state payload × Keeps payload next
      → Saved old next (r, s)
      → Scanned state (and_then r (λ _. pure payload) s)
  Saved-Scanned state next payload old (ok _) s e links saved = (links.0, (next, saved, links.1))
  Saved-Scanned state next payload old (err killed) s e links (inl saved) = inl (saved ∙ e)
  Saved-Scanned state next payload old (err killed) s e links (inr saved) =
      inr (payload, next, saved, links.0, links.1)
  Saved-Scanned state next payload old (err _) s e links saved = saved ∙ e

  -- The rest of a scan from each of its points on.
  abbrev finish : Io → Payload × State → Exec (Slot State) Payload
  finish answers found = do save_integrity_state digests answers found.1; pure found.0

  abbrev compare_and_save : Io → (String → String) → State → List Log → Exec (Slot State) Payload
  compare_and_save answers ids state logs = do
    found ← lift (scan_result digests ids state logs)
    finish answers found

  from_result :
      (answers : Io) (ids : String → String) (state : State) (logs : List Log) (s : Slot State)
      (r : Result (Payload × State))
      → s.target ≡ json state
      → scan_result digests ids state logs ≡ r
      → Scanned state (and_then r (finish answers) s)
  from_result answers ids state logs s (ok (payload, next)) e same =
      Saved-Scanned state next payload s.target _ _ e
        (result_links ids state logs payload next same) (save_integrity_state-Saved answers next s)
  from_result answers ids state logs s (err why) e same = unchanged-Scanned state why s e

  from_logs :
      (answers : Io) (ids : String → String) (state : State) (s : Slot State)
      (logs : Result (List Log))
      → s.target ≡ json state
      → Scanned state (and_then logs (compare_and_save answers ids state) s)
  from_logs answers ids state s (ok logs) e = from_result answers ids state logs s _ e refl
  from_logs answers ids state s (err why) e = unchanged-Scanned state why s e

  from_read :
      (answers : Io) (drawn : String) (ids : String → String) (sessions archived_sessions : Root)
      (read : Answer) (s : Slot State) (state : State)
      → s.target ≡ json state
      → str_eq state.state_id "" ≡ false
      → Scanned state (scan_integrity digests read answers drawn ids sessions archived_sessions s)
  unfolding scan_integrity load_integrity_state
  from_read answers drawn ids sessions archived_sessions (stops why) s state e present =
      unchanged-Scanned state (stop_error why) s e
  from_read answers drawn ids sessions archived_sessions succeeds s state e present =
      simp (e, present) (from_logs answers ids state s (discover_logs sessions archived_sessions) e)

  -- A scan over a recorded state, whatever the system answers: a payload that is returned follows
  -- the recorded state, and the state that is then in place records the payload; an error leaves
  -- the recorded state; the death of the process leaves it or one such successor.
  pub scan_integrity-Scanned :
      (a : Attempt) (s : Slot State) (state : State)
      → s.target ≡ json state
      → str_eq state.state_id "" ≡ false
      → Scanned state
          (scan_integrity digests a.read a.answers a.drawn a.ids a.sessions a.archived_sessions s)
  scan_integrity-Scanned a s state e present =
      from_read a.answers a.drawn a.ids a.sessions a.archived_sessions a.read s state e present

  abbrev attempt : Attempt → Slot State → Result Payload × Slot State
  attempt a = scan_integrity digests a.read a.answers a.drawn a.ids a.sessions a.archived_sessions

  abbrev report : Result Payload → List Payload → List Payload
  report (ok payload) rest = payload ∷ rest
  report (err killed) rest = []
  report (err _) rest = rest

  -- The payloads that one process returns, in order: it ends where it is killed.
  unfoldable pub reports : List Attempt → Slot State → List Payload
  reports [] s = []
  reports (a ∷ attempts) s = report (attempt a s).0 (reports attempts (attempt a s).1)

  -- Each payload follows the one before it, the first the state given.
  abbrev pub Linked : State → List Payload → Type 0
  Linked state [] = Unit
  Linked state (payload ∷ rest) =
      Follows state payload × ((next : State) × Keeps payload next × Linked next rest)

  link :
      (state : State) (r : Result Payload) (s : Slot State) (rest : List Payload)
      → str_eq state.state_id "" ≡ false
      → Scanned state (r, s)
      → ((next : State) → s.target ≡ json next → str_eq next.state_id "" ≡ false → Linked next rest)
      → Linked state (report r rest)
  link state (ok payload) s rest present (follows, recorded) later =
      let (next, there, keeps) = recorded in
      (follows, (next, keeps, later next there (rw (keeps.state_id ∙ follows.state_id) present)))
  link state (err killed) s rest present scanned later = tt
  link state (err _) s rest present scanned later = later state scanned present

  -- Whatever scans are attempted in the life of one process and whatever the system answers, the
  -- payloads that are returned form a chain from the recorded state: each has the recorded state
  -- identifier, the snapshot hash of the one before it as its previous hash, and the next sequence
  -- number; attempts that fail in between leave no gap.
  pub reports-Linked :
      (attempts : List Attempt) (s : Slot State) (state : State)
      → s.target ≡ json state
      → str_eq state.state_id "" ≡ false
      → Linked state (reports attempts s)
  unfolding reports
  reports-Linked [] s state e present = tt
  reports-Linked (a ∷ attempts) s state e present =
      link state (attempt a s).0 (attempt a s).1 (reports attempts (attempt a s).1) present
        (scan_integrity-Scanned a s state e present)
        λ next there present'. reports-Linked attempts (attempt a s).1 next there present'
