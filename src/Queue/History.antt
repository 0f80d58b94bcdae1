-- ===== src/Queue/History.antt =====
-- The queue against an abstract one: a list, and what each method does to it.
use codex_monitor_group.Base.{
  ◌≡◌, ◌⊎◌, inl, inr, refl, sym, ◌∙◌, ap, List, [], ◌∷◌, ◌++◌, ok, err, select, Error, killed, Done,
  drop, subst,
}
use codex_monitor_group.Base.Int.{ℤ}
use codex_monitor_group.Store.{
  Io, Saved, Content, Answer, Stop, dying, failing, stop_error, succeeds, stops,
}
use codex_monitor_group.Queue.{
  Queue, Item, decode, load, save, push, pop, clear, cutoff, is_fresh, save_rest,
}
use codex_monitor_group.Queue.Laws.{
  push-Saved, pop-Saved, pop-empty, clear-Saved, pop_unread, push_unread,
}

-- The methods that write, each with the time it reads.
pub data Op {ℓ} (E : Type ℓ) : Type ℓ where
  pushes : ℤ → Item E → Op E
  pops : Op E
  clears : Op E

module _ {ℓ} {E : Type ℓ} where
  -- The abstract queue.
  abbrev pub effect : ℤ → Op E → List (Item E) → List (Item E)
  effect retention (pushes now item) items =
      select (is_fresh (cutoff now retention)) items ++ item ∷ []
  effect retention pops items = drop 1 items
  effect retention clears items = []

  abbrev pub replay : ℤ → List (Op E) → List (Item E) → List (Item E)
  replay retention [] items = items
  replay retention (op ∷ ops) items = replay retention ops (effect retention op items)

  -- One call of a method, with the answers to the read in its load and to its save.
  abbrev pub step : Op E → Answer × Io → Queue E → Done × Queue E
  step (pushes now item) (read, answers) q = push read answers now item q
  step pops (read, answers) q = pop read answers q
  step clears (read, answers) q = clear answers q

  -- Calls in a row. A process that dies is started again over the file that it left.
  abbrev pub run : List (Op E × (Answer × Io)) → Queue E → Queue E
  run [] q = q
  run ((op, answers) ∷ calls) q = run calls (step op answers q).1

  abbrev pub results : List (Op E × (Answer × Io)) → Queue E → List (Op E × Done)
  results [] q = []
  results ((op, answers) ∷ calls) q =
      (op, (step op answers q).0) ∷ results calls (step op answers q).1

-- The calls that count: all that succeeded, none that failed, and either way where the process died.
pub data Counts {ℓ} {E : Type ℓ} : List (Op E × Done) → List (Op E) → Type ℓ where
  none_left : Counts [] []
  succeeded :
      {op : Op E} {calls : List (Op E × Done)} {ops : List (Op E)}
      → Counts calls ops
      → Counts ((op, ok tt) ∷ calls) (op ∷ ops)
  died_late :
      {op : Op E} {calls : List (Op E × Done)} {ops : List (Op E)}
      → Counts calls ops
      → Counts ((op, err killed) ∷ calls) (op ∷ ops)
  failed :
      {op : Op E} {e : Error} {calls : List (Op E × Done)} {ops : List (Op E)}
      → Counts calls ops
      → Counts ((op, err e) ∷ calls) ops

module _ {ℓ} {E : Type ℓ} where
  -- What one call leaves in a file that could be read.
  abbrev pub Effected : ℤ → Op E → List (Item E) → Done × Queue E → Type ℓ
  Effected retention op items (ok _, q) = decode q.file.target ≡ ok (effect retention op items)
  Effected retention op items (err killed, q) =
      (decode q.file.target ≡ ok items) ⊎ (decode q.file.target ≡ ok (effect retention op items))
  Effected retention op items (err _, q) = decode q.file.target ≡ ok items

  Saved-Effected :
      (retention : ℤ) (op : Op E) (items : List (Item E)) (old : Content (List (Item E))) (r : Done)
      (q : Queue E)
      → decode old ≡ ok items
      → Saved old (effect retention op items) (r, q.file)
      → Effected retention op items (r, q)
  unfolding decode
  Saved-Effected retention op items old (ok _) q readable s = ap decode s
  Saved-Effected retention op items old (err killed) q readable (inl s) =
      inl (ap decode s ∙ readable)
  Saved-Effected retention op items old (err killed) q readable (inr s) = inr (ap decode s)
  Saved-Effected retention op items old (err _) q readable s = ap decode s ∙ readable

  -- A load that the system refuses, or in which the process dies, leaves everything.
  unread-Effected :
      (retention : ℤ) (op : Op E) (items : List (Item E)) (why : Stop) (q : Queue E)
      → decode q.file.target ≡ ok items
      → Effected retention op items (err (stop_error why), q)
  unread-Effected retention op items dying q readable = inl readable
  unread-Effected retention op items failing q readable = readable

  step-Effected :
      (op : Op E) (answers : Answer × Io) (q : Queue E) (items : List (Item E))
      → decode q.file.target ≡ ok items
      → Effected q.retention op items (step op answers q)
  step-Effected (pushes now item) (stops why, answers) q items readable =
      subst (Effected q.retention (pushes now item) items)
        (sym (push_unread why answers now item q))
        (unread-Effected q.retention (pushes now item) items why q readable)
  step-Effected pops (stops why, answers) q items readable =
      subst (Effected q.retention pops items) (sym (pop_unread why answers q))
        (unread-Effected q.retention pops items why q readable)
  step-Effected (pushes now item) (succeeds, answers) q items readable =
      Saved-Effected q.retention (pushes now item) items q.file.target _ _ readable
        (push-Saved answers now item q items readable)
  step-Effected pops (succeeds, answers) q [] readable =
      subst (Effected q.retention pops []) (sym (pop-empty answers q readable)) readable
  step-Effected pops (succeeds, answers) q (item ∷ rest) readable =
      Saved-Effected q.retention pops (item ∷ rest) q.file.target _ _ readable
        (pop-Saved answers q item rest readable)
  step-Effected clears (read, answers) q items readable =
      Saved-Effected q.retention clears items q.file.target _ _ readable (clear-Saved answers q)

  retention-step :
      (op : Op E) (answers : Answer × Io) (q : Queue E) (items : List (Item E))
      → decode q.file.target ≡ ok items
      → (step op answers q).1.retention ≡ q.retention
  unfolding push pop clear load save_rest save
  retention-step (pushes now item) (stops why, answers) q items readable = refl
  retention-step pops (stops why, answers) q items readable = refl
  retention-step (pushes now item) (succeeds, answers) q items readable = rw (readable, push)
  retention-step pops (succeeds, answers) q [] readable = rw (readable, pop)
  retention-step pops (succeeds, answers) q (item ∷ rest) readable = rw (readable, pop)
  retention-step clears (read, answers) q items readable = refl

  -- What a history of calls must come to: the replay of the calls that count.
  abbrev pub Replayed : ℤ → List (Item E) → List (Op E × Done) → Queue E → Type ℓ
  Replayed retention items outcomes q =
      (ops : List (Op E)) × Counts outcomes ops
      × (decode q.file.target ≡ ok (replay retention ops items))

  after_step :
      (op : Op E) (r : Done) (q : Queue E) (outcomes : List (Op E × Done)) (last : Queue E)
      (retention : ℤ) (items : List (Item E))
      → Effected retention op items (r, q)
      → ((left : List (Item E))
          → decode q.file.target ≡ ok left
          → Replayed retention left outcomes last)
      → Replayed retention items ((op, r) ∷ outcomes) last
  after_step op (ok tt) q outcomes last retention items e rest =
      let (ops, counts, same) = rest _ e in (op ∷ ops, succeeded counts, same)
  after_step op (err killed) q outcomes last retention items (inl e) rest =
      let (ops, counts, same) = rest _ e in (ops, failed counts, same)
  after_step op (err killed) q outcomes last retention items (inr e) rest =
      let (ops, counts, same) = rest _ e in (op ∷ ops, died_late counts, same)
  after_step op (err _) q outcomes last retention items e rest =
      let (ops, counts, same) = rest _ e in (ops, failed counts, same)

  run-Replayed_from :
      (calls : List (Op E × (Answer × Io))) (q : Queue E) (retention : ℤ) (items : List (Item E))
      → q.retention ≡ retention
      → decode q.file.target ≡ ok items
      → Replayed retention items (results calls q) (run calls q)
  run-Replayed_from [] q retention items same readable = ([], none_left, readable)
  run-Replayed_from ((op, answers) ∷ calls) q retention items same readable =
      after_step op (step op answers q).0 (step op answers q).1
        (results calls (step op answers q).1) (run calls (step op answers q).1) retention items
        (subst (λ t. Effected t op items (step op answers q)) same
          (step-Effected op answers q items readable))
        (λ left e.
          run-Replayed_from calls (step op answers q).1 retention left
            (retention-step op answers q items readable ∙ same) e)

  -- Over a file that decodes at the start, whatever pushes, pops and clears are made and whatever
  -- the system answers to the read and to the save of each, the queue at the end is the abstract
  -- queue after the calls that count: all calls that returned no error, none that returned an
  -- error, and some of those in which the process died.
  pub run-Replayed :
      (calls : List (Op E × (Answer × Io))) (q : Queue E) (items : List (Item E))
      → decode q.file.target ≡ ok items
      → Replayed q.retention items (results calls q) (run calls q)
  run-Replayed calls q items readable = run-Replayed_from calls q q.retention items refl readable
