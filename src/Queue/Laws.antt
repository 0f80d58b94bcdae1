-- ===== src/Queue/Laws.antt =====
-- What the queue's methods do, whatever the operating system answers.
use codex_monitor_group.Base.{◌≡◌, refl, List, [], ◌∷◌, ◌++◌, ok, err, select, Result, ap}
use codex_monitor_group.Base.Int.{ℤ}
use codex_monitor_group.Store.{
  Io, Answer, Slot, succeeds, Saved, Stop, json, absent, write_tmp, replace,
}
use codex_monitor_group.Store.Crash.{save_all-Saved, Saved-ok, IsFine}
use codex_monitor_group.Queue.{
  Queue, Item, decode, load, save_file, save, push, pop, peek, clear, cutoff, is_fresh, save_rest,
  first, stops, stop_error,
}

module _ {ℓ} {E : Type ℓ} where
  pub save_file-Saved :
      (answers : Io) (items : List (Item E)) (s : Slot (List (Item E)))
      → Saved s.target items (save_file answers items s)
  unfolding save_file
  save_file-Saved answers items s = save_all-Saved answers items s

  -- The outcome of a method, its file alone.
  abbrev pub on_disk {κ} : {A : Type κ} → Result A × Queue E → Result A × Slot (List (Item E))
  on_disk (r, q) = (r, q.file)

  pub save-Saved :
      (answers : Io) (items : List (Item E)) (q : Queue E)
      → Saved q.file.target items (on_disk (save answers items q))
  unfolding save
  save-Saved answers items q = save_file-Saved answers items q.file

  -- A push over a readable file, whatever the system answers: after success the file holds the
  -- items still inside the retention, in their order, with the new one behind them; after an error
  -- it is the old file; and if the process dies it is one of the two.
  pub push-Saved :
      (answers : Io) (now : ℤ) (item : Item E) (q : Queue E) (items : List (Item E))
      → decode q.file.target ≡ ok items
      → Saved q.file.target
          (select (is_fresh (cutoff now q.retention)) items ++ item ∷ [])
          (on_disk (push succeeds answers now item q))
  unfolding push load
  push-Saved answers now item q items readable = rw (readable, push) (save-Saved answers _ q)

  -- A pop over a readable file with a first item: as for a push, the new file being the rest.
  pub pop-Saved :
      (answers : Io) (q : Queue E) (item : Item E) (rest : List (Item E))
      → decode q.file.target ≡ ok (item ∷ rest)
      → Saved q.file.target rest (on_disk (pop succeeds answers q))
  unfolding pop load save_rest
  pop-Saved answers q item rest readable = rw (readable, pop) (save-Saved answers _ q)

  -- A pop of an empty queue returns no error and writes nothing.
  pub pop-empty :
      (answers : Io) (q : Queue E)
      → decode q.file.target ≡ ok []
      → pop succeeds answers q ≡ (ok tt, q)
  unfolding pop load save_rest
  pop-empty answers q readable = rw (readable, pop)

  pub clear-Saved :
      (answers : Io) (q : Queue E) → Saved q.file.target [] (on_disk (clear answers q))
  unfolding clear
  clear-Saved answers q = save-Saved answers [] q

  pub push_unread :
      (why : Stop) (answers : Io) (now : ℤ) (item : Item E) (q : Queue E)
      → push (stops why) answers now item q ≡ (err (stop_error why), q)
  unfolding push load
  push_unread why answers now item q = refl

  pub pop_unread :
      (why : Stop) (answers : Io) (q : Queue E)
      → pop (stops why) answers q ≡ (err (stop_error why), q)
  unfolding pop load
  pop_unread why answers q = refl

  pub peek_unread : (why : Stop) (q : Queue E) → peek (stops why) q ≡ (err (stop_error why), q)
  unfolding peek load
  peek_unread why q = refl

  pub peek-head :
      (q : Queue E) (items : List (Item E))
      → decode q.file.target ≡ ok items
      → peek succeeds q ≡ (ok (first items), q)
  unfolding peek load
  peek-head q items readable = rw (readable, peek)

  -- A pop over a readable file with a first item, where every call succeeds.
  pub pop-IsFine :
      (answers : Io) (q : Queue E) (item : Item E) (rest : List (Item E))
      → IsFine answers
      → decode q.file.target ≡ ok (item ∷ rest)
      → pop succeeds answers q
        ≡ (ok tt, record q { file = record { target = json rest; tmp = absent } })
  unfolding pop load save_rest save save_file write_tmp replace
  pop-IsFine answers q item rest fine readable =
      simp (readable, fine.mkdir, fine.marshals, fine.write, fine.rename) refl

  -- Behind a push that returned no error.
  pub push_ok :
      (read : Answer) (answers : Io) (now : ℤ) (item : Item E) (q : Queue E) (items : List (Item E))
      → decode q.file.target ≡ ok items
      → (push read answers now item q).0 ≡ ok tt
      → decode (push read answers now item q).1.file.target
        ≡ ok (select (is_fresh (cutoff now q.retention)) items ++ item ∷ [])
  unfolding push load decode
  push_ok succeeds answers now item q items readable h =
      ap decode (Saved-ok q.file.target _ _ _ (push-Saved answers now item q items readable) h)
  push_ok (stops why) answers now item q items readable h = absurd (cc h)
