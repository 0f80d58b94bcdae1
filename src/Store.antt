-- ===== src/Store.antt =====
-- How the agent keeps a value in a file: queue.go, config.go, integrity.go and otel.go each write
-- `path + ".tmp"` and rename it over `path` (internal/atomicfile/replace_other.go and
-- replace_windows.go). A file is taken up to the decoding of its JSON text, and each call of the
-- operating system has an answer that the caller of the model chooses, the death of the process
-- included.
pub mod Crash
use codex_monitor_group.Base.{Bool, Error, killed, io, invalid_json, ok, err, Exec, Done, ◌≡◌, ◌⊎◌}

-- No file, a file of no bytes, a text that is not the JSON of an A, or the JSON of a value.
pub data Content {ℓ} (A : Type ℓ) : Type ℓ where
  absent blank garbage : Content A
  json : A → Content A

-- The file at `path` and the one at `path + ".tmp"`.
pub record Slot {ℓ} (A : Type ℓ) : Type ℓ where
  pub target : Content A
  pub tmp : Content A

-- A call that does not succeed returns an error, or the process ends there.
pub data Stop : Type 0 where
  failing dying : Stop

abbrev pub stop_error : Stop → Error
stop_error failing = io
stop_error dying = killed

pub data Answer : Type 0 where
  succeeds : Answer
  stops : Stop → Answer

-- os.WriteFile opens and truncates the file, then writes: what a write that stops leaves behind.
pub data Write : Type 0 where
  written : Write
  not_opened : Stop → Write
  emptied : Stop → Write
  cut : Stop → Write

-- os.Rename puts the whole file in place or does nothing; the process may end behind it.
pub data Rename : Type 0 where
  renamed : Rename
  not_renamed : Stop → Rename
  renamed_then_dead : Rename

-- The answers to the calls of one save.
pub record Io : Type 0 where
  pub mkdir : Answer
  pub marshals : Bool
  pub write : Write
  pub chmod : Answer
  pub rename : Rename

module _ {ℓ} {A : Type ℓ} where
  -- A call with no effect on the file's content: os.MkdirAll, os.Chmod.
  abbrev pub call : Answer → Exec (Slot A) (Unit {0})
  call succeeds s = (ok tt, s)
  call (stops why) s = (err (stop_error why), s)

  -- json.Marshal, json.MarshalIndent
  abbrev pub marshal : Bool → Exec (Slot A) (Unit {0})
  marshal Bool.true s = (ok tt, s)
  marshal Bool.false s = (err invalid_json, s)

  -- os.WriteFile(tmp, data, 0600)
  unfoldable pub write_tmp : Write → A → Exec (Slot A) (Unit {0})
  write_tmp written a s = (ok tt, record s { tmp = json a })
  write_tmp (not_opened why) a s = (err (stop_error why), s)
  write_tmp (emptied why) a s = (err (stop_error why), record s { tmp = blank })
  write_tmp (cut why) a s = (err (stop_error why), record s { tmp = garbage })

  -- atomicfile.Replace(tmp, path)
  unfoldable pub replace : Rename → Exec (Slot A) (Unit {0})
  replace renamed s = (ok tt, record { target = s.tmp; tmp = absent })
  replace (not_renamed why) s = (err (stop_error why), s)
  replace renamed_then_dead s = (err killed, record { target = s.tmp; tmp = absent })

  -- What a save must come to, whatever the answers: after success the new value is in place, after
  -- an error the old content, and after the death of the process one of the two.
  abbrev pub Saved : Content A → A → Done × Slot A → Type ℓ
  Saved old a (ok _, s) = s.target ≡ json a
  Saved old a (err killed, s) = (s.target ≡ old) ⊎ (s.target ≡ json a)
  Saved old a (err _, s) = s.target ≡ old
