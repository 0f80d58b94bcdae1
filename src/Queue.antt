-- ===== src/Queue.antt =====
-- internal/queue/queue.go: the durable queue of signed events. Each method holds the mutex from
-- its first line to its last, so it is one step. Times are nanoseconds since the Unix epoch, and a
-- duration is an int64 of nanoseconds, wrap-around included.
pub mod Laws
pub mod History
pub mod Blocked
pub mod Retention
use codex_monitor_group.Base.{
  ℕ, ◌*◌, String, Bool, List, [], ◌∷◌, ◌++◌, Option, none, some, Error, Result, io, killed,
  invalid_json, ok, err, Exec, ◌>>=◌, ◌>>◌, pure, select, length,
}
use codex_monitor_group.Base.Int.{ℤ, pos, int64, ◌+ℤ◌, ◌-ℤ◌, ◌*ℤ◌, ltb_ℤ}
use codex_monitor_group.Store.{
  Content, absent, blank, garbage, json, Slot, Io, Answer, succeeds, stops, stop_error, call,
  marshal, write_tmp, replace,
}

pub record Item {ℓ} (E : Type ℓ) : Type ℓ where
  pub endpoint : String
  pub created_at : ℤ
  pub envelope : E

-- The field `path` is the slot; the mutex has no part of its own.
pub record Queue {ℓ} (E : Type ℓ) : Type ℓ where
  pub retention : ℤ
  pub file : Slot (List (Item E))

-- 24 * time.Hour
abbrev pub day_ns : ℕ
day_ns = 24 * (60 * (60 * 1_000_000_000))

-- time.Duration(retentionDays) * 24 * time.Hour
unfoldable pub duration_of_days : ℤ → ℤ
duration_of_days days = int64 (days *ℤ pos day_ns)

-- time.Now().Add(-q.retention)
unfoldable pub cutoff : ℤ → ℤ → ℤ
cutoff now retention = now +ℤ int64 (pos 0 -ℤ retention)

module _ {ℓ} {E : Type ℓ} where
  unfoldable pub new : Slot (List (Item E)) → ℤ → Queue E
  new file retention_days = record { retention = duration_of_days retention_days; file = file }

  -- What `load` makes of the file: a missing or empty one is an empty queue.
  unfoldable pub decode : Content (List (Item E)) → Result (List (Item E))
  decode absent = ok []
  decode blank = ok []
  decode garbage = err invalid_json
  decode (json items) = ok items

  unfoldable pub load : Answer → Exec (Queue E) (List (Item E))
  unfolding decode
  load succeeds q = (decode q.file.target, q)
  load (stops why) q = (err (stop_error why), q)

  pub save_file : Io → List (Item E) → Exec (Slot (List (Item E))) (Unit {0})
  save_file answers items = do
    call answers.mkdir
    marshal answers.marshals
    write_tmp answers.write items
    replace answers.rename

  unfoldable pub save : Io → List (Item E) → Exec (Queue E) (Unit {0})
  unfolding save_file
  save answers items q =
      ((save_file answers items q.file).0, record q { file = (save_file answers items q.file).1 })

  -- old.CreatedAt.After(cutoff)
  abbrev pub is_fresh : ℤ → Item E → Bool
  is_fresh limit old = ltb_ℤ limit old.created_at

  unfoldable pub push : Answer → Io → ℤ → Item E → Exec (Queue E) (Unit {0})
  push read answers now item q =
      (do
        items ← load read
        save answers (select (is_fresh (cutoff now q.retention)) items ++ item ∷ []))
        q

  unfoldable pub first : List (Item E) → Option (Item E)
  first [] = none
  first (item ∷ _) = some item

  unfoldable pub peek : Answer → Exec (Queue E) (Option (Item E))
  peek read = do items ← load read; pure (first items)

  save_rest : Io → List (Item E) → Exec (Queue E) (Unit {0})
  save_rest answers [] = pure tt
  save_rest answers (_ ∷ rest) = save answers rest

  unfoldable pub pop : Answer → Io → Exec (Queue E) (Unit {0})
  unfolding save_rest
  pop read answers = do items ← load read; save_rest answers items

  unfoldable pub clear : Io → Exec (Queue E) (Unit {0})
  clear answers = save answers []

  -- A read that fails counts as no items; behind an error of json.Unmarshal stand those that it had
  -- decoded, `left` of them.
  count : ℕ → Result (List (Item E)) → ℕ
  count left (ok items) = length items
  count left (err invalid_json) = left
  count left (err _) = 0

  unfoldable pub len : Answer → ℕ → Queue E → ℕ
  unfolding count
  len read left q = count left (load read q).0
