-- ===== src/Examples/Queues.antt =====
-- The queue's theorems at concrete inputs.
use codex_monitor_group.Base.{ℕ, ◌≡◌, ◌*◌, false, List, [], ◌∷◌, ◌++◌, refl, select, arith}
use codex_monitor_group.Base.Int.{pos, ltb_ℤ, ◌+ℤ◌}
use codex_monitor_group.Store.{
  Slot, absent, json, garbage, Saved, succeeds, Io, Answer, stops, failing,
}
use codex_monitor_group.Queue.{Item, Queue, cutoff, is_fresh, new, push, day_ns, decode}
use codex_monitor_group.Queue.Laws.{push-Saved, on_disk}
use codex_monitor_group.Queue.Blocked.{Blocked, garbage_blocks}
use codex_monitor_group.Queue.History.{Op, pushes, pops, run, results, Replayed, run-Replayed}
use codex_monitor_group.Queue.Retention.{is_fresh_iff, retention_wraps}
use codex_monitor_group.Examples.{all_fine, dies_writing, dies_behind}

abbrev event : ℕ → Item ℕ
event n = record { endpoint = "/api/v1/events"; created_at = pos n; envelope = n }

abbrev two : Queue ℕ
two = record {
  retention = pos (30 * day_ns);
  file = record { target = json (event 1 ∷ event 2 ∷ []); tmp = absent };
}

abbrev torn : Queue ℕ
torn = record { retention = pos (30 * day_ns); file = record { target = garbage; tmp = absent } }

abbrev no_file : Slot (List (Item ℕ))
no_file = record { target = absent; tmp = absent }

abbrev calls : List (Op ℕ × (Answer × Io))
calls =
    (pushes (pos 3) (event 3), (succeeds, all_fine))
    ∷ (pops, (succeeds, dies_writing))
    ∷ (pushes (pos 5) (event 5), (stops failing, all_fine))
    ∷ (pops, (succeeds, dies_behind))
    ∷ (pushes (pos 4) (event 4), (succeeds, dies_writing))
    ∷ []

run-Replayed_example :
    Replayed (pos (30 * day_ns)) (event 1 ∷ event 2 ∷ []) (results calls two) (run calls two)
unfolding decode
run-Replayed_example = run-Replayed calls two (event 1 ∷ event 2 ∷ []) refl

push-Saved_example :
    Saved two.file.target
      (select (is_fresh (cutoff (pos 3) two.retention)) (event 1 ∷ event 2 ∷ []) ++ event 3 ∷ [])
      (on_disk (push succeeds all_fine (pos 3) (event 3) two))
unfolding decode
push-Saved_example = push-Saved all_fine (pos 3) (event 3) two (event 1 ∷ event 2 ∷ []) refl

garbage_blocks_example : Blocked torn (results calls torn) (run calls torn)
garbage_blocks_example = garbage_blocks calls torn refl (tt, (tt, (tt, (tt, (tt, tt)))))

is_fresh_iff_example :
    is_fresh (cutoff (pos 5) (new no_file (pos 30)).retention) (event 2)
    ≡ ltb_ℤ (pos 5) (pos 2 +ℤ pos (30 * day_ns))
is_fresh_iff_example = is_fresh_iff no_file 30 (pos 5) (event 2) (omega arith)

retention_wraps_example :
    is_fresh (cutoff (pos 5) (new no_file (pos 110000)).retention) (event 2) ≡ false
retention_wraps_example =
    retention_wraps no_file 110000 (pos 5) (event 2) (omega arith) (omega arith) (omega arith)
