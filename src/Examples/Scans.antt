-- ===== src/Examples/Scans.antt =====
-- The integrity check's theorems at concrete inputs.
use codex_monitor_group.Base.{
  ℕ, ◌==◌, ◌≡◌, refl, true, false, String, List, [], ◌∷◌, ok, All, In, inl, inr, subst, eq_iff,
  ok-injective, if◌then◌else◌, arith, length,
}
use codex_monitor_group.Base.Int.{pos}
use codex_monitor_group.Base.Text.{codes}
use codex_monitor_group.Base.Sort.{sort_by, insert_by, text_ltb}
use codex_monitor_group.Store.{Slot, absent, json, succeeds}
use codex_monitor_group.Integrity.{Checkpoint, FileMap, State, Payload}
use codex_monitor_group.Integrity.Discover.{LogFile, Log, missing, dir, hash_prefix}
use codex_monitor_group.Integrity.Scan.{
  deletion, is_in, by_relative, scan_logs, scan_log, known_log, new_log, find_origin, is_origin,
  hash_or_empty, inspect, lookup, deleted, log_round, checkpoint_of,
}
use codex_monitor_group.Integrity.Snapshot.{
  Digests, scan_result, scan_integrity, payload_of, next_state, compare_logs,
}
use codex_monitor_group.Integrity.Verdicts.{KnownIntact}
use codex_monitor_group.Integrity.Alarms.{ok-KnownIntact, no_false_alarm}
use codex_monitor_group.Integrity.Deletions.{StartsWith, deletion_reported}
use codex_monitor_group.Integrity.Records.{DescribesAll, scan_result-DescribesAll, rescan_grown}
use codex_monitor_group.Integrity.Chain.{
  Attempt, Scanned, scan_integrity-Scanned, Linked, reports, reports-Linked,
}
use codex_monitor_group.Examples.{all_fine}

-- A digest that tells the bytes 1 from others.
abbrev toy : List ℕ → String
toy [] = ""
toy (b ∷ bs) = if b == 1 then String.◌∷◌ "a" (toy bs) else String.◌∷◌ "b" (toy bs)

abbrev toys : Digests
toys = record { sha256_hex = toy; float_text = λ n. codes "1" }

abbrev log_of : List ℕ → LogFile
log_of bytes = record {
  stats = true;
  opens = true;
  size = length bytes;
  mtime_unix = pos 1;
  bytes = bytes;
}

abbrev active : List ℕ → Log
active bytes = record { relative = "sessions/a.jsonl"; file = log_of bytes; archived = false }

abbrev ids : String → String
ids path = "drawn"

abbrev recorded : List ℕ → FileMap
recorded bytes = ("sessions/a.jsonl", checkpoint_of "file" (active bytes) (toy bytes)) ∷ []

abbrev known : State
known = record {
  state_id = "state";
  scan_sequence = 4;
  last_snapshot_hash = "hash";
  files = recorded (1 ∷ 2 ∷ []);
}

-- The log has grown by one byte.
abbrev grown : List Log
grown = active (1 ∷ 2 ∷ 3 ∷ []) ∷ []

abbrev more : List Log
more = active (1 ∷ 2 ∷ 3 ∷ 1 ∷ []) ∷ []

abbrev payload : Payload
payload = payload_of toys known [] (recorded (1 ∷ 2 ∷ 3 ∷ []))

abbrev after : State
after = next_state toys known [] (recorded (1 ∷ 2 ∷ 3 ∷ []))

abbrev later_payload : Payload
later_payload = payload_of toys after [] (recorded (1 ∷ 2 ∷ 3 ∷ 1 ∷ []))

abbrev last : State
last = next_state toys after [] (recorded (1 ∷ 2 ∷ 3 ∷ 1 ∷ []))

first_scan : scan_result toys ids known grown ≡ ok (payload, after)
unfolding scan_result compare_logs scan_logs scan_log log_round known_log inspect hash_prefix lookup
    deleted sort_by insert_by is_in
first_scan = refl

second_scan : scan_result toys ids after more ≡ ok (later_payload, last)
unfolding scan_result compare_logs scan_logs scan_log log_round known_log inspect hash_prefix lookup
    deleted sort_by insert_by is_in
second_scan = refl

ok-KnownIntact_example : All (KnownIntact toy known.files) grown
unfolding payload_of
ok-KnownIntact_example = ok-KnownIntact toys ids known grown payload after first_scan refl

no_false_alarm_example : (payload.status ≡ "OK") × (payload.findings ≡ [])
unfolding lookup is_in
no_false_alarm_example =
    no_false_alarm toys ids known grown payload after first_scan ((omega arith, refl), tt)
      (refl, tt)

rescan_grown_example : (later_payload.status ≡ "OK") × (later_payload.findings ≡ [])
unfolding is_in
rescan_grown_example =
    rescan_grown toys ids ids known after last grown more payload later_payload first_scan
      (refl, tt) (((λ e. (omega arith, refl)), tt), tt) second_scan

scan_result-DescribesAll_example : DescribesAll toy after.files (sort_by by_relative grown)
scan_result-DescribesAll_example =
    scan_result-DescribesAll toys ids known grown payload after first_scan

abbrev archived_log : Log
archived_log = record {
  relative = "archived_sessions/c.jsonl";
  file = log_of (2 ∷ 2 ∷ 3 ∷ []);
  archived = true;
}

-- The log of the recorded path is gone; a new active one and a new archived one are there, which
-- start in another way.
abbrev moved : List Log
moved =
    record { relative = "sessions/b.jsonl"; file = log_of (1 ∷ 2 ∷ []); archived = false }
    ∷ archived_log
    ∷ []

abbrev found_there : FileMap
found_there =
    ("archived_sessions/c.jsonl", checkpoint_of "drawn" archived_log "bbb")
    ∷ (
      "sessions/b.jsonl",
      checkpoint_of "drawn"
          (record { relative = "sessions/b.jsonl"; file = log_of (1 ∷ 2 ∷ []); archived = false })
          "ab",
    )
    ∷ []

abbrev gone_payload : Payload
gone_payload =
    payload_of toys known (deletion (checkpoint_of "file" (active (1 ∷ 2 ∷ [])) "ab") ∷ [])
      found_there

abbrev gone_state : State
gone_state =
    next_state toys known (deletion (checkpoint_of "file" (active (1 ∷ 2 ∷ [])) "ab") ∷ [])
      found_there

gone_scan : scan_result toys ids known moved ≡ ok (gone_payload, gone_state)
unfolding scan_result compare_logs scan_logs scan_log log_round new_log find_origin is_origin
    hash_or_empty hash_prefix lookup deleted sort_by insert_by is_in text_ltb
gone_scan = refl

-- The hash of the archived log's first two bytes is not the recorded one.
other_hash : ¬ StartsWith toy archived_log (checkpoint_of "file" (active (1 ∷ 2 ∷ [])) "ab")
unfolding hash_prefix
other_hash (inl start) = absurd (cc ((eq_iff "bb" "ab").1 (ok-injective start)))
other_hash (inr (e, failed, blank)) = absurd (cc failed)

other_start :
    (old : Checkpoint)
    → In ("sessions/a.jsonl", old) known.files
    → ¬ StartsWith toy archived_log old
other_start old (inl same) starts =
    other_hash (subst (λ (x : String × Checkpoint). StartsWith toy archived_log x.1) same starts)
other_start old (inr none_left) starts = elim none_left [ ]

deletion_reported_example :
    In (deletion (checkpoint_of "file" (active (1 ∷ 2 ∷ [])) "ab")) gone_payload.findings
unfolding is_in
deletion_reported_example =
    deletion_reported toys ids known moved gone_payload gone_state "sessions/a.jsonl"
      (checkpoint_of "file" (active (1 ∷ 2 ∷ [])) "ab") gone_scan (inl refl) refl
      (
        (λ archived. absurd (cc archived)),
        ((λ archived new old member active fits. other_start old member), tt),
      )

abbrev attempt : Attempt
attempt = record {
  read = succeeds;
  answers = all_fine;
  drawn = "drawn";
  ids = ids;
  sessions = dir (
      record {
        relative = "sessions/a.jsonl";
        name = codes "a.jsonl";
        is_dir = false;
        file = log_of (1 ∷ 2 ∷ 3 ∷ []);
      }
      ∷ []);
  archived_sessions = missing;
}

abbrev state_file : Slot State
state_file = record { target = json known; tmp = absent }

scan_integrity-Scanned_example :
    Scanned known
      (scan_integrity toys succeeds all_fine "drawn" ids attempt.sessions missing state_file)
scan_integrity-Scanned_example = scan_integrity-Scanned toys attempt state_file known refl refl

reports-Linked_example : Linked toys known (reports toys (attempt ∷ attempt ∷ []) state_file)
reports-Linked_example = reports-Linked toys (attempt ∷ attempt ∷ []) state_file known refl refl
