-- ===== src/Integrity/Records.antt =====
-- What a scan records of the logs, and what that means for the next scan.
use mathlib.Core.List.{append-nil, append_assoc}
use codex_monitor_group.Base.{
  ℕ, ◌≤◌, ◌≡◌, refl, sym, ◌∙◌, ap, Bool, true, false, String, List, [], ◌∷◌, ◌++◌, Option, none,
  some, Result, ok, err, arith, eq_iff, str_eq, All, All-map, take, length, on_ok-eq, ok-injective,
  Bool-cases, inl, inr, subst,
}
use codex_monitor_group.Base.Sort.{sort_by, All-sort_by}
use codex_monitor_group.Integrity.{Checkpoint, FileMap, State, Payload}
use codex_monitor_group.Integrity.Discover.{Log, LogFile, hash_prefix}
use codex_monitor_group.Integrity.Scan.{
  Progress, lookup, is_in, inspect, known_log, new_log, log_round, scan_log, scan_logs,
  checkpoint_of, by_relative, relatives,
}
use codex_monitor_group.Integrity.Snapshot.{Digests, scan_result}
use codex_monitor_group.Integrity.Verdicts.{if_ok, hash_prefix_ok, IntactAs, IntactIf, Intact}
use codex_monitor_group.Integrity.Alarms.{scan_result_parts, no_false_alarm}

abbrev next_or : FileMap → Result Progress → FileMap
next_or next (ok p) = p.next
next_or next (err _) = next

-- How a log may change between two scans: an archived one not at all, an active one by growing.
abbrev pub GrownAs : Bool → LogFile → LogFile → Type 0
GrownAs true old new = (new.size ≡ old.size) × (take new.size new.bytes ≡ take old.size old.bytes)
GrownAs false old new = (old.size ≤ new.size) × (take old.size new.bytes ≡ take old.size old.bytes)

module _ (sha256_hex : List ℕ → String) where
  -- The checkpoint is that of the log: its size, and the hash of that many bytes.
  pub record Describes (cp : Checkpoint) (log : Log) : Type 0 where
    pub path : cp.relative_path ≡ log.relative
    pub size : cp.size ≡ log.file.size
    pub complete : log.file.size ≤ length log.file.bytes
    pub prefix : cp.prefix_sha256 ≡ sha256_hex (take log.file.size log.file.bytes)
    pub archived : cp.archived ≡ log.archived
    pub full : log.archived ≡ true → cp.full_sha256 ≡ cp.prefix_sha256
    pub mtime : cp.mtime_unix ≡ log.file.mtime_unix

  -- One entry for each log, in the order of the logs, under its path.
  abbrev pub DescribesAll : FileMap → List Log → Type 0
  DescribesAll [] [] = Unit
  DescribesAll ((name, cp) ∷ files) (log ∷ logs) =
      (name ≡ log.relative) × Describes cp log × DescribesAll files logs
  DescribesAll _ _ = ⊥

  checkpoint_of-Describes :
      (id : String) (log : Log) (hash : String)
      → hash_prefix sha256_hex log.file log.file.size ≡ ok hash
      → Describes (checkpoint_of id log hash) log
  checkpoint_of-Describes id log hash h =
      let (same, fits) = hash_prefix_ok sha256_hex log.file log.file.size hash h in
      record {
        path = refl;
        size = refl;
        complete = fits;
        prefix = same;
        archived = refl;
        full = λ a. rw a;
        mtime = refl;
      }

  round_next :
      (files : FileMap) (drawn : String) (previous : Option Checkpoint) (log : Log)
      (p p' : Progress)
      → log_round sha256_hex files drawn previous log p ≡ ok p'
      → (cp : Checkpoint) × (p'.next ≡ p.next ++ (log.relative, cp) ∷ []) × Describes cp log
  unfolding log_round known_log new_log
  round_next files drawn (some previous) log p p' made =
      let (current, hashed, rest) =
        on_ok-eq (hash_prefix sha256_hex log.file log.file.size) _ p' made in
      let (found, inspected, put) =
        on_ok-eq (inspect sha256_hex previous log.file current) _ p' rest in
      (
        _,
        sym (ap (next_or p.next) put),
        checkpoint_of-Describes previous.opaque_file_id log current hashed,
      )
  round_next files drawn none log p p' made =
      let (full, hashed, put) =
        on_ok-eq (hash_prefix sha256_hex log.file log.file.size) _ p' made in
      (_, sym (ap (next_or p.next) put), checkpoint_of-Describes _ log full hashed)

  pub scan_logs_next :
      (files : FileMap) (ids : String → String) (logs : List Log) (p p' : Progress)
      → scan_logs sha256_hex files ids logs p ≡ ok p'
      → (made : FileMap) × (p'.next ≡ p.next ++ made) × DescribesAll made logs
  unfolding scan_logs scan_log
  scan_logs_next files ids [] p p' h =
      ([], ap (λ (q : Progress). q.next) (sym (ok-injective h)) ∙ sym (append-nil p.next), tt)
  scan_logs_next files ids (log ∷ logs) p p' h =
      let (q, first, rest) = on_ok-eq _ _ _ h in
      let (cp, put, good) =
        round_next files (ids log.relative) (lookup log.relative files) log p q
          (if_ok _ _ _ first) in
      let (made, more, goods) = scan_logs_next files ids logs q p' rest in
      (
        (log.relative, cp) ∷ made,
        more ∙ ap (λ (n : FileMap). n ++ made) put ∙ append_assoc p.next _ made,
        (refl, good, goods),
      )

  Describes-Intact :
      (cp : Checkpoint) (old : Log) (new : LogFile)
      → Describes cp old
      → GrownAs old.archived old.file new
      → Intact sha256_hex cp new
  Describes-Intact cp old new d g = elim (Bool-cases old.archived) [
    | inl e ↦
        let g' : GrownAs true old.file new = subst (λ b. GrownAs b old.file new) e g in
        subst (λ b. IntactAs sha256_hex b cp new) (sym (d.archived ∙ e))
          (g'.0 ∙ sym d.size, ap sha256_hex g'.1 ∙ sym d.prefix ∙ sym (d.full e))
    | inr e ↦
        let g' : GrownAs false old.file new = subst (λ b. GrownAs b old.file new) e g in
        subst (λ b. IntactAs sha256_hex b cp new) (sym (d.archived ∙ e))
          (
            omega (arith, d.size),
            ap (λ n. sha256_hex (take n new.bytes)) d.size ∙ ap sha256_hex g'.1 ∙ sym d.prefix,
          )
  ]

  lookup-Intact :
      (files : FileMap) (logs : List Log) (key : String) (new : LogFile)
      → DescribesAll files logs
      → All (λ old. old.relative ≡ key → GrownAs old.archived old.file new) logs
      → IntactIf sha256_hex (lookup key files) new
  unfolding lookup
  lookup-Intact [] [] key new d g = tt
  lookup-Intact [] (log ∷ logs) key new d g = elim d [ ]
  lookup-Intact ((name, cp) ∷ files) [] key new d g = elim d [ ]
  lookup-Intact ((name, cp) ∷ files) (log ∷ logs) key new d g =
      elim (Bool-cases (str_eq name key)) [
        | inl e ↦ rw e (Describes-Intact cp log new d.1 (g.0 (sym d.0 ∙ (eq_iff name key).0 e)))
        | inr e ↦ rw e (lookup-Intact files logs key new d.2 g.1)
      ]

  names_found :
      (files : FileMap) (logs : List Log) (paths : List String)
      → DescribesAll files logs
      → All (λ log. is_in log.relative paths ≡ true) logs
      → All (λ entry. is_in entry.0 paths ≡ true) files
  names_found [] logs paths d h = tt
  names_found ((name, cp) ∷ files) [] paths d h = elim d [ ]
  names_found ((name, cp) ∷ files) (log ∷ logs) paths d h =
      (subst (λ n. is_in n paths ≡ true) (sym d.0) h.0, names_found files logs paths d.2 h.1)

-- A scan that returns saves one checkpoint for each discovered log and no other, in the order of
-- their paths, each with the log's path, size, time and place, and with the hash of that many of
-- its bytes, which for an archived log is the hash of the whole too.
pub scan_result-DescribesAll :
    (digests : Digests) (ids : String → String) (state : State) (logs : List Log)
    (payload : Payload) (next : State)
    → scan_result digests ids state logs ≡ ok (payload, next)
    → DescribesAll digests.sha256_hex next.files (sort_by by_relative logs)
scan_result-DescribesAll digests ids state logs payload next h =
    let (p, scanned, made, kept) = scan_result_parts digests ids state logs payload next h in
    let (files, put, good) = scan_logs_next digests.sha256_hex state.files ids _ _ p scanned in
    subst (λ (f : FileMap). DescribesAll digests.sha256_hex f (sort_by by_relative logs))
      (sym (ap (λ (s : State). s.files) kept ∙ put)) good

-- After a scan that returned, the next one, if it returns, has status OK and no findings whenever
-- every log of the first is still there under its path, an archived one unchanged and an active
-- one with nothing but bytes added behind those scanned; new logs beside them do not matter.
pub rescan_grown :
    (digests : Digests) (ids ids' : String → String) (state next last : State)
    (logs logs' : List Log) (payload payload' : Payload)
    → scan_result digests ids state logs ≡ ok (payload, next)
    → All (λ old. is_in old.relative (relatives logs') ≡ true) logs
    → All
        (λ new.
          All (λ old. old.relative ≡ new.relative → GrownAs old.archived old.file new.file) logs)
        logs'
    → scan_result digests ids' next logs' ≡ ok (payload', last)
    → (payload'.status ≡ "OK") × (payload'.findings ≡ [])
rescan_grown digests ids ids' state next last logs logs' payload payload' first there grown second =
    let recorded = scan_result-DescribesAll digests ids state logs payload next first in
    no_false_alarm digests ids' next logs' payload' last second
      (All-map
        (λ (new : Log) g.
          lookup-Intact digests.sha256_hex next.files (sort_by by_relative logs) new.relative
            new.file recorded (All-sort_by _ by_relative logs g))
        logs' grown)
      (names_found digests.sha256_hex next.files (sort_by by_relative logs) (relatives logs')
        recorded (All-sort_by _ by_relative logs there))
