-- ===== src/Integrity/Deletions.antt =====
-- A recorded log that vanishes is reported, unless a new archived log continues it.
use codex_monitor_group.Base.{
  ℕ, ◌≤◌, ◌⊎◌, Error, ◌≡◌, refl, sym, ap, Bool, true, false, String, List, [], ◌∷◌, Option, none,
  some, Result, ok, err, arith, eq_iff, str_eq, All, In, In-append_right, on_ok-eq, Bool-cases, inl,
  inr, subst, if◌then◌else◌, ok-injective,
}
use codex_monitor_group.Base.Sort.{All-sort_by}
use codex_monitor_group.Integrity.{Checkpoint, FileMap, State, Payload}
use codex_monitor_group.Integrity.Discover.{Log, hash_prefix}
use codex_monitor_group.Integrity.Scan.{
  Progress, is_in, lookup, hash_or_empty, is_origin, find_origin, origin, used_from, inspect,
  known_log, new_log, log_round, scan_log, scan_logs, deletion, by_relative, relatives,
}
use codex_monitor_group.Integrity.Snapshot.{Digests, payload_of, scan_result}
use codex_monitor_group.Integrity.Verdicts.{if_ok}
use codex_monitor_group.Integrity.Alarms.{deleted-In, scan_result_parts}

-- The names in `used` of a progress that was returned.
abbrev used_or : List String → Result Progress → List String
used_or used (ok p) = p.used
used_or used (err _) = used

absent-All :
    (name : String) (logs : List Log)
    → is_in name (relatives logs) ≡ false
    → All (λ log. str_eq log.relative name ≡ false) logs
unfolding is_in
absent-All name [] h = tt
absent-All name (log ∷ logs) h = elim (Bool-cases (str_eq log.relative name)) [
  | inl e ↦ absurd (ground (arith, h, e))
  | inr e ↦ (e, absent-All name logs (ground (arith, h, e)))
]

is_in-nil : (name : String) → is_in name [] ≡ false
unfolding is_in
is_in-nil name = refl

module _ (sha256_hex : List ℕ → String) where
  -- The log's first bytes, so many as the record has, have the record's hash. A hash that cannot be
  -- taken counts as the empty text.
  abbrev pub StartsWith : Log → Checkpoint → Type 0
  StartsWith log old =
      (hash_prefix sha256_hex log.file old.size ≡ ok old.prefix_sha256)
      ⊎ ((e : Error) × (hash_prefix sha256_hex log.file old.size ≡ err e)
          × (old.prefix_sha256 ≡ ""))

  -- The log is an active one, or one whose path is recorded, or it does not continue an active file
  -- that is recorded under the name: it is shorter, or starts in another way.
  abbrev pub NotContinued : FileMap → String → Log → Type 0
  NotContinued files name log =
      log.archived ≡ true
      → lookup log.relative files ≡ none
      → (old : Checkpoint) → In (name, old) files
      → old.archived ≡ false
      → old.size ≤ log.file.size
      → ¬ StartsWith log old

  hashed :
      (r : Result String) (hash : String)
      → str_eq (hash_or_empty sha256_hex r) hash ≡ true
      → (r ≡ ok hash) ⊎ ((e : Error) × (r ≡ err e) × (hash ≡ ""))
  unfolding hash_or_empty
  hashed (ok h) hash same = inl (ap ok ((eq_iff h hash).0 same))
  hashed (err e) hash same = inr (e, refl, sym ((eq_iff "" hash).0 same))

  -- What the search takes for an origin is one.
  is_origin-StartsWith :
      (log : Log) (used : List String) (name : String) (old : Checkpoint)
      → is_origin sha256_hex log used (name, old) ≡ true
      → (old.archived ≡ false) × (old.size ≤ log.file.size) × StartsWith log old
  unfolding is_origin
  is_origin-StartsWith log used name old h = (
    ground (arith, h),
    ground (arith, h),
    hashed (hash_prefix sha256_hex log.file old.size) old.prefix_sha256 (ground (arith, h)),
  )

  picked :
      (log : Log) (used : List String) (rest : FileMap) (e entry : String × Checkpoint) (b : Bool)
      (later : Option (String × Checkpoint))
      → is_origin sha256_hex log used e ≡ b
      → (later ≡ some entry → In entry rest × (is_origin sha256_hex log used entry ≡ true))
      → (if b then some e else later) ≡ some entry
      → In entry (e ∷ rest) × (is_origin sha256_hex log used entry ≡ true)
  picked log used rest e entry true later good ih h =
      let same : e ≡ entry = cc h in
      (inl (sym same), subst (λ x. is_origin sha256_hex log used x ≡ true) same good)
  picked log used rest e entry false later bad ih h = (inr (ih h).0, (ih h).1)

  find_origin_ok :
      (log : Log) (used : List String) (files : FileMap) (entry : String × Checkpoint)
      → find_origin sha256_hex log used files ≡ some entry
      → In entry files × (is_origin sha256_hex log used entry ≡ true)
  unfolding find_origin
  find_origin_ok log used [] entry h = absurd (cc h)
  find_origin_ok log used (e ∷ rest) entry h =
      picked log used rest e entry _ _ refl (find_origin_ok log used rest entry) h

  origin_ok :
      (files : FileMap) (log : Log) (used : List String) (entry : String × Checkpoint)
      → origin sha256_hex files log used ≡ some entry
      → (log.archived ≡ true) × In entry files × (is_origin sha256_hex log used entry ≡ true)
  origin_ok files log used entry h = elim (Bool-cases log.archived) [
    | inl e ↦
        let (member, claims) = find_origin_ok log used files entry (ground (arith, h, e)) in
        (e, member, claims)
    | inr e ↦ absurd (ground (arith, h, e))
  ]

  used_from_keeps :
      (files : FileMap) (name : String) (log : Log) (used : List String)
      (found : Option (String × Checkpoint))
      → NotContinued files name log
      → lookup log.relative files ≡ none
      → origin sha256_hex files log used ≡ found
      → is_in name used ≡ false
      → is_in name (used_from sha256_hex found used) ≡ false
  unfolding is_in
  used_from_keeps files name log used none other new found h = h
  used_from_keeps files name log used (some (n, old)) other new found h =
      elim (Bool-cases (str_eq n name)) [
        | inl e ↦
            let (archived, member, claims) = origin_ok files log used (n, old) found in
            let (active, fits, starts) = is_origin-StartsWith log used n old claims in
            absurd (
              other archived new old
                (subst (λ (x : String). In (x, old) files) ((eq_iff n name).0 e) member) active fits
                starts)
        | inr e ↦ ground (arith, h, e)
      ]

  round_keeps :
      (files : FileMap) (drawn name : String) (previous : Option Checkpoint) (log : Log)
      (p p' : Progress)
      → lookup log.relative files ≡ previous
      → str_eq log.relative name ≡ false
      → NotContinued files name log
      → is_in name p.used ≡ false
      → log_round sha256_hex files drawn previous log p ≡ ok p'
      → is_in name p'.used ≡ false
  unfolding log_round known_log new_log is_in
  round_keeps files drawn name (some previous) log p p' here differs other h made =
      let (current, hashed_now, rest) =
        on_ok-eq (hash_prefix sha256_hex log.file log.file.size) _ p' made in
      let (found, inspected, put) =
        on_ok-eq (inspect sha256_hex previous log.file current) _ p' rest in
      subst (λ (used : List String). is_in name used ≡ false) (ap (used_or p.used) put)
        (rw differs h)
  round_keeps files drawn name none log p p' here differs other h made =
      let (full, hashed_now, put) =
        on_ok-eq (hash_prefix sha256_hex log.file log.file.size) _ p' made in
      subst (λ (used : List String). is_in name used ≡ false) (ap (used_or p.used) put)
        (used_from_keeps files name log p.used (origin sha256_hex files log p.used) other here refl
          h)

  pub scan_logs_keeps :
      (files : FileMap) (ids : String → String) (name : String) (logs : List Log) (p p' : Progress)
      → All (λ log. str_eq log.relative name ≡ false) logs
      → All (NotContinued files name) logs
      → is_in name p.used ≡ false
      → scan_logs sha256_hex files ids logs p ≡ ok p'
      → is_in name p'.used ≡ false
  unfolding scan_logs scan_log
  scan_logs_keeps files ids name [] p p' differ others h made =
      subst (λ (q : Progress). is_in name q.used ≡ false) (ok-injective made) h
  scan_logs_keeps files ids name (log ∷ logs) p p' differ others h made =
      let (q, first, rest) = on_ok-eq _ _ _ made in
      scan_logs_keeps files ids name logs q p' differ.1 others.1
        (round_keeps files (ids log.relative) name _ log p q refl differ.0 others.0 h
          (if_ok _ _ _ first))
        rest

-- If a scan returns, a recorded file that is no longer discovered is among the findings as
-- LOG_DELETED under its identifier, unless a new archived log continues it: one whose path is not
-- recorded, and that is at least as long as an active file recorded under the name and whose first
-- bytes have that record's hash, or cannot be hashed where the record's hash is empty.
pub deletion_reported :
    (digests : Digests) (ids : String → String) (state : State) (logs : List Log)
    (payload : Payload) (next : State) (name : String) (previous : Checkpoint)
    → scan_result digests ids state logs ≡ ok (payload, next)
    → In (name, previous) state.files
    → is_in name (relatives logs) ≡ false
    → All (NotContinued digests.sha256_hex state.files name) logs
    → In (deletion previous) payload.findings
unfolding payload_of
deletion_reported digests ids state logs payload next name previous h recorded gone others =
    let (p, scanned, made, _) = scan_result_parts digests ids state logs payload next h in
    let unused =
      scan_logs_keeps digests.sha256_hex state.files ids name _ _ p
        (All-sort_by _ by_relative logs (absent-All name logs gone))
        (All-sort_by _ by_relative logs others) (is_in-nil name) scanned in
    subst (λ (q : Payload). In (deletion previous) q.findings) (sym made)
      (In-append_right _ p.findings _
        (deleted-In p.used (relatives logs) name previous state.files recorded unused gone))
