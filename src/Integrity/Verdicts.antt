-- ===== src/Integrity/Verdicts.antt =====
-- What the findings of a scan say about the recorded files.
use codex_monitor_group.Base.{
  ℕ, ◌≤◌, ◌≡◌, ◌↔◌, sym, ◌∙◌, ap, Bool, true, false, String, List, [], ◌∷◌, Option, none, some,
  Result, ok, err, io, arith, eq_iff, All, if◌then◌else◌, take, length, on_ok-eq, inl, inr, subst,
  Bool-cases,
}
use codex_monitor_group.Integrity.{Checkpoint, FileMap, Finding}
use codex_monitor_group.Integrity.Discover.{Log, LogFile, hash_prefix}
use codex_monitor_group.Integrity.Scan.{
  Progress, lookup, inspect, known_log, new_log, log_round, scan_log, scan_logs, append_option,
}

pub append_option-eq-nil {ℓ} :
    {A : Type ℓ} (xs : List A) (o : Option A) → (append_option xs o ≡ []) ↔ ((xs ≡ []) × (o ≡ none))
append_option-eq-nil [] none = ground arith
append_option-eq-nil [] (some x) = ground arith
append_option-eq-nil (y ∷ ys) none = ground arith
append_option-eq-nil (y ∷ ys) (some x) = ground arith

-- The findings of a progress that was returned.
abbrev findings_or : List Finding → Result Progress → List Finding
findings_or findings (ok p) = p.findings
findings_or findings (err _) = findings

pub if_ok {ℓ} :
    {A : Type ℓ} (test : Bool) (r : Result A) (a : A)
    → (if test then r else err io) ≡ ok a
    → r ≡ ok a
if_ok true r a h = h
if_ok false r a h = absurd (cc h)

module _ (sha256_hex : List ℕ → String) where
  pub hash_prefix_ok :
      (file : LogFile) (n : ℕ) (hash : String)
      → hash_prefix sha256_hex file n ≡ ok hash
      → (hash ≡ sha256_hex (take n file.bytes)) × (n ≤ length file.bytes)
  unfolding hash_prefix
  hash_prefix_ok file n hash h = ground arith

  -- The record of an archived log fixes all of it, that of an active one a prefix.
  abbrev pub IntactAs : Bool → Checkpoint → LogFile → Type 0
  IntactAs true previous file =
      (file.size ≡ previous.size) × (sha256_hex (take file.size file.bytes) ≡ previous.full_sha256)
  IntactAs false previous file =
      (previous.size ≤ file.size)
      × (sha256_hex (take previous.size file.bytes) ≡ previous.prefix_sha256)

  abbrev pub Intact : Checkpoint → LogFile → Type 0
  Intact previous file = IntactAs previous.archived previous file

  abbrev pub IntactIf : Option Checkpoint → LogFile → Type 0
  IntactIf none file = Unit
  IntactIf (some previous) file = Intact previous file

  -- A log whose path is recorded agrees with the record.
  abbrev pub KnownIntact : FileMap → Log → Type 0
  KnownIntact files log = IntactIf (lookup log.relative files) log.file

  inspect_archived :
      (previous : Checkpoint) (file : LogFile) (found : Option Finding)
      → previous.archived ≡ true
      → inspect sha256_hex previous file (sha256_hex (take file.size file.bytes)) ≡ ok found
      → (found ≡ none) ↔ IntactAs true previous file
  unfolding inspect
  inspect_archived previous file found a h =
      ground (arith, eq_iff (sha256_hex (take file.size file.bytes)) previous.full_sha256)

  inspect_active :
      (previous : Checkpoint) (file : LogFile) (found : Option Finding)
      → previous.archived ≡ false
      → inspect sha256_hex previous file (sha256_hex (take file.size file.bytes)) ≡ ok found
      → (found ≡ none) ↔ IntactAs false previous file
  unfolding inspect hash_prefix
  inspect_active previous file found a h =
      ground (arith, eq_iff (sha256_hex (take previous.size file.bytes)) previous.prefix_sha256)

  inspect-Intact :
      (previous : Checkpoint) (file : LogFile) (current : String) (found : Option Finding)
      → hash_prefix sha256_hex file file.size ≡ ok current
      → inspect sha256_hex previous file current ≡ ok found
      → (found ≡ none) ↔ Intact previous file
  inspect-Intact previous file current found hashed h =
      let e = (hash_prefix_ok file file.size current hashed).0 in
      let h' : inspect sha256_hex previous file (sha256_hex (take file.size file.bytes))
          ≡ ok found =
        subst (λ c. inspect sha256_hex previous file c ≡ ok found) e h in
      elim (Bool-cases previous.archived) [
        | inl a ↦ rw a (inspect_archived previous file found a h')
        | inr a ↦ rw a (inspect_active previous file found a h')
      ]

  known_log-findings :
      (previous : Checkpoint) (log : Log) (p p' : Progress)
      → known_log sha256_hex previous log p ≡ ok p'
      → (p'.findings ≡ []) ↔ ((p.findings ≡ []) × Intact previous log.file)
  unfolding known_log
  known_log-findings previous log p p' h =
      let (current, hashed, rest) = on_ok-eq _ _ _ h in
      let (found, inspected, made) = on_ok-eq _ _ _ rest in
      let verdict = inspect-Intact previous log.file current found hashed inspected in
      let same : append_option p.findings found ≡ p'.findings =
        ap (λ r. findings_or p.findings r) made in
      let nil = append_option-eq-nil p.findings found in
      (
        λ e. ((nil.0 (same ∙ e)).0, verdict.0 (nil.0 (same ∙ e)).1),
        λ (e, good). sym same ∙ nil.1 (e, verdict.1 good),
      )

  new_log-findings :
      (files : FileMap) (drawn : String) (log : Log) (p p' : Progress)
      → new_log sha256_hex files drawn log p ≡ ok p'
      → p'.findings ≡ p.findings
  unfolding new_log
  new_log-findings files drawn log p p' h =
      let (full, hashed, made) = on_ok-eq (hash_prefix sha256_hex log.file log.file.size) _ p' h in
      sym (ap (λ r. findings_or p.findings r) made)

  log_round-findings :
      (files : FileMap) (drawn : String) (previous : Option Checkpoint) (log : Log)
      (p p' : Progress)
      → log_round sha256_hex files drawn previous log p ≡ ok p'
      → (p'.findings ≡ []) ↔ ((p.findings ≡ []) × IntactIf previous log.file)
  unfolding log_round
  log_round-findings files drawn none log p p' h =
      let same = new_log-findings files drawn log p p' h in
      (λ e. (sym same ∙ e, tt), λ (e, _). same ∙ e)
  log_round-findings files drawn (some previous) log p p' h = known_log-findings previous log p p' h

  scan_log-findings :
      (files : FileMap) (ids : String → String) (log : Log) (p p' : Progress)
      → scan_log sha256_hex files ids log p ≡ ok p'
      → (p'.findings ≡ []) ↔ ((p.findings ≡ []) × KnownIntact files log)
  unfolding scan_log
  scan_log-findings files ids log p p' h =
      log_round-findings files (ids log.relative) (lookup log.relative files) log p p'
        (if_ok _ _ _ h)

  -- After the first loop there are no new findings exactly if every log whose path is recorded
  -- agrees with its record.
  pub scan_logs-findings :
      (files : FileMap) (ids : String → String) (logs : List Log) (p p' : Progress)
      → scan_logs sha256_hex files ids logs p ≡ ok p'
      → (p'.findings ≡ []) ↔ ((p.findings ≡ []) × All (KnownIntact files) logs)
  unfolding scan_logs
  scan_logs-findings files ids [] p p' h =
      let same : p ≡ p' = cc h in
      (
        λ e. (ap (λ (q : Progress). q.findings) same ∙ e, tt),
        λ (e, _). ap (λ (q : Progress). q.findings) (sym same) ∙ e,
      )
  scan_logs-findings files ids (log ∷ logs) p p' h =
      let (q, first, rest) = on_ok-eq _ _ _ h in
      let here = scan_log-findings files ids log p q first in
      let later = scan_logs-findings files ids logs q p' rest in
      (
        λ e. ((here.0 (later.0 e).0).0, ((here.0 (later.0 e).0).1, (later.0 e).1)),
        λ (e, (good, goods)). later.1 (here.1 (e, good), goods),
      )
