-- ===== src/Integrity/Alarms.antt =====
-- When a scan reports OK, and when it reports tampering.
use codex_monitor_group.Base.{
  ◌≡◌, ◌↔◌, refl, sym, ◌∙◌, ap, true, false, String, List, [], ◌∷◌, ◌++◌, ok, arith, All, In,
  ok-injective, on_ok-eq, Bool-cases, inl, inr, eq_iff,
}
use codex_monitor_group.Base.Sort.{sort_by, All-sort_by, All-sort_by_back}
use codex_monitor_group.Integrity.{Checkpoint, FileMap, Finding, State, Payload}
use codex_monitor_group.Integrity.Discover.{Log}
use codex_monitor_group.Integrity.Scan.{
  Progress, is_in, scan_logs, deleted, deletion, is_deleted, by_relative, relatives,
}
use codex_monitor_group.Integrity.Snapshot.{
  Digests, compare_logs, payload_of, next_state, scan_result, status_of,
}
use codex_monitor_group.Integrity.Verdicts.{KnownIntact, scan_logs-findings}

pub append-eq-nil {ℓ} : {A : Type ℓ} (xs ys : List A) → (xs ++ ys ≡ []) ↔ ((xs ≡ []) × (ys ≡ []))
append-eq-nil [] ys = (λ e. (refl, e), λ e. e.1)
append-eq-nil (x ∷ xs) ys = ground arith

status_iff : (findings : List Finding) → (status_of findings ≡ "OK") ↔ (findings ≡ [])
status_iff [] = (λ e. refl, λ e. refl)
status_iff (f ∷ fs) = ground (arith, eq_iff "TAMPER" "OK")

-- A recorded path that is among the discovered ones raises no deletion.
deleted_none :
    (used paths : List String) (files : FileMap)
    → All (λ entry. is_in entry.0 paths ≡ true) files
    → deleted used paths files ≡ []
unfolding deleted
deleted_none used paths [] h = refl
deleted_none used paths ((name, cp) ∷ rest) h = ground (arith, deleted_none used paths rest h.1)

pub deleted-In :
    (used paths : List String) (name : String) (previous : Checkpoint) (files : FileMap)
    → In (name, previous) files
    → is_in name used ≡ false
    → is_in name paths ≡ false
    → In (deletion previous) (deleted used paths files)
unfolding deleted
deleted-In used paths name previous [] m u p = elim m [ ]
deleted-In used paths name previous (entry ∷ rest) (inl e) u p =
    elim (Bool-cases (is_deleted used paths entry)) [
      | inl d ↦ rw d (inl (ap (λ (x : String × Checkpoint). deletion x.1) e))
      | inr d ↦ absurd (ground (arith, u, p, d, e))
    ]
deleted-In used paths name previous (entry ∷ rest) (inr m) u p =
    elim (Bool-cases (is_deleted used paths entry)) [
      | inl d ↦ rw d (inr (deleted-In used paths name previous rest m u p))
      | inr d ↦ rw d (deleted-In used paths name previous rest m u p)
    ]

module _ (digests : Digests) (ids : String → String) where
  abbrev findings_of : State → List Log → Progress → List Finding
  findings_of state logs p = p.findings ++ deleted p.used (relatives logs) state.files

  -- What a scan that returned has put together.
  pub scan_result_parts :
      (state : State) (logs : List Log) (payload : Payload) (next : State)
      → scan_result digests ids state logs ≡ ok (payload, next)
      → (p : Progress) × (scan_logs digests.sha256_hex state.files ids
            (sort_by by_relative logs)
            (record { findings = []; next = []; used = [] })
          ≡ ok p)
        × (payload ≡ payload_of digests state (findings_of state logs p) p.next)
        × (next ≡ next_state digests state (findings_of state logs p) p.next)
  unfolding scan_result compare_logs
  scan_result_parts state logs payload next h =
      let (found, compared, made) = on_ok-eq _ _ _ h in
      let (p, scanned, put) = on_ok-eq _ _ _ compared in
      let both = ok-injective put in
      let out = ok-injective made in
      (
        p,
        scanned,
        sym (ap (λ (r : Payload × State). r.0) out)
            ∙ ap (λ (f : List Finding × FileMap). payload_of digests state f.0 f.1) (sym both),
        sym (ap (λ (r : Payload × State). r.1) out)
            ∙ ap (λ (f : List Finding × FileMap). next_state digests state f.0 f.1) (sym both),
      )

  status_ok :
      (state : State) (logs : List Log) (p : Progress) (payload : Payload)
      → payload ≡ payload_of digests state (findings_of state logs p) p.next
      → (payload.status ≡ "OK") ↔ (findings_of state logs p ≡ [])
  unfolding payload_of
  status_ok state logs p payload e =
      let same : payload.status ≡ status_of (findings_of state logs p) =
        ap (λ (q : Payload). q.status) e in
      let status = status_iff (findings_of state logs p) in
      (λ s. status.0 (sym same ∙ s), λ s. same ∙ status.1 s)

  -- If a scan returns and its status is OK, every discovered log whose path was recorded agrees
  -- with its record: an archived one in all its bytes, an active one in the bytes recorded.
  pub ok-KnownIntact :
      (state : State) (logs : List Log) (payload : Payload) (next : State)
      → scan_result digests ids state logs ≡ ok (payload, next)
      → payload.status ≡ "OK"
      → All (KnownIntact digests.sha256_hex state.files) logs
  ok-KnownIntact state logs payload next h s =
      let (p, scanned, made, _) = scan_result_parts state logs payload next h in
      let none_found = (status_ok state logs p payload made).0 s in
      let first = (append-eq-nil p.findings _).0 none_found in
      All-sort_by_back _ by_relative logs
        ((scan_logs-findings digests.sha256_hex state.files ids _ _ p scanned).0 first.0).1

  -- If a scan returns, every recorded path is still discovered, and every discovered log whose
  -- path was recorded agrees with its record, then the status is OK and there are no findings.
  pub no_false_alarm :
      (state : State) (logs : List Log) (payload : Payload) (next : State)
      → scan_result digests ids state logs ≡ ok (payload, next)
      → All (KnownIntact digests.sha256_hex state.files) logs
      → All (λ entry. is_in entry.0 (relatives logs) ≡ true) state.files
      → (payload.status ≡ "OK") × (payload.findings ≡ [])
  unfolding payload_of
  no_false_alarm state logs payload next h intact there =
      let (p, scanned, made, _) = scan_result_parts state logs payload next h in
      let first =
        (scan_logs-findings digests.sha256_hex state.files ids _ _ p scanned).1
          (refl, All-sort_by _ by_relative logs intact) in
      let none_found = (append-eq-nil p.findings _).1 (first, deleted_none p.used _ _ there) in
      (
        (status_ok state logs p payload made).1 none_found,
        ap (λ (q : Payload). q.findings) made ∙ none_found,
      )
