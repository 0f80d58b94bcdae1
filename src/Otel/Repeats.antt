-- ===== src/Otel/Repeats.antt =====
-- What a request that was taken comes to, and a request that is sent again.
use codex_monitor_group.Base.{
  ℕ, ◌≡◌, refl, sym, ◌∙◌, ap, Bool, true, false, not, List, [], ◌∷◌, Option, none, some, String,
  Result, Done, ok, err, All, All-map, inl, inr, if◌then◌else◌, subst, ok-injective, pure, and_then,
  select, select-All, ◌⊎◌, bad_timezone,
}
use codex_monitor_group.Base.Int.{ℤ, ltb_ℤ}
use codex_monitor_group.Store.{json, Slot, Io, succeeds, Saved}
use codex_monitor_group.Store.Crash.{save_all-Saved, Saved-ok, Saved-cases}
use codex_monitor_group.Protocol.{Value}
use codex_monitor_group.Otel.{OtelStore, Reader, Clock, Completion, completion}
use codex_monitor_group.Otel.Ingest.{
  Ingest, Progress, store_of, start_of, saved, decode, load_otel_store, save_otel_store, forget,
  body_of, ingest_completion, ingest_records, ingest_body, ingest_otlp, log_records,
}
use codex_monitor_group.Otel.Totals.{Accounts, RememberedAs, ingest_records-Accounts}

save_otel_store-Saved :
    (answers : Io) (store : OtelStore) (s : Slot OtelStore)
    → Saved s.target store (save_otel_store answers store s)
unfolding save_otel_store
save_otel_store-Saved answers store s = save_all-Saved answers store s

counted_ok :
    (r : Done) (s : Slot OtelStore) (k n : ℕ)
    → (and_then r (λ _. pure k) s).0 ≡ ok n
    → (r ≡ ok tt) × (k ≡ n) × ((and_then r (λ _. pure k) s).1 ≡ s)
counted_ok (ok _) s k n h = (refl, ok-injective h, refl)
counted_ok (err _) s k n h = absurd (cc h)

pure_leaves : (r : Done) (s : Slot OtelStore) (k : ℕ) → (and_then r (λ _. pure k) s).1 ≡ s
pure_leaves (ok _) s k = refl
pure_leaves (err _) s k = refl

saved_ok :
    (answers : Io) (p : Progress) (s : Slot OtelStore) (n : ℕ)
    → (saved answers p s).0 ≡ ok n
    → (p.created ≡ n) × ((saved answers p s).1.target ≡ json (store_of p))
saved_ok answers p s n h =
    let (done, same, left) = counted_ok _ _ p.created n h in
    (
      same,
      ap (λ (t : Slot OtelStore). t.target) left
          ∙ Saved-ok s.target (store_of p) _ _ (save_otel_store-Saved answers (store_of p) s) done,
    )

zoned :
    (found : Bool) (s : Slot OtelStore) (whole : Result ℕ × Slot OtelStore) (n : ℕ)
    → (if not found then (err bad_timezone, s) else whole).0 ≡ ok n
    → (if not found then (err bad_timezone, s) else whole) ≡ whole
zoned true s whole n h = refl
zoned false s whole n h = absurd (cc h)

saved-cases :
    (answers : Io) (p : Progress) (s : Slot OtelStore)
    → ((saved answers p s).1.target ≡ s.target) ⊎ ((saved answers p s).1.target ≡ json (store_of p))
saved-cases answers p s =
    let left =
      pure_leaves (save_otel_store answers (store_of p) s).0
        (save_otel_store answers (store_of p) s).1 p.created in
    elim (Saved-cases s.target (store_of p) _ _ (save_otel_store-Saved answers (store_of p) s)) [
      | inl e ↦ inl (ap (λ (t : Slot OtelStore). t.target) left ∙ e)
      | inr e ↦ inr (ap (λ (t : Slot OtelStore). t.target) left ∙ e)
    ]

-- The file and the number behind a request whose progress changes nothing.
Idle : OtelStore → OtelStore → Result ℕ × Slot OtelStore → Type 0
Idle left store (r, s) = (decode left s.target ≡ store) × ((m : ℕ) → r ≡ ok m → m ≡ 0)

saved-Idle :
    (left : OtelStore) (answers : Io) (p : Progress) (s : Slot OtelStore)
    → decode left s.target ≡ store_of p
    → p.created ≡ 0
    → Idle left (store_of p) (saved answers p s)
unfolding Idle decode
saved-Idle left answers p s same none_new = (
  elim (saved-cases answers p s) [ inl e ↦ ap (decode left) e ∙ same | inr e ↦ ap (decode left) e ],
  λ m h. sym (saved_ok answers p s m h).0 ∙ none_new,
)

zone-Idle :
    (left : OtelStore) (found : Bool) (s : Slot OtelStore) (store : OtelStore)
    (whole : Result ℕ × Slot OtelStore)
    → decode left s.target ≡ store
    → Idle left store whole
    → Idle left store (if not found then (err bad_timezone, s) else whole)
unfolding Idle
zone-Idle left true s store whole same h = h
zone-Idle left false s store whole same h = (same, λ m e. absurd (cc e))

module _ (reader : Reader) where
  abbrev progress : Ingest → Value → Slot OtelStore → Progress
  progress input body s =
      ingest_records reader input.clock (log_records body)
        (start_of input.cutoff (load_otel_store input.read input.left s.target))

  body_saved :
      (input : Ingest) (r : Result Value) (s : Slot OtelStore) (n : ℕ)
      → (ingest_body reader input r s).0 ≡ ok n
      → (body : Value) × (r ≡ ok body)
        × ((progress input body s).created ≡ n)
        × ((ingest_body reader input r s).1.target ≡ json (store_of (progress input body s)))
  unfolding ingest_body
  body_saved input (err e) s n h = absurd (cc h)
  body_saved input (ok body) s n h =
      let whole = saved input.save (progress input body s) s in
      let same = zoned input.zone_found s whole n h in
      let (number, target) =
        saved_ok input.save (progress input body s) s n (ap (λ x. x.0) (sym same) ∙ h) in
      (body, refl, number, ap (λ (x : Result ℕ × Slot OtelStore). x.1.target) same ∙ target)

  -- A request that was taken, whatever the system answered before: behind it the file holds the
  -- totals before, as far as they could be read, with the tokens of the completions that were
  -- counted added to those of their days, modulo 2^64: the day of a completion's time, or the day of
  -- the clock where its record has no time above 0. Each of these is told by a record of the request
  -- whose attributes say that a response is finished, with the numbers that stand under their
  -- names; they have identifiers that are new and differ from one another, and their number is
  -- returned. Every completion that the request tells of is remembered, and no identifier that had
  -- not expired is forgotten.
  pub ingest_otlp-Accounts :
      (input : Ingest) (s : Slot OtelStore) (n : ℕ)
      → (ingest_otlp reader input s).0 ≡ ok n
      → (body : Value) × (q : Progress) × (body_of input.body ≡ ok body)
        × ((ingest_otlp reader input s).1.target ≡ json (store_of q))
        × (q.created ≡ n)
        × Accounts reader input.clock
            (log_records body)
            (start_of input.cutoff (load_otel_store input.read input.left s.target))
            q
  unfolding ingest_otlp
  ingest_otlp-Accounts input s n h =
      let (body, same, number, target) = body_saved input (body_of input.body) s n h in
      (
        body,
        progress input body s,
        same,
        target,
        number,
        ingest_records-Accounts reader input.clock (log_records body) _,
      )

  idle :
      (clock : Clock) (o : Option Completion) (p : Progress)
      → RememberedAs p.seen o
      → ingest_completion reader clock o p ≡ p
  idle clock none p h = refl
  idle clock (some c) p h = rw h refl

  -- Records whose completions are all remembered change nothing.
  remembered_idle :
      (clock : Clock) (records : List Value) (p : Progress)
      → All (λ entry. RememberedAs p.seen (completion reader entry)) records
      → ingest_records reader clock records p ≡ p
  unfolding ingest_records
  remembered_idle clock [] p h = refl
  remembered_idle clock (entry ∷ rest) p h =
      ap (ingest_records reader clock rest) (idle clock (completion reader entry) p h.0)
      ∙ remembered_idle clock rest p h.1

  again :
      (input : Ingest) (body : Value) (s : Slot OtelStore) (q : Progress)
      → s.target ≡ json (store_of q)
      → input.read ≡ succeeds
      → All (λ e. ltb_ℤ e.1 input.cutoff ≡ false) q.seen
      → All (λ entry. RememberedAs q.seen (completion reader entry)) (log_records body)
      → progress input body s ≡ record q { created = 0 }
  unfolding load_otel_store decode forget
  again input body s q there read fresh known =
      let loaded : load_otel_store input.read input.left s.target ≡ store_of q =
        simp (read, there) refl in
      let kept : select (λ e. not (ltb_ℤ e.1 input.cutoff)) q.seen ≡ q.seen =
        select-All (λ e. not (ltb_ℤ e.1 input.cutoff)) q.seen
          (All-map (λ (e : String × ℤ) h. ap not h) q.seen fresh) in
      let begin : start_of input.cutoff (load_otel_store input.read input.left s.target)
          ≡ record q { created = 0 } =
        ap (start_of input.cutoff) loaded
        ∙ ap (λ (seen : List (String × ℤ)). record q { created = 0; seen = seen }) kept in
      ap (ingest_records reader input.clock (log_records body)) begin
      ∙ remembered_idle input.clock (log_records body) (record q { created = 0 }) known

  -- The same, from what stands in the file before the request.
  ingest-Idle :
      (input : Ingest) (body : Value) (s : Slot OtelStore) (q : Progress)
      → body_of input.body ≡ ok body
      → s.target ≡ json (store_of q)
      → progress input body s ≡ record q { created = 0 }
      → Idle input.left (store_of q) (ingest_otlp reader input s)
  unfolding ingest_otlp ingest_body decode
  ingest-Idle input body s q taken there same =
      let start : decode input.left s.target ≡ store_of q = ap (decode input.left) there in
      subst (λ r. Idle input.left (store_of q) (ingest_body reader input r s)) (sym taken)
        (zone-Idle input.left input.zone_found s (store_of q) _ start (
          subst (λ p. Idle input.left (store_of q) (saved input.save p s)) (sym same)
            (saved-Idle input.left input.save (record q { created = 0 }) s start refl)))

  -- A request that was taken and is sent again, whatever the system then answers to the save:
  -- while none of the remembered identifiers has expired and the file can be read, it leaves the
  -- totals and the remembered identifiers in the file as they are, and where it returns a number
  -- that is 0.
  pub ingest_again :
      (first second : Ingest) (s : Slot OtelStore) (n : ℕ)
      → (ingest_otlp reader first s).0 ≡ ok n
      → second.body ≡ first.body
      → second.read ≡ succeeds
      → All
          (λ e. ltb_ℤ e.1 second.cutoff ≡ false)
          (decode second.left (ingest_otlp reader first s).1.target).seen
      → let after = (ingest_otlp reader first s).1 in
        (decode second.left (ingest_otlp reader second after).1.target
          ≡ decode second.left after.target)
        × ((m : ℕ) → (ingest_otlp reader second after).0 ≡ ok m → m ≡ 0)
  unfolding Idle decode
  ingest_again first second s n taken same read fresh =
      let (body, q, same_body, target, number, acc) = ingest_otlp-Accounts first s n taken in
      let after = (ingest_otlp reader first s).1 in
      let start : decode second.left after.target ≡ store_of q = ap (decode second.left) target in
      let fresh' : All (λ e. ltb_ℤ e.1 second.cutoff ≡ false) q.seen =
        subst (λ (o : OtelStore). All (λ e. ltb_ℤ e.1 second.cutoff ≡ false) o.seen) start fresh in
      let (file, number') =
        ingest-Idle second body after q (ap body_of same ∙ same_body) target
          (again second body after q target read fresh' acc.complete) in
      (file ∙ sym start, number')
