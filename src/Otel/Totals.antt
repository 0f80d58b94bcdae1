-- ===== src/Otel/Totals.antt =====
-- The totals of a day are those before and the completions that were counted, each once.
use codex_monitor_group.Base.{
  ℕ, suc, ◌%◌, ◌^◌, ◌+◌, ◌≡◌, ◌≢◌, ◌⊎◌, refl, sym, ◌∙◌, ap, true, false, String, List, [], ◌∷◌,
  Option, none, some, All, All-map, arith, length, Bool-cases, inl, inr, if◌then◌else◌, eq_iff,
  eq_refl, subst,
}
use codex_monitor_group.Base.Int.{ℤ}
use codex_monitor_group.Base.Text.{Text, codes, text_eq, text_eq_iff}
use codex_monitor_group.Protocol.{Value}
use codex_monitor_group.Otel.Told.{Tells, completion-Tells}
use codex_monitor_group.Otel.{
  Attributes, otel_attributes, as_list, get, NormalizedUsage, Reader, Clock, Completion, completion,
}
use codex_monitor_group.Otel.Ingest.{
  Progress, usage_at, put_day, add_usage, is_seen, count, ingest_completion, ingest_records,
  day_for,
}

-- Completions with the days that they count for.
abbrev pub Counted : Type 0
Counted = List (Text × Completion)

-- The sums that a completion makes, each modulo 2^64.
abbrev pub with_tokens : Text → Completion → NormalizedUsage → NormalizedUsage
with_tokens day c usage = record {
  date = day;
  input_tokens = (usage.input_tokens + c.input) % 2 ^ 64;
  cached_input_tokens = (usage.cached_input_tokens + c.cached) % 2 ^ 64;
  output_tokens = (usage.output_tokens + c.output) % 2 ^ 64;
  reasoning_output_tokens = (usage.reasoning_output_tokens + c.reasoning) % 2 ^ 64;
  total_tokens = (usage.total_tokens + c.total) % 2 ^ 64;
}

-- A day's usage with its completions added.
abbrev pub tally : Text → Counted → NormalizedUsage → NormalizedUsage
tally day [] usage = usage
tally day ((name, c) ∷ rest) usage =
    tally day rest (if text_eq name day then with_tokens day c usage else usage)

abbrev pub Distinct : Counted → Type 0
Distinct [] = Unit
Distinct ((_, c) ∷ rest) = All (λ d. d.1.id ≢ c.id) rest × Distinct rest

-- The record tells of no completion, or its identifier is remembered.
abbrev pub RememberedAs : List (String × ℤ) → Option Completion → Type 0
RememberedAs seen none = Unit
RememberedAs seen (some c) = is_seen c.id seen ≡ true

-- The attributes of a record.
abbrev pub attributes_of : Value → Attributes
attributes_of entry = otel_attributes (as_list (get (codes "attributes") entry)) []

-- A counted completion is that of one of the records, which tells of it.
abbrev pub ToldBy : Reader → List Value → Text × Completion → Type 0
ToldBy reader [] d = ⊥
ToldBy reader (entry ∷ rest) d =
    ((completion reader entry ≡ some d.1) × Tells reader entry (attributes_of entry) d.1)
    ⊎ ToldBy reader rest d

-- The day of a completion: that of its time, in the time zone of the agent, or that of the clock
-- where the record has no time above 0, after so many counted ones.
abbrev pub DayOf : Reader → Clock → ℕ → Option ℕ → Text → Type 0
DayOf reader clock n (some nanos) day = day ≡ reader.day_of nanos
DayOf reader clock n none day = day ≡ clock.today n

abbrev pub Dated : Reader → Clock → ℕ → Counted → Type 0
Dated reader clock n [] = Unit
Dated reader clock n ((day, c) ∷ rest) =
    DayOf reader clock n c.time day × Dated reader clock (suc n) rest

DayOf-day_for :
    (reader : Reader) (clock : Clock) (n : ℕ) (time : Option ℕ)
    → DayOf reader clock n time (day_for reader clock n time)
DayOf-day_for reader clock n (some nanos) = refl
DayOf-day_for reader clock n none = refl

-- From one progress to another over the records: what was counted, and what that did.
pub record Accounts (reader : Reader) (clock : Clock) (records : List Value) (p q : Progress)
    : Type 0 where
  pub counted : Counted
  pub totals : (day : Text) → usage_at day q.days ≡ tally day counted (usage_at day p.days)
  pub dated : Dated reader clock p.created counted
  pub created : q.created ≡ p.created + length counted
  pub told : All (ToldBy reader records) counted
  pub new : All (λ d. is_seen d.1.id p.seen ≡ false) counted
  pub distinct : Distinct counted
  pub kept : (id : String) → is_seen id p.seen ≡ true → is_seen id q.seen ≡ true
  pub complete : All (λ entry. RememberedAs q.seen (completion reader entry)) records

usage_at-put_day :
    (day name : Text) (value : NormalizedUsage) (days : List (Text × NormalizedUsage))
    → usage_at day (put_day name value days)
      ≡ (if text_eq name day then value else usage_at day days)
unfolding usage_at put_day
usage_at-put_day day name value [] = refl
usage_at-put_day day name value ((other, usage) ∷ rest) = ground (
  arith,
  text_eq_iff other name,
  text_eq_iff other day,
  text_eq_iff name day,
  usage_at-put_day day name value rest,
)

counted_day :
    (day name : Text) (c : Completion) (days : List (Text × NormalizedUsage))
    → usage_at day (put_day name (add_usage name c (usage_at name days)) days)
      ≡ (if text_eq name day then with_tokens day c (usage_at day days) else usage_at day days)
unfolding add_usage
counted_day day name c days = elim (Bool-cases (text_eq name day)) [
  | inl e ↦
      usage_at-put_day day name _ days
      ∙ rw e (ap (λ n. with_tokens n c (usage_at n days)) ((text_eq_iff name day).0 e))
  | inr e ↦ usage_at-put_day day name _ days ∙ rw e refl
]

-- An identifier that is new behind another one.
older :
    (id other : String) (at : ℤ) (seen : List (String × ℤ))
    → is_seen other ((id, at) ∷ seen) ≡ false
    → (other ≢ id) × (is_seen other seen ≡ false)
unfolding is_seen
older id other at seen h = ground (arith, eq_iff id other)

kept_under :
    (id other : String) (at : ℤ) (seen : List (String × ℤ))
    → is_seen other seen ≡ true
    → is_seen other ((id, at) ∷ seen) ≡ true
unfolding is_seen
kept_under id other at seen h = ground arith

found : (id : String) (at : ℤ) (seen : List (String × ℤ)) → is_seen id ((id, at) ∷ seen) ≡ true
unfolding is_seen
found id at seen = rw (eq_refl id) refl

module _ (reader : Reader) (clock : Clock) where
  nothing-Accounts : (p : Progress) → Accounts reader clock [] p p
  nothing-Accounts p = record {
    counted = [];
    totals = λ day. refl;
    dated = tt;
    created = omega arith;
    told = tt;
    new = tt;
    distinct = tt;
    kept = λ id h. h;
    complete = tt;
  }

  remembered :
      (seen later : List (String × ℤ))
      → ((id : String) → is_seen id seen ≡ true → is_seen id later ≡ true)
      → (o : Option Completion) → RememberedAs seen o
      → RememberedAs later o
  remembered seen later kept none h = h
  remembered seen later kept (some c) h = kept c.id h

  -- A record that counts for nothing, in front of others.
  skipped-Accounts :
      (entry : Value) (rest : List Value) (p q : Progress)
      → RememberedAs p.seen (completion reader entry)
      → Accounts reader clock rest p q
      → Accounts reader clock (entry ∷ rest) p q
  skipped-Accounts entry rest p q known a = record {
    counted = a.counted;
    totals = a.totals;
    dated = a.dated;
    created = a.created;
    told = All-map (λ d h. inr h) a.counted a.told;
    new = a.new;
    distinct = a.distinct;
    kept = a.kept;
    complete = (remembered p.seen q.seen a.kept (completion reader entry) known, a.complete);
  }

  -- A record that is counted, in front of others.
  counted-Accounts :
      (entry : Value) (rest : List Value) (c : Completion) (p q : Progress)
      → completion reader entry ≡ some c
      → is_seen c.id p.seen ≡ false
      → Accounts reader clock rest (count reader clock c p) q
      → Accounts reader clock (entry ∷ rest) p q
  unfolding count
  counted-Accounts entry rest c p q told new a =
      let day = day_for reader clock p.created c.time in
      let others = All-map (λ d h. older c.id d.1.id _ p.seen h) a.counted a.new in
      record {
        counted = (day, c) ∷ a.counted;
        totals = λ d. a.totals d ∙ ap (tally d a.counted) (counted_day d day c p.days);
        dated = (DayOf-day_for reader clock p.created c.time, a.dated);
        created = omega (arith, a.created);
        told = (
          inl (told, completion-Tells reader entry c told),
          All-map (λ d h. inr h) a.counted a.told,
        );
        new = (new, All-map (λ d h. h.1) a.counted others);
        distinct = (All-map (λ d h. h.0) a.counted others, a.distinct);
        kept = λ id h. a.kept id (kept_under c.id id _ p.seen h);
        complete = (
          subst (RememberedAs q.seen) (sym told) (a.kept c.id (found c.id _ p.seen)),
          a.complete,
        );
      }

  entry-Accounts :
      (entry : Value) (rest : List Value) (p q : Progress) (o : Option Completion)
      → completion reader entry ≡ o
      → Accounts reader clock rest (ingest_completion reader clock o p) q
      → Accounts reader clock (entry ∷ rest) p q
  entry-Accounts entry rest p q none told a =
      skipped-Accounts entry rest p q (subst (RememberedAs p.seen) (sym told) tt) a
  entry-Accounts entry rest p q (some c) told a = elim (Bool-cases (is_seen c.id p.seen)) [
    | inl old ↦
        skipped-Accounts entry rest p q (subst (RememberedAs p.seen) (sym told) old) (
          subst (λ b. Accounts reader clock rest (if b then p else count reader clock c p) q) old a)
    | inr new ↦
        counted-Accounts entry rest c p q told new (
          subst (λ b. Accounts reader clock rest (if b then p else count reader clock c p) q) new a)
  ]

  -- Any progress over the records accounts for them.
  pub ingest_records-Accounts :
      (records : List Value) (p : Progress)
      → Accounts reader clock records p (ingest_records reader clock records p)
  unfolding ingest_records
  ingest_records-Accounts [] p = nothing-Accounts p
  ingest_records-Accounts (entry ∷ rest) p =
      entry-Accounts entry rest p _ (completion reader entry) refl
        (ingest_records-Accounts rest (ingest_completion reader clock (completion reader entry) p))
