-- ===== src/Otel/Ingest.antt =====
-- `ingestOTLP`, the handler of `StartOTelServer` and the file of internal/agent/otel.go. The lock is
-- held from the load to the save, so a request is one step.
use codex_monitor_group.Base.{
  ℕ, suc, Bool, false, not, ◌||◌, String, List, [], ◌∷◌, ◌++◌, Option, none, some, str_eq,
  if◌then◌else◌, select, Result, ok, err, invalid_json, bad_timezone, Exec, ◌>>◌, pure,
}
use codex_monitor_group.Base.Int.{ℤ, ltb_ℤ}
use codex_monitor_group.Base.Text.{Text, codes, text_eq}
use codex_monitor_group.Protocol.{Value, null, object}
use codex_monitor_group.Store.{
  Content, json, garbage, Slot, Io, Answer, succeeds, stops, call, marshal, write_tmp, replace,
}
use codex_monitor_group.Otel.{
  NormalizedUsage, OtelStore, Reader, Clock, Completion, completion, get, as_list, add_uint64,
}

abbrev pub empty_store : OtelStore
empty_store = record { days = []; seen = [] }

-- A missing or empty file counts as an empty store. Behind an error of json.Unmarshal stands what it
-- had filled in, `left`, which is nothing where the text is no JSON.
unfoldable pub decode : OtelStore → Content OtelStore → OtelStore
decode left (json store) = store
decode left garbage = left
decode left _ = empty_store

unfoldable pub load_otel_store : Answer → OtelStore → Content OtelStore → OtelStore
unfolding decode
load_otel_store succeeds left c = decode left c
load_otel_store (stops why) left c = empty_store

unfoldable pub save_otel_store : Io → OtelStore → Exec (Slot OtelStore) (Unit {0})
save_otel_store answers store = do
  call answers.mkdir
  marshal answers.marshals
  write_tmp answers.write store
  replace answers.rename

-- The loop that deletes the identifiers seen before the cutoff.
unfoldable pub forget : ℤ → List (String × ℤ) → List (String × ℤ)
forget cutoff seen = select (λ e. not (ltb_ℤ e.1 cutoff)) seen

unfoldable pub is_seen : String → List (String × ℤ) → Bool
is_seen id [] = false
is_seen id ((name, at) ∷ rest) = str_eq name id || is_seen id rest

abbrev pub no_usage : NormalizedUsage
no_usage = record {
  date = [];
  input_tokens = 0;
  cached_input_tokens = 0;
  output_tokens = 0;
  reasoning_output_tokens = 0;
  total_tokens = 0;
}

-- `store.Days[day]`, the zero value where the day is missing.
unfoldable pub usage_at : Text → List (Text × NormalizedUsage) → NormalizedUsage
usage_at day [] = no_usage
usage_at day ((name, usage) ∷ rest) = if text_eq name day then usage else usage_at day rest

-- `store.Days[day] = value`
unfoldable pub put_day :
    Text → NormalizedUsage → List (Text × NormalizedUsage) → List (Text × NormalizedUsage)
put_day day value [] = (day, value) ∷ []
put_day day value ((name, usage) ∷ rest) =
    if text_eq name day then (name, value) ∷ rest else (name, usage) ∷ put_day day value rest

unfoldable pub add_usage : Text → Completion → NormalizedUsage → NormalizedUsage
add_usage day c usage = record {
  date = day;
  input_tokens = add_uint64 usage.input_tokens c.input;
  cached_input_tokens = add_uint64 usage.cached_input_tokens c.cached;
  output_tokens = add_uint64 usage.output_tokens c.output;
  reasoning_output_tokens = add_uint64 usage.reasoning_output_tokens c.reasoning;
  total_tokens = add_uint64 usage.total_tokens c.total;
}

-- The store under the loops, and `created`.
pub record Progress : Type 0 where
  pub days : List (Text × NormalizedUsage)
  pub seen : List (String × ℤ)
  pub created : ℕ

abbrev pub store_of : Progress → OtelStore
store_of p = record { days = p.days; seen = p.seen }

abbrev all_of {ℓ} : {A : Type ℓ} → (A → List Value) → List A → List Value
all_of f [] = []
all_of f (x ∷ xs) = f x ++ all_of f xs

-- The log records, in the order of the three loops.
unfoldable pub log_records : Value → List Value
log_records body =
    all_of
      (λ resource.
        all_of (λ scope. as_list (get (codes "logRecords") scope))
          (as_list (get (codes "scopeLogs") resource)))
      (as_list (get (codes "resourceLogs") body))

-- json.Unmarshal into a map[string]any: an object, or null.
abbrev pub body_of : Option Value → Result Value
body_of (some (object fields)) = ok (object fields)
body_of (some null) = ok null
body_of _ = err invalid_json

-- What a request of the server's brings with it, and what the system answers to it.
pub record Ingest : Type 0 where
  pub body : Option Value
  pub zone_found : Bool
  pub cutoff : ℤ
  pub clock : Clock
  pub read : Answer
  pub left : OtelStore
  pub save : Io

abbrev pub start_of : ℤ → OtelStore → Progress
start_of cutoff store = record { days = store.days; seen = forget cutoff store.seen; created = 0 }

abbrev pub saved : Io → Progress → Slot OtelStore → Result ℕ × Slot OtelStore
saved answers p = do save_otel_store answers (store_of p); pure p.created

module _ (reader : Reader) where
  abbrev pub day_for : Clock → ℕ → Option ℕ → Text
  day_for clock created (some nanos) = reader.day_of nanos
  day_for clock created none = clock.today created

  unfoldable pub count : Clock → Completion → Progress → Progress
  count clock c p =
      let day = day_for clock p.created c.time in
      record {
        days = put_day day (add_usage day c (usage_at day p.days)) p.days;
        seen = (c.id, clock.unix p.created) ∷ p.seen;
        created = suc p.created;
      }

  abbrev pub ingest_completion : Clock → Option Completion → Progress → Progress
  ingest_completion clock none p = p
  ingest_completion clock (some c) p = if is_seen c.id p.seen then p else count clock c p

  unfoldable pub ingest_records : Clock → List Value → Progress → Progress
  ingest_records clock [] p = p
  ingest_records clock (entry ∷ rest) p =
      ingest_records clock rest (ingest_completion clock (completion reader entry) p)

  unfoldable pub ingest_body : Ingest → Result Value → Slot OtelStore → Result ℕ × Slot OtelStore
  ingest_body input (err e) s = (err e, s)
  ingest_body input (ok body) s =
      if not input.zone_found
      then (err bad_timezone, s)
      else saved input.save
          (ingest_records input.clock (log_records body)
            (start_of input.cutoff (load_otel_store input.read input.left s.target)))
          s

  unfoldable pub ingest_otlp : Ingest → Exec (Slot OtelStore) ℕ
  unfolding ingest_body
  ingest_otlp input s = ingest_body input (body_of input.body) s
