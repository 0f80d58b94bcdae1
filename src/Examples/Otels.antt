-- ===== src/Examples/Otels.antt =====
-- The collector at a concrete request.
use codex_monitor_group.Base.{
  ℕ, ◌≡◌, ◌≢◌, ◌≤◌, ◌++◌, refl, ap, true, false, Bool, [], ◌∷◌, some, ok, String, All, List,
}
use codex_monitor_group.Base.Int.{pos}
use codex_monitor_group.Base.Text.{codes, text_eq, Text, text_eq_iff, decimal, utf8}
use codex_monitor_group.Protocol.{Value, text, array, object, nil, cons, end, field}
use codex_monitor_group.Store.{Slot, Content, absent, json, succeeds, write_tmp, replace}
use codex_monitor_group.Otel.{
  OtelStore, Reader, add_attribute, otel_attributes, lookup, otel_value, parse_uint_from,
  digits_value, parse_positive, as_uint, field_of, identity, completion_of, completion,
}
use codex_monitor_group.Otel.Ingest.{
  Ingest, Progress, store_of, start_of, load_otel_store, save_otel_store, decode, forget, is_seen,
  usage_at, put_day, add_usage, count, ingest_records, ingest_body, ingest_otlp, log_records,
  body_of,
}
use codex_monitor_group.Otel.Request.{Request, serve, serve-admits}
use codex_monitor_group.Otel.Privacy.{completion_of-unread, key_of, used_keys}
use codex_monitor_group.Otel.Totals.{Accounts}
use codex_monitor_group.Otel.Repeats.{ingest_otlp-Accounts, ingest_again}
use codex_monitor_group.Examples.{all_fine}

abbrev attribute : String → String → Value
attribute key value = object (
    field (codes "key") (text (codes key))
      (field (codes "value") (object (field (codes "intValue") (text (codes value)) end)) end))

abbrev named : String → String → Value
named key value = object (
    field (codes "key") (text (codes key))
      (field (codes "value") (object (field (codes "stringValue") (text (codes value)) end)) end))

-- A finished response with three tokens in and four out.
abbrev finished : Value
finished = object (
    field (codes "attributes")
      (array (
        cons (named "event.name" "codex.sse_event") (
          cons (named "event.kind" "response.completed") (
            cons (attribute "input_token_count" "3")
              (cons (attribute "output_token_count" "4") nil)))))
      (field (codes "timeUnixNano") (text (codes "5")) end))

abbrev list_in : String → Value → Value
list_in key value = object (field (codes key) (array (cons value nil)) end)

abbrev told : Value
told = list_in "resourceLogs" (list_in "scopeLogs" (list_in "logRecords" finished))

abbrev plain : Reader
plain = record {
  show = λ v. [];
  sha256_hex = λ bytes. "id";
  large_uint = λ s. 0;
  day_of = λ n. codes "1970-01-01";
}

abbrev arriving : Ingest
arriving = record {
  body = some told;
  zone_found = true;
  cutoff = pos 0;
  clock = record { today = λ n. codes "1970-01-02"; unix = λ n. pos 9 };
  read = succeeds;
  left = record { days = []; seen = [] };
  save = all_fine;
}

abbrev no_file : Slot OtelStore
no_file = record { target = absent; tmp = absent }

arrived : (ingest_otlp plain arriving no_file).0 ≡ ok 1
unfolding ingest_otlp ingest_body save_otel_store write_tmp replace load_otel_store decode forget
    is_seen usage_at put_day add_usage count ingest_records log_records completion completion_of
    otel_attributes add_attribute lookup otel_value parse_uint_from digits_value parse_positive
    as_uint field_of identity text_eq decimal utf8
arrived = refl

ingest_otlp-Accounts_example :
    (body : Value) × (q : Progress) × (body_of arriving.body ≡ ok body)
    × ((ingest_otlp plain arriving no_file).1.target ≡ json (store_of q))
    × (q.created ≡ 1)
    × Accounts plain arriving.clock
        (log_records body)
        (start_of arriving.cutoff (load_otel_store arriving.read arriving.left no_file.target))
        q
ingest_otlp-Accounts_example = ingest_otlp-Accounts plain arriving no_file 1 arrived

ingest_again_example :
    let after = (ingest_otlp plain arriving no_file).1 in
    (decode arriving.left (ingest_otlp plain arriving after).1.target
      ≡ decode arriving.left after.target)
    × ((m : ℕ) → (ingest_otlp plain arriving after).0 ≡ ok m → m ≡ 0)
unfolding ingest_otlp ingest_body save_otel_store write_tmp replace load_otel_store decode forget
    is_seen usage_at put_day add_usage count ingest_records log_records completion completion_of
    otel_attributes add_attribute lookup otel_value parse_uint_from digits_value parse_positive
    as_uint field_of identity text_eq decimal utf8
ingest_again_example = ingest_again plain arriving arriving no_file 1 arrived refl refl (refl, tt)

abbrev request : Request
request = record {
  method = codes "POST";
  authorization = codes "Bearer token";
  read = true;
  size = 700;
  ingest = arriving;
}

abbrev is_absent : Content OtelStore → Bool
is_absent absent = true
is_absent _ = false

changed : (serve plain (codes "token") request no_file).1 ≢ no_file
unfolding serve ingest_otlp ingest_body save_otel_store write_tmp replace load_otel_store decode
    forget is_seen usage_at put_day add_usage count ingest_records log_records completion
    completion_of otel_attributes add_attribute lookup otel_value parse_uint_from digits_value
    parse_positive as_uint field_of identity text_eq decimal utf8
changed e =
    absurd (let same : false ≡ true = ap (λ (s : Slot OtelStore). is_absent s.target) e in cc same)

serve-admits_example :
    (request.method ≡ codes "POST")
    × (request.authorization ≡ codes "Bearer " ++ codes "token")
    × (request.read ≡ true)
    × (request.size ≤ 1_048_576)
serve-admits_example = serve-admits plain (codes "token") request no_file changed

abbrev prompt : Value
prompt = named "prompt" "secret"

differs : (a b : Text) → text_eq a b ≡ false → a ≢ b
differs a b h e = absurd (cc (h, (text_eq_iff a b).1 e))

unused : All (λ key. key_of prompt ≢ codes key) used_keys
unfolding text_eq
unused =
    let p = codes "prompt" in
    (
      differs p (codes "event.name") refl,
      (
        differs p (codes "event.kind") refl,
        (
          differs p (codes "input_token_count") refl,
          (
            differs p (codes "cached_token_count") refl,
            (
              differs p (codes "output_token_count") refl,
              (
                differs p (codes "reasoning_token_count") refl,
                (differs p (codes "tool_token_count") refl, tt),
              ),
            ),
          ),
        ),
      ),
    )

abbrev finished_name : List Value
finished_name = named "event.name" "codex.sse_event" ∷ named "event.kind" "response.completed" ∷ []

completion_of-unread_example :
    completion_of plain finished
      (otel_attributes ((attribute "input_token_count" "3" ∷ []) ++ prompt ∷ finished_name) [])
    ≡ completion_of plain finished
        (otel_attributes ((attribute "input_token_count" "3" ∷ []) ++ finished_name) [])
completion_of-unread_example =
    completion_of-unread plain finished prompt (attribute "input_token_count" "3" ∷ [])
      finished_name unused
