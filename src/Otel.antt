-- ===== src/Otel.antt =====
-- internal/agent/otel.go: the totals of tokens per day that the local collector keeps, and which
-- requests it takes. Formatting a value by %v, SHA-256, the clock and the time zone are parameters.
pub mod Ingest
pub mod Request
pub mod Told
pub mod Totals
pub mod Repeats
pub mod Privacy
use codex_monitor_group.Base.{
  ℕ, zero, suc, ◌+◌, ◌-◌, ◌*◌, ◌%◌, ◌^◌, ◌==◌, ltb, leb, Bool, true, false, not, ◌&&◌, ◌||◌, String,
  List, [], ◌∷◌, ◌++◌, Option, none, some, str_eq, if◌then◌else◌, select, Result, ok, err, Done,
  Exec, ◌>>=◌, ◌>>◌, pure,
}
use codex_monitor_group.Base.Int.{ℤ, ltb_ℤ}
use codex_monitor_group.Base.Text.{Text, codes, decimal, utf8, text_eq}
use codex_monitor_group.Protocol.{
  Value, null, bool, text, number, array, object, Items, nil, cons, Fields, end, field,
}
use codex_monitor_group.Store.{
  Content, absent, blank, garbage, json, Slot, Io, Answer, succeeds, stops, call, marshal,
  write_tmp, replace,
}

-- usage.go; the numbers are uint64.
pub record NormalizedUsage : Type 0 where
  pub date : Text
  pub input_tokens : ℕ
  pub cached_input_tokens : ℕ
  pub output_tokens : ℕ
  pub reasoning_output_tokens : ℕ
  pub total_tokens : ℕ

pub record OtelStore : Type 0 where
  pub days : List (Text × NormalizedUsage)
  pub seen : List (String × ℤ)

-- Indexing an `any`: a value that is no map has no keys.
abbrev pub find : Text → Fields → Option Value
find key end = none
find key (field name value rest) = if text_eq name key then some value else find key rest

abbrev pub get : Text → Value → Option Value
get key (object fields) = find key fields
get key _ = none

abbrev pub elements : Items → List Value
elements nil = []
elements (cons value rest) = value ∷ elements rest

-- `v.([]any)`, `v.(string)` and `v.(map[string]any)` with their second result dropped.
abbrev pub as_list : Option Value → List Value
as_list (some (array items)) = elements items
as_list _ = []

abbrev pub as_text : Option Value → Text
as_text (some (text s)) = s
as_text _ = []

abbrev pub or_null : Option Value → Value
or_null (some v) = v
or_null none = null

abbrev pub is_map : Value → Bool
is_map (object fields) = true
is_map _ = false

abbrev first_of : List Text → Value → Value
first_of [] v = null
first_of (key ∷ keys) v = elim (get key v) [ some found ↦ found | none ↦ first_of keys v ]

unfoldable pub otel_value : Value → Value
otel_value v =
    first_of (codes "stringValue" ∷ codes "intValue" ∷ codes "doubleValue" ∷ codes "boolValue" ∷ [])
      v

-- A map[string]any that is written key by key: the last pair of a key stands in front.
abbrev pub Attributes : Type 0
Attributes = List (Text × Value)

unfoldable pub lookup : Text → Attributes → Option Value
lookup key [] = none
lookup key ((name, value) ∷ rest) = if text_eq name key then some value else lookup key rest

-- One round of the loop of otelAttributes.
unfoldable pub add_attribute : Value → Attributes → Attributes
add_attribute item out =
    let key = as_text (get (codes "key") item) in
    if not (is_map item) || text_eq key []
    then out
    else (key, otel_value (or_null (get (codes "value") item))) ∷ out

unfoldable pub otel_attributes : List Value → Attributes → Attributes
otel_attributes [] out = out
otel_attributes (item ∷ items) out = otel_attributes items (add_attribute item out)

abbrev is_digit : ℕ → Bool
is_digit c = leb b'0' c && leb c b'9'

abbrev pub max_uint64 : ℕ
max_uint64 = 2 ^ 64 - 1

-- The value that strconv.ParseUint(s, 10, 64) returns beside its error.
unfoldable pub parse_uint_from : ℕ → Text → ℕ
parse_uint_from n [] = n
parse_uint_from n (c ∷ cs) =
    let value = n * 10 + (c - b'0') in
    let rest = parse_uint_from value cs in
    if not (is_digit c) then 0 else if ltb max_uint64 value then max_uint64 else rest

-- The digits in front of the point.
unfoldable pub whole_part : ℕ → Text → ℕ
whole_part n [] = n
whole_part n (c ∷ cs) =
    let rest = whole_part (n * 10 + (c - b'0')) cs in if is_digit c then rest else n

-- uint64(v) from the whole part of v's text, which is exact below 2^53; from there on `large` is
-- what Go makes of the float64.
abbrev to_uint : ℕ → ℕ → ℕ
to_uint large n = if ltb n (2 ^ 53) then n else large

-- The number that a text names, where it is digits alone.
unfoldable pub digits_value : ℕ → Text → Option ℕ
digits_value n [] = some n
digits_value n (c ∷ cs) =
    let rest = digits_value (n * 10 + (c - b'0')) cs in if is_digit c then rest else none

abbrev strip_plus : Text → Text
strip_plus [] = []
strip_plus (c ∷ cs) = if c == b'+' then cs else c ∷ cs

abbrev int64_range : Option ℕ → Option ℕ
int64_range none = none
int64_range (some n) = if ltb 0 n && ltb n (2 ^ 63) then some n else none

-- strconv.ParseInt(s, 10, 64), where it returns no error and a number above 0.
unfoldable pub parse_positive : Text → Option ℕ
parse_positive s = int64_range (digits_value 0 (strip_plus s))

abbrev pub add_uint64 : ℕ → ℕ → ℕ
add_uint64 a b = (a + b) % 2 ^ 64

-- What a request is read with: fmt's %v of a value that is no string, the hash, the
-- conversion uint64(v) of a float64 of 2^53 or more, given by its text, and the days of the time zone.
pub record Reader : Type 0 where
  pub show : Value → Text
  pub sha256_hex : List ℕ → String
  pub large_uint : Text → ℕ
  pub day_of : ℕ → Text

-- The readings of the clock behind so many counted records: the day, and the Unix time.
pub record Clock : Type 0 where
  pub today : ℕ → Text
  pub unix : ℕ → ℤ

-- A finished response, as a record tells of it.
pub record Completion : Type 0 where
  pub id : String
  pub time : Option ℕ
  pub input : ℕ
  pub cached : ℕ
  pub output : ℕ
  pub reasoning : ℕ
  pub total : ℕ

abbrev pub is_text : String → Option Value → Bool
is_text s (some (text t)) = text_eq t (codes s)
is_text s _ = false

module _ (reader : Reader) where
  unfoldable pub as_uint : Value → ℕ
  as_uint (text s) = parse_uint_from 0 s
  as_uint (number s) = to_uint (reader.large_uint s) (whole_part 0 s)
  as_uint _ = 0

  -- `field` with one key; a negative number's text starts with no digit.
  unfoldable pub field_of : Attributes → String → ℕ
  field_of attributes key = elim (lookup (codes key) attributes) [
    | some value ↦ as_uint value
    | none ↦ 0
  ]

  abbrev shown : Option Value → Text
  shown (some (text s)) = s
  shown (some null) = codes "<nil>"
  shown (some v) = reader.show v
  shown none = codes "<nil>"

  unfoldable pub identity : Value → ℕ → ℕ → ℕ → ℕ → Text
  identity entry input cached output reasoning =
      as_text (get (codes "timeUnixNano") entry)
      ++ b'|'
        ∷ (shown (get (codes "traceId") entry)
            ++ b'|'
              ∷ (shown (get (codes "spanId") entry)
                  ++ b'|'
                    ∷ (decimal input
                        ++ b'|'
                          ∷ (decimal cached
                              ++ b'|' ∷ (decimal output ++ b'|' ∷ decimal reasoning)))))

  abbrev is_completed : Attributes → Bool
  is_completed attributes =
      is_text "codex.sse_event" (lookup (codes "event.name") attributes)
      && is_text "response.completed" (lookup (codes "event.kind") attributes)

  abbrev total_of : ℕ → ℕ → ℕ → ℕ
  total_of tool input output = if tool == 0 then add_uint64 input output else tool

  -- What the attributes of a record tell, if it tells of a finished response with any tokens.
  unfoldable pub completion_of : Value → Attributes → Option Completion
  completion_of entry attributes =
      let input = field_of attributes "input_token_count" in
      let cached = field_of attributes "cached_token_count" in
      let output = field_of attributes "output_token_count" in
      let reasoning = field_of attributes "reasoning_token_count" in
      let total = total_of (field_of attributes "tool_token_count") input output in
      if not (is_completed attributes)
      then none
      else if total == 0
      then none
      else some (record {
        id = reader.sha256_hex (utf8 (identity entry input cached output reasoning));
        time = parse_positive (as_text (get (codes "timeUnixNano") entry));
        input = input;
        cached = cached;
        output = output;
        reasoning = reasoning;
        total = total;
      })

  unfoldable pub completion : Value → Option Completion
  completion entry =
      completion_of entry (otel_attributes (as_list (get (codes "attributes") entry)) [])
