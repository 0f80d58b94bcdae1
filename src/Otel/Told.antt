-- ===== src/Otel/Told.antt =====
-- What a record tells of, if it counts.
use codex_monitor_group.Base.{
  ◌≡◌, ◌≢◌, ◌+◌, ◌%◌, ◌^◌, refl, ap, Bool, true, false, not, String, [], Option, none, some,
  if◌then◌else◌, arith, subst,
}
use codex_monitor_group.Base.Text.{Text, codes, text_eq_iff}
use codex_monitor_group.Protocol.{Value, text}
use codex_monitor_group.Otel.{
  Attributes, Reader, Completion, get, as_text, as_list, lookup, otel_attributes, field_of,
  completion_of, completion, parse_positive, is_text, is_completed,
}

-- The attributes say that a response is finished, and hold its numbers under their names; its total
-- is that of the tools, or of what went in and out where there is none, and is not 0; its time is
-- that of the record.
pub record Tells (reader : Reader) (entry : Value) (attributes : Attributes) (c : Completion)
    : Type 0 where
  pub event : lookup (codes "event.name") attributes ≡ some (text (codes "codex.sse_event"))
  pub finished : lookup (codes "event.kind") attributes ≡ some (text (codes "response.completed"))
  pub time : c.time ≡ parse_positive (as_text (get (codes "timeUnixNano") entry))
  pub input : c.input ≡ field_of reader attributes "input_token_count"
  pub cached : c.cached ≡ field_of reader attributes "cached_token_count"
  pub output : c.output ≡ field_of reader attributes "output_token_count"
  pub reasoning : c.reasoning ≡ field_of reader attributes "reasoning_token_count"
  pub of_tools :
      field_of reader attributes "tool_token_count" ≢ 0
      → c.total ≡ field_of reader attributes "tool_token_count"
  pub of_both :
      field_of reader attributes "tool_token_count" ≡ 0 → c.total ≡ (c.input + c.output) % 2 ^ 64
  pub positive : c.total ≢ 0

is_text-text : (s : String) (o : Option Value) → is_text s o ≡ true → o ≡ some (text (codes s))
is_text-text s none h = absurd (cc h)
is_text-text s (some (text t)) h = ap (λ (x : Text). some (text x)) ((text_eq_iff t (codes s)).0 h)
is_text-text s (some v) h = absurd (cc h)

passed :
    (done blank : Bool) (made c : Completion)
    → (if not done then none else if blank then none else some made) ≡ some c
    → (done ≡ true) × (blank ≡ false) × (made ≡ c)
passed true true made c h = absurd (cc h)
passed true false made c h = (refl, refl, cc h)
passed false blank made c h = absurd (cc h)

module _ (reader : Reader) where
  completion_of-Tells :
      (entry : Value) (attributes : Attributes) (c : Completion)
      → completion_of reader entry attributes ≡ some c
      → Tells reader entry attributes c
  unfolding completion_of
  completion_of-Tells entry attributes c h =
      let (done, some_tokens, same) = passed (is_completed reader attributes) _ _ c h in
      subst (Tells reader entry attributes) same (record {
        event =
            is_text-text "codex.sse_event" (lookup (codes "event.name") attributes)
              (ground (arith, done));
        finished =
            is_text-text "response.completed" (lookup (codes "event.kind") attributes)
              (ground (arith, done));
        time = refl;
        input = refl;
        cached = refl;
        output = refl;
        reasoning = refl;
        of_tools = λ h. ground (arith, h);
        of_both = λ h. ground (arith, h);
        positive = ground (arith, some_tokens);
      })

  pub completion-Tells :
      (entry : Value) (c : Completion)
      → completion reader entry ≡ some c
      → Tells reader entry (otel_attributes (as_list (get (codes "attributes") entry)) []) c
  unfolding completion
  completion-Tells entry c h = completion_of-Tells entry _ c h
