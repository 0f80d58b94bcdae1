-- ===== src/Otel/Privacy.antt =====
-- Which attributes of a record the collector reads.
use codex_monitor_group.Base.{
  ◌≡◌, ◌≢◌, refl, Bool-cases, inl, inr, not, ◌||◌, String, List, [], ◌∷◌, ◌++◌, All, arith,
}
use codex_monitor_group.Base.Text.{Text, codes, text_eq, text_eq_iff}
use codex_monitor_group.Protocol.{Value}
use codex_monitor_group.Otel.{
  Attributes, Reader, get, as_text, is_map, lookup, add_attribute, otel_attributes, field_of,
  completion_of,
}

-- The keys that `ingestOTLP` asks for.
abbrev pub used_keys : List String
used_keys =
    "event.name" ∷ "event.kind" ∷ "input_token_count" ∷ "cached_token_count" ∷ "output_token_count"
    ∷ "reasoning_token_count" ∷ "tool_token_count" ∷ []

abbrev pub key_of : Value → Text
key_of item = as_text (get (codes "key") item)

add_same :
    (key : Text) (item : Value) (a b : Attributes)
    → lookup key a ≡ lookup key b
    → lookup key (add_attribute item a) ≡ lookup key (add_attribute item b)
unfolding add_attribute lookup
add_same key item a b h = elim (Bool-cases (not (is_map item) || text_eq (key_of item) [])) [
  | inl e ↦ rw e h
  | inr e ↦ rw e (ground (arith, h))
]

add_other :
    (key : Text) (item : Value) (a : Attributes)
    → key_of item ≢ key
    → lookup key (add_attribute item a) ≡ lookup key a
unfolding add_attribute lookup
add_other key item a h = elim (Bool-cases (not (is_map item) || text_eq (key_of item) [])) [
  | inl e ↦ rw e refl
  | inr e ↦ elim (Bool-cases (text_eq (key_of item) key)) [
    | inl same ↦ absurd (h ((text_eq_iff (key_of item) key).0 same))
    | inr differs ↦ simp (e, differs) refl
  ]
]

same_lookup :
    (key : Text) (items : List Value) (a b : Attributes)
    → lookup key a ≡ lookup key b
    → lookup key (otel_attributes items a) ≡ lookup key (otel_attributes items b)
unfolding otel_attributes
same_lookup key [] a b h = h
same_lookup key (item ∷ items) a b h =
    same_lookup key items (add_attribute item a) (add_attribute item b) (add_same key item a b h)

-- An attribute with another key, anywhere among the others.
other_lookup :
    (key : Text) (xs : List Value) (item : Value) (ys : List Value) (a : Attributes)
    → key_of item ≢ key
    → lookup key (otel_attributes (xs ++ item ∷ ys) a) ≡ lookup key (otel_attributes (xs ++ ys) a)
unfolding otel_attributes
other_lookup key [] item ys a h =
    same_lookup key ys (add_attribute item a) a (add_other key item a h)
other_lookup key (x ∷ xs) item ys a h = other_lookup key xs item ys (add_attribute x a) h

module _ (reader : Reader) where
  field-same :
      (key : String) (a b : Attributes)
      → lookup (codes key) a ≡ lookup (codes key) b
      → field_of reader a key ≡ field_of reader b key
  unfolding field_of
  field-same key a b h = rw (field_of, h) refl

  -- An attribute of a record whose key is none of the seven that the collector asks for, such as the
  -- text of a prompt, changes nothing of what the record tells, wherever it stands among the others
  -- and whatever its value.
  pub completion_of-unread :
      (entry item : Value) (xs ys : List Value)
      → All (λ key. key_of item ≢ codes key) used_keys
      → completion_of reader entry (otel_attributes (xs ++ item ∷ ys) [])
        ≡ completion_of reader entry (otel_attributes (xs ++ ys) [])
  unfolding completion_of
  completion_of-unread entry item xs ys
        (name, (kind, (input, (cached, (output, (reasoning, (tool, _))))))) =
      let a = otel_attributes (xs ++ item ∷ ys) [] in
      let b = otel_attributes (xs ++ ys) [] in
      simp
        (
          other_lookup (codes "event.name") xs item ys [] name,
          other_lookup (codes "event.kind") xs item ys [] kind,
          field-same "input_token_count" a b
              (other_lookup (codes "input_token_count") xs item ys [] input),
          field-same "cached_token_count" a b
              (other_lookup (codes "cached_token_count") xs item ys [] cached),
          field-same "output_token_count" a b
              (other_lookup (codes "output_token_count") xs item ys [] output),
          field-same "reasoning_token_count" a b
              (other_lookup (codes "reasoning_token_count") xs item ys [] reasoning),
          field-same "tool_token_count" a b
              (other_lookup (codes "tool_token_count") xs item ys [] tool),
        )
        refl
