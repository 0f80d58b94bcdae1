-- ===== src/Protocol/Canonical.antt =====
-- Canonical JSON does not depend on the order in which the keys of a map are visited.
use codex_monitor_group.Base.{
  Bool, ◌≡◌, ◌≢◌, refl, sym, ◌∙◌, ap, true, false, List, [], ◌∷◌, ◌++◌, arith, Bool-cases, inl, inr,
  ◌⊎◌,
}
use codex_monitor_group.Base.Sort.{sort_by, insert_by, text_ltb}
use codex_monitor_group.Base.Text.{Text}
use codex_monitor_group.Protocol.{
  Value, Fields, Items, field, object, array, cons, nil, written, write_canonical, write_items,
  by_key, comma, write_members,
}

text_ltb_trans : (a b c : Text) → text_ltb a b ≡ true → text_ltb b c ≡ true → text_ltb a c ≡ true
unfolding text_ltb
text_ltb_trans [] [] c h k = absurd (cc h)
text_ltb_trans [] (y ∷ b) [] h k = absurd (cc k)
text_ltb_trans [] (y ∷ b) (z ∷ c) h k = refl
text_ltb_trans (x ∷ a) [] c h k = absurd (cc h)
text_ltb_trans (x ∷ a) (y ∷ b) [] h k = absurd (cc k)
text_ltb_trans (x ∷ a) (y ∷ b) (z ∷ c) h k = ground (arith, text_ltb_trans a b c)

text_ltb_asym : (a b : Text) → text_ltb a b ≡ true → text_ltb b a ≡ false
unfolding text_ltb
text_ltb_asym [] [] h = refl
text_ltb_asym [] (y ∷ b) h = refl
text_ltb_asym (x ∷ a) [] h = absurd (cc h)
text_ltb_asym (x ∷ a) (y ∷ b) h = ground (arith, text_ltb_asym a b)

text_ltb_total : (a b : Text) → text_ltb a b ≡ false → text_ltb b a ≡ false → a ≡ b
unfolding text_ltb
text_ltb_total [] [] h k = refl
text_ltb_total [] (y ∷ b) h k = absurd (cc h)
text_ltb_total (x ∷ a) [] h k = absurd (cc k)
text_ltb_total (x ∷ a) (y ∷ b) h k = ground (arith, text_ltb_total a b)

abbrev Member : Type 0
Member = Text × Text

abbrev First : Member → Member → Type 0
First a b = (by_key a b ≡ true) × (by_key b a ≡ false)

-- Distinct keys: one way round or the other.
one_way : (a b : Member) → a.0 ≢ b.0 → First a b ⊎ First b a
one_way a b differ = elim (Bool-cases (by_key a b)) [
  | inl e ↦ inl (e, text_ltb_asym a.0 b.0 e)
  | inr e ↦ elim (Bool-cases (by_key b a)) [
    | inl f ↦ inr (f, e)
    | inr f ↦ absurd (differ (text_ltb_total a.0 b.0 e f))
  ]
]

-- A member below one of two that stands behind the other is below the other.
below : (a b z : Member) → a.0 ≢ b.0 → by_key z b ≡ true → by_key a b ≡ false → by_key z a ≡ true
below a b z differ less not_less =
    let flipped : by_key b a ≡ true = elim (Bool-cases (by_key b a)) [
      | inl f ↦ f
      | inr f ↦ absurd (differ (text_ltb_total a.0 b.0 not_less f))
    ] in
    text_ltb_trans z.0 b.0 a.0 less flipped

insert_commutes :
    (a b : Member) (xs : List Member)
    → a.0 ≢ b.0
    → insert_by by_key a (insert_by by_key b xs) ≡ insert_by by_key b (insert_by by_key a xs)
unfolding insert_by
insert_commutes a b [] differ = elim (one_way a b differ) [
  | inl (e, f) ↦ simp (e, f) refl
  | inr (e, f) ↦ simp (e, f) refl
]
insert_commutes a b (z ∷ zs) differ = elim (Bool-cases (by_key z b)) [
  | inl zb ↦ elim (Bool-cases (by_key z a)) [
    | inl za ↦ simp (zb, za) (ap (◌∷◌ z) (insert_commutes a b zs differ))
    | inr za ↦ elim (Bool-cases (by_key a b)) [
      | inl ab ↦ simp (zb, za, ab) refl
      | inr ab ↦ absurd (cc (below a b z differ zb ab, za))
    ]
  ]
  | inr zb ↦ elim (Bool-cases (by_key z a)) [
    | inl za ↦ elim (Bool-cases (by_key b a)) [
      | inl ba ↦ simp (zb, za, ba) refl
      | inr ba ↦ absurd (cc (below b a z (λ e. differ (sym e)) za ba, zb))
    ]
    | inr za ↦ elim (one_way a b differ) [
      | inl (e, f) ↦ simp (zb, za, e, f) refl
      | inr (e, f) ↦ simp (zb, za, e, f) refl
    ]
  ]
]

-- The same value, but for the order of the fields in it, at any depth; of fields that change
-- places the keys differ.
mutual
  pub data Alike : Value → Value → Type 0 where
    same : {value : Value} → Alike value value
    arrays : {items items' : Items} → AllAlike items items' → Alike (array items) (array items')
    objects :
        {fields fields' : Fields}
        → Reordered fields fields'
        → Alike (object fields) (object fields')

  pub data AllAlike : Items → Items → Type 0 where
    no_items : AllAlike nil nil
    both :
        {item item' : Value} {rest rest' : Items}
        → Alike item item'
        → AllAlike rest rest'
        → AllAlike (cons item rest) (cons item' rest')

  pub data Reordered : Fields → Fields → Type 0 where
    unmoved : {fields : Fields} → Reordered fields fields
    later :
        {key : Text} {value value' : Value} {rest rest' : Fields}
        → Alike value value'
        → Reordered rest rest'
        → Reordered (field key value rest) (field key value' rest')
    swapped :
        {key key' : Text} {value value' : Value} {rest : Fields}
        → key ≢ key'
        → Reordered
            (field key value (field key' value' rest))
            (field key' value' (field key value rest))
    chained : {a b c : Fields} → Reordered a b → Reordered b c → Reordered a c

mutual
  unfolding sort_by write_canonical

  write_canonical-Alike : (a b : Value) → Alike a b → write_canonical a ≡ write_canonical b
  write_canonical-Alike a b same = refl
  write_canonical-Alike a b (arrays {items = items} {items' = items'} r) =
      ap (λ (s : Text). b'[' ∷ (s ++ b']' ∷ [])) (items_same true items items' r)
  write_canonical-Alike a b (objects {fields = fields} {fields' = fields'} r) =
      ap (λ members. b'{' ∷ (write_members true members ++ b'}' ∷ []))
        (sorted_same fields fields' r)

  items_same :
      (first : Bool) (a b : Items) → AllAlike a b → write_items first a ≡ write_items first b
  items_same first a b no_items = refl
  items_same first a b (both {item = item} {item' = item'} {rest = rest} {rest' = rest'} r rs) =
      ap (λ (s : Text). comma first ++ (s ++ write_items false rest))
        (write_canonical-Alike item item' r)
      ∙ ap (λ (s : Text). comma first ++ (write_canonical item' ++ s))
          (items_same false rest rest' rs)

  sorted_same :
      (a b : Fields) → Reordered a b → sort_by by_key (written a) ≡ sort_by by_key (written b)
  sorted_same a b unmoved = refl
  sorted_same a b
        (later {key = key} {value = value} {value' = value'} {rest = rest} {rest' = rest'} v r) =
      ap (λ (s : Text). insert_by by_key (key, s) (sort_by by_key (written rest)))
        (write_canonical-Alike value value' v)
      ∙ ap (insert_by by_key (key, write_canonical value')) (sorted_same rest rest' r)
  sorted_same a b
        (swapped {key = key} {key' = key'} {value = value} {value' = value'} {rest = rest} differ) =
      insert_commutes (key, write_canonical value) (key', write_canonical value')
        (sort_by by_key (written rest)) differ
  sorted_same a b (chained {b = m} r r') = sorted_same a m r ∙ sorted_same m b r'

-- Two values that differ in the order of the fields of their objects alone, at any depth, where
-- fields that change places have different keys, are written as the same canonical text; so the
-- order in which Go visits the maps has no part in what is hashed and signed.
pub write_canonical-Reordered : (a b : Value) → Alike a b → write_canonical a ≡ write_canonical b
write_canonical-Reordered a b r = write_canonical-Alike a b r
