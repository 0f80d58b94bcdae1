-- ===== src/Telemetry/Headers.antt =====
-- What the expression of the section headers matches, and which names the loop takes for otel's.
use codex_monitor_group.Base.{
  ℕ, ◌≡◌, ◌≢◌, ◌⊎◌, refl, sym, ap, ◌∙◌, Bool-cases, inl, inr, true, false, [], ◌∷◌, ◌++◌, some, All,
  arith, subst, ◌==◌,
}
use codex_monitor_group.Base.Text.{Text, codes, text_eq, text_eq_iff, starts_with}
use codex_monitor_group.Telemetry.{
  is_blank, skip_blanks, until_bracket, section_name, is_otel, opened, closed, is_comment,
}

-- A tab, a line feed, a form feed, a carriage return or a space.
abbrev pub Blank : ℕ → Type 0
Blank c = (c ≡ 9) ⊎ ((c ≡ 10) ⊎ ((c ≡ 12) ⊎ ((c ≡ 13) ⊎ (c ≡ 32))))

-- Nothing, or a comment.
abbrev pub Comment : Text → Type 0
Comment [] = Unit
Comment (c ∷ _) = c ≡ b'#'

-- `[name]` with a name that is not empty and has no `]`, blanks on both sides, and a comment at most
-- behind it.
pub record IsHeader (line name : Text) : Type 0 where
  pub blanks : Text
  pub gap : Text
  pub rest : Text
  pub same : line ≡ blanks ++ b'[' ∷ (name ++ b']' ∷ (gap ++ rest))
  pub left : All Blank blanks
  pub right : All Blank gap
  pub behind : Comment rest
  pub present : name ≢ []
  pub inside : All (λ c. c ≢ b']') name

is_blank-Blank : (c : ℕ) → is_blank c ≡ true → Blank c
unfolding is_blank
is_blank-Blank c h = ground (arith, h)

Blank-is_blank : (c : ℕ) → Blank c → is_blank c ≡ true
unfolding is_blank
Blank-is_blank c h = ground (arith, h)

-- The text in front of what `skip_blanks` leaves.
skipped : (s : Text) → (blanks : Text) × All Blank blanks × (s ≡ blanks ++ skip_blanks s)
unfolding skip_blanks
skipped [] = ([], tt, refl)
skipped (c ∷ cs) = elim (Bool-cases (is_blank c)) [
  | inl e ↦
      let (blanks, all, same) = skipped cs in
      rw e (c ∷ blanks, (is_blank-Blank c e, all), ap (◌∷◌ c) same)
  | inr e ↦ rw e ([], tt, refl)
]

skip-over : (blanks s : Text) → All Blank blanks → skip_blanks (blanks ++ s) ≡ skip_blanks s
unfolding skip_blanks
skip-over [] s h = refl
skip-over (c ∷ cs) s h = rw (Blank-is_blank c h.0) (skip-over cs s h.1)

-- Nothing, or a bracket in front.
abbrev Bracketed : Text → Type 0
Bracketed [] = Unit
Bracketed (c ∷ _) = c ≡ b']'

split_at :
    (s : Text)
    → (s ≡ (until_bracket s).0 ++ (until_bracket s).1)
      × All (λ c. c ≢ b']') (until_bracket s).0
      × Bracketed (until_bracket s).1
unfolding until_bracket
split_at [] = (refl, tt, tt)
split_at (c ∷ cs) = elim (Bool-cases (c == b']')) [
  | inl e ↦ rw e (refl, tt, ground (arith, e))
  | inr e ↦
      let (same, all, next) = split_at cs in
      rw e (ap (◌∷◌ c) same, ((λ h. ground (arith, e, h)), all), next)
]

until-over :
    (name s : Text) → All (λ c. c ≢ b']') name → until_bracket (name ++ b']' ∷ s) ≡ (name, b']' ∷ s)
unfolding until_bracket
until-over [] s h = refl
until-over (c ∷ cs) s h =
    let e : (c == b']') ≡ false = ground (arith, h.0) in rw (e, until-over cs s h.1) refl

-- The header `[otel]`, and those whose name begins with `otel.`.
abbrev pub IsOtel : Text → Type 0
IsOtel name = (name ≡ codes "otel") ⊎ ((rest : Text) × (name ≡ codes "otel." ++ rest))

starts-with : (p s : Text) → starts_with p s ≡ true → (rest : Text) × (s ≡ p ++ rest)
unfolding starts_with
starts-with [] s h = (s, refl)
starts-with (x ∷ p) [] h = absurd (cc h)
starts-with (x ∷ p) (c ∷ s) h =
    let (rest, same) = starts-with p s (ground (arith, h)) in
    let e : x ≡ c = ground (arith, h) in (rest, rw (e, same) refl)

starts-over : (p rest : Text) → starts_with p (p ++ rest) ≡ true
unfolding starts_with
starts-over [] rest = refl
starts-over (x ∷ p) rest = ground (arith, starts-over p rest)

pub is_otel-IsOtel : (name : Text) → is_otel name ≡ true → IsOtel name
unfolding is_otel
is_otel-IsOtel name h = elim (Bool-cases (text_eq name (codes "otel"))) [
  | inl e ↦ inl ((text_eq_iff name (codes "otel")).0 e)
  | inr e ↦ inr (starts-with (codes "otel.") name (rw e at h))
]

pub is_otel-not : (name : Text) → is_otel name ≡ false → ¬ IsOtel name
unfolding is_otel
is_otel-not name h (inl e) =
    let same : text_eq name (codes "otel") ≡ true = (text_eq_iff name (codes "otel")).1 e in
    ground (arith, h, same)
is_otel-not name h (inr (rest, e)) =
    let starts : starts_with (codes "otel.") name ≡ true =
      subst (λ (s : Text). starts_with (codes "otel.") s ≡ true) (sym e)
        (starts-over (codes "otel.") rest) in
    ground (arith, h, starts)

closed_ok :
    (p : Text × Text) (name : Text)
    → closed p ≡ some name
    → (c : ℕ) × (rest : Text) × (p ≡ (name, c ∷ rest))
      × (is_comment (skip_blanks rest) ≡ true)
      × (name ≢ [])
closed_ok ([], rest) name h = absurd (cc h)
closed_ok (x ∷ xs, []) name h = absurd (cc h)
closed_ok (x ∷ xs, c ∷ rest) name h = elim (Bool-cases (is_comment (skip_blanks rest))) [
  | inl e ↦
      let same : x ∷ xs ≡ name = cc (h, e) in
      (
        c,
        rest,
        ap (λ (s : Text). (s, c ∷ rest)) same,
        e,
        λ none_left. absurd (cc (same, none_left)),
      )
  | inr e ↦ absurd (cc (h, e))
]

is_comment-Comment : (s : Text) → is_comment s ≡ true → Comment s
is_comment-Comment [] h = tt
is_comment-Comment (c ∷ cs) h = ground (arith, h)

Comment-is_comment : (s : Text) → Comment s → is_comment (skip_blanks s) ≡ true
unfolding skip_blanks is_blank
Comment-is_comment [] h = refl
Comment-is_comment (c ∷ cs) h = rw h refl

opened_ok :
    (s name : Text)
    → opened s ≡ some name
    → (r : Text) × (s ≡ b'[' ∷ r) × (closed (until_bracket r) ≡ some name)
opened_ok [] name h = absurd (cc h)
opened_ok (c ∷ r) name h = elim (Bool-cases (c == b'[')) [
  | inl e ↦ let same : c ≡ b'[' = ground (arith, e) in (r, ap (λ (x : ℕ). x ∷ r) same, rw e at h)
  | inr e ↦ absurd (cc (h, e))
]

-- What matches is such a header.
pub section_name-IsHeader : (line name : Text) → section_name line ≡ some name → IsHeader line name
unfolding section_name
section_name-IsHeader line name h =
    let (blanks, left, same) = skipped line in
    let (r, bracket, inner) = opened_ok (skip_blanks line) name h in
    let (c, behind, parts, comment, present) = closed_ok (until_bracket r) name inner in
    let (whole, inside, next) = split_at r in
    let (gap, right, rest_same) = skipped behind in
    let close : c ≡ b']' = subst (λ (p : Text × Text). Bracketed p.1) parts next in
    let split : r ≡ name ++ c ∷ behind = whole ∙ ap (λ (p : Text × Text). p.0 ++ p.1) parts in
    record {
      blanks = blanks;
      gap = gap;
      rest = skip_blanks behind;
      same =
          same
          ∙ ap (λ (s : Text). blanks ++ s)
              (bracket
                ∙ ap (λ (s : Text). b'[' ∷ s)
                    (split
                      ∙ ap (λ (s : Text). name ++ s)
                          (ap (λ (x : ℕ). x ∷ behind) close
                            ∙ ap (λ (s : Text). b']' ∷ s) rest_same)));
      left = left;
      right = right;
      behind = is_comment-Comment (skip_blanks behind) comment;
      present = present;
      inside = subst (λ (p : Text × Text). All (λ c. c ≢ b']') p.0) parts inside;
    }

bracket_stays : (s : Text) → skip_blanks (b'[' ∷ s) ≡ b'[' ∷ s
unfolding skip_blanks is_blank
bracket_stays s = refl

closed_named :
    (name rest : Text)
    → name ≢ []
    → is_comment (skip_blanks rest) ≡ true
    → closed (name, b']' ∷ rest) ≡ some name
closed_named [] rest present h = absurd (present refl)
closed_named (x ∷ xs) rest present h = rw h refl

-- Such a header matches, with this name.
pub IsHeader-section_name : (line name : Text) → IsHeader line name → section_name line ≡ some name
unfolding section_name
IsHeader-section_name line name h =
    let tail = h.gap ++ h.rest in
    let comment : is_comment (skip_blanks tail) ≡ true =
      rw (skip-over h.gap h.rest h.right) (Comment-is_comment h.rest h.behind) in
    let at_bracket : skip_blanks line ≡ b'[' ∷ (name ++ b']' ∷ tail) =
      ap skip_blanks h.same ∙ skip-over h.blanks _ h.left ∙ bracket_stays _ in
    rw (at_bracket, until-over name tail h.inside) (closed_named name tail h.present comment)
