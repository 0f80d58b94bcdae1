-- ===== src/Home/Choice.antt =====
-- Which of the valid homes is chosen.
use codex_monitor_group.Base.{
  ◌≡◌, sym, refl, Bool, true, false, List, [], ◌∷◌, Option, none, some, All, In, arith, Bool-cases,
  inl, inr, ltb, String, str_eq, if◌then◌else◌, ◌⊎◌, ap, Result, subst, not, err, ok,
}
use codex_monitor_group.Base.Sort.{sort_by, insert_by}
use codex_monitor_group.Home.Valid.{FirstAt, to_valid, from_valid}
use codex_monitor_group.Home.{
  CodexHomeResolution, CodexHomeCandidate, Disk, before, has_logs, is_configured, find_pinned,
  first_or, fallback, choose, valid_homes, inspect_codex_home, resolve_codex_home, or_best,
  inspect_at, Summary, summed, session_log_summary,
}

-- The first home has logs and the second has none, or they are alike in this and the first has
-- the later log.
abbrev pub beats : CodexHomeResolution → CodexHomeResolution → Bool
beats a b =
    if has_logs a
    then (if has_logs b then ltb b.latest_log a.latest_log else true)
    else (if has_logs b then false else ltb b.latest_log a.latest_log)

before-beats : (a b : CodexHomeResolution) → before a b ≡ true → beats b a ≡ false
unfolding before
before-beats a b h = ground arith

beats-before : (a b : CodexHomeResolution) → before a b ≡ false → beats a b ≡ false
unfolding before
beats-before a b h = ground arith

beats_trans :
    (a b c : CodexHomeResolution) → beats a b ≡ false → beats b c ≡ false → beats a c ≡ false
beats_trans a b c h k = ground arith

beats_self : (a : CodexHomeResolution) → beats a a ≡ false
beats_self a = ground arith

-- Nothing in the list beats the home.
abbrev pub Best : CodexHomeResolution → List CodexHomeResolution → Type 0
Best best valid = All (λ r. beats r best ≡ false) valid

Best-trans :
    (a b : CodexHomeResolution) (valid : List CodexHomeResolution)
    → beats b a ≡ false
    → Best b valid
    → Best a valid
Best-trans a b [] h all = tt
Best-trans a b (r ∷ rest) h all = (beats_trans r b a all.0 h, Best-trans a b rest h all.1)

Best-In :
    (best : CodexHomeResolution) (valid : List CodexHomeResolution) (r : CodexHomeResolution)
    → Best best valid
    → In r valid
    → beats r best ≡ false
Best-In best [] r h there = elim there [ ]
Best-In best (x ∷ xs) r h (inl e) =
    subst (λ (y : CodexHomeResolution). beats y best ≡ false) (sym e) h.0
Best-In best (x ∷ xs) r h (inr there) = Best-In best xs r h.1 there

-- The head of a list that is not empty stands in `valid` and is the best of it.
abbrev HeadBest : List CodexHomeResolution → List CodexHomeResolution → Type 0
HeadBest [] valid = valid ≡ []
HeadBest (h ∷ _) valid = In h valid × Best h valid

insert-HeadBest :
    (x : CodexHomeResolution) (sorted valid : List CodexHomeResolution)
    → HeadBest sorted valid
    → HeadBest (insert_by before x sorted) (x ∷ valid)
unfolding insert_by
insert-HeadBest x [] valid h = rw h (inl refl, (beats_self x, tt))
insert-HeadBest x (y ∷ ys) valid (there, best) = elim (Bool-cases (before y x)) [
  | inl e ↦ rw e (inr there, (before-beats y x e, best))
  | inr e ↦ rw e (inl refl, (beats_self x, Best-trans x y valid (beats-before y x e) best))
]

sort-HeadBest : (valid : List CodexHomeResolution) → HeadBest (sort_by before valid) valid
unfolding sort_by
sort-HeadBest [] = refl
sort-HeadBest (x ∷ xs) = insert-HeadBest x (sort_by before xs) xs (sort-HeadBest xs)

abbrev pub Pinned : CodexHomeResolution → Type 0
Pinned r = (is_configured r ≡ true) × (has_logs r ≡ true)

-- What the choice among the valid homes comes to.
abbrev pub Chosen : CodexHomeResolution → List CodexHomeResolution → CodexHomeResolution → Type 0
Chosen default valid r = ((valid ≡ []) × (r ≡ default)) ⊎ (In r valid × (Pinned r ⊎ Best r valid))

abbrev Found : Option CodexHomeResolution → List CodexHomeResolution → Type 0
Found none valid = Unit
Found (some r) valid = In r valid × Pinned r

Found-later :
    (r : CodexHomeResolution) (o : Option CodexHomeResolution) (rest : List CodexHomeResolution)
    → Found o rest
    → Found o (r ∷ rest)
Found-later r none rest h = tt
Found-later r (some s) rest (there, pinned) = (inr there, pinned)

find_pinned-Found : (valid : List CodexHomeResolution) → Found (find_pinned valid) valid
unfolding find_pinned
find_pinned-Found [] = tt
find_pinned-Found (r ∷ rest) = elim (Bool-cases (is_configured r)) [
  | inl e ↦ elim (Bool-cases (has_logs r)) [
    | inl l ↦ rw (e, l) (inl refl, (e, l))
    | inr l ↦ rw (e, l) (Found-later r (find_pinned rest) rest (find_pinned-Found rest))
  ]
  | inr e ↦ rw e (Found-later r (find_pinned rest) rest (find_pinned-Found rest))
]

or_best-Chosen :
    (default r : CodexHomeResolution) (rest sorted : List CodexHomeResolution)
    (o : Option CodexHomeResolution)
    → Found o (r ∷ rest)
    → HeadBest sorted (r ∷ rest)
    → Chosen default (r ∷ rest) (or_best o (first_or default sorted))
or_best-Chosen default r rest sorted (some s) (there, pinned) h = inr (there, inl pinned)
or_best-Chosen default r rest [] none found h = absurd (cc h)
or_best-Chosen default r rest (s ∷ ss) none found (there, best) = inr (there, inr best)

choose-Chosen :
    (default : CodexHomeResolution) (valid : List CodexHomeResolution)
    → Chosen default valid (choose default valid)
unfolding choose
choose-Chosen default [] = inl (refl, refl)
choose-Chosen default (r ∷ rest) =
    or_best-Chosen default r rest (sort_by before (r ∷ rest)) (find_pinned (r ∷ rest))
      (find_pinned-Found (r ∷ rest)) (sort-HeadBest (r ∷ rest))

-- What the home that is resolved comes to: no candidate is a Codex home, and it is the default; or
-- it is that of a candidate, and pinned or not beaten by the home of any candidate.
abbrev pub Resolved :
    Disk → CodexHomeResolution → List CodexHomeCandidate → CodexHomeResolution → Type 0
Resolved disk default candidates r =
    (((c : CodexHomeCandidate) → FirstAt disk candidates c → inspect_codex_home disk c ≡ none)
      × (r ≡ default))
    ⊎ ((c : CodexHomeCandidate) × FirstAt disk candidates c
        × (inspect_codex_home disk c ≡ some r)
        × (Pinned r
            ⊎ ((d : CodexHomeCandidate) (other : CodexHomeResolution)
                → FirstAt disk candidates d
                → inspect_codex_home disk d ≡ some other
                → beats other r ≡ false)))

module _ (disk : Disk) where
  not_found :
      (o : Option CodexHomeResolution) → ((r : CodexHomeResolution) → o ≡ some r → ⊥) → o ≡ none
  not_found none h = refl
  not_found (some r) h = absurd (h r refl)

  Chosen-Resolved :
      (default : CodexHomeResolution) (candidates : List CodexHomeCandidate)
      (r : CodexHomeResolution)
      → Chosen default (valid_homes disk [] candidates) r
      → Resolved disk default candidates r
  Chosen-Resolved default candidates r (inl (empty, same)) = inl (
    (λ c first. not_found (inspect_codex_home disk c) λ s found.
        subst (λ (v : List CodexHomeResolution). In s v) empty
          (to_valid disk [] candidates c s first refl found)),
    same,
  )
  Chosen-Resolved default candidates r (inr (there, why)) =
      let (c, first, _, found) = from_valid disk [] candidates r there in
      inr (
        c,
        first,
        found,
        elim why [
          | inl pinned ↦ inl pinned
          | inr best ↦ inr λ d other first_d found_d.
              Best-In r _ other best (to_valid disk [] candidates d other first_d refl found_d)
        ],
      )

-- The home that is resolved, of the configured path and the candidates, of which those without a
-- path and those with the same path as one before do not count: the configured path where none is
-- a Codex home; otherwise the home of one of them, which is the configured one with logs in it, or
-- one that the home of no other beats.
pub resolve-Chosen :
    (disk : Disk) (configured : String) (candidates : List CodexHomeCandidate)
    → Resolved disk
        (fallback disk configured)
        (record { path = configured; source = "configured" } ∷ candidates)
        (resolve_codex_home disk configured candidates)
unfolding resolve_codex_home
resolve-Chosen disk configured candidates = Chosen-Resolved disk _ _ _ (choose-Chosen _ _)

source-summed :
    (has_config : Bool) (path source : String) (s : Result Summary) (r : CodexHomeResolution)
    → summed has_config path source s ≡ some r
    → r.source ≡ source
source-summed has_config path source (err e) r h = absurd (cc h)
source-summed has_config path source (ok s) r h = ground (arith, h)

source-inspect_at :
    (disk : Disk) (source : String) (abs : Option String) (r : CodexHomeResolution)
    → inspect_at disk source abs ≡ some r
    → r.source ≡ source
source-inspect_at disk source none r e = absurd (cc e)
source-inspect_at disk source (some abs) r e = elim (Bool-cases (disk.is_dir (disk.clean abs))) [
  | inl d ↦
      source-summed (disk.has_config (disk.clean abs)) (disk.clean abs) source
        (session_log_summary (disk.sessions (disk.clean abs))
          (disk.archived_sessions (disk.clean abs)))
        r
        (subst
          (λ b.
            (if not b
              then none
              else summed (disk.has_config (disk.clean abs)) (disk.clean abs) source (
                  session_log_summary (disk.sessions (disk.clean abs))
                    (disk.archived_sessions (disk.clean abs))))
            ≡ some r)
          d e)
  | inr d ↦ absurd (cc (e, d))
]

source-inspect :
    (disk : Disk) (c : CodexHomeCandidate) (r : CodexHomeResolution)
    → inspect_codex_home disk c ≡ some r
    → r.source ≡ c.source
unfolding inspect_codex_home
source-inspect disk c r e = source-inspect_at disk c.source (disk.abs c.path) r e

-- A configured home that is there and has logs stays, whatever the other candidates are.
pub resolve_pinned :
    (disk : Disk) (configured : String) (candidates : List CodexHomeCandidate)
    (r : CodexHomeResolution)
    → disk.blank configured ≡ false
    → inspect_codex_home disk (record { path = configured; source = "configured" }) ≡ some r
    → has_logs r ≡ true
    → resolve_codex_home disk configured candidates ≡ r
unfolding resolve_codex_home choose valid_homes find_pinned
resolve_pinned disk configured candidates r there found logs =
    let source = source-inspect disk _ r found in
    let configured_r : is_configured r ≡ true = ap (λ x. str_eq x "configured") source in
    rw (there, found, configured_r, logs) refl
