-- ===== src/Home/Valid.antt =====
-- The valid homes are those of the candidates that are the first at their paths.
use mathlib.Core.Bool.{false≢true}
use codex_monitor_group.Base.{
  ◌≡◌, ◌≢◌, sym, ◌∙◌, eq_iff, refl, true, false, List, [], ◌∷◌, Option, none, some, In, arith,
  Bool-cases, inl, inr, String, ◌⊎◌, ap, subst,
}
use codex_monitor_group.Home.{
  CodexHomeResolution, CodexHomeCandidate, Disk, valid_homes, inspect_codex_home, path_key, is_seen,
  keep,
}

-- A candidate with a path, and no candidate with the same path in front of it.
abbrev pub FirstAt : Disk → List CodexHomeCandidate → CodexHomeCandidate → Type 0
FirstAt disk [] c = ⊥
FirstAt disk (d ∷ rest) c =
    ((c ≡ d) × (disk.blank d.path ≡ false))
    ⊎ (FirstAt disk rest c
        × ((disk.blank d.path ≡ true) ⊎ (path_key disk d.path ≢ path_key disk c.path)))

In-keep :
    (r : CodexHomeResolution) (o : Option CodexHomeResolution) (valid : List CodexHomeResolution)
    → In r valid
    → In r (keep o valid)
In-keep r none valid h = h
In-keep r (some s) valid h = inr h

In-kept :
    (r : CodexHomeResolution) (o : Option CodexHomeResolution) (valid : List CodexHomeResolution)
    → In r (keep o valid)
    → (o ≡ some r) ⊎ In r valid
In-kept r none valid h = inr h
In-kept r (some s) valid (inl e) = inl (ap some (sym e))
In-kept r (some s) valid (inr h) = inr h

not_seen :
    (k key : String) (seen : List String)
    → key ≢ k
    → is_seen k seen ≡ false
    → is_seen k (key ∷ seen) ≡ false
not_seen k key seen differ h =
    let differ' : k ≢ key = λ e. differ (sym e) in ground (arith, h, eq_iff k key, differ')

unseen :
    (k key : String) (seen : List String)
    → is_seen k (key ∷ seen) ≡ false
    → (key ≢ k) × (is_seen k seen ≡ false)
unseen k key seen h = (λ e. ground (arith, h, (eq_iff k key).1 (sym e)), ground (arith, h))

module _ (disk : Disk) where
  -- The home of a candidate that is the first at its path is among the valid ones.
  pub to_valid :
      (seen : List String) (candidates : List CodexHomeCandidate) (c : CodexHomeCandidate)
      (r : CodexHomeResolution)
      → FirstAt disk candidates c
      → is_seen (path_key disk c.path) seen ≡ false
      → inspect_codex_home disk c ≡ some r
      → In r (valid_homes disk seen candidates)
  unfolding valid_homes
  to_valid seen [] c r first new found = elim first [ ]
  to_valid seen (d ∷ rest) c r (inl (e, there)) new found =
      let new' : is_seen (path_key disk d.path) seen ≡ false =
        subst (λ (x : CodexHomeCandidate). is_seen (path_key disk x.path) seen ≡ false) e new in
      let found' : inspect_codex_home disk d ≡ some r =
        subst (λ (x : CodexHomeCandidate). inspect_codex_home disk x ≡ some r) e found in
      rw (there, new', found') (inl refl)
  to_valid seen (d ∷ rest) c r (inr (first, inl blank)) new found =
      rw blank (to_valid seen rest c r first new found)
  to_valid seen (d ∷ rest) c r (inr (first, inr differ)) new found =
      elim (Bool-cases (disk.blank d.path)) [
        | inl b ↦ rw b (to_valid seen rest c r first new found)
        | inr b ↦ elim (Bool-cases (is_seen (path_key disk d.path) seen)) [
          | inl s ↦ rw (b, s) (to_valid seen rest c r first new found)
          | inr s ↦
              rw (b, s)
                (In-keep r (inspect_codex_home disk d) _ (
                  to_valid (path_key disk d.path ∷ seen) rest c r first
                    (not_seen (path_key disk c.path) (path_key disk d.path) seen differ new) found))
        ]
      ]

  -- A valid home is that of a candidate that is the first at its path.
  pub from_valid :
      (seen : List String) (candidates : List CodexHomeCandidate) (r : CodexHomeResolution)
      → In r (valid_homes disk seen candidates)
      → (c : CodexHomeCandidate) × FirstAt disk candidates c
        × (is_seen (path_key disk c.path) seen ≡ false)
        × (inspect_codex_home disk c ≡ some r)
  unfolding valid_homes
  from_valid seen [] r there = elim there [ ]
  from_valid seen (d ∷ rest) r there = elim (Bool-cases (disk.blank d.path)) [
    | inl b ↦
        let (c, first, new, found) = from_valid seen rest r (rw b at there) in
        (c, inr (first, inl b), new, found)
    | inr b ↦ elim (Bool-cases (is_seen (path_key disk d.path) seen)) [
      | inl s ↦
          let (c, first, new, found) = from_valid seen rest r (rw (b, s) at there) in
          let differ : path_key disk d.path ≢ path_key disk c.path = λ e.
            absurd (false≢true (sym new ∙ (ap (λ (k : String). is_seen k seen) (sym e) ∙ s))) in
          (c, inr (first, inr differ), new, found)
      | inr s ↦ elim (In-kept r (inspect_codex_home disk d) _ (rw (b, s) at there)) [
        | inl found ↦ (d, inl (refl, b), s, found)
        | inr later ↦
            let (c, first, new, found) = from_valid (path_key disk d.path ∷ seen) rest r later in
            let (differ, new') = unseen (path_key disk c.path) (path_key disk d.path) seen new in
            (c, inr (first, inr differ), new', found)
      ]
    ]
  ]
