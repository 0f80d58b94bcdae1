-- ===== src/Quota/Lines.antt =====
-- The lines of a log that `quotaFromFile` reads.
use codex_monitor_group.Base.{
  ℕ, ap, ◌==◌, ◌≢◌, ◌≡◌, ◌⊎◌, arith, leb, ltb, drop, ◌-◌, true, if◌then◌else◌, refl, Bool-cases,
  inl, inr, List, [], ◌∷◌, ◌++◌, All,
}
use codex_monitor_group.Base.Text.{Text}
use codex_monitor_group.Quota.{Handle, whole_lines, tail_start, tail_lines, raw_lines, prepend}

-- The lines of a text, in their order: none has a line feed, and the text is these with a line feed
-- behind each, or behind each but the last.
abbrev pub ended : List Text → Text
ended [] = []
ended (l ∷ ls) = l ++ b'\n' ∷ ended ls

abbrev pub IsLines : Text → List Text → Type 0
IsLines s lines =
    All (λ l. All (λ c. c ≢ b'\n') l) lines × ((s ≡ ended lines) ⊎ (s ++ b'\n' ∷ [] ≡ ended lines))

prepend-IsLines :
    (c : ℕ) (s : Text) (ls : List Text) → c ≢ b'\n' → IsLines s ls → IsLines (c ∷ s) (prepend c ls)
prepend-IsLines c s [] differs (_, inl e) =
    (((differs, tt), tt), inr (ap (λ (t : Text). c ∷ (t ++ b'\n' ∷ [])) e))
prepend-IsLines c [] [] differs (_, inr e) = absurd (cc e)
prepend-IsLines c (x ∷ xs) [] differs (_, inr e) = absurd (cc e)
prepend-IsLines c s (l ∷ ls) differs (h, inl e) = (((differs, h.0), h.1), inl (ap (◌∷◌ c) e))
prepend-IsLines c s (l ∷ ls) differs (h, inr e) = (((differs, h.0), h.1), inr (ap (◌∷◌ c) e))

pub raw_lines-IsLines : (s : Text) → IsLines s (raw_lines s)
unfolding raw_lines
raw_lines-IsLines [] = (tt, inl refl)
raw_lines-IsLines (c ∷ cs) =
    let (plain, whole) = raw_lines-IsLines cs in
    elim (Bool-cases (c == b'\n')) [
      | inl e ↦
          let same : c ≡ b'\n' = ground (arith, e) in
          rw e (
            (tt, plain),
            elim whole [
              | inl w ↦ inl (rw same (ap (◌∷◌ b'\n') w))
              | inr w ↦ inr (rw same (ap (◌∷◌ b'\n') w))
            ],
          )
      | inr e ↦
          let differs : c ≢ b'\n' = λ h. ground (arith, e, h) in
          rw e (prepend-IsLines c cs (raw_lines cs) differs (plain, whole))
    ]

-- The lines of a file of so many bytes that count: all lines where these are 4 MiB at most; otherwise
-- those of the last 4 MiB but the first, which is part of a line as a rule.
abbrev pub read_lines : Handle → ℕ → List Text
read_lines h size =
    if leb size 4_194_304
    then raw_lines h.content
    else drop 1 (raw_lines (drop (size - 4_194_304) h.content))

pub read_lines-tail :
    (h : Handle) (size : ℕ) → whole_lines (tail_start size) (tail_lines h size) ≡ read_lines h size
unfolding tail_start
read_lines-tail h size = elim (Bool-cases (leb size 4_194_304)) [
  | inl e ↦ let none_cut : size - 4_194_304 ≡ 0 = ground (arith, e) in rw (e, none_cut) refl
  | inr e ↦ let cut : ltb 0 (size - 4_194_304) ≡ true = ground (arith, e) in rw (e, cut) refl
]
