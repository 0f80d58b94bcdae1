-- ===== src/Base/Sort.antt =====
-- sort.Strings, sort.Slice and sort.SliceStable: a stable insertion sort by a Boolean test.
use codex_monitor_group.Base.Tests.{Bool-cases, ltb, ◌==◌, if◌then◌else◌}
use codex_monitor_group.Base.Lists.{All}
use mathlib.Core.Path.{subst}
use mathlib.Core.Logic.{inl, inr}
use Prim.Native.Nat.{ℕ}
use mathlib.Core.Bool.{Bool, true, false, ◌&&◌, ◌||◌}
use mathlib.Core.List.{List, [], ◌∷◌}

module _ {ℓ} {A : Type ℓ} where
  -- In front of those that are equal: `x` stood before them.
  unfoldable pub insert_by : (A → A → Bool) → A → List A → List A
  insert_by less x [] = x ∷ []
  insert_by less x (y ∷ ys) = if less y x then y ∷ insert_by less x ys else x ∷ y ∷ ys

  unfoldable pub sort_by : (A → A → Bool) → List A → List A
  sort_by less [] = []
  sort_by less (x ∷ xs) = insert_by less x (sort_by less xs)

-- Code points in lexicographic order, which is the order of their UTF-8 bytes.
unfoldable pub text_ltb : List ℕ → List ℕ → Bool
text_ltb [] [] = false
text_ltb [] (d ∷ ds) = true
text_ltb (c ∷ cs) [] = false
text_ltb (c ∷ cs) (d ∷ ds) = ltb c d || (c == d && text_ltb cs ds)

-- Sorting keeps what holds of every element, both ways.
module _ {ℓ κ} {A : Type ℓ} (P : A → Type κ) (less : A → A → Bool) where
  All-insert_by : (x : A) (xs : List A) → P x → All P xs → All P (insert_by less x xs)
  unfolding insert_by
  All-insert_by x [] h hs = (h, tt)
  All-insert_by x (y ∷ ys) h hs = elim (Bool-cases (less y x)) [
    | inl e ↦ rw e (hs.0, All-insert_by x ys h hs.1)
    | inr e ↦ rw e (h, hs)
  ]

  All-insert_by_back : (x : A) (xs : List A) → All P (insert_by less x xs) → P x × All P xs
  unfolding insert_by
  All-insert_by_back x [] h = (h.0, tt)
  All-insert_by_back x (y ∷ ys) h = elim (Bool-cases (less y x)) [
    | inl e ↦
        let both : P y × All P (insert_by less x ys) =
          subst (λ b. All P (if b then y ∷ insert_by less x ys else x ∷ y ∷ ys)) e h in
        let back = All-insert_by_back x ys both.1 in (back.0, (both.0, back.1))
    | inr e ↦ subst (λ b. All P (if b then y ∷ insert_by less x ys else x ∷ y ∷ ys)) e h
  ]

  pub All-sort_by : (xs : List A) → All P xs → All P (sort_by less xs)
  unfolding sort_by
  All-sort_by [] h = h
  All-sort_by (x ∷ xs) h = All-insert_by x _ h.0 (All-sort_by xs h.1)

  pub All-sort_by_back : (xs : List A) → All P (sort_by less xs) → All P xs
  unfolding sort_by
  All-sort_by_back [] h = h
  All-sort_by_back (x ∷ xs) h =
      let back = All-insert_by_back x (sort_by less xs) h in (back.0, All-sort_by_back xs back.1)
