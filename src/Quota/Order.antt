-- ===== src/Quota/Order.antt =====
-- The first of the newest snapshots of two lists, one behind the other.
use codex_monitor_group.Base.{
  ◌≡◌, refl, sym, ap, ◌∙◌, Bool-cases, inl, inr, List, [], ◌∷◌, ◌++◌, Option, none, some, All,
  All-append, All-map, arith, subst,
}
use codex_monitor_group.Base.Int.{ℤ, ◌≤ℤ◌, ◌<ℤ◌, ltb_ℤ}
use codex_monitor_group.Quota.{Observed, keep_newer, take_newer}
use mathlib.Core.List.{append-nil, append_assoc}

-- The first of the newest snapshots of a list, if there is one.
abbrev pub FirstNewest : List Observed → Option Observed → Type 0
FirstNewest xs none = xs ≡ []
FirstNewest xs (some x) =
    (before after : List Observed) × (xs ≡ before ++ x ∷ after)
    × All (λ y. y.1 <ℤ x.1) before
    × All (λ y. y.1 ≤ℤ x.1) after

earlier : (a b : ℤ) (xs : List Observed) → a ≤ℤ b → All (λ y. y.1 <ℤ a) xs → All (λ y. y.1 ≤ℤ b) xs
earlier a b xs h k = All-map (λ (y : Observed) (l : y.1 <ℤ a). omega (arith, h, l)) xs k

-- With a newer one behind them, the ones before it are older.
all_below :
    (xs before after : List Observed) (x : Observed) (b : ℤ)
    → xs ≡ before ++ x ∷ after
    → All (λ y. y.1 <ℤ x.1) before
    → All (λ y. y.1 ≤ℤ x.1) after
    → x.1 <ℤ b
    → All (λ y. y.1 <ℤ b) xs
all_below xs before after x b same older not_newer l =
    subst (All (λ (y : Observed). y.1 <ℤ b)) (sym same) (
      All-append (λ (y : Observed). y.1 <ℤ b) before (x ∷ after)
        (All-map (λ (y : Observed) (h : y.1 <ℤ x.1). omega (arith, h, l)) before older)
        (l, All-map (λ (y : Observed) (h : y.1 ≤ℤ x.1). omega (arith, h, l)) after not_newer))

none_above :
    (xs before after : List Observed) (x : Observed) (b : ℤ)
    → xs ≡ before ++ x ∷ after
    → All (λ y. y.1 <ℤ x.1) before
    → All (λ y. y.1 ≤ℤ x.1) after
    → x.1 ≤ℤ b
    → All (λ y. y.1 ≤ℤ b) xs
none_above xs before after x b same older not_newer l =
    subst (All (λ (y : Observed). y.1 ≤ℤ b)) (sym same) (
      All-append (λ (y : Observed). y.1 ≤ℤ b) before (x ∷ after)
        (All-map (λ (y : Observed) (h : y.1 <ℤ x.1). omega (arith, h, l)) before older)
        (l, All-map (λ (y : Observed) (h : y.1 ≤ℤ x.1). omega (arith, h, l)) after not_newer))

pub merged :
    (xs ys : List Observed) (o p : Option Observed)
    → FirstNewest xs o
    → FirstNewest ys p
    → FirstNewest (xs ++ ys) (take_newer o p)
unfolding keep_newer
merged xs ys none none h k = rw (h, k) refl
merged xs ys none (some y) h (before, after, same, older, not_newer) =
    (before, after, ap (λ zs. zs ++ ys) h ∙ same, older, not_newer)
merged xs ys (some x) none (before, after, same, older, not_newer) k =
    (before, after, ap (λ zs. xs ++ zs) k ∙ append-nil xs ∙ same, older, not_newer)
merged xs ys (some (s, at)) (some (t, at')) (before, after, same, older, not_newer)
      (before', after', same', older', not_newer') =
    elim (Bool-cases (ltb_ℤ at at')) [
      | inl e ↦
          let l : at <ℤ at' = ground (arith, e) in
          rw e (
            xs ++ before',
            after',
            ap (λ zs. xs ++ zs) same' ∙ sym (append_assoc xs before' _),
            All-append (λ (y : Observed). y.1 <ℤ at') xs before'
                (all_below xs before after (s, at) at' same older not_newer l) older',
            not_newer',
          )
      | inr e ↦
          let l : at' ≤ℤ at = ground (arith, e) in
          rw e (
            before,
            after ++ ys,
            ap (λ zs. zs ++ ys) same ∙ append_assoc before _ ys,
            older,
            All-append (λ (y : Observed). y.1 ≤ℤ at) after ys not_newer
                (none_above ys before' after' (t, at') at same' older' not_newer' l),
          )
    ]
