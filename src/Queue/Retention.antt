-- ===== src/Queue/Retention.antt =====
-- How long the queue keeps an item, in days.
use codex_monitor_group.Base.{ℕ, ◌*◌, ◌-◌, ◌≤◌, ◌<◌, ◌+◌, ◌^◌, ◌≡◌, false, arith, List}
use codex_monitor_group.Base.Int.{
  ℤ, pos, negsuc, int64, int64-pos, ◌*ℤ◌, ◌+ℤ◌, ◌-ℤ◌, ◌≤ℤ◌, ltb_ℤ, +ℤ_parts, -ℤ_parts,
}
use codex_monitor_group.Store.{Slot}
use codex_monitor_group.Queue.{Item, new, duration_of_days, day_ns, cutoff, is_fresh}

duration_exact : (days : ℕ) → days ≤ 106751 → duration_of_days (pos days) ≡ pos (days * day_ns)
unfolding duration_of_days ◌*ℤ◌
duration_exact days h = ground (arith, int64-pos (days * day_ns))

cutoff_exact : (now : ℤ) (d : ℕ) → d < 2 ^ 63 → cutoff now (pos d) ≡ now -ℤ pos d
unfolding cutoff int64 ◌-ℤ◌ ◌+ℤ◌
cutoff_exact now d h = ground arith

duration_wraps :
    (days : ℕ)
    → 106752 ≤ days
    → days ≤ 213503
    → duration_of_days (pos days) ≡ negsuc (2 ^ 64 - 1 - days * day_ns)
unfolding duration_of_days ◌*ℤ◌ int64
duration_wraps days low high = ground arith

cutoff_wraps : (now : ℤ) (d : ℕ) → d < 2 ^ 63 - 1 → cutoff now (negsuc d) ≡ now +ℤ pos (d + 1)
unfolding cutoff int64 ◌-ℤ◌
cutoff_wraps now d h = ground arith

module _ {ℓ} {E : Type ℓ} where
  -- With a retention of at most 106751 days an item survives a push exactly if it was created
  -- later than that many days before the time of the push.
  pub is_fresh_iff :
      (file : Slot (List (Item E))) (days : ℕ) (now : ℤ) (item : Item E)
      → days ≤ 106751
      → is_fresh (cutoff now (new file (pos days)).retention) item
        ≡ ltb_ℤ now (item.created_at +ℤ pos (days * day_ns))
  unfolding new
  is_fresh_iff file days now item h =
      rw (duration_exact days h, cutoff_exact now (days * day_ns) (omega arith))
        (ground (
          arith,
          -ℤ_parts now (pos (days * day_ns)),
          +ℤ_parts item.created_at (pos (days * day_ns)),
        ))

  -- The int64 of nanoseconds wraps: a retention between 106752 and 213503 days comes out negative,
  -- and every item created up to the time of the push is dropped.
  pub retention_wraps :
      (file : Slot (List (Item E))) (days : ℕ) (now : ℤ) (item : Item E)
      → 106752 ≤ days
      → days ≤ 213503
      → item.created_at ≤ℤ now
      → is_fresh (cutoff now (new file (pos days)).retention) item ≡ false
  unfolding new
  retention_wraps file days now item low high past =
      rw (duration_wraps days low high, cutoff_wraps now (2 ^ 64 - 1 - days * day_ns) (omega arith))
        (ground (arith, +ℤ_parts now (pos (2 ^ 64 - days * day_ns))))
