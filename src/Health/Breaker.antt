-- ===== src/Health/Breaker.antt =====
-- The circuit breaker of `hiddenIds`.
use pytone_digital.Prelude.{ℕ, ◌*◌, ◌≤◌, ◌<◌, ◌≡◌, false, none, some, arith, length}
use pytone_digital.Double.Bounds.{exceeds_seven_tenths_bounds}
use pytone_digital.Health.{World, read}
use pytone_digital.Health.Reports.{refuses, hidden_ids, hidden_in}

-- With the override off, at most seven tenths of a playlist are hidden, and if fewer than that
-- failed, all those that failed are.
pub hidden_ids_breaker :
    (now total : ℕ) (w : World)
    → total < 4294967296
    → 0 < total
    → w.hide_anyway ≡ false
    → (10 * length (hidden_ids now (some total) w).0 ≤ 7 * total)
      × (10 * length (hidden_ids now none w).0 < 7 * total
          → (hidden_ids now (some total) w).0 ≡ (hidden_ids now none w).0)
unfolding hidden_ids refuses
hidden_ids_breaker now total w small pos off =
    ground (
      arith,
      exceeds_seven_tenths_bounds (length (hidden_in (read now w).0)) total small,
      off_after,
    )
  where
    off_after : (read now w).1.hide_anyway ≡ false
    off_after = unfold read in ground arith
