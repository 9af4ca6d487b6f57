-- ===== src/Finality/Threshold.antt =====
-- The float comparison of `process_vote` (agent/modules/consensus_engine.py, line 190) against the
-- exact fraction two thirds.
use bitchchain.Base.{ℕ, ◌*◌, ◌^◌, ◌≤◌, ◌<◌, ◌≡◌, ◌↔◌, true, arith, ltb→lt, lt→ltb}
use bitchchain.Finality.{reaches_threshold}

-- For a total stake from 1 to 3,602,879,701,896,396 satoshis, which is more than the 21 million
-- coins that can exist, the float test is exactly "at least two thirds".
pub reaches_threshold_iff :
    (voted total : ℕ)
    → 0 < total
    → total ≤ 3_602_879_701_896_396
    → (reaches_threshold voted total ≡ true) ↔ (2 * total ≤ 3 * voted)
unfolding reaches_threshold
reaches_threshold_iff voted total some_stake small = (
  λ h. omega (arith, ltb→lt (12009599006321321 * total) (voted * 2 ^ 54) h),
  λ h. lt→ltb (12009599006321321 * total) (voted * 2 ^ 54) (omega arith),
)
