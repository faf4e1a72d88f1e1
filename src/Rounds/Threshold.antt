-- ===== src/Rounds/Threshold.antt =====
-- The consensus threshold (packages/valory/skills/abstract_round_abci/utils.py).
use open_autonomy.Prelude.{ℕ, ◌+◌, ◌-◌, ◌*◌, ◌/◌, ◌≤◌, ◌<◌, arith}

-- `ceil((2 * nb + 1) / 3)`, in whole numbers
unfoldable pub consensus_threshold : ℕ → ℕ
consensus_threshold nb = (2 * nb + 1 + 2) / 3

-- Two groups of at least the threshold, among `nb` agents, have more than a third of the agents in
-- common, and fewer than a third of the agents being down leaves enough to reach it.
pub consensus_threshold_quorum :
    (nb p q common faulty : ℕ)
    → consensus_threshold nb ≤ p
    → consensus_threshold nb ≤ q
    → p + q ≤ nb + common
    → 3 * faulty < nb
    → (nb < 3 * common) × (consensus_threshold nb + faulty ≤ nb)
unfolding consensus_threshold
consensus_threshold_quorum nb p q common faulty a b c d = (omega arith, omega arith)

pub threshold_bounds :
    (nb : ℕ)
    → 0 < nb
    → (0 < consensus_threshold nb)
      × (consensus_threshold nb ≤ nb)
      × (nb < 2 * consensus_threshold nb)
unfolding consensus_threshold
threshold_bounds nb h = omega arith

-- No smaller number would do: with one vote less, two groups can have no more than a third in common.
pub consensus_threshold_least :
    (nb t : ℕ) → nb < 3 * (2 * t - nb) → nb ≤ 2 * t → consensus_threshold nb ≤ t
unfolding consensus_threshold
consensus_threshold_least nb t h k = omega arith
