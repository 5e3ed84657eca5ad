-- ===== src/Rpc/FlowGate/Laws.antt =====
-- Laws of the single operations.
use godash.Common.{ℕ, ◌+◌, ◌<◌, ◌≡◌, ◌⊎◌, false, arith, int_half}
use godash.Rpc.FlowGate.{FlowGate, add_credits, acquired, attempt, shut}

-- Two positive grants that sum to less than 2^63 leave the gate that one grant of their sum leaves.
pub add_credits-add_credits :
    (g : FlowGate) (m n : ℕ)
    → 0 < m
    → 0 < n
    → m + n < int_half
    → (add_credits (add_credits g m).0 n).0 ≡ (add_credits g (m + n)).0
unfolding add_credits
add_credits-add_credits g m n hm hn h = ground arith

-- A closed gate still lets a round through while it is unbounded or has credits.
pub closed_acquires :
    (g : FlowGate) (w : ℕ)
    → (g.bounded ≡ false) ⊎ ((0 < g.credits) × (g.credits < int_half))
    → (attempt (shut g).0 w).0 ≡ acquired
unfolding attempt shut
closed_acquires g w h = ground arith
