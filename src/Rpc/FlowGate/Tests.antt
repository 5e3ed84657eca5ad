-- ===== src/Rpc/FlowGate/Tests.antt =====
-- Concrete gates.
use godash.Common.{◌≡◌, inr, true, false, [], ◌∷◌, arith}
use godash.Rpc.FlowGate.{FlowGate, add_credits, acquired, attempt, shut}
use godash.Rpc.FlowGate.Laws.{add_credits-add_credits, closed_acquires}

-- Out of credits, with two goroutines that wait.
abbrev drained : FlowGate
drained = record { bounded = true; credits = 0; closed = false; waiters = 4 ∷ 6 ∷ [] }

abbrev stocked : FlowGate
stocked = record { bounded = true; credits = 2; closed = false; waiters = [] }

add_credits-add_credits_test :
    (add_credits (add_credits drained 3).0 4).0 ≡ (add_credits drained 7).0
add_credits-add_credits_test =
    add_credits-add_credits drained 3 4 (omega arith) (omega arith) (omega arith)

closed_acquires_test : (attempt (shut stocked).0 9).0 ≡ acquired
closed_acquires_test = closed_acquires stocked 9 (inr (omega arith, omega arith))
