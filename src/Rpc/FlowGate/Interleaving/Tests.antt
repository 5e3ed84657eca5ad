-- ===== src/Rpc/FlowGate/Interleaving/Tests.antt =====
-- Concrete runs at one gate.
use godash.Common.{In, ◌+◌, ◌≡◌, ◌⊎◌, inl, refl, true, false, [], ◌∷◌, is_positive, arith}
use godash.Rpc.FlowGate.{new_flow_gate, add_credits, attempt}
use godash.Rpc.FlowGate.Interleaving.{
  System, start, after_grant, after_attempt, settle, grants, attempts, Reach, here, next,
}
use godash.Rpc.FlowGate.Interleaving.Progress.{no_lost_wakeup}
use godash.Rpc.FlowGate.Interleaving.Credits.{credits_conserved}

-- One credit, taken; a goroutine that parks on channel 0.
abbrev one_parked : System
one_parked = after_attempt (after_attempt (after_grant start 1))

one_parked-Reach : Reach one_parked
one_parked-Reach = next (next (next here (grants 1)) attempts) attempts

-- Five more credits wake it.
abbrev one_woken : System
one_woken = after_grant one_parked 5

one_woken-Reach : Reach one_woken
one_woken-Reach = next one_parked-Reach (grants 5)

one_woken-blocked : one_woken.blocked ≡ 0 ∷ []
unfolding start after_grant after_attempt settle new_flow_gate add_credits attempt
one_woken-blocked = refl

one_woken-blocks : In 0 one_woken.blocked
unfolding start after_grant after_attempt settle new_flow_gate add_credits attempt
one_woken-blocks = inl refl

no_lost_wakeup_example :
    In 0 one_woken.woken
    ⊎ (In 0 one_woken.gate.waiters
        × (one_woken.gate.bounded ≡ true)
        × (is_positive one_woken.gate.credits ≡ false)
        × (one_woken.gate.closed ≡ false))
no_lost_wakeup_example = no_lost_wakeup one_woken 0 one_woken-Reach one_woken-blocks

credits_conserved_example : one_woken.taken + one_woken.gate.credits ≡ one_woken.granted
unfolding start after_grant after_attempt settle new_flow_gate add_credits attempt
credits_conserved_example = credits_conserved one_woken one_woken-Reach (omega arith) refl
