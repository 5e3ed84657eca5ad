-- ===== src/Rpc/FlowGate/Interleaving/Credits.antt =====
-- Credits are neither made up nor lost.
use godash.Common.{ℕ, ◌+◌, ◌<◌, ◌≤◌, ◌≡◌, ◌⊎◌, inl, inr, refl, subst, true, false, arith, int_half}
use godash.Rpc.FlowGate.{new_flow_gate, add_credits, attempt, shut, withdraw}
use godash.Rpc.FlowGate.Interleaving.{
  System, start, after_grant, after_shut, after_attempt, settle, after_wake, after_cancel, Step,
  grants, shuts, attempts, wakes, cancels, Reach, here, next,
}

abbrev Balanced : System → Type 0
Balanced s =
    ((s.gate.bounded ≡ false) × (s.granted ≡ 0) × (s.taken ≡ 0))
    ⊎ ((s.gate.bounded ≡ true) × (s.taken + s.gate.credits ≡ s.granted))

grant-Balanced :
    (s : System) (n : ℕ)
    → (after_grant s n).granted < int_half
    → Balanced s
    → Balanced (after_grant s n)
unfolding after_grant add_credits
grant-Balanced s n h b = ground arith

grant-grows : (s : System) (n : ℕ) → s.granted ≤ (after_grant s n).granted
unfolding after_grant add_credits
grant-grows s n = ground arith

attempt-Balanced : (s : System) → s.granted < int_half → Balanced s → Balanced (after_attempt s)
unfolding after_attempt attempt settle
attempt-Balanced s h b = ground arith

start-Balanced : Balanced start
unfolding start new_flow_gate
start-Balanced = inl (refl, refl, refl)

attempt-grants : (s : System) → (after_attempt s).granted ≡ s.granted
unfolding after_attempt attempt settle
attempt-grants s = ground arith

Step-Balanced :
    {s t : System}
    → Step s t
    → t.granted < int_half
    → (s.granted < int_half → Balanced s)
    → Balanced t
unfolding after_shut after_wake after_cancel shut withdraw
Step-Balanced {s} (grants n) h b = grant-Balanced s n h (b (omega (arith, h, grant-grows s n)))
Step-Balanced {s} shuts h b = b h
Step-Balanced {s} attempts h b =
    let same = subst (λ n. n < int_half) (attempt-grants s) h in attempt-Balanced s same (b same)
Step-Balanced {s} (wakes w _ _) h b = b h
Step-Balanced {s} (cancels w _) h b = b h

Reach-Balanced : {s : System} → Reach s → s.granted < int_half → Balanced s
Reach-Balanced here h = start-Balanced
Reach-Balanced (next r t) h = Step-Balanced t h (Reach-Balanced r)

-- In every interleaving whose grants sum to less than 2^63, the rounds of `Acquire` that returned
-- while the gate was bounded and the credits that are left make up exactly the credits granted.
pub credits_conserved :
    (s : System)
    → Reach s
    → s.granted < int_half
    → s.gate.bounded ≡ true
    → s.taken + s.gate.credits ≡ s.granted
credits_conserved s r h b = elim (Reach-Balanced r h) [ inl u ↦ cc | inr e ↦ e.1 ]
