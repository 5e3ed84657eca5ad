-- ===== src/Rpc/FlowGate/Interleaving/Progress.antt =====
-- What a goroutine that blocks in `Acquire` can rely on.
use godash.Common.{In, All-In, ℕ, ◌≡◌, ◌⊎◌, inl, inr, true, false, is_positive, subst}
use godash.Rpc.FlowGate.Interleaving.{System, Reach}
use godash.Rpc.FlowGate.Interleaving.Invariant.{Reach-Inv}

-- In every interleaving of rounds of `Acquire`, grants, cancellations, wake-ups and the close, a
-- goroutine that blocks on a channel either finds it closed, or is still registered at a gate that
-- is bounded, open and has no credit: no wake-up is lost.
pub no_lost_wakeup :
    (s : System) (w : ℕ)
    → Reach s
    → In w s.blocked
    → In w s.woken
      ⊎ (In w s.gate.waiters
          × (s.gate.bounded ≡ true)
          × (is_positive s.gate.credits ≡ false)
          × (s.gate.closed ≡ false))
no_lost_wakeup s w r m = elim (All-In _ w s.blocked (Reach-Inv r).covered m) [
  | inl k ↦ elim (Reach-Inv r).quiet [
    | inl e ↦ absurd (subst (In w) e k)
    | inr q ↦ inr (k, q.0, q.1, q.2)
  ]
  | inr k ↦ inl k
]
