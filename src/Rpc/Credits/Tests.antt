-- ===== src/Rpc/Credits/Tests.antt =====
-- Concrete grants and registrations.
use godash.Common.{
  ℕ, if◌then◌else◌, ◌==◌, ◌≡◌, ◌≢◌, ◌⊎◌, refl, true, false, none, some, [], ◌∷◌, arith,
}
use godash.Rpc.Credits.{Flow, register_flow_gate, unregister_flow_gate, credit, receive_flow_credit}
use godash.Rpc.Credits.Wire.{grant_payload, receive_flow_credit_lem}
use godash.Rpc.Credits.Laws.{register_flow_gate-credit, unregister_flow_gate_lem}

-- Three credits wait for port 7, and gate 1 serves port 8.
abbrev two_streams : Flow
two_streams = record {
  flow_gates = λ port. if port == 8 then some 1 else none;
  pending_flow_credits = λ port. if port == 7 then 3 else 0;
  gates = λ g. record { bounded = true; credits = 0; closed = false; waiters = 5 ∷ [] };
}

receive_flow_credit_lem_example :
    receive_flow_credit two_streams (grant_payload 7 2) ≡ credit two_streams 7 2
receive_flow_credit_lem_example =
    receive_flow_credit_lem two_streams 7 2 (omega arith) (omega arith)

register_flow_gate-credit_example :
    (register_flow_gate (credit two_streams 7 2).0 7 4).0
    ≡ (credit (register_flow_gate two_streams 7 4).0 7 2).0
register_flow_gate-credit_example = register_flow_gate-credit two_streams 7 4 2 refl (omega arith)

unregister_flow_gate_lem_test :
    (((unregister_flow_gate two_streams 8 1).0.flow_gates 8 ≡ none)
      ⊎ ((h : ℕ) × (h ≢ 1) × ((unregister_flow_gate two_streams 8 1).0.flow_gates 8 ≡ some h)))
    × (((unregister_flow_gate two_streams 8 1).0.gates 1).closed ≡ true)
    × (((unregister_flow_gate two_streams 8 1).0.gates 1).waiters ≡ [])
    × ((unregister_flow_gate two_streams 8 1).1 ≡ (two_streams.gates 1).waiters)
unregister_flow_gate_lem_test = unregister_flow_gate_lem two_streams 8 1
