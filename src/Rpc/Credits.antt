-- ===== src/Rpc/Credits.antt =====
-- The routing of credit grants to gates, rpc/flow.go: the maps `flowGates` and `pendingFlowCredits` of
-- the `rpc` value and the three functions that use them. A gate is named by a number, as the code names
-- it by its pointer; an int64 port is a bit pattern below 2^64, and a missing key of
-- `pendingFlowCredits` reads 0. An operation returns the channels that its grant or close closes.
pub mod Wire
pub mod Laws
pub mod Tests
use godash.Common.{
  ℕ, ◌+◌, ◌*◌, ◌≡◌, Bool, true, false, not, Option, none, some, List, [], ◌∷◌, if◌then◌else◌, ltb,
  ◌==◌, length, take, drop, add_int, is_positive, int_of_int32,
}
use godash.Common.Maps.{update}
use godash.Rpc.FlowGate.{FlowGate, add_credits, shut}

pub record Flow : Type 0 where
  pub flow_gates : ℕ → Option ℕ
  pub pending_flow_credits : ℕ → ℕ
  pub gates : ℕ → FlowGate

-- `g.AddCredits(n)` on the gate that `g` points to.
pub grant : Flow → ℕ → ℕ → Flow × List ℕ
grant s g n =
    let (gate, closed) = add_credits (s.gates g) n in
    (record s { gates = update s.gates g gate }, closed)

-- `registerFlowGate`
pub register_flow_gate : Flow → ℕ → ℕ → Flow × List ℕ
register_flow_gate s port g =
    let pending = s.pending_flow_credits port in
    let stored = record s {
      flow_gates = update s.flow_gates port (some g);
      pending_flow_credits = update s.pending_flow_credits port 0;
    } in
    if is_positive pending then grant stored g pending else (stored, [])

-- `r.flowGates[port] == g` for a pointer `g` that is not nil.
pub points_to : Option ℕ → ℕ → Bool
points_to none g = false
points_to (some h) g = h == g

-- `unregisterFlowGate`, which its one caller calls with a gate.
pub unregister_flow_gate : Flow → ℕ → ℕ → Flow × List ℕ
unregister_flow_gate s port g =
    let kept =
      if points_to (s.flow_gates port) g
      then record s { flow_gates = update s.flow_gates port none }
      else s in
    let (gate, closed) = shut (s.gates g) in (record kept { gates = update s.gates g gate }, closed)

-- `flowCreditPayloadLen`
abbrev pub flow_credit_payload_len : ℕ
flow_credit_payload_len = 12

-- The number of a little-endian sequence of bytes.
pub little_endian : List ℕ → ℕ
little_endian [] = 0
little_endian (b ∷ bs) = b + 256 * little_endian bs

-- The part of `receiveFlowCredit` after the payload is decoded.
pub credit : Flow → ℕ → ℕ → Flow × List ℕ
credit s port credits = if not (is_positive credits) then (s, []) else elim (s.flow_gates port) [
  | none ↦ (
    record s {
      pending_flow_credits =
          update s.pending_flow_credits port (add_int (s.pending_flow_credits port) credits);
    },
    [],
  )
  | some g ↦ grant s g credits
]

pub receive_flow_credit : Flow → List ℕ → Flow × List ℕ
receive_flow_credit s payload =
    if ltb (length payload) flow_credit_payload_len
    then (s, [])
    else credit s (little_endian (take 8 payload))
        (int_of_int32 (little_endian (take 4 (drop 8 payload))))
