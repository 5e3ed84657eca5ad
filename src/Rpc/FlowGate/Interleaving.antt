-- ===== src/Rpc/FlowGate/Interleaving.antt =====
-- Goroutines at one gate: every order of their rounds of `Acquire`, of grants, of cancellations and
-- of the close is a sequence of steps.
pub mod Invariant
pub mod Progress
pub mod Credits
pub mod Tests
use godash.Common.{
  In, ℕ, suc, ◌+◌, ◌<◌, ◌≡◌, ◌≢◌, ◌⊎◌, inl, inr, Bool, true, false, List, [], ◌∷◌, ◌++◌, All,
  if◌then◌else◌, is_positive, int_half,
}
use godash.Rpc.FlowGate.{
  FlowGate, new_flow_gate, add_credits, Outcome, acquired, refused, parked, attempt, remove,
  withdraw, shut,
}

-- The gate with the channels on which goroutines block, those closed so far, the name of the next
-- one, and the totals of credits granted and taken.
pub record System : Type 0 where
  pub gate : FlowGate
  pub next : ℕ
  pub blocked : List ℕ
  pub woken : List ℕ
  pub granted : ℕ
  pub taken : ℕ

pub start : System
unfolding new_flow_gate
start = record { gate = new_flow_gate; next = 0; blocked = []; woken = []; granted = 0; taken = 0 }

-- `AddCredits` by any goroutine.
pub after_grant : System → ℕ → System
unfolding add_credits
after_grant s n =
    let (g, closed) = add_credits s.gate n in
    record s {
      gate = g;
      woken = s.woken ++ closed;
      granted = if is_positive n then s.granted + n else s.granted;
    }

pub after_shut : System → System
unfolding shut
after_shut s = let (g, closed) = shut s.gate in record s { gate = g; woken = s.woken ++ closed }

-- What a round of `Acquire` that came to `o` leaves.
pub settle : System → Outcome × FlowGate → System
settle s (acquired, g) = record s {
  gate = g;
  taken = if s.gate.bounded then s.taken + 1 else s.taken;
}
settle s (refused, g) = record s { gate = g }
settle s (parked, g) = record s { gate = g; next = suc s.next; blocked = s.next ∷ s.blocked }

-- A round of `Acquire` by a goroutine that runs.
pub after_attempt : System → System
after_attempt s = settle s (attempt s.gate s.next)

-- The goroutine that blocked on `w` goes on: its channel is closed, or its context is done.
pub after_wake : System → ℕ → System
after_wake s w = record s { blocked = remove w s.blocked }

pub after_cancel : System → ℕ → System
unfolding withdraw
after_cancel s w = record s { gate = withdraw s.gate w; blocked = remove w s.blocked }

pub data Step (s : System) : System → Type 0 where
  grants : (n : ℕ) → Step s (after_grant s n)
  shuts : Step s (after_shut s)
  attempts : Step s (after_attempt s)
  wakes : (w : ℕ) → In w s.blocked → In w s.woken → Step s (after_wake s w)
  cancels : (w : ℕ) → In w s.blocked → Step s (after_cancel s w)

pub data Reach : System → Type 0 where
  here : Reach start
  next : {s t : System} → Reach s → Step s t → Reach t
