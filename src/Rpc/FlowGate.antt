-- ===== src/Rpc/FlowGate.antt =====
-- The credit gate of rpc/flow.go. Each operation is what it does under the gate's mutex; a channel is
-- a number, and an operation that closes channels returns them.
pub mod Laws
pub mod Tests
pub mod Channels
pub mod Interleaving
use godash.Common.{
  ℕ, ◌+◌, ◌≡◌, Bool, true, false, not, ◌&&◌, ◌||◌, List, [], ◌∷◌, ◌++◌, if◌then◌else◌, ltb, ◌==◌,
  add_int, sub_int, is_positive,
}

pub record FlowGate : Type 0 where
  pub bounded : Bool
  pub credits : ℕ
  pub closed : Bool
  pub waiters : List ℕ

pub new_flow_gate : FlowGate
new_flow_gate = record { bounded = false; credits = 0; closed = false; waiters = [] }

-- `AddCredits`: the gate after it, and the channels that it closes.
pub add_credits : FlowGate → ℕ → FlowGate × List ℕ
add_credits g n = if not (is_positive n) then (g, []) else (
  record {
    bounded = true;
    credits = add_int (if g.bounded then g.credits else 0) n;
    closed = g.closed;
    waiters = [];
  },
  g.waiters,
)

-- What one round of the loop of `Acquire` comes to. `parked` blocks on the channel that the round
-- made until that is closed or the context is done.
pub data Outcome : Type 0 where
  acquired refused parked : Outcome

-- One round, whose channel is `w` if it makes one.
pub attempt : FlowGate → ℕ → Outcome × FlowGate
attempt g w =
    if not g.bounded
    then (acquired, g)
    else if is_positive g.credits
    then (acquired, record g { credits = sub_int g.credits 1 })
    else if g.closed
    then (refused, g)
    else (parked, record g { waiters = g.waiters ++ w ∷ [] })

-- `append(waiters[:i], waiters[i+1:]...)` at the first place of `w`, if it has one.
pub remove : ℕ → List ℕ → List ℕ
remove w [] = []
remove w (x ∷ xs) = if x == w then xs else x ∷ remove w xs

-- The branch of `Acquire` on `ctx.Done()`.
pub withdraw : FlowGate → ℕ → FlowGate
withdraw g w = record g { waiters = remove w g.waiters }

-- `close`
unfoldable pub shut : FlowGate → FlowGate × List ℕ
shut g = (record g { closed = true; waiters = [] }, g.waiters)
