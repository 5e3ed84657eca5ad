-- ===== src/Rpc/Reverse.antt =====
-- Calls from Go to the page, rpc/rpc.go: `ReverseCall` and `receiveReverseResponse` with the maps
-- `reversePending` and `reverseID`. Each critical section is one function. A call makes one channel,
-- which is named by its port, and a channel of capacity 1 is the payload that it buffers, if any.
pub mod Interleaving
use godash.Common.{
  ℕ, ◌+◌, ◌≡◌, Bool, true, false, Option, none, some, List, [], ◌∷◌, if◌then◌else◌, ◌==◌, add_int,
}
use godash.Common.Assoc.{lookup, store, erase}

-- `chan []byte` of capacity 1.
abbrev pub Channel : Type 0
Channel = Option (List ℕ)

pub record Reverse : Type 0 where
  pub reverse_pending : List (ℕ × ℕ)
  pub reverse_id : ℕ
  pub channels : List (ℕ × Channel)

-- The first critical section of `ReverseCall`: the port of the call, and the state after it.
pub open_call : Reverse → ℕ × Reverse
open_call s =
    let reverse_port = add_int s.reverse_id 1 in
    (
      reverse_port,
      record {
        reverse_id = reverse_port;
        channels = store reverse_port none s.channels;
        reverse_pending = store reverse_port reverse_port s.reverse_pending;
      },
    )

-- The sections that end a call without a reply, after a failed push or a done context.
pub abandon : Reverse → ℕ → Reverse
abandon s reverse_port = record s { reverse_pending = erase reverse_port s.reverse_pending }

-- How a send on a channel ends.
pub data Sent : Type 0 where
  buffered blocks : Sent

-- `ch <- payload`
pub send : Reverse → ℕ → List ℕ → Sent × Reverse
send s ch payload = elim (lookup ch s.channels) [
  | some none ↦ (buffered, record s { channels = store ch (some payload) s.channels })
  | some (some _) ↦ (blocks, s)
  | none ↦ (blocks, s)
]

-- What `receiveReverseResponse` does with a reply.
pub data Receipt : Type 0 where
  unknown_port : Receipt
  passed : Sent → Receipt

-- `receiveReverseResponse`: under the lock the port leaves the map, then comes the send.
pub receive_reverse_response : Reverse → ℕ → List ℕ → Receipt × Reverse
receive_reverse_response s port payload = elim (lookup port s.reverse_pending) [
  | none ↦ (unknown_port, s)
  | some ch ↦
      let (sent, t) =
        send (record s { reverse_pending = erase port s.reverse_pending }) ch payload in
      (passed sent, t)
]

-- `payload := <-ch`: the payload that is returned, or nothing while the channel is empty.
pub take_reply : Reverse → ℕ → Option (List ℕ) × Reverse
take_reply s ch = elim (lookup ch s.channels) [
  | some (some payload) ↦ (some payload, record s { channels = store ch none s.channels })
  | some none ↦ (none, s)
  | none ↦ (none, s)
]
