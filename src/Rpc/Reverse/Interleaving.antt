-- ===== src/Rpc/Reverse/Interleaving.antt =====
-- Calls to the page in flight at once: every order of new calls, failed pushes, cancellations,
-- replies and returns is a sequence of steps. A reply is one step, although its send comes after the
-- lock is released: once the channel has left the map, the one other user of it is its call, which
-- takes what is sent or ends without it.
pub mod Entries
pub mod Invariant
pub mod Replies
pub mod Tests
use godash.Common.{ℕ, ◌+◌, ◌<◌, ◌^◌, ◌≡◌, Bool, true, false, Option, none, some, List, [], int_half}
use godash.Common.Maps.{update}
use godash.Rpc.Reverse.{
  Reverse, open_call, abandon, receive_reverse_response, Receipt, unknown_port, passed, Sent,
  buffered, blocks, take_reply,
}

-- The state with the calls that wait, and the payload of the reply that each port's call accepted.
pub record System : Type 0 where
  pub reverse : Reverse
  pub waiting : ℕ → Bool
  pub accepted : ℕ → Option (List ℕ)

unfoldable pub start : System
start = record {
  reverse = record { reverse_pending = []; reverse_id = 0; channels = [] };
  waiting = λ _. false;
  accepted = λ _. none;
}

pub after_open : System → System
after_open s =
    let (port, reverse) = open_call s.reverse in
    record {
      reverse = reverse;
      waiting = update s.waiting port true;
      accepted = update s.accepted port none;
    }

pub after_abandon : System → ℕ → System
after_abandon s w = record s { reverse = abandon s.reverse w; waiting = update s.waiting w false }

-- What the receipt of a reply leaves.
pub settle : System → ℕ → List ℕ → Receipt × Reverse → System
settle s port payload (unknown_port, r) = record s { reverse = r }
settle s port payload (passed buffered, r) = record s {
  reverse = r;
  accepted = update s.accepted port (some payload);
}
settle s port payload (passed blocks, r) = record s { reverse = r }

-- A request `ReverseResponse` of the page.
pub after_reply : System → ℕ → List ℕ → System
after_reply s port payload = settle s port payload (receive_reverse_response s.reverse port payload)

-- The call of port `w` returns the payload in its channel.
pub after_return : System → ℕ → System
after_return s w = record s {
  reverse = (take_reply s.reverse w).1;
  waiting = update s.waiting w false;
}

pub data Step (s : System) : System → Type 0 where
  opens : s.reverse.reverse_id + 1 < int_half → Step s (after_open s)
  abandons : (w : ℕ) → s.waiting w ≡ true → Step s (after_abandon s w)
  replies : (port : ℕ) (payload : List ℕ) → Step s (after_reply s port payload)
  returns :
      (w : ℕ) (payload : List ℕ)
      → s.waiting w ≡ true
      → (take_reply s.reverse w).0 ≡ some payload
      → Step s (after_return s w)

pub data Reach : System → Type 0 where
  here : Reach start
  next : {s t : System} → Reach s → Step s t → Reach t
