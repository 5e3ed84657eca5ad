-- ===== src/Rpc/Calls/Interleaving.antt =====
-- Requests in flight at once: every order of beginnings, Cancel requests, ends and watchdog ticks is
-- a sequence of steps. The page numbers its requests so that no two in flight share a port.
pub mod Invariant
pub mod Tests
use godash.Common.{ℕ, ◌≡◌, Bool, Option, none, some, List, [], ◌∷◌}
use godash.Common.Assoc.{lookup}
use godash.Rpc.Calls.{Calls, InflightRequest, begin, cancel, finish, watch_slow_rpcs}

-- The state with the cancel functions that were made so far.
pub record System : Type 0 where
  pub calls : Calls
  pub made : List ℕ

pub start : System
start = record {
  calls = record { cancels = []; inflight = []; warned_slow = []; cancelled = [] };
  made = [];
}

pub data Step (s : System) : System → Type 0 where
  begins :
      (port f : ℕ) (info : InflightRequest)
      → lookup port s.calls.inflight ≡ none
      → Step s (record { calls = begin s.calls port f info; made = f ∷ s.made })
  cancels : (target : ℕ) → Step s (record s { calls = cancel s.calls target })
  finishes : (port : ℕ) → Step s (record s { calls = finish s.calls port })
  ticks :
      (streaming : List ℕ → Bool) (now : ℕ)
      → Step s (record s { calls = (watch_slow_rpcs streaming now s.calls).0 })

pub data Reach : System → Type 0 where
  here : Reach start
  next : {s t : System} → Reach s → Step s t → Reach t
