-- ===== src/Rpc/Dispatch/Tests.antt =====
-- An RPC request that is answered twice, with a response that cannot be marshalled between.
use godash.Common.{ℕ, ◌≡◌, refl, false, Option, none, some, List, [], ◌∷◌, if◌then◌else◌, ◌==◌}
use godash.Common.Assoc.{lookup}
use godash.Rpc.Dispatch.{Bytes, rpc_request, Request, State, Failure, App, call, forward}
use godash.Rpc.Reverse.Interleaving.{start, here}
use godash.Rpc.Dispatch.Restores.{IsFree, Restored, call-Restored}

abbrev marshal : ℕ → Option Bytes
marshal n = if n == 7 then none else some (n ∷ [])

abbrev error_response : Failure → ℕ → ℕ
error_response e code = 5

abbrev app : App ℕ
app = record { entry_point = none; handle_rpc = some (λ path payload. 1 ∷ 7 ∷ 2 ∷ []) }

abbrev idle : State
idle = record {
  calls = record { cancels = []; inflight = []; warned_slow = []; cancelled = [] };
  flow = record {
    flow_gates = λ port. none;
    pending_flow_credits = λ port. 0;
    gates = λ g. record { bounded = false; credits = 0; closed = false; waiters = [] };
  };
  reverse = record { reverse_pending = []; reverse_id = 0; channels = [] };
  native_push_port = 0;
}

abbrev request : Request
request = record { port = 3; requests = rpc_request (47 ∷ []) [] }

idle-IsFree : IsFree idle.calls 3
unfolding lookup
idle-IsFree = record { no_cancel = refl; no_request = refl; no_mark = refl }

forward-responses : forward marshal error_response app (1 ∷ 7 ∷ 2 ∷ []) ≡ (1 ∷ []) ∷ (2 ∷ []) ∷ []
unfolding forward
forward-responses = refl

call-Restored_test :
    (t : State) × (sent : List Bytes) × (call marshal error_response app false idle 1 2 9 request
      ≡ some (t, sent))
    × Restored 1 idle.calls t.calls
call-Restored_test =
    call-Restored marshal error_response (λ e code. (5 ∷ [], refl)) app idle 1 2 9 request
      (start, here, unfold start in refl) tt idle-IsFree
