-- ===== src/Rpc/Dispatch.antt =====
-- One request from its arrival to its end, rpc/rpc.go: `Call`, `requestMeta` and `sendError`. What
-- other goroutines do meanwhile is in the step relations of the parts. A text is a list of bytes. The
-- messages of the runtime and their marshalling are parameters; `none` is the panic of `sendError`, or
-- a send on the channel of a reverse call that blocks for ever, so that the request has no end.
pub mod Restores
pub mod Tests
use godash.Common.{
  ℕ, ◌≡◌, Bool, true, false, ◌&&◌, Option, none, some, List, [], ◌∷◌, ◌++◌, if◌then◌else◌, ◌==◌,
}
use godash.Common.Maps.{update}
use godash.Rpc.FlowGate.{new_flow_gate}
use godash.Rpc.Credits.{Flow, register_flow_gate, unregister_flow_gate, receive_flow_credit}
use godash.Rpc.Reverse.{
  Reverse, Receipt, unknown_port, passed, buffered, blocks, receive_reverse_response,
}
use godash.Rpc.Calls.{Calls, InflightRequest, begin, cancel, finish}

abbrev pub Bytes : Type 0
Bytes = List ℕ

-- The one-of of `pb.Request`; `unset` is every other value.
pub data Requests : Type 0 where
  cancel_request : ℕ → Requests
  init_request : Bytes → Bytes → ℕ → Requests
  rpc_request : Bytes → Bytes → Requests
  reverse_response : ℕ → Bytes → Requests
  unset : Requests

pub record Request : Type 0 where
  pub port : ℕ
  pub requests : Requests

-- The kind and the path that `requestMeta` gives.
pub request_meta : Requests → Bytes × Bytes
request_meta (rpc_request path payload) = (114 ∷ 112 ∷ 99 ∷ [], path)
request_meta (init_request dir key push_port) = (105 ∷ 110 ∷ 105 ∷ 116 ∷ [], [])
request_meta (cancel_request target) = (99 ∷ 97 ∷ 110 ∷ 99 ∷ 101 ∷ 108 ∷ [], [])
request_meta (reverse_response port payload) = (
  114 ∷ 101 ∷ 118 ∷ 101 ∷ 114 ∷ 115 ∷ 101 ∷ 95 ∷ 114 ∷ 101 ∷ 115 ∷ 112 ∷ 111 ∷ 110 ∷ 115 ∷ 101 ∷ [],
  [],
)
request_meta unset = (117 ∷ 110 ∷ 107 ∷ 110 ∷ 111 ∷ 119 ∷ 110 ∷ [], [])

-- `"/database.db"`
abbrev pub database : Bytes
database = 47 ∷ 100 ∷ 97 ∷ 116 ∷ 97 ∷ 98 ∷ 97 ∷ 115 ∷ 101 ∷ 46 ∷ 100 ∷ 98 ∷ []

pub database_path : Bytes → Bytes
database_path [] = database
database_path (b ∷ dir) = (b ∷ dir) ++ database

-- `FlowCreditPath`, "/godash.flow/Credit".
abbrev pub flow_credit_path : Bytes
flow_credit_path =
    47 ∷ 103 ∷ 111 ∷ 100 ∷ 97 ∷ 115 ∷ 104 ∷ 46 ∷ 102 ∷ 108 ∷ 111 ∷ 119 ∷ 47 ∷ 67 ∷ 114 ∷ 101 ∷ 100
    ∷ 105 ∷ 116 ∷ []

pub same_path : Bytes → Bytes → Bool
same_path [] [] = true
same_path [] (c ∷ cs) = false
same_path (b ∷ bs) [] = false
same_path (b ∷ bs) (c ∷ cs) = (b == c) && same_path bs cs

-- The parts of the `rpc` value that a request uses.
pub record State : Type 0 where
  pub calls : Calls
  pub flow : Flow
  pub reverse : Reverse
  pub native_push_port : ℕ

-- The messages of `sendError`.
pub data Failure : Type 0 where
  entry_point_unset handler_unset unsupported_request : Failure
  entry_point_failed : Bytes → Failure

-- What the application sets: `entryPoint`, which returns the message of its error if it fails, and
-- `handleRPC`, whose responses are listed in the order in which it sends them.
pub record App {ℓ} (Response : Type ℓ) : Type ℓ where
  pub entry_point : Option (Bytes → Bytes → Option Bytes)
  pub handle_rpc : Option (Bytes → Bytes → List Response)

module _ {ℓ} {Response : Type ℓ} (marshal : Response → Option Bytes)
    (error_response : Failure → ℕ → Response) (app : App Response) where
  -- `sendError`, at the end of a request.
  pub send_error : State → Failure → ℕ → Option (State × List Bytes)
  send_error s failure code = elim (marshal (error_response failure code)) [
    | none ↦ none
    | some e ↦ some (s, e ∷ [])
  ]

  -- The loop over `rpcCh`; what cannot be marshalled is passed over.
  pub forward : List Response → List Bytes
  forward [] = []
  forward (resp ∷ rest) =
      let sent = forward rest in elim (marshal resp) [ none ↦ sent | some e ↦ e ∷ sent ]

  pub init : State → Bytes → Bytes → Option (State × List Bytes)
  init s dir key = elim app.entry_point [
    | none ↦ send_error s entry_point_unset 500
    | some entry ↦ elim (entry (database_path dir) key) [
      | none ↦ some (s, [])
      | some message ↦ send_error s (entry_point_failed message) 500
    ]
  ]

  -- The case of `pb.Request_RpcRequest`, for the name `g` of the new gate.
  pub rpc : State → ℕ → ℕ → Bytes → Bytes → Option (State × List Bytes)
  rpc s port g path payload =
      if same_path path flow_credit_path
      then some (record s { flow = (receive_flow_credit s.flow payload).0 }, [])
      else elim app.handle_rpc [
        | none ↦ send_error s handler_unset 500
        | some handle ↦
            let fresh = record s.flow { gates = update s.flow.gates g new_flow_gate } in
            let registered = (register_flow_gate fresh port g).0 in
            some (
              record s { flow = (unregister_flow_gate registered port g).0 },
              forward (handle path payload),
            )
      ]

  -- The end of a reply to a reverse call.
  unfoldable pub receipt_end : State → Receipt × Reverse → Option (State × List Bytes)
  receipt_end s (unknown_port, t) = some (record s { reverse = t }, [])
  receipt_end s (passed buffered, t) = some (record s { reverse = t }, [])
  receipt_end s (passed blocks, t) = none

  -- The switch of `Call`.
  unfoldable pub handle : State → ℕ → ℕ → Requests → Option (State × List Bytes)
  handle s port g (cancel_request target) = some (record s { calls = cancel s.calls target }, [])
  handle s port g (init_request dir key push_port) =
      init (record s { native_push_port = push_port }) dir key
  handle s port g (rpc_request path payload) = rpc s port g path payload
  handle s port g (reverse_response reverse_port payload) =
      receipt_end s (receive_reverse_response s.reverse reverse_port payload)
  handle s port g unset = send_error s unsupported_request 500

  -- `Call`, for the cancel function `f`, the gate `g` and the time `now`: the state when its channel
  -- is closed, and the messages sent on it.
  unfoldable pub call : Bool → State → ℕ → ℕ → ℕ → Request → Option (State × List Bytes)
  call true s f g now req = some (s, [])
  call false s f g now req =
      let (kind, path) = request_meta req.requests in
      let info : InflightRequest = record { kind = kind; path = path; start = now } in
      let begun = record s { calls = begin s.calls req.port f info } in
      elim (handle begun req.port g req.requests) [
        | none ↦ none
        | some (t, sent) ↦ some (record t { calls = finish t.calls req.port }, sent)
      ]
