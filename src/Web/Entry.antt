-- ===== src/Web/Entry.antt =====
-- The worker's entry, web/web.go: `onMessage` from the bytes of a request to the messages on the port,
-- over `Call` (rpc/rpc.go), the decoders and marshallers (pb/core_lite.go) and the two sinks of
-- web/shared.go. The binding to JavaScript is left out: a message is its bytes and its descriptor.
-- `none` is a panic, or a request without an end. A context that is done before `Call` is not among the cases: it has ten seconds.
pub mod Answers
mod Tests
use godash.Common.{
  ℕ, ◌≡◌, Bool, true, false, Option, none, some, List, [], ◌∷◌, ◌++◌, if◌then◌else◌,
}
use godash.Pb.Runtime.{
  Bytes, Decoded, DecodeError, failed, decoded, out_of_bounds, out_of_fuel, Runtime,
}
use godash.Pb.Messages.{Done, Error, Request, Requests, Response, Responses}
use godash.Pb.Marshal.{marshal_response}
use godash.Pb.Defaults.{empty_request}
use godash.Pb.Unmarshal.{unmarshal_request}
use godash.Rpc.Dispatch.{
  Failure, entry_point_unset, handler_unset, unsupported_request, entry_point_failed, State, App,
  call, rpc_request, init_request, cancel_request, reverse_response,
}
use godash.Rpc.Dispatch
use godash.Web.SharedRing.{
  Message, envelope, Worker, post, write, send, Descriptor, SharedRing, new_response_sink,
}
use godash.Web.Memory.{Memory}

-- The texts of the errors that `Call` makes; the last is that of a nil oneof.
unfoldable pub failure_text : Failure → Bytes
failure_text entry_point_unset =
    101 ∷ 110 ∷ 116 ∷ 114 ∷ 121 ∷ 32 ∷ 112 ∷ 111 ∷ 105 ∷ 110 ∷ 116 ∷ 32 ∷ 110 ∷ 111 ∷ 116 ∷ 32 ∷ 115
    ∷ 101 ∷ 116 ∷ []
failure_text handler_unset =
    82 ∷ 80 ∷ 67 ∷ 32 ∷ 104 ∷ 97 ∷ 110 ∷ 100 ∷ 108 ∷ 101 ∷ 114 ∷ 32 ∷ 110 ∷ 111 ∷ 116 ∷ 32 ∷ 115
    ∷ 101 ∷ 116 ∷ []
failure_text unsupported_request =
    117 ∷ 110 ∷ 115 ∷ 117 ∷ 112 ∷ 112 ∷ 111 ∷ 114 ∷ 116 ∷ 101 ∷ 100 ∷ 32 ∷ 114 ∷ 101 ∷ 113 ∷ 117
    ∷ 101 ∷ 115 ∷ 116 ∷ 58 ∷ 32 ∷ 60 ∷ 110 ∷ 105 ∷ 108 ∷ 62 ∷ []
failure_text (entry_point_failed message) = message

-- The response of `sendError`.
unfoldable pub error_response : Failure → ℕ → Response
error_response e code = record {
  unknown_fields = [];
  responses =
      Responses.error (record { unknown_fields = []; code = code; message = failure_text e });
}

-- What `Call` reads of a request.
unfoldable pub read_requests : Requests → Dispatch.Requests
read_requests Requests.unset = Dispatch.unset
read_requests (Requests.init x) = init_request x.support_dir x.app_encryption_key x.push_port
read_requests (Requests.cancel x) = cancel_request x.port
read_requests (Requests.rpc_request x) = rpc_request x.path x.payload
read_requests (Requests.reverse_response x) = reverse_response x.reverse_port x.payload

unfoldable pub read_request : Request → Dispatch.Request
read_request m = record { port = m.port; requests = read_requests m.requests }

-- `envelopeSink` with its port, and `sharedSink`.
pub data Sink : Type 0 where
  envelope_sink : List Message → Sink
  shared_sink : Worker → Sink

-- `newResponseSink` on a port to which nothing was posted.
unfoldable pub sink_of : Descriptor → Memory → Sink
sink_of d memory = elim (new_response_sink d) [
  | none ↦ envelope_sink []
  | some ring ↦ shared_sink (record { ring = ring; memory = memory; port = [] })
]

-- `postMessage`, past the ring.
unfoldable pub post_message : Sink → Bytes → Sink
post_message (envelope_sink port) message = envelope_sink (port ++ envelope message ∷ [])
post_message (shared_sink w) message = shared_sink (post w (envelope message))

unfoldable pub sink_send : Sink → Bytes → Sink
sink_send (envelope_sink port) message = post_message (envelope_sink port) message
sink_send (shared_sink w) message = shared_sink (send w message)

-- The response of `postDone`.
unfoldable pub done_response : Response
done_response = record {
  unknown_fields = [];
  responses = Responses.done (record { unknown_fields = []; code = 0; message = [] });
}

-- The response of `postError`.
unfoldable pub decode_error_response : Bytes → Response
decode_error_response text = record {
  unknown_fields = [];
  responses = Responses.error (record { unknown_fields = []; code = 0; message = text });
}

-- The loop over the messages of `Call`.
unfoldable pub deliver : Sink → List Bytes → Sink
deliver sink [] = sink
deliver sink (message ∷ rest) = deliver (sink_send sink message) rest

module _ (r : Runtime) where
  unfoldable pub post_done : Sink → Option Sink
  post_done sink = elim (marshal_response r done_response) [
    | none ↦ none
    | some message ↦ some (post_message sink message)
  ]

  unfoldable pub shared_done : Worker → Option Sink
  shared_done w = elim (marshal_response r done_response) [
    | none ↦ post_done (shared_sink w)
    | some message ↦
        let (written, w') = write w message in
        if written then some (shared_sink w') else post_done (shared_sink w')
  ]

  unfoldable pub sink_done : Sink → Option Sink
  sink_done (envelope_sink port) = post_done (envelope_sink port)
  sink_done (shared_sink w) = shared_done w

  unfoldable pub post_error : Sink → Bytes → Option Sink
  post_error sink text = elim (marshal_response r (decode_error_response text)) [
    | none ↦ none
    | some message ↦ some (post_message sink message)
  ]

  -- The goroutine of `onMessage`, after the request was decoded: with the texts of the decoders'
  -- errors, for the cancel function `f`, the gate `g` and the time `now` of the call.
  module _ (error_text : DecodeError → Bytes) (app : App Response) (s : State) (sink : Sink)
      (f g now : ℕ) where
    unfoldable pub answer : Decoded Request → Option (State × Sink)
    answer (failed e) = elim (post_error sink (error_text e)) [
      | none ↦ none
      | some sink' ↦ some (s, sink')
    ]
    answer (decoded req) =
        elim (call (marshal_response r) error_response app false s f g now (read_request req)) [
          | none ↦ none
          | some (t, sent) ↦ elim (sink_done (deliver sink sent)) [
            | none ↦ none
            | some sink' ↦ some (t, sink')
          ]
        ]
    answer out_of_bounds = none
    answer out_of_fuel = none

    -- `onMessage`
    unfoldable pub on_message : Bytes → Option (State × Sink)
    on_message message = answer (unmarshal_request r empty_request message)
