-- ===== src/Web/Entry/Tests.antt =====
-- A call that streams two responses into a ring, and bytes that are no request.
use godash.Common.{ℕ, false, none, some, [], ◌∷◌}
use godash.Pb.Runtime.{Bytes, DecodeError}
use godash.Pb.Messages.{Response, Responses}
use godash.Rpc.Dispatch.{State, App}
use godash.Web.Entry.{Sink, shared_sink}

-- A response with one byte of payload.
abbrev reply : ℕ → Response
reply b = record {
  unknown_fields = [];
  responses = Responses.rpc_response (record { unknown_fields = []; payload = b ∷ [] });
}

abbrev app : App Response
app = record { entry_point = none; handle_rpc = some (λ path payload. reply 1 ∷ reply 2 ∷ []) }

abbrev error_text : DecodeError → Bytes
error_text e = 63 ∷ []

abbrev idle : State
idle = record {
  calls = record { cancels = []; inflight = []; warned_slow = []; cancelled = [] };
  flow = record {
    flow_gates = λ port. none;
    pending_flow_credits = λ port. 0;
    gates = λ g. record { bounded = false; credits = 0; closed = false; waiters = [] };
  };
  reverse = record { reverse_pending = []; reverse_id = 0; channels = [] };
  native_push_port = 0;
}

abbrev ring : Sink
ring =
    shared_sink (record {
      ring = record { slots = 2; slot_size = 16; cursor = 0 };
      memory = λ _. 0;
      port = [];
    })
