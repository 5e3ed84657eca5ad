-- ===== src/Pb/Marshal/Exact.antt =====
-- What the marshallers of pb/core_lite.go return.
use godash.Common.{◌≡◌, some}
use godash.Pb.Runtime.{Runtime, IsDocumented}
use godash.Pb.Messages.{
  Error, Cancel, Done, Init, ReverseResponse, RpcRequest, RpcResponse, Push, Request, Response,
}
use godash.Pb.Buffer.Laws.{marshal_with-Writes}
use godash.Pb.Marshal.Format.{
  write_error-Writes, write_cancel-Writes, write_done-Writes, write_init-Writes,
  write_reverse_response-Writes, write_rpc_request-Writes, write_rpc_response-Writes,
  write_push-Writes, error_format, cancel_format, done_format, init_format, reverse_response_format,
  rpc_request_format, rpc_response_format, push_format, request_format, write_request-Writes,
  response_format, write_response-Writes,
}
use godash.Pb.Marshal.{
  write_error, write_cancel, write_done, write_init, write_reverse_response, write_rpc_request,
  write_rpc_response, write_push, write_request, write_response, size_error, size_cancel, size_done,
  size_init, size_reverse_response, size_rpc_request, size_rpc_response, size_push, size_request,
  size_response, marshal_error, marshal_cancel, marshal_done, marshal_init,
  marshal_reverse_response, marshal_rpc_request, marshal_rpc_response, marshal_push,
  marshal_request, marshal_response,
}
use godash.Pb.Marshal.Size.{
  size_error_lem, size_cancel_lem, size_done_lem, size_init_lem, size_reverse_response_lem,
  size_rpc_request_lem, size_rpc_response_lem, size_push_lem, size_request_lem, size_response_lem,
}

module _ (r : Runtime) (d : IsDocumented r) where
  pub marshal_error_lem : (m : Error) → marshal_error r m ≡ some (error_format r m)
  unfolding marshal_error
  marshal_error_lem m =
      marshal_with-Writes (write_error r m) (error_format r m) (size_error r m)
        (write_error-Writes r m) (size_error_lem r d m)

  pub marshal_cancel_lem : (m : Cancel) → marshal_cancel r m ≡ some (cancel_format r m)
  unfolding marshal_cancel
  marshal_cancel_lem m =
      marshal_with-Writes (write_cancel r m) (cancel_format r m) (size_cancel r m)
        (write_cancel-Writes r m) (size_cancel_lem r d m)

  pub marshal_done_lem : (m : Done) → marshal_done r m ≡ some (done_format r m)
  unfolding marshal_done
  marshal_done_lem m =
      marshal_with-Writes (write_done r m) (done_format r m) (size_done r m) (write_done-Writes r m)
        (size_done_lem r d m)

  pub marshal_init_lem : (m : Init) → marshal_init r m ≡ some (init_format r m)
  unfolding marshal_init
  marshal_init_lem m =
      marshal_with-Writes (write_init r m) (init_format r m) (size_init r m) (write_init-Writes r m)
        (size_init_lem r d m)

  pub marshal_reverse_response_lem :
      (m : ReverseResponse) → marshal_reverse_response r m ≡ some (reverse_response_format r m)
  unfolding marshal_reverse_response
  marshal_reverse_response_lem m =
      marshal_with-Writes (write_reverse_response r m) (reverse_response_format r m)
        (size_reverse_response r m) (write_reverse_response-Writes r m)
        (size_reverse_response_lem r d m)

  pub marshal_rpc_request_lem :
      (m : RpcRequest) → marshal_rpc_request r m ≡ some (rpc_request_format r m)
  unfolding marshal_rpc_request
  marshal_rpc_request_lem m =
      marshal_with-Writes (write_rpc_request r m) (rpc_request_format r m) (size_rpc_request r m)
        (write_rpc_request-Writes r m) (size_rpc_request_lem r d m)

  pub marshal_rpc_response_lem :
      (m : RpcResponse) → marshal_rpc_response r m ≡ some (rpc_response_format r m)
  unfolding marshal_rpc_response
  marshal_rpc_response_lem m =
      marshal_with-Writes (write_rpc_response r m) (rpc_response_format r m) (size_rpc_response r m)
        (write_rpc_response-Writes r m) (size_rpc_response_lem r d m)

  pub marshal_push_lem : (m : Push) → marshal_push r m ≡ some (push_format r m)
  unfolding marshal_push
  marshal_push_lem m =
      marshal_with-Writes (write_push r m) (push_format r m) (size_push r m) (write_push-Writes r m)
        (size_push_lem r d m)

  pub marshal_request_lem : (m : Request) → marshal_request r m ≡ some (request_format r m)
  unfolding marshal_request
  marshal_request_lem m =
      marshal_with-Writes (write_request r m) (request_format r m) (size_request r m)
        (write_request-Writes r m) (size_request_lem r d m)

  pub marshal_response_lem : (m : Response) → marshal_response r m ≡ some (response_format r m)
  unfolding marshal_response
  marshal_response_lem m =
      marshal_with-Writes (write_response r m) (response_format r m) (size_response r m)
        (write_response-Writes r m) (size_response_lem r d m)

  -- A request and a response are marshalled without a panic, unknown fields included, and to exactly
  -- the bytes of the wire format: `SizeVT` is their number, so that the buffer is filled.
  pub marshal_lem :
      (m : Request) (n : Response)
      → (marshal_request r m ≡ some (request_format r m))
        × (marshal_response r n ≡ some (response_format r n))
  marshal_lem m n = (marshal_request_lem m, marshal_response_lem n)
