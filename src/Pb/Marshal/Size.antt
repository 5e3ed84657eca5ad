-- ===== src/Pb/Marshal/Size.antt =====
-- The sizes that pb/core_lite.go computes, and what its marshallers return.
use godash.Common.{◌≡◌, refl, ◌++◌, length, length-append, int_of_int32, arith}
use godash.Pb.Runtime.{Runtime, IsDocumented}
use godash.Pb.Messages.{
  Error, Cancel, Done, Init, ReverseResponse, RpcRequest, RpcResponse, Push, Requests, Request,
  Responses, Response,
}
use godash.Pb.Buffer.Laws.{
  int_field, bytes_field, length-int_field, length-bytes_field, length-message_field,
}
use godash.Pb.Marshal.Format.{
  error_format, cancel_format, done_format, init_format, reverse_response_format,
  rpc_request_format, rpc_response_format, push_format, requests_format, request_format,
  responses_format, response_format,
}
use godash.Pb.Marshal.{
  size_error, size_cancel, size_done, size_init, size_reverse_response, size_rpc_request,
  size_rpc_response, size_push, size_requests, size_request, size_responses, size_response,
}

module _ (r : Runtime) (d : IsDocumented r) where
  pub size_error_lem : (m : Error) → size_error r m ≡ length (error_format r m)
  unfolding size_error error_format
  size_error_lem m = omega (
    arith,
    length-append (bytes_field r 18 m.message) (m.unknown_fields),
    length-bytes_field r d 18 m.message,
    length-append (int_field r 8 m.code (int_of_int32 m.code))
        (bytes_field r 18 m.message ++ (m.unknown_fields)),
    length-int_field r d 8 m.code (int_of_int32 m.code),
  )

  pub size_cancel_lem : (m : Cancel) → size_cancel r m ≡ length (cancel_format r m)
  unfolding size_cancel cancel_format
  size_cancel_lem m = omega (
    arith,
    length-append (int_field r 24 m.port m.port) (m.unknown_fields),
    length-int_field r d 24 m.port m.port,
    length-append (bytes_field r 18 m.message) (int_field r 24 m.port m.port ++ (m.unknown_fields)),
    length-bytes_field r d 18 m.message,
    length-append (int_field r 8 m.code (int_of_int32 m.code))
        (bytes_field r 18 m.message ++ (int_field r 24 m.port m.port ++ (m.unknown_fields))),
    length-int_field r d 8 m.code (int_of_int32 m.code),
  )

  pub size_done_lem : (m : Done) → size_done r m ≡ length (done_format r m)
  unfolding size_done done_format
  size_done_lem m = omega (
    arith,
    length-append (bytes_field r 18 m.message) (m.unknown_fields),
    length-bytes_field r d 18 m.message,
    length-append (int_field r 8 m.code (int_of_int32 m.code))
        (bytes_field r 18 m.message ++ (m.unknown_fields)),
    length-int_field r d 8 m.code (int_of_int32 m.code),
  )

  pub size_init_lem : (m : Init) → size_init r m ≡ length (init_format r m)
  unfolding size_init init_format
  size_init_lem m = omega (
    arith,
    length-append (bytes_field r 42 m.app_encryption_key) (m.unknown_fields),
    length-bytes_field r d 42 m.app_encryption_key,
    length-append (bytes_field r 34 m.documents_dir)
        (bytes_field r 42 m.app_encryption_key ++ (m.unknown_fields)),
    length-bytes_field r d 34 m.documents_dir,
    length-append (bytes_field r 26 m.support_dir) (
        bytes_field r 34 m.documents_dir
        ++ (bytes_field r 42 m.app_encryption_key ++ (m.unknown_fields))),
    length-bytes_field r d 26 m.support_dir,
    length-append (bytes_field r 18 m.temp_dir) (
        bytes_field r 26 m.support_dir
        ++ (bytes_field r 34 m.documents_dir
            ++ (bytes_field r 42 m.app_encryption_key ++ (m.unknown_fields)))),
    length-bytes_field r d 18 m.temp_dir,
    length-append (int_field r 8 m.push_port m.push_port) (
        bytes_field r 18 m.temp_dir
        ++ (bytes_field r 26 m.support_dir
            ++ (bytes_field r 34 m.documents_dir
                ++ (bytes_field r 42 m.app_encryption_key ++ (m.unknown_fields))))),
    length-int_field r d 8 m.push_port m.push_port,
  )

  pub size_reverse_response_lem :
      (m : ReverseResponse) → size_reverse_response r m ≡ length (reverse_response_format r m)
  unfolding size_reverse_response reverse_response_format
  size_reverse_response_lem m = omega (
    arith,
    length-append (bytes_field r 18 m.payload) (m.unknown_fields),
    length-bytes_field r d 18 m.payload,
    length-append (int_field r 8 m.reverse_port m.reverse_port)
        (bytes_field r 18 m.payload ++ (m.unknown_fields)),
    length-int_field r d 8 m.reverse_port m.reverse_port,
  )

  pub size_rpc_request_lem :
      (m : RpcRequest) → size_rpc_request r m ≡ length (rpc_request_format r m)
  unfolding size_rpc_request rpc_request_format
  size_rpc_request_lem m = omega (
    arith,
    length-append (bytes_field r 18 m.payload) (m.unknown_fields),
    length-bytes_field r d 18 m.payload,
    length-append (bytes_field r 10 m.path) (bytes_field r 18 m.payload ++ (m.unknown_fields)),
    length-bytes_field r d 10 m.path,
  )

  pub size_rpc_response_lem :
      (m : RpcResponse) → size_rpc_response r m ≡ length (rpc_response_format r m)
  unfolding size_rpc_response rpc_response_format
  size_rpc_response_lem m = omega (
    arith,
    length-append (bytes_field r 10 m.payload) (m.unknown_fields),
    length-bytes_field r d 10 m.payload,
  )

  pub size_push_lem : (m : Push) → size_push r m ≡ length (push_format r m)
  unfolding size_push push_format
  size_push_lem m = omega (
    arith,
    length-append (int_field r 24 m.reverse_port m.reverse_port) (m.unknown_fields),
    length-int_field r d 24 m.reverse_port m.reverse_port,
    length-append (bytes_field r 18 m.payload)
        (int_field r 24 m.reverse_port m.reverse_port ++ (m.unknown_fields)),
    length-bytes_field r d 18 m.payload,
    length-append (bytes_field r 10 m.type) (
        bytes_field r 18 m.payload
        ++ (int_field r 24 m.reverse_port m.reverse_port ++ (m.unknown_fields))),
    length-bytes_field r d 10 m.type,
  )

  size_requests_lem : (o : Requests) → size_requests r o ≡ length (requests_format r o)
  unfolding size_requests requests_format
  size_requests_lem Requests.unset = refl
  size_requests_lem (Requests.init x) =
      rw (size_init_lem x) (length-message_field r d 10 (init_format r x))
  size_requests_lem (Requests.cancel x) =
      rw (size_cancel_lem x) (length-message_field r d 34 (cancel_format r x))
  size_requests_lem (Requests.rpc_request x) =
      rw (size_rpc_request_lem x) (length-message_field r d 82 (rpc_request_format r x))
  size_requests_lem (Requests.reverse_response x) =
      rw (size_reverse_response_lem x) (length-message_field r d 90 (reverse_response_format r x))

  pub size_request_lem : (m : Request) → size_request r m ≡ length (request_format r m)
  unfolding size_request request_format
  size_request_lem m = omega (
    arith,
    length-append (int_field r 40 m.port m.port) (requests_format r m.requests ++ m.unknown_fields),
    length-append (requests_format r m.requests) m.unknown_fields,
    length-int_field r d 40 m.port m.port,
    size_requests_lem m.requests,
  )

  size_responses_lem : (o : Responses) → size_responses r o ≡ length (responses_format r o)
  unfolding size_responses responses_format
  size_responses_lem Responses.unset = refl
  size_responses_lem (Responses.error x) =
      rw (size_error_lem x) (length-message_field r d 10 (error_format r x))
  size_responses_lem (Responses.done x) =
      rw (size_done_lem x) (length-message_field r d 50 (done_format r x))
  size_responses_lem (Responses.push x) =
      rw (size_push_lem x) (length-message_field r d 58 (push_format r x))
  size_responses_lem (Responses.rpc_response x) =
      rw (size_rpc_response_lem x) (length-message_field r d 82 (rpc_response_format r x))

  pub size_response_lem : (m : Response) → size_response r m ≡ length (response_format r m)
  unfolding size_response response_format
  size_response_lem m = omega (
    arith,
    length-append (responses_format r m.responses) m.unknown_fields,
    size_responses_lem m.responses,
  )
