-- ===== src/Pb/Marshal.antt =====
-- The marshallers of pb/core_lite.go. The fields are written from the last to the first, each before
-- the bytes that are there already, so that the first field comes first in the result.
pub mod Format
pub mod Size
pub mod Exact
use godash.Common.{ℕ, ◌+◌, ◌≡◌, Option, some, length, int_of_int32}
use godash.Pb.Runtime.{Bytes, Runtime}
use godash.Pb.Messages.{
  Error, Cancel, Done, Init, ReverseResponse, RpcRequest, RpcResponse, Push, Requests, Request,
  Responses, Response,
}
use godash.Pb.Buffer.{
  Writer, ◌then◌, put, marshal_with, put_number, put_bytes, put_message, size_number, size_bytes,
  size_message,
}

module _ (r : Runtime) where
  unfoldable pub write_error : Error → Writer
  write_error m =
      put m.unknown_fields
      then put_bytes r 18 m.message
      then put_number r 8 m.code (int_of_int32 m.code)

  unfoldable pub write_cancel : Cancel → Writer
  write_cancel m =
      put m.unknown_fields
      then put_number r 24 m.port m.port
      then put_bytes r 18 m.message
      then put_number r 8 m.code (int_of_int32 m.code)

  unfoldable pub write_done : Done → Writer
  write_done m =
      put m.unknown_fields
      then put_bytes r 18 m.message
      then put_number r 8 m.code (int_of_int32 m.code)

  unfoldable pub write_init : Init → Writer
  write_init m =
      put m.unknown_fields
      then put_bytes r 42 m.app_encryption_key
      then put_bytes r 34 m.documents_dir
      then put_bytes r 26 m.support_dir
      then put_bytes r 18 m.temp_dir
      then put_number r 8 m.push_port m.push_port

  unfoldable pub write_reverse_response : ReverseResponse → Writer
  write_reverse_response m =
      put m.unknown_fields
      then put_bytes r 18 m.payload
      then put_number r 8 m.reverse_port m.reverse_port

  unfoldable pub write_rpc_request : RpcRequest → Writer
  write_rpc_request m =
      put m.unknown_fields then put_bytes r 18 m.payload then put_bytes r 10 m.path

  unfoldable pub write_rpc_response : RpcResponse → Writer
  write_rpc_response m = put m.unknown_fields then put_bytes r 10 m.payload

  unfoldable pub write_push : Push → Writer
  write_push m =
      put m.unknown_fields
      then put_number r 24 m.reverse_port m.reverse_port
      then put_bytes r 18 m.payload
      then put_bytes r 10 m.type

  -- `Request.Requests`, each alternative with its own `MarshalToSizedBufferVT`.
  unfoldable pub write_requests : Requests → Writer
  write_requests Requests.unset = some
  write_requests (Requests.init x) = put_message r 10 (write_init x)
  write_requests (Requests.cancel x) = put_message r 34 (write_cancel x)
  write_requests (Requests.rpc_request x) = put_message r 82 (write_rpc_request x)
  write_requests (Requests.reverse_response x) = put_message r 90 (write_reverse_response x)

  unfoldable pub write_request : Request → Writer
  write_request m =
      put m.unknown_fields then write_requests m.requests then put_number r 40 m.port m.port

  -- `Response.Responses`, each alternative with its own `MarshalToSizedBufferVT`.
  unfoldable pub write_responses : Responses → Writer
  write_responses Responses.unset = some
  write_responses (Responses.error x) = put_message r 10 (write_error x)
  write_responses (Responses.done x) = put_message r 50 (write_done x)
  write_responses (Responses.push x) = put_message r 58 (write_push x)
  write_responses (Responses.rpc_response x) = put_message r 82 (write_rpc_response x)

  unfoldable pub write_response : Response → Writer
  write_response m = put m.unknown_fields then write_responses m.responses

  unfoldable pub size_error : Error → ℕ
  size_error m =
      size_number r m.code (int_of_int32 m.code) + size_bytes r m.message + length m.unknown_fields

  unfoldable pub size_cancel : Cancel → ℕ
  size_cancel m =
      size_number r m.code (int_of_int32 m.code)
      + size_bytes r m.message
      + size_number r m.port m.port
      + length m.unknown_fields

  unfoldable pub size_done : Done → ℕ
  size_done m =
      size_number r m.code (int_of_int32 m.code) + size_bytes r m.message + length m.unknown_fields

  unfoldable pub size_init : Init → ℕ
  size_init m =
      size_number r m.push_port m.push_port
      + size_bytes r m.temp_dir
      + size_bytes r m.support_dir
      + size_bytes r m.documents_dir
      + size_bytes r m.app_encryption_key
      + length m.unknown_fields

  unfoldable pub size_reverse_response : ReverseResponse → ℕ
  size_reverse_response m =
      size_number r m.reverse_port m.reverse_port + size_bytes r m.payload + length m.unknown_fields

  unfoldable pub size_rpc_request : RpcRequest → ℕ
  size_rpc_request m = size_bytes r m.path + size_bytes r m.payload + length m.unknown_fields

  unfoldable pub size_rpc_response : RpcResponse → ℕ
  size_rpc_response m = size_bytes r m.payload + length m.unknown_fields

  unfoldable pub size_push : Push → ℕ
  size_push m =
      size_bytes r m.type
      + size_bytes r m.payload
      + size_number r m.reverse_port m.reverse_port
      + length m.unknown_fields

  unfoldable pub size_requests : Requests → ℕ
  size_requests Requests.unset = 0
  size_requests (Requests.init x) = size_message r (size_init x)
  size_requests (Requests.cancel x) = size_message r (size_cancel x)
  size_requests (Requests.rpc_request x) = size_message r (size_rpc_request x)
  size_requests (Requests.reverse_response x) = size_message r (size_reverse_response x)

  unfoldable pub size_request : Request → ℕ
  size_request m = size_requests m.requests + size_number r m.port m.port + length m.unknown_fields

  unfoldable pub size_responses : Responses → ℕ
  size_responses Responses.unset = 0
  size_responses (Responses.error x) = size_message r (size_error x)
  size_responses (Responses.done x) = size_message r (size_done x)
  size_responses (Responses.push x) = size_message r (size_push x)
  size_responses (Responses.rpc_response x) = size_message r (size_rpc_response x)

  unfoldable pub size_response : Response → ℕ
  size_response m = size_responses m.responses + length m.unknown_fields

  -- `MarshalVT` of each message; none is a panic.
  unfoldable pub marshal_error : Error → Option Bytes
  marshal_error m = marshal_with (write_error m) (size_error m)

  unfoldable pub marshal_cancel : Cancel → Option Bytes
  marshal_cancel m = marshal_with (write_cancel m) (size_cancel m)

  unfoldable pub marshal_done : Done → Option Bytes
  marshal_done m = marshal_with (write_done m) (size_done m)

  unfoldable pub marshal_init : Init → Option Bytes
  marshal_init m = marshal_with (write_init m) (size_init m)

  unfoldable pub marshal_reverse_response : ReverseResponse → Option Bytes
  marshal_reverse_response m = marshal_with (write_reverse_response m) (size_reverse_response m)

  unfoldable pub marshal_rpc_request : RpcRequest → Option Bytes
  marshal_rpc_request m = marshal_with (write_rpc_request m) (size_rpc_request m)

  unfoldable pub marshal_rpc_response : RpcResponse → Option Bytes
  marshal_rpc_response m = marshal_with (write_rpc_response m) (size_rpc_response m)

  unfoldable pub marshal_push : Push → Option Bytes
  marshal_push m = marshal_with (write_push m) (size_push m)

  unfoldable pub marshal_request : Request → Option Bytes
  marshal_request m = marshal_with (write_request m) (size_request m)

  unfoldable pub marshal_response : Response → Option Bytes
  marshal_response m = marshal_with (write_response m) (size_response m)
