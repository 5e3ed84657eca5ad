-- ===== src/Pb/Marshal/Format.antt =====
-- The wire format of each message of pb/core_lite.go, the sizes of the messages and what the
-- marshallers write.
use godash.Common.{[], ◌++◌, int_of_int32}
use godash.Pb.Runtime.{Bytes, Runtime}
use godash.Pb.Messages.{
  Error, Cancel, Done, Init, ReverseResponse, RpcRequest, RpcResponse, Push, Requests, Request,
  Responses, Response,
}
use godash.Pb.Buffer.Laws.{
  int_field, bytes_field, message_field, Writes, then-Writes, some-Writes, put-Writes,
  put_number-Writes, put_bytes-Writes, put_message-Writes,
}
use godash.Pb.Marshal.{
  write_error, write_cancel, write_done, write_init, write_reverse_response, write_rpc_request,
  write_rpc_response, write_push, write_requests, write_request, write_responses, write_response,
}

module _ (r : Runtime) where
  unfoldable pub error_format : Error → Bytes
  error_format m =
      int_field r 8 m.code (int_of_int32 m.code) ++ (bytes_field r 18 m.message ++ m.unknown_fields)

  pub write_error-Writes : (m : Error) → Writes (write_error r m) (error_format m)
  unfolding write_error error_format
  write_error-Writes m =
      then-Writes (then-Writes (put-Writes _) (put_bytes-Writes r _ _)) (put_number-Writes r _ _ _)

  unfoldable pub cancel_format : Cancel → Bytes
  cancel_format m =
      int_field r 8 m.code (int_of_int32 m.code)
      ++ (bytes_field r 18 m.message ++ (int_field r 24 m.port m.port ++ m.unknown_fields))

  pub write_cancel-Writes : (m : Cancel) → Writes (write_cancel r m) (cancel_format m)
  unfolding write_cancel cancel_format
  write_cancel-Writes m =
      then-Writes
        (then-Writes (then-Writes (put-Writes _) (put_number-Writes r _ _ _))
          (put_bytes-Writes r _ _))
        (put_number-Writes r _ _ _)

  unfoldable pub done_format : Done → Bytes
  done_format m =
      int_field r 8 m.code (int_of_int32 m.code) ++ (bytes_field r 18 m.message ++ m.unknown_fields)

  pub write_done-Writes : (m : Done) → Writes (write_done r m) (done_format m)
  unfolding write_done done_format
  write_done-Writes m =
      then-Writes (then-Writes (put-Writes _) (put_bytes-Writes r _ _)) (put_number-Writes r _ _ _)

  unfoldable pub init_format : Init → Bytes
  init_format m =
      int_field r 8 m.push_port m.push_port
      ++ (bytes_field r 18 m.temp_dir
          ++ (bytes_field r 26 m.support_dir
              ++ (bytes_field r 34 m.documents_dir
                  ++ (bytes_field r 42 m.app_encryption_key ++ m.unknown_fields))))

  pub write_init-Writes : (m : Init) → Writes (write_init r m) (init_format m)
  unfolding write_init init_format
  write_init-Writes m =
      then-Writes
        (then-Writes
          (then-Writes
            (then-Writes (then-Writes (put-Writes _) (put_bytes-Writes r _ _))
              (put_bytes-Writes r _ _))
            (put_bytes-Writes r _ _))
          (put_bytes-Writes r _ _))
        (put_number-Writes r _ _ _)

  unfoldable pub reverse_response_format : ReverseResponse → Bytes
  reverse_response_format m =
      int_field r 8 m.reverse_port m.reverse_port
      ++ (bytes_field r 18 m.payload ++ m.unknown_fields)

  pub write_reverse_response-Writes :
      (m : ReverseResponse) → Writes (write_reverse_response r m) (reverse_response_format m)
  unfolding write_reverse_response reverse_response_format
  write_reverse_response-Writes m =
      then-Writes (then-Writes (put-Writes _) (put_bytes-Writes r _ _)) (put_number-Writes r _ _ _)

  unfoldable pub rpc_request_format : RpcRequest → Bytes
  rpc_request_format m = bytes_field r 10 m.path ++ (bytes_field r 18 m.payload ++ m.unknown_fields)

  pub write_rpc_request-Writes :
      (m : RpcRequest) → Writes (write_rpc_request r m) (rpc_request_format m)
  unfolding write_rpc_request rpc_request_format
  write_rpc_request-Writes m =
      then-Writes (then-Writes (put-Writes _) (put_bytes-Writes r _ _)) (put_bytes-Writes r _ _)

  unfoldable pub rpc_response_format : RpcResponse → Bytes
  rpc_response_format m = bytes_field r 10 m.payload ++ m.unknown_fields

  pub write_rpc_response-Writes :
      (m : RpcResponse) → Writes (write_rpc_response r m) (rpc_response_format m)
  unfolding write_rpc_response rpc_response_format
  write_rpc_response-Writes m = then-Writes (put-Writes _) (put_bytes-Writes r _ _)

  unfoldable pub push_format : Push → Bytes
  push_format m =
      bytes_field r 10 m.type
      ++ (bytes_field r 18 m.payload
          ++ (int_field r 24 m.reverse_port m.reverse_port ++ m.unknown_fields))

  pub write_push-Writes : (m : Push) → Writes (write_push r m) (push_format m)
  unfolding write_push push_format
  write_push-Writes m =
      then-Writes
        (then-Writes (then-Writes (put-Writes _) (put_number-Writes r _ _ _))
          (put_bytes-Writes r _ _))
        (put_bytes-Writes r _ _)

  unfoldable pub requests_format : Requests → Bytes
  requests_format Requests.unset = []
  requests_format (Requests.init x) = message_field r 10 (init_format x)
  requests_format (Requests.cancel x) = message_field r 34 (cancel_format x)
  requests_format (Requests.rpc_request x) = message_field r 82 (rpc_request_format x)
  requests_format (Requests.reverse_response x) = message_field r 90 (reverse_response_format x)

  pub write_requests-Writes : (o : Requests) → Writes (write_requests r o) (requests_format o)
  unfolding write_requests requests_format
  write_requests-Writes Requests.unset = some-Writes
  write_requests-Writes (Requests.init x) = put_message-Writes r 10 _ _ (write_init-Writes x)
  write_requests-Writes (Requests.cancel x) = put_message-Writes r 34 _ _ (write_cancel-Writes x)
  write_requests-Writes (Requests.rpc_request x) =
      put_message-Writes r 82 _ _ (write_rpc_request-Writes x)
  write_requests-Writes (Requests.reverse_response x) =
      put_message-Writes r 90 _ _ (write_reverse_response-Writes x)

  unfoldable pub request_format : Request → Bytes
  request_format m =
      int_field r 40 m.port m.port ++ (requests_format m.requests ++ m.unknown_fields)

  pub write_request-Writes : (m : Request) → Writes (write_request r m) (request_format m)
  unfolding write_request request_format
  write_request-Writes m =
      then-Writes (then-Writes (put-Writes _) (write_requests-Writes _)) (put_number-Writes r _ _ _)

  unfoldable pub responses_format : Responses → Bytes
  responses_format Responses.unset = []
  responses_format (Responses.error x) = message_field r 10 (error_format x)
  responses_format (Responses.done x) = message_field r 50 (done_format x)
  responses_format (Responses.push x) = message_field r 58 (push_format x)
  responses_format (Responses.rpc_response x) = message_field r 82 (rpc_response_format x)

  pub write_responses-Writes : (o : Responses) → Writes (write_responses r o) (responses_format o)
  unfolding write_responses responses_format
  write_responses-Writes Responses.unset = some-Writes
  write_responses-Writes (Responses.error x) = put_message-Writes r 10 _ _ (write_error-Writes x)
  write_responses-Writes (Responses.done x) = put_message-Writes r 50 _ _ (write_done-Writes x)
  write_responses-Writes (Responses.push x) = put_message-Writes r 58 _ _ (write_push-Writes x)
  write_responses-Writes (Responses.rpc_response x) =
      put_message-Writes r 82 _ _ (write_rpc_response-Writes x)

  unfoldable pub response_format : Response → Bytes
  response_format m = responses_format m.responses ++ m.unknown_fields

  pub write_response-Writes : (m : Response) → Writes (write_response r m) (response_format m)
  unfolding write_response response_format
  write_response-Writes m = then-Writes (put-Writes _) (write_responses-Writes _)
