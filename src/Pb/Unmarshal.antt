-- ===== src/Pb/Unmarshal.antt =====
-- The decoders of pb/core_lite.go: the switch of each `UnmarshalVT` and the loop around it. Each reads
-- into a message that is there; an inner message of the kind that the oneof holds is read into it. A
-- message that fails part of the way is not kept.
pub mod Fields
pub mod RoundTrip
pub mod Total
pub mod Fits
pub mod ResponseFields
use godash.Common.{ℕ, ◌≡◌, Option, none, some, List, [], ◌∷◌, ◌++◌, if◌then◌else◌, ◌==◌}
use godash.Pb.Runtime.{Bytes, Decoded, Runtime}
use godash.Pb.Messages.{
  Error, Cancel, Done, Init, ReverseResponse, RpcRequest, RpcResponse, Push, Requests, Request,
  Responses, Response,
}
use godash.Pb.Input.{
  Cases, read_int32, read_int64, read_bytes, set_field, read_message, unmarshal_into,
}
use godash.Pb.Defaults.{
  keep_error, keep_cancel, keep_done, keep_init, keep_reverse_response, keep_rpc_request,
  keep_rpc_response, keep_push, keep_request, keep_response, init_of, cancel_of, rpc_request_of,
  reverse_response_of, error_of, done_of, push_of, rpc_response_of,
}

module _ (r : Runtime) where
  unfoldable pub error_cases : Cases Error
  error_cases field_num wire_type m l rest =
      if field_num == 1
      then some (set_field r (λ v. record m { code = v }) (read_int32 r wire_type rest))
      else if field_num == 2
      then some (set_field r (λ v. record m { message = v }) (read_bytes r wire_type l rest))
      else none

  unfoldable pub unmarshal_error : Error → Bytes → Decoded Error
  unmarshal_error = unmarshal_into r error_cases keep_error

  unfoldable pub cancel_cases : Cases Cancel
  cancel_cases field_num wire_type m l rest =
      if field_num == 1
      then some (set_field r (λ v. record m { code = v }) (read_int32 r wire_type rest))
      else if field_num == 2
      then some (set_field r (λ v. record m { message = v }) (read_bytes r wire_type l rest))
      else if field_num == 3
      then some (set_field r (λ v. record m { port = v }) (read_int64 r wire_type rest))
      else none

  unfoldable pub unmarshal_cancel : Cancel → Bytes → Decoded Cancel
  unmarshal_cancel = unmarshal_into r cancel_cases keep_cancel

  unfoldable pub done_cases : Cases Done
  done_cases field_num wire_type m l rest =
      if field_num == 1
      then some (set_field r (λ v. record m { code = v }) (read_int32 r wire_type rest))
      else if field_num == 2
      then some (set_field r (λ v. record m { message = v }) (read_bytes r wire_type l rest))
      else none

  unfoldable pub unmarshal_done : Done → Bytes → Decoded Done
  unmarshal_done = unmarshal_into r done_cases keep_done

  unfoldable pub init_cases : Cases Init
  init_cases field_num wire_type m l rest =
      if field_num == 1
      then some (set_field r (λ v. record m { push_port = v }) (read_int64 r wire_type rest))
      else if field_num == 2
      then some (set_field r (λ v. record m { temp_dir = v }) (read_bytes r wire_type l rest))
      else if field_num == 3
      then some (set_field r (λ v. record m { support_dir = v }) (read_bytes r wire_type l rest))
      else if field_num == 4
      then some (set_field r (λ v. record m { documents_dir = v }) (read_bytes r wire_type l rest))
      else if field_num == 5
      then some
          (set_field r (λ v. record m { app_encryption_key = v }) (read_bytes r wire_type l rest))
      else none

  unfoldable pub unmarshal_init : Init → Bytes → Decoded Init
  unmarshal_init = unmarshal_into r init_cases keep_init

  unfoldable pub reverse_response_cases : Cases ReverseResponse
  reverse_response_cases field_num wire_type m l rest =
      if field_num == 1
      then some (set_field r (λ v. record m { reverse_port = v }) (read_int64 r wire_type rest))
      else if field_num == 2
      then some (set_field r (λ v. record m { payload = v }) (read_bytes r wire_type l rest))
      else none

  unfoldable pub unmarshal_reverse_response : ReverseResponse → Bytes → Decoded ReverseResponse
  unmarshal_reverse_response = unmarshal_into r reverse_response_cases keep_reverse_response

  unfoldable pub rpc_request_cases : Cases RpcRequest
  rpc_request_cases field_num wire_type m l rest =
      if field_num == 1
      then some (set_field r (λ v. record m { path = v }) (read_bytes r wire_type l rest))
      else if field_num == 2
      then some (set_field r (λ v. record m { payload = v }) (read_bytes r wire_type l rest))
      else none

  unfoldable pub unmarshal_rpc_request : RpcRequest → Bytes → Decoded RpcRequest
  unmarshal_rpc_request = unmarshal_into r rpc_request_cases keep_rpc_request

  unfoldable pub rpc_response_cases : Cases RpcResponse
  rpc_response_cases field_num wire_type m l rest =
      if field_num == 1
      then some (set_field r (λ v. record m { payload = v }) (read_bytes r wire_type l rest))
      else none

  unfoldable pub unmarshal_rpc_response : RpcResponse → Bytes → Decoded RpcResponse
  unmarshal_rpc_response = unmarshal_into r rpc_response_cases keep_rpc_response

  unfoldable pub push_cases : Cases Push
  push_cases field_num wire_type m l rest =
      if field_num == 1
      then some (set_field r (λ v. record m { type = v }) (read_bytes r wire_type l rest))
      else if field_num == 2
      then some (set_field r (λ v. record m { payload = v }) (read_bytes r wire_type l rest))
      else if field_num == 3
      then some (set_field r (λ v. record m { reverse_port = v }) (read_int64 r wire_type rest))
      else none

  unfoldable pub unmarshal_push : Push → Bytes → Decoded Push
  unmarshal_push = unmarshal_into r push_cases keep_push

  unfoldable pub request_cases : Cases Request
  request_cases field_num wire_type m l rest =
      if field_num == 1
      then some (
          read_message r (unmarshal_init (init_of m.requests))
            (λ v. record m { requests = Requests.init v }) wire_type l rest)
      else if field_num == 4
      then some (
          read_message r (unmarshal_cancel (cancel_of m.requests))
            (λ v. record m { requests = Requests.cancel v }) wire_type l rest)
      else if field_num == 5
      then some (set_field r (λ v. record m { port = v }) (read_int64 r wire_type rest))
      else if field_num == 10
      then some (
          read_message r (unmarshal_rpc_request (rpc_request_of m.requests))
            (λ v. record m { requests = Requests.rpc_request v }) wire_type l rest)
      else if field_num == 11
      then some (
          read_message r (unmarshal_reverse_response (reverse_response_of m.requests))
            (λ v. record m { requests = Requests.reverse_response v }) wire_type l rest)
      else none

  unfoldable pub unmarshal_request : Request → Bytes → Decoded Request
  unmarshal_request = unmarshal_into r request_cases keep_request

  unfoldable pub response_cases : Cases Response
  response_cases field_num wire_type m l rest =
      if field_num == 1
      then some (
          read_message r (unmarshal_error (error_of m.responses))
            (λ v. record m { responses = Responses.error v }) wire_type l rest)
      else if field_num == 6
      then some (
          read_message r (unmarshal_done (done_of m.responses))
            (λ v. record m { responses = Responses.done v }) wire_type l rest)
      else if field_num == 7
      then some (
          read_message r (unmarshal_push (push_of m.responses))
            (λ v. record m { responses = Responses.push v }) wire_type l rest)
      else if field_num == 10
      then some (
          read_message r (unmarshal_rpc_response (rpc_response_of m.responses))
            (λ v. record m { responses = Responses.rpc_response v }) wire_type l rest)
      else none

  unfoldable pub unmarshal_response : Response → Bytes → Decoded Response
  unmarshal_response = unmarshal_into r response_cases keep_response
