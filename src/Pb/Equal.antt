-- ===== src/Pb/Equal.antt =====
-- `EqualVT` of the messages of pb/core_lite.go. The pointers it is given are not nil; two that are the
-- same have equal fields, so that the test of the pointers does not show.
pub mod Laws
pub mod Fields
use godash.Common.{ℕ, Bool, true, false, not, ◌&&◌, [], ◌∷◌, if◌then◌else◌, ◌==◌}
use godash.Pb.Runtime.{Bytes}
use godash.Pb.Messages.{
  Error, Cancel, Done, Init, ReverseResponse, RpcRequest, RpcResponse, Push, Requests, Request,
  Responses, Response,
}

-- The comparison of two strings.
unfoldable pub equal_bytes : Bytes → Bytes → Bool
equal_bytes [] [] = true
equal_bytes [] (c ∷ cs) = false
equal_bytes (b ∷ bs) [] = false
equal_bytes (b ∷ bs) (c ∷ cs) = (b == c) && equal_bytes bs cs

unfoldable pub equal_error : Error → Error → Bool
equal_error this that =
    if not (this.code == that.code)
    then false
    else if not (equal_bytes this.message that.message)
    then false
    else equal_bytes this.unknown_fields that.unknown_fields

unfoldable pub equal_cancel : Cancel → Cancel → Bool
equal_cancel this that =
    if not (this.code == that.code)
    then false
    else if not (equal_bytes this.message that.message)
    then false
    else if not (this.port == that.port)
    then false
    else equal_bytes this.unknown_fields that.unknown_fields

unfoldable pub equal_done : Done → Done → Bool
equal_done this that =
    if not (this.code == that.code)
    then false
    else if not (equal_bytes this.message that.message)
    then false
    else equal_bytes this.unknown_fields that.unknown_fields

unfoldable pub equal_init : Init → Init → Bool
equal_init this that =
    if not (this.push_port == that.push_port)
    then false
    else if not (equal_bytes this.temp_dir that.temp_dir)
    then false
    else if not (equal_bytes this.support_dir that.support_dir)
    then false
    else if not (equal_bytes this.documents_dir that.documents_dir)
    then false
    else if not (equal_bytes this.app_encryption_key that.app_encryption_key)
    then false
    else equal_bytes this.unknown_fields that.unknown_fields

unfoldable pub equal_reverse_response : ReverseResponse → ReverseResponse → Bool
equal_reverse_response this that =
    if not (this.reverse_port == that.reverse_port)
    then false
    else if not (equal_bytes this.payload that.payload)
    then false
    else equal_bytes this.unknown_fields that.unknown_fields

unfoldable pub equal_rpc_request : RpcRequest → RpcRequest → Bool
equal_rpc_request this that =
    if not (equal_bytes this.path that.path)
    then false
    else if not (equal_bytes this.payload that.payload)
    then false
    else equal_bytes this.unknown_fields that.unknown_fields

unfoldable pub equal_rpc_response : RpcResponse → RpcResponse → Bool
equal_rpc_response this that =
    if not (equal_bytes this.payload that.payload)
    then false
    else equal_bytes this.unknown_fields that.unknown_fields

unfoldable pub equal_push : Push → Push → Bool
equal_push this that =
    if not (equal_bytes this.type that.type)
    then false
    else if not (equal_bytes this.payload that.payload)
    then false
    else if not (this.reverse_port == that.reverse_port)
    then false
    else equal_bytes this.unknown_fields that.unknown_fields

-- `Request.Requests`: an alternative is equal to one of its own kind only.
unfoldable pub equal_requests : Requests → Requests → Bool
equal_requests Requests.unset Requests.unset = true
equal_requests Requests.unset _ = false
equal_requests (Requests.init p) (Requests.init q) = equal_init p q
equal_requests (Requests.init p) _ = false
equal_requests (Requests.cancel p) (Requests.cancel q) = equal_cancel p q
equal_requests (Requests.cancel p) _ = false
equal_requests (Requests.rpc_request p) (Requests.rpc_request q) = equal_rpc_request p q
equal_requests (Requests.rpc_request p) _ = false
equal_requests (Requests.reverse_response p) (Requests.reverse_response q) =
    equal_reverse_response p q
equal_requests (Requests.reverse_response p) _ = false

unfoldable pub equal_request : Request → Request → Bool
equal_request this that =
    if not (equal_requests this.requests that.requests)
    then false
    else if not (this.port == that.port)
    then false
    else equal_bytes this.unknown_fields that.unknown_fields

-- `Response.Responses`: an alternative is equal to one of its own kind only.
unfoldable pub equal_responses : Responses → Responses → Bool
equal_responses Responses.unset Responses.unset = true
equal_responses Responses.unset _ = false
equal_responses (Responses.error p) (Responses.error q) = equal_error p q
equal_responses (Responses.error p) _ = false
equal_responses (Responses.done p) (Responses.done q) = equal_done p q
equal_responses (Responses.done p) _ = false
equal_responses (Responses.push p) (Responses.push q) = equal_push p q
equal_responses (Responses.push p) _ = false
equal_responses (Responses.rpc_response p) (Responses.rpc_response q) = equal_rpc_response p q
equal_responses (Responses.rpc_response p) _ = false

unfoldable pub equal_response : Response → Response → Bool
equal_response this that =
    if not (equal_responses this.responses that.responses)
    then false
    else equal_bytes this.unknown_fields that.unknown_fields
