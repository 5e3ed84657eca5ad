-- ===== src/Pb/Unmarshal/RoundTrip.antt =====
-- What is marshalled by pb/core_lite.go is read back.
use godash.Common.{◌<◌, ◌^◌, ◌≡◌, some, refl, subst, [], length, int_half, arith}
use godash.Pb.Runtime.{Bytes, decoded, Runtime, IsDocumented}
use godash.Pb.Messages.{Requests, Request, Responses, Response}
use godash.Pb.Marshal.Format.{
  error_format, cancel_format, done_format, init_format, reverse_response_format,
  rpc_request_format, rpc_response_format, push_format, requests_format, request_format,
  responses_format, response_format,
}
use godash.Pb.Marshal.{size_request, size_response, marshal_request, marshal_response}
use godash.Pb.Marshal.Size.{size_request_lem, size_response_lem}
use godash.Pb.Marshal.Exact.{marshal_request_lem, marshal_response_lem}
use godash.Pb.Input.{read_field, read_int64}
use godash.Pb.Input.Laws.{int64-Reads, message-Reads}
use godash.Pb.Input.Unknown.{UnknownFields, UnknownFields-Reads}
use godash.Pb.Input.Reads.{Reads, Reads-nil, Reads-append, unmarshal_into-Reads}
use godash.Pb.Unmarshal.{
  request_cases, response_cases, unmarshal_error, unmarshal_cancel, unmarshal_done, unmarshal_init,
  unmarshal_reverse_response, unmarshal_rpc_request, unmarshal_rpc_response, unmarshal_push,
  unmarshal_request, unmarshal_response,
}
use godash.Pb.Defaults.{
  empty_error, empty_cancel, empty_done, empty_init, empty_reverse_response, empty_rpc_request,
  empty_rpc_response, empty_push, empty_request, empty_response, keep_request, keep_response,
  init_of, cancel_of, rpc_request_of, reverse_response_of, error_of, done_of, push_of,
  rpc_response_of,
}
use godash.Pb.Unmarshal.Fields.{
  unmarshal_cancel_lem, unmarshal_init_lem, unmarshal_reverse_response_lem,
  unmarshal_rpc_request_lem,
}
use godash.Pb.Unmarshal.ResponseFields.{
  unmarshal_error_lem, unmarshal_done_lem, unmarshal_rpc_response_lem, unmarshal_push_lem,
}
use godash.Pb.Unmarshal.Fits.{
  ErrorFits, CancelFits, DoneFits, InitFits, ReverseResponseFits, RpcRequestFits, RpcResponseFits,
  PushFits,
}

module _ (r : Runtime) where
  -- The inner message fits.
  unfoldable pub RequestOneofFits : Requests → Type 0
  RequestOneofFits Requests.unset = Unit
  RequestOneofFits (Requests.init x) = InitFits r x
  RequestOneofFits (Requests.cancel x) = CancelFits r x
  RequestOneofFits (Requests.rpc_request x) = RpcRequestFits r x
  RequestOneofFits (Requests.reverse_response x) = ReverseResponseFits r x

  pub record RequestFits (m : Request) : Type 0 where
    pub unknown_fit : UnknownFields r (request_cases r) m.unknown_fields
    pub requests_fit : RequestOneofFits m.requests
    pub port_fits : m.port < 2 ^ 64

  -- The inner message fits.
  unfoldable pub ResponseOneofFits : Responses → Type 0
  ResponseOneofFits Responses.unset = Unit
  ResponseOneofFits (Responses.error x) = ErrorFits r x
  ResponseOneofFits (Responses.done x) = DoneFits r x
  ResponseOneofFits (Responses.push x) = PushFits r x
  ResponseOneofFits (Responses.rpc_response x) = RpcResponseFits r x

  pub record ResponseFits (m : Response) : Type 0 where
    pub unknown_fit : UnknownFields r (response_cases r) m.unknown_fields
    pub responses_fit : ResponseOneofFits m.responses

module _ (r : Runtime) (d : IsDocumented r) where
  requests-Reads :
      (m : Request) (o : Requests)
      → m.requests ≡ Requests.unset
      → RequestOneofFits r o
      → Reads r (request_cases r) keep_request m (requests_format r o) (record m { requests = o })
  unfolding RequestOneofFits request_cases requests_format read_field read_int64 init_of cancel_of
      rpc_request_of reverse_response_of
  requests-Reads m Requests.unset e fits =
      subst (λ o. Reads r (request_cases r) keep_request m [] (record m { requests = o })) e
        (Reads-nil m)
  requests-Reads m (Requests.init x) e fits =
      message-Reads d m 10 (init_format r x) x (λ v. record m { requests = Requests.init v })
        (unmarshal_init r empty_init) (omega arith) (unmarshal_init_lem r d x fits)
        λ l start rest. rw e refl
  requests-Reads m (Requests.cancel x) e fits =
      message-Reads d m 34 (cancel_format r x) x (λ v. record m { requests = Requests.cancel v })
        (unmarshal_cancel r empty_cancel) (omega arith) (unmarshal_cancel_lem r d x fits)
        λ l start rest. rw e refl
  requests-Reads m (Requests.rpc_request x) e fits =
      message-Reads d m 82 (rpc_request_format r x) x
        (λ v. record m { requests = Requests.rpc_request v })
        (unmarshal_rpc_request r empty_rpc_request) (omega arith)
        (unmarshal_rpc_request_lem r d x fits) λ l start rest. rw e refl
  requests-Reads m (Requests.reverse_response x) e fits =
      message-Reads d m 90 (reverse_response_format r x) x
        (λ v. record m { requests = Requests.reverse_response v })
        (unmarshal_reverse_response r empty_reverse_response) (omega arith)
        (unmarshal_reverse_response_lem r d x fits) λ l start rest. rw e refl

  responses-Reads :
      (m : Response) (o : Responses)
      → m.responses ≡ Responses.unset
      → ResponseOneofFits r o
      → Reads r
          (response_cases r)
          keep_response
          m
          (responses_format r o)
          (record m { responses = o })
  unfolding ResponseOneofFits response_cases responses_format read_field read_int64 error_of done_of
      push_of rpc_response_of
  responses-Reads m Responses.unset e fits =
      subst (λ o. Reads r (response_cases r) keep_response m [] (record m { responses = o })) e
        (Reads-nil m)
  responses-Reads m (Responses.error x) e fits =
      message-Reads d m 10 (error_format r x) x (λ v. record m { responses = Responses.error v })
        (unmarshal_error r empty_error) (omega arith) (unmarshal_error_lem r d x fits)
        λ l start rest. rw e refl
  responses-Reads m (Responses.done x) e fits =
      message-Reads d m 50 (done_format r x) x (λ v. record m { responses = Responses.done v })
        (unmarshal_done r empty_done) (omega arith) (unmarshal_done_lem r d x fits)
        λ l start rest. rw e refl
  responses-Reads m (Responses.push x) e fits =
      message-Reads d m 58 (push_format r x) x (λ v. record m { responses = Responses.push v })
        (unmarshal_push r empty_push) (omega arith) (unmarshal_push_lem r d x fits)
        λ l start rest. rw e refl
  responses-Reads m (Responses.rpc_response x) e fits =
      message-Reads d m 82 (rpc_response_format r x) x
        (λ v. record m { responses = Responses.rpc_response v })
        (unmarshal_rpc_response r empty_rpc_response) (omega arith)
        (unmarshal_rpc_response_lem r d x fits) λ l start rest. rw e refl

  request-Reads :
      (m : Request)
      → RequestFits r m
      → Reads r (request_cases r) keep_request empty_request (request_format r m) m
  unfolding request_cases request_format empty_request read_field read_int64 keep_request
  request-Reads m fits =
      let start : Request = record empty_request { port = m.port } in
      let full : Request = record start { requests = m.requests } in
      Reads-append
        (int64-Reads d empty_request 40 m.port (λ v. record empty_request { port = v })
          (omega arith) fits.port_fits refl (λ l start rest. refl))
        (Reads-append (requests-Reads start m.requests refl fits.requests_fit) (
          UnknownFields-Reads keep_request full (λ a b. refl) [] m.unknown_fields fits.unknown_fit))

  request_back :
      (m : Request)
      → RequestFits r m
      → length (request_format r m) < int_half
      → unmarshal_request r empty_request (request_format r m) ≡ decoded m
  unfolding unmarshal_request
  request_back m fits =
      unmarshal_into-Reads empty_request m (request_format r m) (request-Reads m fits)

  -- A `Request` whose numbers fit their types, whose unknown fields, and those of its inner message, are a
  -- sequence of fields that the decoder skips, and whose size fits an `int`, is marshalled without a
  -- panic, and its bytes are decoded to the same message, the unknown fields in their order.
  pub unmarshal_request-marshal_request :
      (m : Request)
      → RequestFits r m
      → size_request r m < int_half
      → (bs : Bytes) × (marshal_request r m ≡ some bs)
        × (unmarshal_request r empty_request bs ≡ decoded m)
  unmarshal_request-marshal_request m fits small = (
    request_format r m,
    marshal_request_lem r d m,
    request_back m fits (subst (λ n. n < int_half) (size_request_lem r d m) small),
  )

  response-Reads :
      (m : Response)
      → ResponseFits r m
      → Reads r (response_cases r) keep_response empty_response (response_format r m) m
  unfolding response_cases response_format empty_response read_field read_int64 keep_response
  response-Reads m fits =
      Reads-append (responses-Reads empty_response m.responses refl fits.responses_fit) (
        UnknownFields-Reads keep_response (record empty_response { responses = m.responses })
          (λ a b. refl) [] m.unknown_fields fits.unknown_fit)

  pub response_back :
      (m : Response)
      → ResponseFits r m
      → length (response_format r m) < int_half
      → unmarshal_response r empty_response (response_format r m) ≡ decoded m
  unfolding unmarshal_response
  response_back m fits =
      unmarshal_into-Reads empty_response m (response_format r m) (response-Reads m fits)

  -- A `Response` whose numbers fit their types, whose unknown fields, and those of its inner message, are a
  -- sequence of fields that the decoder skips, and whose size fits an `int`, is marshalled without a
  -- panic, and its bytes are decoded to the same message, the unknown fields in their order.
  pub unmarshal_response-marshal_response :
      (m : Response)
      → ResponseFits r m
      → size_response r m < int_half
      → (bs : Bytes) × (marshal_response r m ≡ some bs)
        × (unmarshal_response r empty_response bs ≡ decoded m)
  unmarshal_response-marshal_response m fits small = (
    response_format r m,
    marshal_response_lem r d m,
    response_back m fits (subst (λ n. n < int_half) (size_response_lem r d m) small),
  )
