-- ===== src/Pb/Tests.antt =====
-- The theorems about the messages of pb/core_lite.go at concrete messages.
pub mod Varint
use godash.Common.{
  ℕ, suc, ◌-◌, ap, length, ◌++◌, ◌<◌, ◌≡◌, ◌≢◌, ◌↔◌, refl, some, true, List, [], ◌∷◌, int_half,
  arith,
}
use godash.Pb.Runtime.{Bytes, Decoded, decoded, Runtime}
use godash.Pb.Messages.{Cancel, RpcRequest, Request, Requests, Done, Error, Response, Responses}
use godash.Pb.Buffer.{size_number, size_bytes, size_message}
use godash.Pb.Buffer.Laws.{int_field, bytes_field, message_field}
use godash.Pb.Marshal.Format.{request_format, response_format, requests_format, rpc_request_format}
use godash.Pb.Marshal.{
  size_requests, size_responses, size_rpc_request, size_error, marshal_request, marshal_response,
  size_request, size_response,
}
use godash.Pb.Input.Unknown.{UnknownField, no_field, field_then}
use godash.Pb.Unmarshal.{request_cases, unmarshal_request, unmarshal_response}
use godash.Pb.Defaults.{empty_request, empty_response}
use godash.Pb.Unmarshal.RoundTrip.{
  RequestFits, ResponseFits, RequestOneofFits, ResponseOneofFits, unmarshal_request-marshal_request,
  unmarshal_response-marshal_response,
}
use godash.Pb.Unmarshal.Total.{Ends, unmarshal_returns}
use godash.Pb.Marshal.Exact.{marshal_request_lem, marshal_lem}
use godash.Pb.Equal.{equal_request, equal_response}
use godash.Pb.Equal.Laws.{equal_lem}
use godash.Pb.Tests.Varint.{
  encode, decode, skip, skip_number, varint, varint-IsDocumented, varint-Advances,
}

-- A call of "/a" on port 300, of a version with a number in the field 15.
abbrev pub request : Request
request = record {
  unknown_fields = (120 ∷ 7 ∷ []) ++ [];
  port = 300;
  requests =
      Requests.rpc_request
        (record { unknown_fields = []; path = 47 ∷ 97 ∷ []; payload = 1 ∷ 2 ∷ [] });
}

-- An error with the code -1.
abbrev response : Response
response = record {
  unknown_fields = [];
  responses =
      Responses.error (record { unknown_fields = []; code = 4294967295; message = 110 ∷ 111 ∷ [] });
}

marshal_request_test :
    marshal_request varint request
    ≡ some (40 ∷ 172 ∷ 2 ∷ 82 ∷ 8 ∷ 10 ∷ 2 ∷ 47 ∷ 97 ∷ 18 ∷ 2 ∷ 1 ∷ 2 ∷ 120 ∷ 7 ∷ [])
unfolding request_format int_field encode requests_format message_field rpc_request_format
    bytes_field
marshal_request_test = marshal_request_lem varint varint-IsDocumented request

-- The tag of the field 15 with the wire type 0, and its value.
field_15 : UnknownField varint (request_cases varint) 120 (7 ∷ [])
unfolding request_cases decode skip skip_number
field_15 = record {
  wire = 120;
  value = 7 ∷ [];
  tag_read = λ rest. refl;
  no_end_group = refl;
  legal = refl;
  unread = λ m l rest. refl;
  skipped = λ rest. ap decoded (two (length rest));
}
  where
    two : (n : ℕ) → suc (suc n) - n ≡ 2
    two n = omega arith

pub request-RequestFits : RequestFits varint request
unfolding RequestOneofFits
request-RequestFits = record {
  unknown_fit = field_then 120 (7 ∷ []) [] field_15 no_field;
  requests_fit = record { unknown_fit = no_field };
  port_fits = omega arith;
}

response-ResponseFits : ResponseFits varint response
unfolding ResponseOneofFits
response-ResponseFits = record {
  unknown_fit = no_field;
  responses_fit = record { unknown_fit = no_field; code_fits = omega arith };
}

pub request_size_test : size_request varint request ≡ 15
unfolding size_request size_requests size_message size_rpc_request size_number size_bytes encode
request_size_test = refl

response_size_test : size_response varint response ≡ 17
unfolding size_response size_responses size_message size_error size_number size_bytes encode
response_size_test = refl

unmarshal_request-marshal_request_example :
    (bs : Bytes) × (marshal_request varint request ≡ some bs)
    × (unmarshal_request varint empty_request bs ≡ decoded request)
unmarshal_request-marshal_request_example =
    unmarshal_request-marshal_request varint varint-IsDocumented request request-RequestFits
      (omega (arith, request_size_test))

unmarshal_response-marshal_response_example :
    (bs : Bytes) × (marshal_response varint response ≡ some bs)
    × (unmarshal_response varint empty_response bs ≡ decoded response)
unmarshal_response-marshal_response_example =
    unmarshal_response-marshal_response varint varint-IsDocumented response response-ResponseFits
      (omega (arith, response_size_test))

marshal_lem_example :
    (marshal_request varint request ≡ some (request_format varint request))
    × (marshal_response varint response ≡ some (response_format varint response))
marshal_lem_example = marshal_lem varint varint-IsDocumented request response

-- A tag of the field 1 with the wire type 2, and a length of 200 with nothing behind it.
unmarshal_returns_example :
    Ends (unmarshal_request varint request (10 ∷ 200 ∷ 1 ∷ []))
    × Ends (unmarshal_response varint response (10 ∷ 200 ∷ 1 ∷ []))
unmarshal_returns_example =
    unmarshal_returns varint varint-Advances request response (10 ∷ 200 ∷ 1 ∷ [])

equal_lem_example :
    ((equal_request request empty_request ≡ true) ↔ (request ≡ empty_request))
    × ((equal_response response empty_response ≡ true) ↔ (response ≡ empty_response))
equal_lem_example = equal_lem request empty_request response empty_response
