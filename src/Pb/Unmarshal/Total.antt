-- ===== src/Pb/Unmarshal/Total.antt =====
-- Every decoder of pb/core_lite.go returns.
use godash.Common.{suc, ◌≢◌, subst, length, ◌==◌}
use godash.Pb.Runtime.{Bytes, Decoded, out_of_bounds, out_of_fuel, Runtime, Advances}
use godash.Pb.Messages.{
  Error, Cancel, Done, Init, ReverseResponse, RpcRequest, RpcResponse, Push, Request, Response,
}
use godash.Pb.Input.Total.{
  Returns, CaseWithin, CasesWithin, CaseWithin-if, read_int32-Within, read_int64-Within,
  read_bytes-Within, set_field-Within, read_message-Within, unmarshal_into-Returns,
}
use godash.Pb.Unmarshal.{
  error_cases, cancel_cases, done_cases, init_cases, reverse_response_cases, rpc_request_cases,
  rpc_response_cases, push_cases, request_cases, response_cases, unmarshal_error, unmarshal_cancel,
  unmarshal_done, unmarshal_init, unmarshal_reverse_response, unmarshal_rpc_request,
  unmarshal_rpc_response, unmarshal_push, unmarshal_request, unmarshal_response,
}
use godash.Pb.Defaults.{
  keep_error, keep_cancel, keep_done, keep_init, keep_reverse_response, keep_rpc_request,
  keep_rpc_response, keep_push, keep_request, keep_response, init_of, cancel_of, rpc_request_of,
  reverse_response_of, error_of, done_of, push_of, rpc_response_of,
}

-- Neither of the two.
abbrev pub Ends {ℓ} : {A : Type ℓ} → Decoded A → Type ℓ
Ends d = (d ≢ out_of_bounds) × (d ≢ out_of_fuel)

Returns-Ends {ℓ} : {A : Type ℓ} (d : Decoded A) → Returns d → Ends d
unfolding Returns
Returns-Ends d h = (λ e. subst Returns e h, λ e. subst Returns e h)

module _ (r : Runtime) (a : Advances r) where
  error_cases-Within : CasesWithin (error_cases r)
  unfolding CasesWithin CaseWithin error_cases
  error_cases-Within field_num wire_type m l rest =
      let n = length rest in
      CaseWithin-if n (field_num == 1) _ _
        (set_field-Within r a (suc n) _ _ (read_int32-Within r a wire_type rest))
        (CaseWithin-if n (field_num == 2) _ _
          (set_field-Within r a (suc n) _ _ (read_bytes-Within r a wire_type l rest)) tt)

  unmarshal_error-Returns : (m : Error) (input : Bytes) → Returns (unmarshal_error r m input)
  unfolding unmarshal_error
  unmarshal_error-Returns = unmarshal_into-Returns r a (error_cases r) keep_error error_cases-Within

  cancel_cases-Within : CasesWithin (cancel_cases r)
  unfolding CasesWithin CaseWithin cancel_cases
  cancel_cases-Within field_num wire_type m l rest =
      let n = length rest in
      CaseWithin-if n (field_num == 1) _ _
        (set_field-Within r a (suc n) _ _ (read_int32-Within r a wire_type rest))
        (CaseWithin-if n (field_num == 2) _ _
          (set_field-Within r a (suc n) _ _ (read_bytes-Within r a wire_type l rest))
          (CaseWithin-if n (field_num == 3) _ _
            (set_field-Within r a (suc n) _ _ (read_int64-Within r a wire_type rest)) tt))

  unmarshal_cancel-Returns : (m : Cancel) (input : Bytes) → Returns (unmarshal_cancel r m input)
  unfolding unmarshal_cancel
  unmarshal_cancel-Returns =
      unmarshal_into-Returns r a (cancel_cases r) keep_cancel cancel_cases-Within

  done_cases-Within : CasesWithin (done_cases r)
  unfolding CasesWithin CaseWithin done_cases
  done_cases-Within field_num wire_type m l rest =
      let n = length rest in
      CaseWithin-if n (field_num == 1) _ _
        (set_field-Within r a (suc n) _ _ (read_int32-Within r a wire_type rest))
        (CaseWithin-if n (field_num == 2) _ _
          (set_field-Within r a (suc n) _ _ (read_bytes-Within r a wire_type l rest)) tt)

  unmarshal_done-Returns : (m : Done) (input : Bytes) → Returns (unmarshal_done r m input)
  unfolding unmarshal_done
  unmarshal_done-Returns = unmarshal_into-Returns r a (done_cases r) keep_done done_cases-Within

  init_cases-Within : CasesWithin (init_cases r)
  unfolding CasesWithin CaseWithin init_cases
  init_cases-Within field_num wire_type m l rest =
      let n = length rest in
      CaseWithin-if n (field_num == 1) _ _
        (set_field-Within r a (suc n) _ _ (read_int64-Within r a wire_type rest))
        (CaseWithin-if n (field_num == 2) _ _
          (set_field-Within r a (suc n) _ _ (read_bytes-Within r a wire_type l rest))
          (CaseWithin-if n (field_num == 3) _ _
            (set_field-Within r a (suc n) _ _ (read_bytes-Within r a wire_type l rest))
            (CaseWithin-if n (field_num == 4) _ _
              (set_field-Within r a (suc n) _ _ (read_bytes-Within r a wire_type l rest))
              (CaseWithin-if n (field_num == 5) _ _
                (set_field-Within r a (suc n) _ _ (read_bytes-Within r a wire_type l rest)) tt))))

  unmarshal_init-Returns : (m : Init) (input : Bytes) → Returns (unmarshal_init r m input)
  unfolding unmarshal_init
  unmarshal_init-Returns = unmarshal_into-Returns r a (init_cases r) keep_init init_cases-Within

  reverse_response_cases-Within : CasesWithin (reverse_response_cases r)
  unfolding CasesWithin CaseWithin reverse_response_cases
  reverse_response_cases-Within field_num wire_type m l rest =
      let n = length rest in
      CaseWithin-if n (field_num == 1) _ _
        (set_field-Within r a (suc n) _ _ (read_int64-Within r a wire_type rest))
        (CaseWithin-if n (field_num == 2) _ _
          (set_field-Within r a (suc n) _ _ (read_bytes-Within r a wire_type l rest)) tt)

  unmarshal_reverse_response-Returns :
      (m : ReverseResponse) (input : Bytes) → Returns (unmarshal_reverse_response r m input)
  unfolding unmarshal_reverse_response
  unmarshal_reverse_response-Returns =
      unmarshal_into-Returns r a (reverse_response_cases r) keep_reverse_response
        reverse_response_cases-Within

  rpc_request_cases-Within : CasesWithin (rpc_request_cases r)
  unfolding CasesWithin CaseWithin rpc_request_cases
  rpc_request_cases-Within field_num wire_type m l rest =
      let n = length rest in
      CaseWithin-if n (field_num == 1) _ _
        (set_field-Within r a (suc n) _ _ (read_bytes-Within r a wire_type l rest))
        (CaseWithin-if n (field_num == 2) _ _
          (set_field-Within r a (suc n) _ _ (read_bytes-Within r a wire_type l rest)) tt)

  unmarshal_rpc_request-Returns :
      (m : RpcRequest) (input : Bytes) → Returns (unmarshal_rpc_request r m input)
  unfolding unmarshal_rpc_request
  unmarshal_rpc_request-Returns =
      unmarshal_into-Returns r a (rpc_request_cases r) keep_rpc_request rpc_request_cases-Within

  rpc_response_cases-Within : CasesWithin (rpc_response_cases r)
  unfolding CasesWithin CaseWithin rpc_response_cases
  rpc_response_cases-Within field_num wire_type m l rest =
      let n = length rest in
      CaseWithin-if n (field_num == 1) _ _
        (set_field-Within r a (suc n) _ _ (read_bytes-Within r a wire_type l rest)) tt

  unmarshal_rpc_response-Returns :
      (m : RpcResponse) (input : Bytes) → Returns (unmarshal_rpc_response r m input)
  unfolding unmarshal_rpc_response
  unmarshal_rpc_response-Returns =
      unmarshal_into-Returns r a (rpc_response_cases r) keep_rpc_response rpc_response_cases-Within

  push_cases-Within : CasesWithin (push_cases r)
  unfolding CasesWithin CaseWithin push_cases
  push_cases-Within field_num wire_type m l rest =
      let n = length rest in
      CaseWithin-if n (field_num == 1) _ _
        (set_field-Within r a (suc n) _ _ (read_bytes-Within r a wire_type l rest))
        (CaseWithin-if n (field_num == 2) _ _
          (set_field-Within r a (suc n) _ _ (read_bytes-Within r a wire_type l rest))
          (CaseWithin-if n (field_num == 3) _ _
            (set_field-Within r a (suc n) _ _ (read_int64-Within r a wire_type rest)) tt))

  unmarshal_push-Returns : (m : Push) (input : Bytes) → Returns (unmarshal_push r m input)
  unfolding unmarshal_push
  unmarshal_push-Returns = unmarshal_into-Returns r a (push_cases r) keep_push push_cases-Within

  request_cases-Within : CasesWithin (request_cases r)
  unfolding CasesWithin CaseWithin request_cases
  request_cases-Within field_num wire_type m l rest =
      let n = length rest in
      CaseWithin-if n (field_num == 1) _ _
        (read_message-Within r a (unmarshal_init r (init_of m.requests)) _ wire_type l rest
          (unmarshal_init-Returns (init_of m.requests)))
        (CaseWithin-if n (field_num == 4) _ _
          (read_message-Within r a (unmarshal_cancel r (cancel_of m.requests)) _ wire_type l rest
            (unmarshal_cancel-Returns (cancel_of m.requests)))
          (CaseWithin-if n (field_num == 5) _ _
            (set_field-Within r a (suc n) _ _ (read_int64-Within r a wire_type rest))
            (CaseWithin-if n (field_num == 10) _ _
              (read_message-Within r a (unmarshal_rpc_request r (rpc_request_of m.requests)) _
                wire_type l rest (unmarshal_rpc_request-Returns (rpc_request_of m.requests)))
              (CaseWithin-if n (field_num == 11) _ _
                (read_message-Within r a
                  (unmarshal_reverse_response r (reverse_response_of m.requests)) _ wire_type l rest
                  (unmarshal_reverse_response-Returns (reverse_response_of m.requests)))
                tt))))

  unmarshal_request-returns : (m : Request) (input : Bytes) → Ends (unmarshal_request r m input)
  unfolding unmarshal_request
  unmarshal_request-returns m input =
      Returns-Ends (unmarshal_request r m input)
        (unmarshal_into-Returns r a (request_cases r) keep_request request_cases-Within m input)

  response_cases-Within : CasesWithin (response_cases r)
  unfolding CasesWithin CaseWithin response_cases
  response_cases-Within field_num wire_type m l rest =
      let n = length rest in
      CaseWithin-if n (field_num == 1) _ _
        (read_message-Within r a (unmarshal_error r (error_of m.responses)) _ wire_type l rest
          (unmarshal_error-Returns (error_of m.responses)))
        (CaseWithin-if n (field_num == 6) _ _
          (read_message-Within r a (unmarshal_done r (done_of m.responses)) _ wire_type l rest
            (unmarshal_done-Returns (done_of m.responses)))
          (CaseWithin-if n (field_num == 7) _ _
            (read_message-Within r a (unmarshal_push r (push_of m.responses)) _ wire_type l rest
              (unmarshal_push-Returns (push_of m.responses)))
            (CaseWithin-if n (field_num == 10) _ _
              (read_message-Within r a (unmarshal_rpc_response r (rpc_response_of m.responses)) _
                wire_type l rest (unmarshal_rpc_response-Returns (rpc_response_of m.responses)))
              tt)))

  unmarshal_response-returns : (m : Response) (input : Bytes) → Ends (unmarshal_response r m input)
  unfolding unmarshal_response
  unmarshal_response-returns m input =
      Returns-Ends (unmarshal_response r m input)
        (unmarshal_into-Returns r a (response_cases r) keep_response response_cases-Within m input)

  -- Whatever the bytes are, and whatever they are read into, `UnmarshalVT` of a request and of a
  -- response ends, and never takes a slice that leaves the bytes it was given.
  pub unmarshal_returns :
      (m : Request) (n : Response) (input : Bytes)
      → Ends (unmarshal_request r m input) × Ends (unmarshal_response r n input)
  unmarshal_returns m n input =
      (unmarshal_request-returns m input, unmarshal_response-returns n input)
