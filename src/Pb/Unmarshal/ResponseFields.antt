-- ===== src/Pb/Unmarshal/ResponseFields.antt =====
-- What the decoders of pb/core_lite.go make of a marshalled message of a response.
use godash.Common.{◌<◌, ◌≡◌, refl, [], length, int_half, arith}
use godash.Pb.Runtime.{decoded, Runtime, IsDocumented}
use godash.Pb.Messages.{Error, Done, RpcResponse, Push}
use godash.Pb.Marshal.Format.{error_format, done_format, rpc_response_format, push_format}
use godash.Pb.Input.{read_field, read_int32, read_int64, read_bytes}
use godash.Pb.Input.Laws.{int32-Reads, int64-Reads, bytes-Reads}
use godash.Pb.Input.Unknown.{UnknownFields-Reads}
use godash.Pb.Input.Reads.{Reads, Reads-append, unmarshal_into-Reads}
use godash.Pb.Unmarshal.{
  error_cases, done_cases, rpc_response_cases, push_cases, unmarshal_error, unmarshal_done,
  unmarshal_rpc_response, unmarshal_push,
}
use godash.Pb.Defaults.{
  empty_error, empty_done, empty_rpc_response, empty_push, keep_error, keep_done, keep_rpc_response,
  keep_push,
}
use godash.Pb.Unmarshal.Fits.{ErrorFits, DoneFits, RpcResponseFits, PushFits}

module _ (r : Runtime) (d : IsDocumented r) where
  error-Reads :
      (m : Error)
      → ErrorFits r m
      → Reads r (error_cases r) keep_error empty_error (error_format r m) m
  unfolding error_cases error_format empty_error keep_error read_field read_int32 read_int64
      read_bytes
  error-Reads m fits =
      let s1 : Error = record empty_error { code = m.code } in
      let s2 : Error = record s1 { message = m.message } in
      Reads-append
        (int32-Reads d empty_error 8 m.code (λ v. record empty_error { code = v }) (omega arith)
          fits.code_fits refl (λ l start rest. refl))
        (Reads-append
          (bytes-Reads d s1 18 m.message (λ v. record s1 { message = v }) (omega arith) refl
            (λ l start rest. refl))
          (UnknownFields-Reads keep_error s2 (λ a b. refl) [] m.unknown_fields fits.unknown_fit))

  pub unmarshal_error_lem :
      (m : Error)
      → ErrorFits r m
      → length (error_format r m) < int_half
      → unmarshal_error r empty_error (error_format r m) ≡ decoded m
  unfolding unmarshal_error
  unmarshal_error_lem m fits =
      unmarshal_into-Reads empty_error m (error_format r m) (error-Reads m fits)

  done-Reads :
      (m : Done) → DoneFits r m → Reads r (done_cases r) keep_done empty_done (done_format r m) m
  unfolding done_cases done_format empty_done keep_done read_field read_int32 read_int64 read_bytes
  done-Reads m fits =
      let s1 : Done = record empty_done { code = m.code } in
      let s2 : Done = record s1 { message = m.message } in
      Reads-append
        (int32-Reads d empty_done 8 m.code (λ v. record empty_done { code = v }) (omega arith)
          fits.code_fits refl (λ l start rest. refl))
        (Reads-append
          (bytes-Reads d s1 18 m.message (λ v. record s1 { message = v }) (omega arith) refl
            (λ l start rest. refl))
          (UnknownFields-Reads keep_done s2 (λ a b. refl) [] m.unknown_fields fits.unknown_fit))

  pub unmarshal_done_lem :
      (m : Done)
      → DoneFits r m
      → length (done_format r m) < int_half
      → unmarshal_done r empty_done (done_format r m) ≡ decoded m
  unfolding unmarshal_done
  unmarshal_done_lem m fits =
      unmarshal_into-Reads empty_done m (done_format r m) (done-Reads m fits)

  push-Reads :
      (m : Push) → PushFits r m → Reads r (push_cases r) keep_push empty_push (push_format r m) m
  unfolding push_cases push_format empty_push keep_push read_field read_int32 read_int64 read_bytes
  push-Reads m fits =
      let s1 : Push = record empty_push { type = m.type } in
      let s2 : Push = record s1 { payload = m.payload } in
      let s3 : Push = record s2 { reverse_port = m.reverse_port } in
      Reads-append
        (bytes-Reads d empty_push 10 m.type (λ v. record empty_push { type = v }) (omega arith) refl
          (λ l start rest. refl))
        (Reads-append
          (bytes-Reads d s1 18 m.payload (λ v. record s1 { payload = v }) (omega arith) refl
            (λ l start rest. refl))
          (Reads-append
            (int64-Reads d s2 24 m.reverse_port (λ v. record s2 { reverse_port = v }) (omega arith)
              fits.reverse_port_fits refl (λ l start rest. refl))
            (UnknownFields-Reads keep_push s3 (λ a b. refl) [] m.unknown_fields fits.unknown_fit)))

  pub unmarshal_push_lem :
      (m : Push)
      → PushFits r m
      → length (push_format r m) < int_half
      → unmarshal_push r empty_push (push_format r m) ≡ decoded m
  unfolding unmarshal_push
  unmarshal_push_lem m fits =
      unmarshal_into-Reads empty_push m (push_format r m) (push-Reads m fits)

  rpc_response-Reads :
      (m : RpcResponse)
      → RpcResponseFits r m
      → Reads r
          (rpc_response_cases r)
          keep_rpc_response
          empty_rpc_response
          (rpc_response_format r m)
          m
  unfolding rpc_response_cases rpc_response_format empty_rpc_response keep_rpc_response read_field
      read_int32 read_int64 read_bytes
  rpc_response-Reads m fits =
      let s1 : RpcResponse = record empty_rpc_response { payload = m.payload } in
      Reads-append
        (bytes-Reads d empty_rpc_response 10 m.payload
          (λ v. record empty_rpc_response { payload = v }) (omega arith) refl
          (λ l start rest. refl))
        (UnknownFields-Reads keep_rpc_response s1 (λ a b. refl) [] m.unknown_fields
          fits.unknown_fit)

  pub unmarshal_rpc_response_lem :
      (m : RpcResponse)
      → RpcResponseFits r m
      → length (rpc_response_format r m) < int_half
      → unmarshal_rpc_response r empty_rpc_response (rpc_response_format r m) ≡ decoded m
  unfolding unmarshal_rpc_response
  unmarshal_rpc_response_lem m fits =
      unmarshal_into-Reads empty_rpc_response m (rpc_response_format r m)
        (rpc_response-Reads m fits)
