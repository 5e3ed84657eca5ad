-- ===== src/Pb/Unmarshal/Fields.antt =====
-- What the decoders of pb/core_lite.go make of a marshalled inner message. The number of a field fits
-- its type, and the unknown fields, which are kept, stand behind the others as they were marshalled.
use godash.Common.{◌<◌, ◌≡◌, refl, [], length, int_half, arith}
use godash.Pb.Runtime.{decoded, Runtime, IsDocumented}
use godash.Pb.Messages.{Cancel, Init, ReverseResponse, RpcRequest}
use godash.Pb.Marshal.Format.{
  cancel_format, init_format, reverse_response_format, rpc_request_format,
}
use godash.Pb.Input.{read_field, read_int32, read_int64, read_bytes}
use godash.Pb.Input.Laws.{int32-Reads, int64-Reads, bytes-Reads}
use godash.Pb.Input.Unknown.{UnknownFields-Reads}
use godash.Pb.Input.Reads.{Reads, Reads-append, unmarshal_into-Reads}
use godash.Pb.Unmarshal.{
  cancel_cases, init_cases, reverse_response_cases, rpc_request_cases, unmarshal_cancel,
  unmarshal_init, unmarshal_reverse_response, unmarshal_rpc_request,
}
use godash.Pb.Defaults.{
  empty_cancel, empty_init, empty_reverse_response, empty_rpc_request, keep_cancel, keep_init,
  keep_reverse_response, keep_rpc_request,
}
use godash.Pb.Unmarshal.Fits.{CancelFits, InitFits, ReverseResponseFits, RpcRequestFits}

module _ (r : Runtime) (d : IsDocumented r) where
  cancel-Reads :
      (m : Cancel)
      → CancelFits r m
      → Reads r (cancel_cases r) keep_cancel empty_cancel (cancel_format r m) m
  unfolding cancel_cases cancel_format empty_cancel keep_cancel read_field read_int32 read_int64
      read_bytes
  cancel-Reads m fits =
      let s1 : Cancel = record empty_cancel { code = m.code } in
      let s2 : Cancel = record s1 { message = m.message } in
      let s3 : Cancel = record s2 { port = m.port } in
      Reads-append
        (int32-Reads d empty_cancel 8 m.code (λ v. record empty_cancel { code = v }) (omega arith)
          fits.code_fits refl (λ l start rest. refl))
        (Reads-append
          (bytes-Reads d s1 18 m.message (λ v. record s1 { message = v }) (omega arith) refl
            (λ l start rest. refl))
          (Reads-append
            (int64-Reads d s2 24 m.port (λ v. record s2 { port = v }) (omega arith) fits.port_fits
              refl (λ l start rest. refl))
            (UnknownFields-Reads keep_cancel s3 (λ a b. refl) [] m.unknown_fields
              fits.unknown_fit)))

  pub unmarshal_cancel_lem :
      (m : Cancel)
      → CancelFits r m
      → length (cancel_format r m) < int_half
      → unmarshal_cancel r empty_cancel (cancel_format r m) ≡ decoded m
  unfolding unmarshal_cancel
  unmarshal_cancel_lem m fits =
      unmarshal_into-Reads empty_cancel m (cancel_format r m) (cancel-Reads m fits)

  init-Reads :
      (m : Init) → InitFits r m → Reads r (init_cases r) keep_init empty_init (init_format r m) m
  unfolding init_cases init_format empty_init keep_init read_field read_int32 read_int64 read_bytes
  init-Reads m fits =
      let s1 : Init = record empty_init { push_port = m.push_port } in
      let s2 : Init = record s1 { temp_dir = m.temp_dir } in
      let s3 : Init = record s2 { support_dir = m.support_dir } in
      let s4 : Init = record s3 { documents_dir = m.documents_dir } in
      let s5 : Init = record s4 { app_encryption_key = m.app_encryption_key } in
      Reads-append
        (int64-Reads d empty_init 8 m.push_port (λ v. record empty_init { push_port = v })
          (omega arith) fits.push_port_fits refl (λ l start rest. refl))
        (Reads-append
          (bytes-Reads d s1 18 m.temp_dir (λ v. record s1 { temp_dir = v }) (omega arith) refl
            (λ l start rest. refl))
          (Reads-append
            (bytes-Reads d s2 26 m.support_dir (λ v. record s2 { support_dir = v }) (omega arith)
              refl (λ l start rest. refl))
            (Reads-append
              (bytes-Reads d s3 34 m.documents_dir (λ v. record s3 { documents_dir = v })
                (omega arith) refl (λ l start rest. refl))
              (Reads-append
                (bytes-Reads d s4 42 m.app_encryption_key
                  (λ v. record s4 { app_encryption_key = v }) (omega arith) refl
                  (λ l start rest. refl))
                (UnknownFields-Reads keep_init s5 (λ a b. refl) [] m.unknown_fields
                  fits.unknown_fit)))))

  pub unmarshal_init_lem :
      (m : Init)
      → InitFits r m
      → length (init_format r m) < int_half
      → unmarshal_init r empty_init (init_format r m) ≡ decoded m
  unfolding unmarshal_init
  unmarshal_init_lem m fits =
      unmarshal_into-Reads empty_init m (init_format r m) (init-Reads m fits)

  reverse_response-Reads :
      (m : ReverseResponse)
      → ReverseResponseFits r m
      → Reads r
          (reverse_response_cases r)
          keep_reverse_response
          empty_reverse_response
          (reverse_response_format r m)
          m
  unfolding reverse_response_cases reverse_response_format empty_reverse_response
      keep_reverse_response read_field read_int32 read_int64 read_bytes
  reverse_response-Reads m fits =
      let s1 : ReverseResponse = record empty_reverse_response { reverse_port = m.reverse_port } in
      let s2 : ReverseResponse = record s1 { payload = m.payload } in
      Reads-append
        (int64-Reads d empty_reverse_response 8 m.reverse_port
          (λ v. record empty_reverse_response { reverse_port = v }) (omega arith)
          fits.reverse_port_fits refl (λ l start rest. refl))
        (Reads-append
          (bytes-Reads d s1 18 m.payload (λ v. record s1 { payload = v }) (omega arith) refl
            (λ l start rest. refl))
          (UnknownFields-Reads keep_reverse_response s2 (λ a b. refl) [] m.unknown_fields
            fits.unknown_fit))

  pub unmarshal_reverse_response_lem :
      (m : ReverseResponse)
      → ReverseResponseFits r m
      → length (reverse_response_format r m) < int_half
      → unmarshal_reverse_response r empty_reverse_response (reverse_response_format r m)
        ≡ decoded m
  unfolding unmarshal_reverse_response
  unmarshal_reverse_response_lem m fits =
      unmarshal_into-Reads empty_reverse_response m (reverse_response_format r m)
        (reverse_response-Reads m fits)

  rpc_request-Reads :
      (m : RpcRequest)
      → RpcRequestFits r m
      → Reads r (rpc_request_cases r) keep_rpc_request empty_rpc_request (rpc_request_format r m) m
  unfolding rpc_request_cases rpc_request_format empty_rpc_request keep_rpc_request read_field
      read_int32 read_int64 read_bytes
  rpc_request-Reads m fits =
      let s1 : RpcRequest = record empty_rpc_request { path = m.path } in
      let s2 : RpcRequest = record s1 { payload = m.payload } in
      Reads-append
        (bytes-Reads d empty_rpc_request 10 m.path (λ v. record empty_rpc_request { path = v })
          (omega arith) refl (λ l start rest. refl))
        (Reads-append
          (bytes-Reads d s1 18 m.payload (λ v. record s1 { payload = v }) (omega arith) refl
            (λ l start rest. refl))
          (UnknownFields-Reads keep_rpc_request s2 (λ a b. refl) [] m.unknown_fields
            fits.unknown_fit))

  pub unmarshal_rpc_request_lem :
      (m : RpcRequest)
      → RpcRequestFits r m
      → length (rpc_request_format r m) < int_half
      → unmarshal_rpc_request r empty_rpc_request (rpc_request_format r m) ≡ decoded m
  unfolding unmarshal_rpc_request
  unmarshal_rpc_request_lem m fits =
      unmarshal_into-Reads empty_rpc_request m (rpc_request_format r m) (rpc_request-Reads m fits)
