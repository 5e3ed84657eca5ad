-- ===== src/Pb/Unmarshal/Fits.antt =====
-- The messages of pb/core_lite.go that are read back as they were: the numbers fit their types, and what
-- is kept of unknown fields is a sequence of fields that the decoder skips.
use godash.Common.{◌<◌, ◌^◌}
use godash.Pb.Runtime.{Runtime}
use godash.Pb.Messages.{Error, Cancel, Done, Init, ReverseResponse, RpcRequest, RpcResponse, Push}
use godash.Pb.Input.Unknown.{UnknownFields}
use godash.Pb.Unmarshal.{
  error_cases, cancel_cases, done_cases, init_cases, reverse_response_cases, rpc_request_cases,
  rpc_response_cases, push_cases,
}

module _ (r : Runtime) where
  pub record ErrorFits (m : Error) : Type 0 where
    pub unknown_fit : UnknownFields r (error_cases r) m.unknown_fields
    pub code_fits : m.code < 2 ^ 32

  pub record CancelFits (m : Cancel) : Type 0 where
    pub unknown_fit : UnknownFields r (cancel_cases r) m.unknown_fields
    pub code_fits : m.code < 2 ^ 32
    pub port_fits : m.port < 2 ^ 64

  pub record DoneFits (m : Done) : Type 0 where
    pub unknown_fit : UnknownFields r (done_cases r) m.unknown_fields
    pub code_fits : m.code < 2 ^ 32

  pub record InitFits (m : Init) : Type 0 where
    pub unknown_fit : UnknownFields r (init_cases r) m.unknown_fields
    pub push_port_fits : m.push_port < 2 ^ 64

  pub record ReverseResponseFits (m : ReverseResponse) : Type 0 where
    pub unknown_fit : UnknownFields r (reverse_response_cases r) m.unknown_fields
    pub reverse_port_fits : m.reverse_port < 2 ^ 64

  pub record RpcRequestFits (m : RpcRequest) : Type 0 where
    pub unknown_fit : UnknownFields r (rpc_request_cases r) m.unknown_fields

  pub record RpcResponseFits (m : RpcResponse) : Type 0 where
    pub unknown_fit : UnknownFields r (rpc_response_cases r) m.unknown_fields

  pub record PushFits (m : Push) : Type 0 where
    pub unknown_fit : UnknownFields r (push_cases r) m.unknown_fields
    pub reverse_port_fits : m.reverse_port < 2 ^ 64
