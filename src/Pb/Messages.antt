-- ===== src/Pb/Messages.antt =====
-- The message types of pb/core_lite.go. A byte slice or a string is the list of its bytes, so that a
-- nil slice is an empty one; a message is not a nil pointer, and neither is the one inside a oneof,
-- since the decoders and the dispatcher make none.
use godash.Common.{ℕ}
use godash.Pb.Runtime.{Bytes}

pub record Error : Type 0 where
  pub unknown_fields : Bytes
  pub code : ℕ
  pub message : Bytes

pub record Cancel : Type 0 where
  pub unknown_fields : Bytes
  pub port : ℕ
  pub code : ℕ
  pub message : Bytes

pub record Done : Type 0 where
  pub unknown_fields : Bytes
  pub code : ℕ
  pub message : Bytes

pub record Init : Type 0 where
  pub unknown_fields : Bytes
  pub push_port : ℕ
  pub temp_dir : Bytes
  pub support_dir : Bytes
  pub documents_dir : Bytes
  pub app_encryption_key : Bytes

pub record ReverseResponse : Type 0 where
  pub unknown_fields : Bytes
  pub reverse_port : ℕ
  pub payload : Bytes

pub record RpcRequest : Type 0 where
  pub unknown_fields : Bytes
  pub path : Bytes
  pub payload : Bytes

pub record RpcResponse : Type 0 where
  pub unknown_fields : Bytes
  pub payload : Bytes

pub record Push : Type 0 where
  pub unknown_fields : Bytes
  pub type : Bytes
  pub payload : Bytes
  pub reverse_port : ℕ

-- `isRequest_Requests`
pub data Requests : Type 0 where
  unset : Requests
  init : Init → Requests
  cancel : Cancel → Requests
  rpc_request : RpcRequest → Requests
  reverse_response : ReverseResponse → Requests

pub record Request : Type 0 where
  pub unknown_fields : Bytes
  pub port : ℕ
  pub requests : Requests

-- `isResponse_Responses`
pub data Responses : Type 0 where
  unset : Responses
  error : Error → Responses
  done : Done → Responses
  push : Push → Responses
  rpc_response : RpcResponse → Responses

pub record Response : Type 0 where
  pub unknown_fields : Bytes
  pub responses : Responses
