-- ===== src/Pb/Defaults.antt =====
-- What the decoders of pb/core_lite.go read into: the zero values of the messages, the bytes of unknown
-- fields, and the message in a oneof.
use godash.Common.{[], ◌++◌}
use godash.Pb.Runtime.{Bytes}
use godash.Pb.Messages.{
  Error, Cancel, Done, Init, ReverseResponse, RpcRequest, RpcResponse, Push, Requests, Request,
  Responses, Response,
}

unfoldable pub empty_error : Error
empty_error = record { unknown_fields = []; code = 0; message = [] }

unfoldable pub empty_cancel : Cancel
empty_cancel = record { unknown_fields = []; code = 0; message = []; port = 0 }

unfoldable pub empty_done : Done
empty_done = record { unknown_fields = []; code = 0; message = [] }

unfoldable pub empty_init : Init
empty_init = record {
  unknown_fields = [];
  push_port = 0;
  temp_dir = [];
  support_dir = [];
  documents_dir = [];
  app_encryption_key = [];
}

unfoldable pub empty_reverse_response : ReverseResponse
empty_reverse_response = record { unknown_fields = []; reverse_port = 0; payload = [] }

unfoldable pub empty_rpc_request : RpcRequest
empty_rpc_request = record { unknown_fields = []; path = []; payload = [] }

unfoldable pub empty_rpc_response : RpcResponse
empty_rpc_response = record { unknown_fields = []; payload = [] }

unfoldable pub empty_push : Push
empty_push = record { unknown_fields = []; type = []; payload = []; reverse_port = 0 }

unfoldable pub empty_request : Request
empty_request = record { unknown_fields = []; port = 0; requests = Requests.unset }

unfoldable pub empty_response : Response
empty_response = record { unknown_fields = []; responses = Responses.unset }

-- `m.unknownFields = append(m.unknownFields, ...)`
unfoldable pub keep_error : Bytes → Error → Error
keep_error s m = record m { unknown_fields = m.unknown_fields ++ s }

unfoldable pub keep_cancel : Bytes → Cancel → Cancel
keep_cancel s m = record m { unknown_fields = m.unknown_fields ++ s }

unfoldable pub keep_done : Bytes → Done → Done
keep_done s m = record m { unknown_fields = m.unknown_fields ++ s }

unfoldable pub keep_init : Bytes → Init → Init
keep_init s m = record m { unknown_fields = m.unknown_fields ++ s }

unfoldable pub keep_reverse_response : Bytes → ReverseResponse → ReverseResponse
keep_reverse_response s m = record m { unknown_fields = m.unknown_fields ++ s }

unfoldable pub keep_rpc_request : Bytes → RpcRequest → RpcRequest
keep_rpc_request s m = record m { unknown_fields = m.unknown_fields ++ s }

unfoldable pub keep_rpc_response : Bytes → RpcResponse → RpcResponse
keep_rpc_response s m = record m { unknown_fields = m.unknown_fields ++ s }

unfoldable pub keep_push : Bytes → Push → Push
keep_push s m = record m { unknown_fields = m.unknown_fields ++ s }

unfoldable pub keep_request : Bytes → Request → Request
keep_request s m = record m { unknown_fields = m.unknown_fields ++ s }

unfoldable pub keep_response : Bytes → Response → Response
keep_response s m = record m { unknown_fields = m.unknown_fields ++ s }

-- The message that the case of `Init` reads into.
unfoldable pub init_of : Requests → Init
init_of (Requests.init x) = x
init_of _ = empty_init

-- The message that the case of `Cancel` reads into.
unfoldable pub cancel_of : Requests → Cancel
cancel_of (Requests.cancel x) = x
cancel_of _ = empty_cancel

-- The message that the case of `RpcRequest` reads into.
unfoldable pub rpc_request_of : Requests → RpcRequest
rpc_request_of (Requests.rpc_request x) = x
rpc_request_of _ = empty_rpc_request

-- The message that the case of `ReverseResponse` reads into.
unfoldable pub reverse_response_of : Requests → ReverseResponse
reverse_response_of (Requests.reverse_response x) = x
reverse_response_of _ = empty_reverse_response

-- The message that the case of `Error` reads into.
unfoldable pub error_of : Responses → Error
error_of (Responses.error x) = x
error_of _ = empty_error

-- The message that the case of `Done` reads into.
unfoldable pub done_of : Responses → Done
done_of (Responses.done x) = x
done_of _ = empty_done

-- The message that the case of `Push` reads into.
unfoldable pub push_of : Responses → Push
push_of (Responses.push x) = x
push_of _ = empty_push

-- The message that the case of `RpcResponse` reads into.
unfoldable pub rpc_response_of : Responses → RpcResponse
rpc_response_of (Responses.rpc_response x) = x
rpc_response_of _ = empty_rpc_response
