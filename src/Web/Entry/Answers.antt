-- ===== src/Web/Entry/Answers.antt =====
-- What the worker's entry answers to the bytes of a request.
use godash.Pb.Runtime.{Bytes, Runtime, IsDocumented}
use godash.Pb.Marshal.Format.{response_format}
use godash.Rpc.Dispatch
use godash.Web.Entry.{done_response}

module _ (r : Runtime) (d : IsDocumented r) where
  done_bytes : Bytes
  done_bytes = response_format r done_response
