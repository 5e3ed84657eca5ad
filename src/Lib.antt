-- ===== src/Lib.antt =====
-- godash: Go services in a Flutter app. This library models the parts of the Go side that carry the
-- protocol between the app's page and its Go worker, the messages of that protocol, the layout of
-- hot-path messages, and pure parts of the tools.
--
-- Parts and their interaction. The page sends requests to the worker over a port. The worker's
-- dispatcher (rpc/rpc.go) keeps a cancel function and a record per request in flight, grants stream
-- credits to the gate of a stream (rpc/flow.go), and calls back into the page with numbered reverse
-- calls. In a browser the responses of a stream go through a ring in shared memory (web/shared.go)
-- which the page drains (lib/bridge/shared_ring.dart, lib/bridge/bridge_web.dart); a frame that the
-- ring does not take goes through the port. Natively, hot methods pass packed structs whose layout
-- internal/hotlayout/hotlayout.go computes for both code generators. The worker's entry (web/web.go)
-- decodes a request (pb/core_lite.go), hands it to the dispatcher and posts what that sends.
--
-- Which file models which part:
-- - HotLayout: internal/hotlayout/hotlayout.go. compute is Compute, eligible Eligible, scalar_type
--   scalarType, align_up alignUp. A message descriptor is the list of its fields' descriptors, with
--   what the code reads of them; the order of equal field numbers does not arise.
-- - HotLayout/Methods: the choice of hot methods in cmd/protoc-gen-go-godash/main.go and
--   cmd/protoc-gen-dart-godash/main.go.
-- - HotLayout/Accessor: dartAccessor of cmd/protoc-gen-dart-godash/main.go.
-- - Pb: pb/core_lite.go, the messages as the worker marshals and decodes them. Messages has the
--   types, Buffer what the marshallers do to a buffer, Marshal writers, sizes and MarshalVT, Input
--   the loop that every UnmarshalVT is, Input/Unknown what unknown fields it keeps, Unmarshal the
--   switch of each message, Defaults what they read into, Equal EqualVT. The called module
--   protobuf-go-lite is the record Runtime, a parameter: IsDocumented says that its varints round-trip,
--   Advances that its decoders read on. The loop's fuel is the length of the input: each round reads
--   a byte. Pb/Tests/Varint has a codec with which both hold.
-- - Web/Entry: onMessage of web/web.go from bytes to messages, with postError and postDone, and the two
--   sinks of web/shared.go.
-- - Web/Memory, Web/SharedRing: web/shared.go, over a byte memory. write is sharedRing.write, send
--   sharedSink.send, new_response_sink newResponseSink; drain is SharedRingReader.drain. Atomics are
--   single reads and writes, since one side alone moves each cursor. Stream is the page's handler of
--   the port, and runs any sequence of sends by the worker, messages handled by the page and rounds
--   of the loop of drain. A write is one step: it reads the counter once, and what the page reads
--   meanwhile can only make room.
-- - Rpc/FlowGate: the type FlowGate of rpc/flow.go. An operation is what it does under the mutex;
--   Interleaving is every order of operations by any number of goroutines. Credits are Go's int, as
--   bit patterns below 2^64.
-- - Rpc/Credits: registerFlowGate, unregisterFlowGate and receiveFlowCredit of rpc/flow.go.
-- - Rpc/Calls: what Call does to the maps cancels, inflight and warnedSlow of rpc/rpc.go, the Cancel
--   request and the watchdog watchSlowRPCs. Interleaving assumes what the page does: no two requests
--   in flight share a port.
-- - Rpc/Reverse: ReverseCall and receiveReverseResponse of rpc/rpc.go; Interleaving is every order of
--   their critical sections, for fewer than 2^63 calls.
-- - Rpc/Dispatch: Call of rpc/rpc.go as one request from arrival to end, over all kinds of requests.
-- - Cmd/Names, Cmd/Services: the names that cmd/godash derives (wiring_gen.go, scaffold.go) and the
--   scan for services and hot methods of wiring_gen.go, over the matches of its expressions.
-- - Cmd/Project: readEnvFile and the choice of the checkout by loadProjectEnvAt (project.go).
-- - Cmd/TemplateMeta: readTemplateMeta and writeTemplateMeta (template_meta.go), on the file's text.
-- - Cmd/Shell: shellQuote and dartDefineArgs (build.go); Cmd/Shell/Words splits words as a shell does.
-- - Cmd/Profile: WriteProfile of cmd/go_js_wasm_exec/profiler.go, from the browser's nodes to the
--   samples; the walk up the parents is on fuel, and the depth of the node is enough.
-- - Cmd/Arguments: gentleParse of cmd/go_js_wasm_exec/parse.go, on fuel, one for each round; as much
--   as there are arguments is enough when the flag set consumes arguments.
-- - Common: numbers, lists, maps and 64-bit words that the parts share.
-- The other loops are structural recursion, and what waits is a step relation.
--
-- Not modelled: of pb/core_lite.go nil messages, MarshalToVT, CloneVT and the getters; the protobuf
-- runtime of native builds; in the page's stream what a response is, an error, the end or another, is a parameter; the C
-- and JavaScript bindings, contexts beyond their cancel functions, logging, regular expressions, files,
-- white space beyond ASCII, and the parts of the tools under cmd/ that run other programs or print.
pub mod Common
pub mod Cmd
pub mod HotLayout
pub mod Pb
pub mod Rpc
pub mod Web
