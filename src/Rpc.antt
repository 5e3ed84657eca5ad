-- ===== src/Rpc.antt =====
-- The request dispatcher of rpc/.
pub mod FlowGate
pub mod Credits
pub mod Reverse
pub mod Calls
pub mod Dispatch
