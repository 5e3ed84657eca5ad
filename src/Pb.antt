-- ===== src/Pb.antt =====
-- The messages between the page and the worker, and their wire format: pb/core_lite.go.
pub mod Runtime
pub mod Messages
pub mod Buffer
pub mod Marshal
pub mod Input
pub mod Unmarshal
pub mod Equal
pub mod Tests
pub mod Defaults
