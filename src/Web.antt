-- ===== src/Web.antt =====
-- The package web: the worker's side of a stream between Go and Dart in the browser.
pub mod Memory
pub mod SharedRing
pub mod Entry
