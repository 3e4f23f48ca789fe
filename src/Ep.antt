-- ===== src/Ep.antt =====
-- src/iree_ep.cc and src/iree_ep.h: the execution provider. `Config` has its configuration and the
-- flags for the compiler.
pub mod Config
pub mod Flags
pub mod Compile
pub mod Compute
pub mod Callbacks
