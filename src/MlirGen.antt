-- ===== src/MlirGen.antt =====
-- src/mlir_gen.cc: the MLIR text of an ORT graph, and the parameter archive of its large
-- initializers. `Names`, `Hex`, `Stream` and `Types` are the free functions, `Graph` is what the
-- code reads through the ORT wrappers, `Generator` is the class and `Archive` the archive; the other
-- modules are proofs.
pub mod Names
pub mod Hex
pub mod Stream
pub mod Graph
pub mod Types
pub mod Generator
pub mod Operands
pub mod Lines
pub mod Emission
pub mod Parameters
pub mod Mentions
pub mod Archive
pub mod Metadata
pub mod Program
