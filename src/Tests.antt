-- ===== src/Tests.antt =====
-- Runs of the model on small concrete inputs, by part of the program.
mod Gen
mod Program
mod Names
mod Archive
mod OrtUtils
mod Setup
mod Devices
mod Session
mod Allocators
mod Transfers
mod Compile
mod Buffers
mod Compute
mod Plugin
mod Wrappers
