-- ===== src/Sandbox.antt =====
-- The host's choice of a sandbox: src/sandbox/backend.rs and src/sandbox/dispatcher.rs, with the
-- file-name rules of src/artifact.rs.
pub mod Errors
pub mod Policy
pub mod FileName
pub mod Request
pub mod Dispatcher
pub mod CommandLine
mod Tests
