-- ===== src/Commands.antt =====
-- src/earth2_sandbox/application/commands: the use cases that change jobs.
pub mod Submit
pub mod Cancel
pub mod Retry
pub mod Cleanup
pub mod Run
pub mod Writes
pub mod Safe
