-- ===== src/Store.antt =====
-- src/earth2_sandbox/infrastructure/storage: the job stores.
pub mod Helpers
pub mod Sorting
pub mod Memory
pub mod Files
pub mod Recent
