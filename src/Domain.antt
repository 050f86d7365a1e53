-- ===== src/Domain.antt =====
-- src/earth2_sandbox/domain/jobs: the vocabulary and the policies of forecast jobs.
pub mod Status
pub mod Priority
pub mod Float
pub mod Uuid
pub mod Policies
pub mod Entities
