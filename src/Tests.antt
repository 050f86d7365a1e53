-- ===== src/Tests.antt =====
-- Concrete runs: a process with a few jobs in it, and the theorems at it.
mod Samples
mod Services
mod Tables
mod Disk
mod Requests
mod Counters
mod Archives
mod Queues
mod Limits
mod Admission
mod Inferences
mod Artifacts
mod Server
mod Remote
