-- ===== src/Tests.antt =====
-- Runs of the theorems on concrete inputs.
mod Samples
mod Wire
mod Secrets
mod Chains
mod Logs
mod Disk
mod CreateConfig
mod Jobs
mod Compress
mod Server
mod Database
mod Serving
mod Copies
mod Keyset
mod Http
mod Served
mod Mounted
