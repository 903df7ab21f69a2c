-- ===== src/Client.antt =====
-- The client (cmd/backupctl/main.go): its jobs, what it asks of the server, and its archives.
pub mod Jobs
pub mod Upload
pub mod Paths
pub mod Glob
pub mod Archive
pub mod Restore
pub mod Commands
pub mod Backups
