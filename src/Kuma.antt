-- ===== src/Kuma.antt =====
-- backend/pullbackup/services/kuma_sync.py: what Uptime Kuma is told, and the configuration that is owed
-- to it. The network is a parameter.
pub mod Push
pub mod Sync
pub mod Monitor
mod Examples
