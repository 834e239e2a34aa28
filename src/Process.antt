-- ===== src/Process.antt =====
-- cmd/bridge/main.go: the process around the manager.
pub mod Boot
pub mod Restart
pub mod Reader
pub mod Survival
pub mod Launch
pub mod Shutdown
pub mod Waiting
pub mod Ending
pub mod Spawned
pub mod Sidecars
pub mod Started
