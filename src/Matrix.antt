-- ===== src/Matrix.antt =====
-- pkg/matrix: the bridge's presence on the Matrix side.
pub mod Signaller
pub mod Presence
pub mod Words
pub mod Commands
pub mod Sync
pub mod Renewal
pub mod Avatar
