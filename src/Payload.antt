-- ===== src/Payload.antt =====
-- The payloads inside the frames: what `HandleMessage` and `pushMatrixUsers` of
-- pkg/bridge/manager.go read and write, and what sidecar/index.mjs writes and reads.
pub mod Slice
pub mod VoiceState
pub mod UserInfo
pub mod MatrixUsers
pub mod Safety
