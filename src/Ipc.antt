-- ===== src/Ipc.antt =====
-- pkg/ipc/protocol.go: the binary protocol between the bridge and a sidecar.
pub mod LittleEndian
pub mod Frame
pub mod RoundTrip
pub mod Stream
pub mod Inverse
pub mod Sidecar
