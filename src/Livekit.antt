-- ===== src/Livekit.antt =====
-- pkg/livekit: the sound between LiveKit rooms and Discord channels.
pub mod SoftLimit
pub mod Subscriber
pub mod Modes
pub mod Tracks
pub mod Held
pub mod Inputs
pub mod Participants
pub mod Flights
pub mod Attempts
pub mod Rooms
pub mod Output
pub mod Downmix
