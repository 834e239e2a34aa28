-- ===== src/Bridge.antt =====
-- pkg/bridge/manager.go: the manager that puts Discord voice channels on sidecar slots.
pub mod State
pub mod Slots
pub mod Start
pub mod Stop
pub mod Invariant
pub mod Keeps
pub mod Call
pub mod Messages
pub mod Admin
pub mod Frame
pub mod Machine
pub mod Ready
pub mod Steps
pub mod Grow
pub mod Runs
pub mod Cycle
pub mod Death
pub mod DeadForever
pub mod Moves
pub mod Joins
pub mod Debounce
pub mod Shared
pub mod Race
pub mod Window
pub mod InFlight
pub mod Bystander
pub mod Undisturbed
pub mod Orderly
pub mod Exclusion
pub mod Unclaimed
pub mod Closing
pub mod Pool
pub mod Refinement
pub mod PoolRuns
pub mod Discover
pub mod Api
pub mod Commanded
pub mod Scanned
pub mod Rediscover
pub mod Digits
pub mod Spaces
