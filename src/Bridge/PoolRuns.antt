-- ===== src/Bridge/PoolRuns.antt =====
-- pkg/bridge/manager.go: runs of the manager against the pool of slots.
use matrix_discord_voice_bri.Bridge.Ready.{Ready}
