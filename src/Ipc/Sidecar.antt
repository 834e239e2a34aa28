-- ===== src/Ipc/Sidecar.antt =====
-- pkg/ipc/protocol.go: the environment in which `StartSidecar` starts a sidecar; and what
-- sidecar/index.mjs reads from it. How a process finds a variable in its environment is an argument.
use matrix_discord_voice_bri.Base.{
  ℕ, Bool, false, ◌||◌, Option, none, some, List, [], ◌∷◌, ◌++◌, if◌then◌else◌,
}
use matrix_discord_voice_bri.Base.Eq.{Bytes, ◌==◌, bytes_eq}
use matrix_discord_voice_bri.Base.Text.{text, decimal}

abbrev pub Environment : Type 0
Environment = List (Bytes × Bytes)

-- What `StartSidecar` adds to its own environment, in order.
unfoldable pub sidecar_variables : Bytes → Bytes → Bytes → Bytes → Bool → ℕ → Environment
sidecar_variables path token guild level primary slot =
    (text "IPC_SOCKET_PATH", path)
    ∷ (text "DISCORD_BOT_TOKEN", token)
    ∷ (text "DISCORD_GUILD_ID", guild)
    ∷ (text "SIDECAR_LOG_LEVEL", level)
    ∷ (text "SIDECAR_SLOT", decimal slot)
    ∷ (if primary then (text "SIDECAR_PRIMARY", text "true") ∷ [] else [])

-- The environment of the process, from the one of the bridge.
unfoldable pub sidecar_env : Environment → Bytes → Bytes → Bytes → Bytes → Bool → ℕ → Environment
sidecar_env own path token guild level primary slot =
    own ++ sidecar_variables path token guild level primary slot

pub record Settings : Type 0 where
  pub socket_path : Bytes
  pub token : Bytes
  pub guild_id : Bytes
  pub log_level : Bytes
  pub slot : Bytes
  pub primary : Bool

-- `||` on a variable: the other value where it is missing or empty.
abbrev pub or_else : Option Bytes → Bytes → Bytes
or_else none d = d
or_else (some v) d = if v == [] then d else v

abbrev pub is_true : Option Bytes → Bool
is_true none = false
is_true (some v) = v == text "true"

-- The constants at the top of index.mjs, from the values of their variables; `none` is its exit without
-- a token or a guild.
unfoldable pub settings_from :
    (path token guild level slot primary : Option Bytes) → Option Settings
settings_from path token guild level slot primary =
    if (or_else token [] == []) || (or_else guild [] == [])
    then none
    else some (record {
      socket_path = or_else path (text "/tmp/discord-voice-bridge.sock");
      token = or_else token [];
      guild_id = or_else guild [];
      log_level = or_else level (text "info");
      slot = or_else slot (text "0");
      primary = is_true primary;
    })

-- `process.env` is a function of the variable's name.
unfoldable pub read_settings : (Bytes → Option Bytes) → Option Settings
read_settings get =
    settings_from (get (text "IPC_SOCKET_PATH")) (get (text "DISCORD_BOT_TOKEN"))
      (get (text "DISCORD_GUILD_ID")) (get (text "SIDECAR_LOG_LEVEL")) (get (text "SIDECAR_SLOT"))
      (get (text "SIDECAR_PRIMARY"))
