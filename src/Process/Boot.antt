-- ===== src/Process/Boot.antt =====
-- cmd/bridge/main.go: the log level, the bots that `run` starts from the database, and the filter of
-- the log.
use matrix_discord_voice_bri.Base.{
  ℕ, suc, Bool, true, false, ◌||◌, Option, none, some, List, [], ◌∷◌, if◌then◌else◌,
}
use matrix_discord_voice_bri.Base.Eq.{Bytes, ◌==◌, nat_eq, bytes_eq}
use matrix_discord_voice_bri.Base.Text.{text, has_prefix}
use matrix_discord_voice_bri.Store.{Bot, Store, add_bot, all_active_bots}
use matrix_discord_voice_bri.Bridge.State.{Slot, free}
use matrix_discord_voice_bri.Bridge.Admin.{mask_token}

pub data Level : Type 0 where
  trace debug info warn error : Level

-- `parseLogLevel`.
unfoldable pub parse_log_level : Bytes → Level
parse_log_level s =
    if s == text "trace"
    then trace
    else if s == text "debug"
    then debug
    else if s == text "warn"
    then warn
    else if s == text "error"
    then error
    else info

-- The level after the start: the flag over the configuration, `info` without either.
unfoldable pub start_level : Bytes → Bytes → Level
start_level flag config =
    if flag == []
    then (if config == [] then info else parse_log_level config)
    else parse_log_level flag

-- Whether `filterHandler` passes a record on.
unfoldable pub passes_filter : Bytes → Bool
passes_filter msg =
    if has_prefix (text "pion.") msg || has_prefix (text "\"level\"=") msg then false else true

-- The loop that seeds the configured tokens; an error is only logged.
unfoldable pub seed : List Bytes → Bytes → Store → Store
seed [] guild s = s
seed (token ∷ tokens) guild s = seed tokens guild (add_bot token guild s).0

abbrev pub slot_for : ℕ → Bot → Slot
slot_for i bot = record {
  conn = true;
  index = i;
  primary = i == 0;
  token = mask_token bot.token;
  bot_db_id = bot.id;
  channel_id = free;
}

abbrev pub cons_slot : Slot → Option (List Slot) → Option (List Slot)
cons_slot s none = none
cons_slot s (some ss) = some (s ∷ ss)

-- One slot for each bot, the first one primary; `connects` is whether a slot's sidecar starts and
-- connects, and `none` is the error that ends `run` otherwise.
unfoldable pub start_slots : (ℕ → Bool) → ℕ → List Bot → Option (List Slot)
start_slots connects i [] = some []
start_slots connects i (bot ∷ bots) =
    let rest = start_slots connects (suc i) bots in
    if connects i then cons_slot (slot_for i bot) rest else none

-- `run` up to the manager: the database after seeding, and the slots.
unfoldable pub boot : List Bytes → Bytes → (ℕ → Bool) → Store → Store × Option (List Slot)
boot tokens guild connects s =
    let s' = seed tokens guild s in (s', start_slots connects 0 (all_active_bots s'))
