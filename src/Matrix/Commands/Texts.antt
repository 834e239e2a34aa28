-- ===== src/Matrix/Commands/Texts.antt =====
-- pkg/matrix/commands.go: the texts of the replies, in UTF-8. The uptime, the guild, the texts of
-- errors and `%q` are arguments.
use matrix_discord_voice_bri.Base.{Option, none, some, List, [], ◌∷◌, ◌++◌, if◌then◌else◌, length}
use matrix_discord_voice_bri.Base.Eq.{Bytes, ◌==◌, bytes_eq}
use matrix_discord_voice_bri.Base.Text.{text, decimal}
use matrix_discord_voice_bri.Bridge.Admin.{SlotStatus, is_free, is_occupied, is_dead}
use matrix_discord_voice_bri.Matrix.Commands.{
  Signed, plus, minus, BotLine, Reply, no_reply, help_text, no_rooms, no_slots, join_usage,
  level_usage, add_usage, remove_usage, status_text, rooms_text, bots_text, join_failed,
  leave_failed, sync_failed, add_failed, remove_failed, stopped_all, started, stopped,
  unknown_level, level_text, bad_slot, unknown_command, synced, bot_added, bot_removed,
}

-- The arrow, the dash and the end of a line.
abbrev arrow : Bytes
arrow = 226 ∷ 134 ∷ 146 ∷ []

abbrev dash : Bytes
dash = 226 ∷ 128 ∷ 148 ∷ []

abbrev newline : Bytes
newline = 10 ∷ []

unfoldable pub help_line : Bytes → Bytes → Bytes
help_line command what = newline ++ command ++ text " " ++ dash ++ text " " ++ what

-- `cmdHelp`.
unfoldable pub help : Bytes
help =
    text "Available commands:"
    ++ help_line (text "!status") (text "uptime, active bridges, slot usage")
    ++ help_line (text "!rooms")
        (text "list voice channel " ++ arrow ++ text " Matrix room mappings")
    ++ help_line (text "!bots") (text "list sidecar slots and their status")
    ++ help_line (text "!bot-add <token>") (text "hot-add a Discord bot (persisted to DB)")
    ++ help_line (text "!bot-remove <slot>") (text "remove a bot slot")
    ++ help_line (text "!sync-db") (text "rebuild DB from Matrix state events")
    ++ help_line (text "!join <channel-name>") (text "manually start bridge for a channel")
    ++ help_line (text "!leave [channel-name]") (text "stop bridge (all if no name)")
    ++ help_line (text "!log-level <info|debug|trace>") (text "change log level at runtime")
    ++ help_line (text "!help") (text "this message")

unfoldable pub room_line : Bytes × Bytes → Bytes
room_line (name, room) = text "  " ++ name ++ text " " ++ arrow ++ text " " ++ room ++ newline

unfoldable pub status_word : SlotStatus → Bytes
status_word is_free = text "free"
status_word is_occupied = text "busy"
status_word is_dead = text "dead"

abbrev pub after_arrow : Option Bytes → Bytes
after_arrow none = []
after_arrow (some name) = text " " ++ arrow ++ text " " ++ name

abbrev pub in_brackets : Option Bytes → Bytes
in_brackets none = []
in_brackets (some token) = text " (token: " ++ token ++ text ")"

unfoldable pub slot_line : BotLine → Bytes
slot_line l =
    text "  ["
    ++ decimal l.index
    ++ text "] "
    ++ status_word l.status
    ++ after_arrow l.channel
    ++ in_brackets l.token
    ++ newline

abbrev pub concat_map {ℓ} : {A : Type ℓ} → (A → Bytes) → List A → Bytes
concat_map f [] = []
concat_map f (x ∷ xs) = f x ++ concat_map f xs

unfoldable pub signed_decimal : Signed → Bytes
signed_decimal (plus n) = decimal n
signed_decimal (minus n) = text "-" ++ decimal n

module _ (quote : Bytes → Bytes) (uptime guild error : Bytes) where
  -- What follows a failure's words.
  abbrev failure : Bytes → Bytes
  failure words = words ++ text ": " ++ error

  -- The text that `Handle` returns for a reply.
  unfoldable pub reply_text : Reply → Bytes
  reply_text no_reply = []
  reply_text help_text = help
  reply_text no_rooms = text "No voice rooms discovered."
  reply_text no_slots = text "No sidecar slots."
  reply_text join_usage = text "Usage: !join <channel-name>"
  reply_text level_usage = text "Usage: !log-level <info|debug|trace>"
  reply_text add_usage = text "Usage: !bot-add <discord-bot-token>"
  reply_text remove_usage = text "Usage: !bot-remove <slot-number>"
  reply_text (status_text s) =
      text "Bridge Status:"
      ++ newline
      ++ text "  Uptime: "
      ++ uptime
      ++ newline
      ++ text "  Guild: "
      ++ guild
      ++ newline
      ++ text "  Active bridges: "
      ++ decimal s.active_bridges
      ++ newline
      ++ text "  Slots: "
      ++ decimal s.busy
      ++ text "/"
      ++ decimal s.total_slots
      ++ text " busy"
      ++ newline
      ++ text "  Discord users in VCs: "
      ++ decimal s.tracked_users
  reply_text (rooms_text rooms) =
      text "Voice rooms ("
      ++ decimal (length rooms)
      ++ text "):"
      ++ newline
      ++ concat_map room_line rooms
  reply_text (bots_text slots) =
      text "Bot slots ("
      ++ decimal (length slots)
      ++ text "):"
      ++ newline
      ++ concat_map slot_line slots
  reply_text join_failed = failure (text "Failed to join")
  reply_text leave_failed = failure (text "Failed to leave")
  reply_text sync_failed = failure (text "Failed to rebuild DB")
  reply_text add_failed = failure (text "Failed to add bot")
  reply_text remove_failed = failure (text "Failed to remove bot")
  reply_text stopped_all = text "Stopped all bridges."
  reply_text (started name) = text "Started bridge for " ++ quote name
  reply_text (stopped name) = text "Stopped bridge for " ++ quote name
  reply_text (unknown_level word) =
      text "Unknown level " ++ quote word ++ text " " ++ dash ++ text " use info, debug, or trace"
  reply_text (level_text word) = text "Log level set to " ++ word
  reply_text (bad_slot word) = text "Invalid slot number: " ++ word
  reply_text (unknown_command cmd) =
      text "unknown command: " ++ cmd ++ text " " ++ dash ++ text " try !help"
  reply_text (synced n) =
      text "Rebuilt database from Matrix state: " ++ decimal n ++ text " rooms found."
  reply_text (bot_added i) =
      text "Bot added as slot " ++ decimal i ++ text " (audio-only). Persisted to database."
  reply_text (bot_removed i) = text "Slot " ++ signed_decimal i ++ text " removed and marked dead."

  -- What the handler of messages sends: nothing for the empty text.
  unfoldable pub answer : Reply → Option Bytes
  answer r = if reply_text r == [] then none else some (reply_text r)
