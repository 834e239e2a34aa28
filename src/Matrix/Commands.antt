-- ===== src/Matrix/Commands.antt =====
-- pkg/matrix/commands.go over the interface of pkg/types: the admins, the commands and their replies.
-- A reply is the constructor of its text with the values that the text shows; Texts has the texts.
pub mod Gate
pub mod Texts
pub mod Answers
use matrix_discord_voice_bri.Base.{
  ℕ, zero, suc, ◌^◌, Bool, true, false, not, ◌&&◌, ◌||◌, Option, none, some, List, [], ◌∷◌, ◌++◌,
  if◌then◌else◌, map, ltb, leb, ◌+◌, ◌-◌,
}
use matrix_discord_voice_bri.Base.Eq.{Bytes, ◌==◌, nat_eq, bytes_eq, elem}
use matrix_discord_voice_bri.Base.Text.{text, decimal, has_prefix}
use matrix_discord_voice_bri.Bridge.Admin.{Stats, RoomInfo, SlotInfo, SlotStatus, is_occupied}
use matrix_discord_voice_bri.Bridge.Discover.{digits_value}
use matrix_discord_voice_bri.Matrix.Words.{fields, to_lower}
use matrix_discord_voice_bri.Process.Boot.{Level, trace, debug, info, warn}

-- A Go `int` that was read: its sign and its size.
pub data Signed : Type 0 where
  plus minus : ℕ → Signed

-- `types.ManagerAPI` over the state of whoever implements it; false and `none` are errors.
pub record ManagerApi (S : Type 0) : Type 0 where
  pub stats : S → Stats
  pub list_rooms : S → List (ℕ × RoomInfo)
  pub list_slots : S → List SlotInfo
  pub manual_join : Bytes → S → S × Bool
  pub manual_leave : Bytes → S → S × Bool
  pub add_bot : Bytes → S → S × Option ℕ
  pub remove_bot : Signed → S → S × Bool
  pub rebuild_db : S → S × Option ℕ

pub record BotLine : Type 0 where
  pub index : ℕ
  pub status : SlotStatus
  pub channel : Option Bytes
  pub token : Option Bytes

pub data Reply : Type 0 where
  no_reply help_text no_rooms no_slots join_usage level_usage add_usage remove_usage : Reply
  status_text : Stats → Reply
  rooms_text : List (Bytes × Bytes) → Reply
  bots_text : List BotLine → Reply
  join_failed leave_failed sync_failed add_failed remove_failed stopped_all : Reply
  started stopped unknown_level level_text bad_slot unknown_command : Bytes → Reply
  synced bot_added : ℕ → Reply
  bot_removed : Signed → Reply

-- `strings.Join(args, " ")`.
unfoldable pub join_words : List Bytes → Bytes
join_words [] = []
join_words (word ∷ []) = word
join_words (word ∷ next ∷ words) = word ++ 32 ∷ join_words (next ∷ words)

unfoldable pub leading_digits : Bytes → Bytes
leading_digits [] = []
leading_digits (c ∷ cs) =
    let rest = leading_digits cs in if leb 48 c && leb c 57 then c ∷ rest else []

unfoldable pub scan_digits : Bytes → Option ℕ
scan_digits [] = none
scan_digits (c ∷ cs) = digits_value 0 (c ∷ cs)

abbrev pub plus_of : Option ℕ → Option Signed
plus_of none = none
plus_of (some n) = if ltb n (2 ^ 63) then some (plus n) else none

abbrev pub minus_of : Option ℕ → Option Signed
minus_of none = none
minus_of (some n) = if leb n (2 ^ 63) then some (minus n) else none

-- `fmt.Sscanf(s, "%d", &slotIdx)` on a word: a sign, then digits; what follows them is not read.
unfoldable pub sscan_int : Bytes → Option Signed
sscan_int [] = none
sscan_int (c ∷ cs) =
    if c == 45
    then minus_of (scan_digits (leading_digits cs))
    else if c == 43
    then plus_of (scan_digits (leading_digits cs))
    else plus_of (scan_digits (leading_digits (c ∷ cs)))

-- `NewCommandHandler`: the admins that it keeps; `trim` is `strings.TrimSpace`.
unfoldable pub new_admins : (Bytes → Bytes) → List Bytes → List Bytes
new_admins trim users = map trim users

-- `IsAdmin`.
unfoldable pub is_admin : List Bytes → Bytes → Bool
is_admin admins sender = elem sender admins

unfoldable pub room_lines : List (ℕ × RoomInfo) → List (Bytes × Bytes)
room_lines [] = []
room_lines ((ch, r) ∷ rooms) =
    (if r.name == [] then text "channel-" ++ decimal ch else r.name, r.room_id) ∷ room_lines rooms

abbrev pub occupied : SlotStatus → Bool
occupied is_occupied = true
occupied other = false

unfoldable pub bot_line : SlotInfo → BotLine
bot_line s = record {
  index = s.index;
  status = s.status;
  channel =
      if occupied s.status
      then some (if s.channel_name == [] then decimal s.channel_id else s.channel_name)
      else none;
  token = if s.token == [] then none else some s.token;
}

-- The level that a word names; `none` for an unknown one.
unfoldable pub level_named : Bytes → Option Level
level_named word =
    if word == text "info"
    then some info
    else if word == text "debug"
    then some debug
    else if word == text "trace"
    then some trace
    else if word == text "warn"
    then some warn
    else none

unfoldable pub cmd_rooms : List (ℕ × RoomInfo) → Reply
cmd_rooms [] = no_rooms
cmd_rooms (r ∷ rooms) = rooms_text (room_lines (r ∷ rooms))

unfoldable pub cmd_bots : List SlotInfo → Reply
cmd_bots [] = no_slots
cmd_bots (s ∷ slots) = bots_text (map bot_line (s ∷ slots))

abbrev pub leveled : Option Level → Bytes → Level → Level × Reply
leveled none word level = (level, unknown_level word)
leveled (some new) word level = (new, level_text word)

unfoldable pub cmd_log_level : List Bytes → Level → Level × Reply
cmd_log_level [] level = (level, level_usage)
cmd_log_level (word ∷ rest) level = leveled (level_named (to_lower word)) (to_lower word) level

module _ {S : Type 0} (api : ManagerApi S) where
  unfoldable pub cmd_join : List Bytes → S → S × Reply
  cmd_join [] s = (s, join_usage)
  cmd_join (word ∷ words) s =
      let name = join_words (word ∷ words) in
      let (s', ok) = api.manual_join name s in (s', if ok then started name else join_failed)

  unfoldable pub cmd_leave : List Bytes → S → S × Reply
  cmd_leave words s =
      let name = join_words words in
      let (s', ok) = api.manual_leave name s in
      (s', if ok then (if name == [] then stopped_all else stopped name) else leave_failed)

  abbrev pub sync_reply : Option ℕ → Reply
  sync_reply none = sync_failed
  sync_reply (some n) = synced n

  unfoldable pub cmd_sync_db : S → S × Reply
  cmd_sync_db s = let (s', found) = api.rebuild_db s in (s', sync_reply found)

  abbrev pub add_reply : Option ℕ → Reply
  add_reply none = add_failed
  add_reply (some i) = bot_added i

  unfoldable pub cmd_bot_add : List Bytes → S → S × Reply
  cmd_bot_add [] s = (s, add_usage)
  cmd_bot_add (token ∷ rest) s = let (s', slot) = api.add_bot token s in (s', add_reply slot)

  abbrev pub remove_at : Bytes → Option Signed → S → S × Reply
  remove_at word none s = (s, bad_slot word)
  remove_at word (some i) s =
      let (s', ok) = api.remove_bot i s in (s', if ok then bot_removed i else remove_failed)

  unfoldable pub cmd_bot_remove : List Bytes → S → S × Reply
  cmd_bot_remove [] s = (s, remove_usage)
  cmd_bot_remove (word ∷ rest) s = remove_at word (sscan_int word) s

  abbrev pub same_level : Level → S × Reply → S × Level × Reply
  same_level level (s, reply) = (s, level, reply)

  abbrev pub same_state : S → Level × Reply → S × Level × Reply
  same_state s (level, reply) = (s, level, reply)

  -- The `switch` of `Handle`.
  unfoldable pub run_command : Bytes → List Bytes → S → Level → S × Level × Reply
  run_command cmd args s level =
      if cmd == text "!help"
      then (s, level, help_text)
      else if cmd == text "!status"
      then (s, level, status_text (api.stats s))
      else if cmd == text "!rooms"
      then (s, level, cmd_rooms (api.list_rooms s))
      else if cmd == text "!bots"
      then (s, level, cmd_bots (api.list_slots s))
      else if cmd == text "!join"
      then same_level level (cmd_join args s)
      else if cmd == text "!leave"
      then same_level level (cmd_leave args s)
      else if cmd == text "!log-level"
      then same_state s (cmd_log_level args level)
      else if cmd == text "!bot-add"
      then same_level level (cmd_bot_add args s)
      else if cmd == text "!bot-remove"
      then same_level level (cmd_bot_remove args s)
      else if cmd == text "!sync-db"
      then same_level level (cmd_sync_db s)
      else (s, level, unknown_command cmd)

  unfoldable pub handle_words : List Bytes → S → Level → S × Level × Reply
  handle_words [] s level = (s, level, no_reply)
  handle_words (word ∷ args) s level = run_command (to_lower word) args s level

  -- `Handle`.
  unfoldable pub handle : Bytes → S → Level → S × Level × Reply
  handle body s level = handle_words (fields body) s level

  -- The handler of messages that `StartSync` sets up; `initial_done` is `initialSyncDone`, `body` is
  -- `none` for an event that is no message.
  unfoldable pub on_message :
      Bool → List Bytes → Bytes → Option Bytes → S → Level → S × Level × Reply
  on_message initial_done admins sender none s level = (s, level, no_reply)
  on_message initial_done admins sender (some body) s level =
      if initial_done && (has_prefix (text "!") body && is_admin admins sender)
      then handle body s level
      else (s, level, no_reply)
