-- ===== src/Bridge/State.antt =====
-- pkg/bridge/manager.go: the records of the manager, and the calls that it makes to the outside.
use matrix_discord_voice_bri.Base.{ℕ, ◌-◌, ◌^◌, Bool, Option, some, none, List, ◌≢◌, []}
use matrix_discord_voice_bri.Base.Eq.{Bytes, bytes_eq, nat_eq}
use matrix_discord_voice_bri.Base.Assoc.{lookup}
use matrix_discord_voice_bri.Ipc.Frame.{Message}
use matrix_discord_voice_bri.Payload.VoiceState.{ChannelInfo, no_info}

-- `slot.channelID` of a slot that is free, and of one whose sidecar died (`^uint64(0)`).
abbrev pub free : ℕ
free = 0

abbrev pub dead : ℕ
dead = 2 ^ 64 - 1

-- Neither sentinel.
abbrev pub IsChannel : ℕ → Type 0
IsChannel c = (c ≢ free) × (c ≢ dead)

pub record Slot : Type 0 where
  pub conn : Bool  -- `Conn != nil`
  pub index : ℕ
  pub primary : Bool
  pub token : Bytes
  pub bot_db_id : ℕ
  pub channel_id : ℕ

pub record ChannelBridge : Type 0 where
  pub channel_id : ℕ
  pub info : ChannelInfo
  pub matrix_room : Bytes
  pub lk_manager : Bool  -- `LKManager != nil`
  pub subscriber : Bool  -- `Subscriber != nil`
  pub slot_index : ℕ
  pub joined_users : List (ℕ × Bool)

pub record Manager : Type 0 where
  pub slots : List Slot
  pub signaller : Bool  -- `signaller != nil`
  pub store : Bool  -- `store != nil`
  pub voice_states : List (ℕ × ℕ)
  pub channel_infos : List (ℕ × ChannelInfo)
  pub channel_rooms : List (ℕ × Bytes)
  pub active_bridges : List (ℕ × ChannelBridge)
  pub guild_space : Bytes
  pub category_spaces : List (ℕ × Bytes)
  pub room_channels : List (Bytes × ℕ)
  pub matrix_users : List (ℕ × List (Bytes × Bytes))
  pub stop_timers : List (ℕ × Bool)  -- the channels with a pending timer

unfoldable pub new_manager : List Slot → Bool → Bool → Manager
new_manager slots signaller store = record {
  slots = slots;
  signaller = signaller;
  store = store;
  voice_states = [];
  channel_infos = [];
  channel_rooms = [];
  active_bridges = [];
  guild_space = [];
  category_spaces = [];
  room_channels = [];
  matrix_users = [];
  stop_timers = [];
}

-- `m.channelRooms[ch]` and `m.channelInfos[ch]`, with Go's zero value for a missing key.
abbrev pub room_or_empty : Option Bytes → Bytes
room_or_empty none = []
room_or_empty (some r) = r

abbrev pub info_or_zero : Option ChannelInfo → ChannelInfo
info_or_zero none = no_info
info_or_zero (some i) = i

unfoldable pub room_of : ℕ → Manager → Bytes
room_of ch m = room_or_empty (lookup ch m.channel_rooms)

unfoldable pub info_of : ℕ → Manager → ChannelInfo
info_of ch m = info_or_zero (lookup ch m.channel_infos)

-- What the manager asks of its surroundings, in order. `send` is `WriteMessage` on a slot's
-- connection, `open_livekit` the pair `NewManager` and `NewSubscriber` for a Matrix room.
pub data Effect : Type 0 where
  send : ℕ → Message → Effect
  close_conn : ℕ → Effect
  open_livekit : Bytes → Effect
  close_subscriber : ℕ → Effect
  close_livekit : ℕ → Effect
  write_opus : ℕ → ℕ → Bytes → Effect
  join_call : ℕ → Bytes → Effect
  leave_call : ℕ → Effect
  leave_all : Effect
  go_stop : ℕ → Effect  -- `go stopBridgeForChannel`
  create_room : Bytes → ℕ → Effect  -- the room's name and the channel in its topic
  upsert_room : ℕ → Bytes → Bytes → ℕ → Effect  -- channel, room, name, category
  bridge_info : Bytes → ℕ → Bytes → Effect  -- the state events of room, channel, name
  place_room : Bytes → ℕ → Effect  -- `addToGuildSpace`
  ensure_profile : ℕ → Bytes → Bytes → Effect
