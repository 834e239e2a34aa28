-- ===== src/Bridge/Messages.antt =====
-- pkg/bridge/manager.go: `HandleMessage`, `onVoiceState`, and the cache and creation of Matrix rooms
-- in `ensureMatrixRoom`.
use matrix_discord_voice_bri.Base.{
  ℕ, Bool, true, false, not, ◌&&◌, Option, none, some, List, [], ◌∷◌, ◌++◌, if◌then◌else◌,
}
use matrix_discord_voice_bri.Base.Eq.{Bytes, ◌==◌, nat_eq, bytes_eq}
use matrix_discord_voice_bri.Base.Assoc.{lookup, insert, delete}
use matrix_discord_voice_bri.Base.Text.{text, decimal}
use matrix_discord_voice_bri.Ipc.Frame.{
  Message, msg_voice_state, msg_channel_list, msg_user_join, msg_user_info, msg_leave_channel,
  msg_audio_from_discord,
}
use matrix_discord_voice_bri.Payload.VoiceState.{ChannelInfo, parse_voice_state, parse_channel_list}
use matrix_discord_voice_bri.Payload.UserInfo.{parse_user_info}
use matrix_discord_voice_bri.Bridge.State.{
  Manager, ChannelBridge, Effect, join_call, leave_call, go_stop, create_room, upsert_room,
  bridge_info, place_room, ensure_profile, write_opus, room_of,
}
use matrix_discord_voice_bri.Bridge.Stop.{when, bridge_on}

abbrev pub number_or_zero : Option ℕ → ℕ
number_or_zero none = 0
number_or_zero (some n) = n

unfoldable pub set_voice_state : ℕ → ℕ → Manager → Manager
set_voice_state user ch m = record m {
  voice_states = if ch == 0 then delete user m.voice_states else insert user ch m.voice_states;
}

unfoldable pub presence : ℕ → ℕ → ℕ → Manager → List Effect
presence user old ch m =
    when (not (old == 0) && not (old == ch)) (leave_call user)
    ++ when (not (ch == 0) && not (room_of ch m == [])) (join_call user (room_of ch m))

-- `onVoiceState`: the calls of the signaller, whose errors are only logged.
unfoldable pub on_voice_state : ℕ → ℕ → Manager → Manager × List Effect
on_voice_state user ch m =
    let m' = set_voice_state user ch m in
    (
      m',
      if m.signaller then presence user (number_or_zero (lookup user m.voice_states)) ch m' else [],
    )

unfoldable pub new_room :
    Option Bytes → ℕ → ChannelInfo → Manager → Manager × List Effect × Option Bytes
new_room none ch info m = (m, [], none)
new_room (some room) ch info m = (
  record m {
    channel_rooms = insert ch room m.channel_rooms;
    room_channels = insert room ch m.room_channels;
  },
  when m.store (upsert_room ch room info.name info.category_id)
      ++ bridge_info room ch info.name ∷ place_room room info.category_id ∷ [],
  some room,
)

abbrev pub room_name : ℕ → ChannelInfo → Bytes
room_name ch info = if info.name == [] then text "Voice " ++ decimal ch else info.name

-- The new state, the calls made, and the room, `none` for an error; `none` as a whole is a runtime
-- panic.
abbrev pub Ensured : Type 0
Ensured = Option (Manager × List Effect × Option Bytes)

-- A room that is not cached is created by the signaller's bot: without a signaller, a panic.
unfoldable pub cached_or_new : Option Bytes → Option Bytes → ℕ → ChannelInfo → Manager → Ensured
cached_or_new (some room) created ch info m = some (m, [], some room)
cached_or_new none created ch info m =
    let (m', sent, room) = new_room created ch info m in
    if m.signaller then some (m', create_room (room_name ch info) ch ∷ sent, room) else none

-- `ensureMatrixRoom`; `created` is what `CreateRoom` answers, `none` for an error.
unfoldable pub ensure_room : Option Bytes → ℕ → ChannelInfo → Manager → Ensured
ensure_room created ch info m = cached_or_new (lookup ch m.channel_rooms) created ch info m

-- The new state, the calls made, and the Boolean result; `none` is a runtime panic.
abbrev pub Handled : Type 0
Handled = Option (Manager × List Effect × Bool)

abbrev pub set_info : ℕ → ChannelInfo → Manager → Manager
set_info ch info m = record m { channel_infos = insert ch info m.channel_infos }

unfoldable pub handle_voice_state : ℕ → Option (ℕ × ChannelInfo) → Manager → Handled
handle_voice_state user none m = none
handle_voice_state user (some (ch, info)) m =
    let (m', sent) = on_voice_state user ch (if ch == 0 then m else set_info ch info m) in
    some (m', sent, true)

abbrev pub room_ensured : Ensured → Handled
room_ensured none = none
room_ensured (some (m, sent, room)) = some (m, sent, true)

unfoldable pub handle_channel_list :
    Option Bytes → Option (Option (ℕ × ChannelInfo)) → Manager → Handled
handle_channel_list created none m = none
handle_channel_list created (some none) m = some (m, [], true)
handle_channel_list created (some (some (ch, info))) m =
    room_ensured (ensure_room created ch info (set_info ch info m))

-- The user is added to the bridge record, which the map shares.
unfoldable pub handle_user_join : ℕ → Option (ℕ × ChannelBridge) → Manager → Handled
handle_user_join user none m = some (m, [], true)
handle_user_join user (some (ch, b)) m = some (
  record m {
    active_bridges =
        insert ch (record b { joined_users = insert user true b.joined_users }) m.active_bridges;
  },
  [],
  true,
)

unfoldable pub handle_user_info : ℕ → Option (Option (Bytes × Bytes)) → Manager → Handled
handle_user_info user none m = none
handle_user_info user (some none) m = some (m, [], true)
handle_user_info user (some (some (name, avatar))) m =
    some (m, ensure_profile user name avatar ∷ [], true)

unfoldable pub handle_leave : Option (ℕ × ChannelBridge) → Manager → Handled
handle_leave none m = some (m, [], true)
handle_leave (some (ch, b)) m = some (m, go_stop b.channel_id ∷ [], true)

unfoldable pub handle_audio : ℕ → Bytes → Option (ℕ × ChannelBridge) → Manager → Handled
handle_audio user opus none m = some (m, [], true)
handle_audio user opus (some (ch, b)) m =
    some (m, when b.lk_manager (write_opus b.channel_id user opus), true)

-- The cases of the switch on the message's type.
pub data Kind : Type 0 where
  voice_state channel_list user_join user_info leave_channel audio_from_discord unknown : Kind

unfoldable pub kind_of : ℕ → Kind
kind_of t =
    if t == msg_voice_state
    then voice_state
    else if t == msg_channel_list
    then channel_list
    else if t == msg_user_join
    then user_join
    else if t == msg_user_info
    then user_info
    else if t == msg_leave_channel
    then leave_channel
    else if t == msg_audio_from_discord
    then audio_from_discord
    else unknown

unfoldable pub dispatch : Kind → Option Bytes → ℕ → Message → Manager → Handled
dispatch voice_state created slot msg m =
    handle_voice_state msg.user_id (parse_voice_state msg.payload) m
dispatch channel_list created slot msg m =
    handle_channel_list created (parse_channel_list msg.payload) m
dispatch user_join created slot msg m = handle_user_join msg.user_id (bridge_on slot m) m
dispatch user_info created slot msg m =
    if m.signaller
    then handle_user_info msg.user_id (parse_user_info msg.payload) m
    else some (m, [], true)
dispatch leave_channel created slot msg m = handle_leave (bridge_on slot m) m
dispatch audio_from_discord created slot msg m =
    handle_audio msg.user_id msg.payload (bridge_on slot m) m
dispatch unknown created slot msg m = some (m, [], false)

-- `HandleMessage`.
unfoldable pub handle_message : Option Bytes → ℕ → Message → Manager → Handled
handle_message created slot msg m = dispatch (kind_of msg.msg_type) created slot msg m
