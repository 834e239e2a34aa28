-- ===== src/Bridge/Start.antt =====
-- pkg/bridge/manager.go: `startBridge`, as its two sections under `m.mu` with the calls between them.
use matrix_discord_voice_bri.Base.{
  ℕ, Bool, true, false, Option, none, some, List, [], ◌∷◌, if◌then◌else◌,
}
use matrix_discord_voice_bri.Base.Eq.{Bytes, ◌==◌, nat_eq, bytes_eq}
use matrix_discord_voice_bri.Base.Assoc.{has, insert}
use matrix_discord_voice_bri.Ipc.Frame.{Message, msg_join_channel}
use matrix_discord_voice_bri.Ipc.LittleEndian.{le_bytes}
use matrix_discord_voice_bri.Payload.VoiceState.{ChannelInfo, no_info}
use matrix_discord_voice_bri.Bridge.State.{
  Manager, ChannelBridge, Effect, send, open_livekit, room_of, info_of, free,
}
use matrix_discord_voice_bri.Bridge.Slots.{set_channel, first_free}

-- How the first section ends.
pub data Claim : Type 0 where
  already_bridged no_free_slot no_room : Claim
  claimed : ℕ → Bytes → ChannelInfo → Claim

-- What the first section leaves in the map, for concurrent calls to see.
abbrev pub sentinel : ℕ → ℕ → ChannelBridge
sentinel ch i = record {
  channel_id = ch;
  info = no_info;
  matrix_room = [];
  lk_manager = false;
  subscriber = false;
  slot_index = i;
  joined_users = [];
}

unfoldable pub claim_slot : ℕ → ℕ → Manager → Manager × Claim
claim_slot ch i m =
    if room_of ch m == []
    then (record m { slots = set_channel i free (set_channel i ch m.slots) }, no_room)
    else (
      record m {
        slots = set_channel i ch m.slots;
        active_bridges = insert ch (sentinel ch i) m.active_bridges;
      },
      claimed i (room_of ch m) (info_of ch m),
    )

unfoldable pub claim_free : ℕ → Option ℕ → Manager → Manager × Claim
claim_free ch none m = (m, no_free_slot)
claim_free ch (some i) m = claim_slot ch i m

-- The first section: find a free slot and put the channel on it.
unfoldable pub claim : ℕ → Manager → Manager × Claim
claim ch m =
    if has ch m.active_bridges then (m, already_bridged) else claim_free ch (first_free m.slots) m

abbrev pub join_message : ℕ → Message
join_message ch = record { msg_type = msg_join_channel; user_id = 0; payload = le_bytes 8 ch }

-- `sub_ok`: `NewSubscriber` gave a subscriber.
abbrev pub full_bridge : ℕ → ℕ → Bytes → ChannelInfo → Bool → ChannelBridge
full_bridge ch i room info sub_ok = record {
  channel_id = ch;
  info = info;
  matrix_room = room;
  lk_manager = true;
  subscriber = sub_ok;
  slot_index = i;
  joined_users = [];
}

-- The second section: the bridge with its LiveKit ends takes the sentinel's place.
unfoldable pub publish : ℕ → ℕ → Bytes → ChannelInfo → Bool → Manager → Manager
publish ch i room info sub_ok m = record m {
  active_bridges = insert ch (full_bridge ch i room info sub_ok) m.active_bridges;
}

unfoldable pub finish_start : ℕ → Bool → Manager × Claim → Manager × List Effect
finish_start ch sub_ok (m, already_bridged) = (m, [])
finish_start ch sub_ok (m, no_free_slot) = (m, [])
finish_start ch sub_ok (m, no_room) = (m, [])
finish_start ch sub_ok (m, claimed i room info) =
    (publish ch i room info sub_ok m, send i (join_message ch) ∷ open_livekit room ∷ [])

-- `startBridge` with no other call between its sections.
unfoldable pub start_bridge : Bool → ℕ → Manager → Manager × List Effect
start_bridge sub_ok ch m = finish_start ch sub_ok (claim ch m)
