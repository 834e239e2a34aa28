-- ===== src/Bridge/Admin.antt =====
-- pkg/bridge/manager.go: what the admin commands call: `Stats`, `ListRooms`, `ListSlots`,
-- `ManualJoin`, `ManualLeave` and `AddBot`.
use matrix_discord_voice_bri.Base.{
  ℕ, suc, Bool, true, false, Option, none, some, List, [], ◌∷◌, ◌++◌, map, if◌then◌else◌, length,
  take, ltb,
}
use matrix_discord_voice_bri.Base.Eq.{Bytes, ◌==◌, nat_eq, bytes_eq}
use matrix_discord_voice_bri.Base.Assoc.{find_value, keys}
use matrix_discord_voice_bri.Base.Text.{text}
use matrix_discord_voice_bri.Payload.VoiceState.{ChannelInfo}
use matrix_discord_voice_bri.Bridge.State.{Manager, Slot, Effect, free, dead, info_of}
use matrix_discord_voice_bri.Bridge.Slots.{busy_slots}
use matrix_discord_voice_bri.Bridge.Start.{start_bridge}
use matrix_discord_voice_bri.Bridge.Stop.{stop_bridge, stop_all}

pub record Stats : Type 0 where
  pub active_bridges : ℕ
  pub busy : ℕ
  pub total_slots : ℕ
  pub tracked_users : ℕ

-- `Stats`.
unfoldable pub stats : Manager → Stats
stats m = record {
  active_bridges = length m.active_bridges;
  busy = busy_slots m.slots;
  total_slots = length m.slots;
  tracked_users = length m.voice_states;
}

pub record RoomInfo : Type 0 where
  pub name : Bytes
  pub room_id : Bytes

-- `ListRooms`.
unfoldable pub list_rooms : Manager → List (ℕ × RoomInfo)
list_rooms m =
    map (λ p. (p.0, record { name = (info_of p.0 m).name; room_id = p.1 })) m.channel_rooms

pub data SlotStatus : Type 0 where
  is_free is_occupied is_dead : SlotStatus

pub record SlotInfo : Type 0 where
  pub index : ℕ
  pub status : SlotStatus
  pub channel_id : ℕ
  pub channel_name : Bytes
  pub token : Bytes

unfoldable pub slot_info : ℕ → Slot → Manager → SlotInfo
slot_info i s m =
    if s.channel_id == dead
    then record { index = i; status = is_dead; channel_id = 0; channel_name = []; token = s.token }
    else if s.channel_id == free
    then record { index = i; status = is_free; channel_id = 0; channel_name = []; token = s.token }
    else record {
      index = i;
      status = is_occupied;
      channel_id = s.channel_id;
      channel_name = (info_of s.channel_id m).name;
      token = s.token;
    }

unfoldable pub slot_infos : ℕ → List Slot → Manager → List SlotInfo
slot_infos i [] m = []
slot_infos i (s ∷ ss) m = slot_info i s m ∷ slot_infos (suc i) ss m

-- `ListSlots`.
unfoldable pub list_slots : Manager → List SlotInfo
list_slots m = slot_infos 0 m.slots m

abbrev pub key_or_zero : Option (ℕ × ChannelInfo) → ℕ
key_or_zero none = 0
key_or_zero (some (ch, info)) = ch

pub data Manual : Type 0 where
  done channel_not_found : Manual

-- `equal_fold` is `strings.EqualFold`.
module _ (equal_fold : Bytes → Bytes → Bool) where
  unfoldable pub channel_named : Bytes → Manager → ℕ
  channel_named name m = key_or_zero (find_value (λ i. equal_fold i.name name) m.channel_infos)

  -- `ManualJoin`.
  unfoldable pub manual_join : Bool → Bytes → Manager → Manager × List Effect × Manual
  manual_join sub_ok name m =
      if channel_named name m == 0
      then (m, [], channel_not_found)
      else (let (m', sent) = start_bridge sub_ok (channel_named name m) m in (m', sent, done))

  unfoldable pub leave_named : Bytes → Manager → Manager × List Effect × Manual
  leave_named name m =
      if channel_named name m == 0
      then (m, [], channel_not_found)
      else (let (m', sent) = stop_bridge (channel_named name m) m in (m', sent, done))

  -- `ManualLeave`: all bridges for the empty name.
  unfoldable pub manual_leave : Bytes → Manager → Manager × List Effect × Manual
  manual_leave name m =
      if name == []
      then (let (m', sent) = stop_all (keys m.active_bridges) m in (m', sent, done))
      else leave_named name m

-- The token as it is shown: ten bytes at most.
unfoldable pub mask_token : Bytes → Bytes
mask_token token = if ltb 10 (length token) then take 10 token ++ text "..." else token

-- `AddBot` once the sidecar is connected, for the slot index that was read before; `row` is the row
-- that the store gives the token, 0 if that failed.
unfoldable pub add_slot : ℕ → Bytes → ℕ → Manager → Manager
add_slot i token row m = record m {
  slots =
      m.slots
      ++ record {
        conn = true;
        index = i;
        primary = false;
        token = mask_token token;
        bot_db_id = if m.store then row else 0;
        channel_id = free;
      }
        ∷ [];
}

-- `AddBot` with no other call in between; `connected` is whether socket, sidecar and connection came up.
unfoldable pub add_bot : Bool → Bytes → ℕ → Manager → Manager × Option ℕ
add_bot false token row m = (m, none)
add_bot true token row m = (add_slot (length m.slots) token row m, some (length m.slots))
