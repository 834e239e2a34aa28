-- ===== src/Bridge/Stop.antt =====
-- pkg/bridge/manager.go: `stopBridgeForChannel`, `HandleSlotDeath`, `RemoveBot` and `Close`.
use matrix_discord_voice_bri.Base.{
  ℕ, Bool, true, false, Option, none, some, List, [], ◌∷◌, ◌++◌, if◌then◌else◌, get_elem?,
}
use matrix_discord_voice_bri.Base.Eq.{◌==◌, nat_eq}
use matrix_discord_voice_bri.Base.Assoc.{lookup, delete, find_value, keys}
use matrix_discord_voice_bri.Ipc.Frame.{Message, msg_leave_channel, msg_shutdown}
use matrix_discord_voice_bri.Bridge.State.{
  Manager, ChannelBridge, Slot, Effect, send, close_conn, close_subscriber, close_livekit,
  leave_all, dead,
}
use matrix_discord_voice_bri.Bridge.Slots.{slot_channel, set_channel, release_slot}

abbrev pub leave_message : Message
leave_message = record { msg_type = msg_leave_channel; user_id = 0; payload = [] }

abbrev pub shutdown_message : Message
shutdown_message = record { msg_type = msg_shutdown; user_id = 0; payload = [] }

unfoldable pub release_bridge : Option ChannelBridge → ℕ → Manager → Manager
release_bridge none ch m = m
release_bridge (some b) ch m = record m {
  active_bridges = delete ch m.active_bridges;
  slots = release_slot b.slot_index m.slots;
}

-- The section of `stopBridgeForChannel` under `m.mu`.
unfoldable pub release : ℕ → Manager → Manager
release ch m = release_bridge (lookup ch m.active_bridges) ch m

abbrev pub when : Bool → Effect → List Effect
when true e = e ∷ []
when false e = []

abbrev pub has_conn : Option Slot → Bool
has_conn none = false
has_conn (some s) = s.conn

unfoldable pub stop_effects : Option ChannelBridge → Manager → List Effect
stop_effects none m = []
stop_effects (some b) m =
    when (has_conn (get_elem? m.slots b.slot_index)) (send b.slot_index leave_message)
    ++ (when b.subscriber (close_subscriber b.channel_id)
        ++ when b.lk_manager (close_livekit b.channel_id))

unfoldable pub stop_bridge : ℕ → Manager → Manager × List Effect
stop_bridge ch m = (release ch m, stop_effects (lookup ch m.active_bridges) m)

unfoldable pub stop_all : List ℕ → Manager → Manager × List Effect
stop_all [] m = (m, [])
stop_all (ch ∷ chs) m =
    let (m', sent) = stop_bridge ch m in let (m'', rest) = stop_all chs m' in (m'', sent ++ rest)

-- The channel of the bridge on a slot, 0 if there is none.
abbrev pub channel_or_zero : Option (ℕ × ChannelBridge) → ℕ
channel_or_zero none = 0
channel_or_zero (some (ch, b)) = ch

unfoldable pub bridge_on : ℕ → Manager → Option (ℕ × ChannelBridge)
bridge_on i m = find_value (λ b. b.slot_index == i) m.active_bridges

-- The section of `HandleSlotDeath` under `m.mu`; `ch` is its `channelToStop`.
unfoldable pub mark_dead : ℕ → ℕ → Manager → Manager
mark_dead i ch m = record m {
  stop_timers = if ch == 0 then m.stop_timers else delete ch m.stop_timers;
  slots = set_channel i dead m.slots;
}

abbrev pub is_dead : Option ℕ → Bool
is_dead none = false
is_dead (some c) = c == dead

-- `HandleSlotDeath`.
unfoldable pub slot_death : ℕ → Manager → Manager × List Effect
slot_death i m =
    if is_dead (slot_channel i m.slots)
    then (m, [])
    else (let ch = channel_or_zero (bridge_on i m) in
        if ch == 0 then (mark_dead i ch m, []) else stop_bridge ch (mark_dead i ch m))

pub data RemoveError : Type 0 where
  no_such_slot already_dead : RemoveError

pub data Removed : Type 0 where
  removed : Removed
  refused : RemoveError → Removed

unfoldable pub remove_slot : ℕ → Option Slot → Manager → Manager × List Effect × Removed
remove_slot i none m = (m, [], refused no_such_slot)
remove_slot i (some s) m =
    if s.channel_id == dead
    then (m, [], refused already_dead)
    else (let (m', stopped) = slot_death i m in
        (
          m',
          stopped ++ (if s.conn then send i shutdown_message ∷ close_conn i ∷ [] else []),
          removed,
        ))

-- `RemoveBot`, for an index that is not negative; the row of the bot in the database is the store's.
unfoldable pub remove_bot : ℕ → Manager → Manager × List Effect × Removed
remove_bot i m = remove_slot i (get_elem? m.slots i) m

-- `Close`.
unfoldable pub close : Manager → Manager × List Effect
close m =
    let (m', sent) = stop_all (keys m.active_bridges) (record m { stop_timers = [] }) in
    (m', sent ++ when m.signaller leave_all)
