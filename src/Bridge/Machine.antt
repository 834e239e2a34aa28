-- ===== src/Bridge/Machine.antt =====
-- The manager of pkg/bridge/manager.go as a machine: one step for each call from outside.
use matrix_discord_voice_bri.Base.{ℕ, ◌≡◌, ◌≢◌, Bool, Option, none, some, List, [], ◌∷◌}
use matrix_discord_voice_bri.Base.Eq.{Bytes, nat_eq, bytes_eq}
use matrix_discord_voice_bri.Ipc.Frame.{Message}
use matrix_discord_voice_bri.Payload.VoiceState.{ChannelInfo, parse_voice_state, parse_channel_list}
use matrix_discord_voice_bri.Bridge.State.{Manager, IsChannel, dead}
use matrix_discord_voice_bri.Bridge.Stop.{stop_bridge, slot_death, remove_bot, close}
use matrix_discord_voice_bri.Bridge.Call.{JoinEnv, on_call_member, timer_fired}
use matrix_discord_voice_bri.Bridge.Messages.{
  Handled, handle_message, kind_of, voice_state, channel_list,
}
use matrix_discord_voice_bri.Bridge.Admin.{manual_join, manual_leave, add_bot}

-- The calls, with what the surroundings answer. `spawned_stop` is a `go stopBridgeForChannel` that
-- runs, `timer` a debounce callback that runs, also one whose `Stop` came too late.
pub data Op : Type 0 where
  message : Option Bytes → ℕ → Message → Op
  call_member : JoinEnv → Bytes → Bytes → Bool → Op
  timer : ℕ → Op
  spawned_stop : ℕ → Op
  death : ℕ → Op
  remove : ℕ → Op
  ask_join : Bool → Bytes → Op
  ask_leave : Bytes → Op
  add : Bool → Bytes → ℕ → Op
  shut_down : Op

abbrev pub state_of : Handled → Option Manager
state_of none = none
state_of (some (m, sent, known)) = some m

module _ (equal_fold : Bytes → Bytes → Bool) where
  -- The state after a call; `none` is a runtime panic.
  unfoldable pub step : Op → Manager → Option Manager
  step (message created slot msg) m = state_of (handle_message created slot msg m)
  step (call_member env room user joined) m = some (on_call_member env room user joined m).0
  step (timer ch) m = some (timer_fired ch m).0
  step (spawned_stop ch) m = some (stop_bridge ch m).0
  step (death i) m = some (slot_death i m).0
  step (remove i) m = some (remove_bot i m).0
  step (ask_join sub_ok name) m = some (manual_join equal_fold sub_ok name m).0
  step (ask_leave name) m = some (manual_leave equal_fold name m).0
  step (add connected token row) m = some (add_bot connected token row m).0
  step shut_down m = some (close m).0

  abbrev pub run_from : List Op → Option Manager → Option Manager
  run_from ops none = none
  run_from [] (some m) = some m
  run_from (op ∷ ops) (some m) = run_from ops (step op m)

  unfoldable pub run : List Op → Manager → Option Manager
  run ops m = run_from ops (some m)

-- A message names real channels only: VOICE_STATE a channel or the 0 of a user who left voice,
-- CHANNEL_LIST a channel. Of other messages nothing is asked.
pub record IsSane (msg : Message) : Type 0 where
  pub state_channel :
      kind_of msg.msg_type ≡ voice_state
      → (ch : ℕ) (info : ChannelInfo) → parse_voice_state msg.payload ≡ some (ch, info)
      → ch ≢ dead
  pub list_channel :
      kind_of msg.msg_type ≡ channel_list
      → (ch : ℕ) (info : ChannelInfo) → parse_channel_list msg.payload ≡ some (some (ch, info))
      → IsChannel ch

abbrev pub Sane : Op → Type 0
Sane (message created slot msg) = IsSane msg
Sane op = Unit {0}
