-- ===== src/Examples/Rooms.antt =====
-- pkg/bridge/manager.go: a run with two slots, two rooms and two Matrix users.
use matrix_discord_voice_bri.Base.{
  ℕ, ◌≡◌, ◌≢◌, refl, Bool, true, false, List, [], ◌∷◌, Option, some, none, arith,
}
use matrix_discord_voice_bri.Base.Eq.{Bytes, nat_eq, bytes_eq, bytes_beq}
use matrix_discord_voice_bri.Base.Assoc.{lookup, insert, delete, has, find_value}
use matrix_discord_voice_bri.Base.Text.{text, has_prefix}
use matrix_discord_voice_bri.Ipc.Frame.{Message, msg_channel_list, msg_voice_state}
use matrix_discord_voice_bri.Payload.VoiceState.{
  ChannelInfo, voice_state_payload, parse_voice_state, parse_channel_list, parse_name,
  voice_state_round_trip,
}
use matrix_discord_voice_bri.Payload.Slice.{slice}
use matrix_discord_voice_bri.Ipc.LittleEndian.{le_bytes, le_value}
use matrix_discord_voice_bri.Bridge.Messages.{
  handle_message, dispatch, voice_state, handle_voice_state, on_voice_state, set_voice_state,
  presence, handle_channel_list, ensure_room, cached_or_new, new_room, kind_of,
}
use matrix_discord_voice_bri.Bridge.State.{
  Manager, Slot, ChannelBridge, new_manager, room_of, info_of,
}
use matrix_discord_voice_bri.Bridge.Call.{
  JoinEnv, on_call_member, on_channel, on_join, on_leave, enter, track_user, users_of, leave_others,
  cancel_timers, push_matrix_users,
}
use matrix_discord_voice_bri.Bridge.Start.{
  start_bridge, claim, claim_free, claim_slot, finish_start, publish,
}
use matrix_discord_voice_bri.Bridge.Stop.{
  stop_all, slot_death, bridge_on, mark_dead, stop_bridge, release, release_bridge,
}
use matrix_discord_voice_bri.Bridge.Slots.{first_free, set_channel, slot_channel, release_slot}
use matrix_discord_voice_bri.Bridge.Admin.{stats}
use matrix_discord_voice_bri.Bridge.Machine.{Op, message, call_member, run, step, IsSane}
use matrix_discord_voice_bri.Bridge.Runs.{run_exclusive, run_from-Ready, new_manager-Ready}
use matrix_discord_voice_bri.Bridge.Ready.{Ready}
use matrix_discord_voice_bri.Bridge.Death.{IsDead}
use matrix_discord_voice_bri.Bridge.DeadForever.{run-IsDead}

abbrev slot : ℕ → Bool → Slot
slot i primary = record {
  conn = true;
  index = i;
  primary = primary;
  token = text "token";
  bot_db_id = 0;
  channel_id = 0;
}

abbrev pub two_slots : List Slot
two_slots = slot 0 true ∷ slot 1 false ∷ []

abbrev pub env : JoinEnv
env = record { display_name = text "Ada"; sub_ok = true }

abbrev pub ada : Bytes
ada = text "@ada:example.org"

abbrev pub grace : Bytes
grace = text "@grace:example.org"

abbrev pub list_message : Message
list_message = record {
  msg_type = msg_channel_list;
  user_id = 0;
  payload = voice_state_payload 7 (text "Lobby") 5;
}

-- What the sidecar sends when a Discord user leaves voice.
abbrev pub leave_message : Message
leave_message = record {
  msg_type = msg_voice_state;
  user_id = 3;
  payload = voice_state_payload 0 [] 0;
}

abbrev ops : List Op
ops =
    message (some (text "!seven")) 0 list_message
    ∷ call_member env (text "!seven") ada true
    ∷ message none 0 leave_message
    ∷ []

abbrev pub manager_of : Option Manager → Manager
manager_of none = new_manager [] false false
manager_of (some m) = m

-- The manager with channel 7 on slot 0.
abbrev pub ran : Manager
ran = manager_of (run bytes_beq ops (new_manager two_slots true true))

pub ran-run : run bytes_beq ops (new_manager two_slots true true) ≡ some ran
unfolding run step handle_message dispatch handle_voice_state on_voice_state set_voice_state
    presence parse_voice_state handle_channel_list parse_channel_list parse_name slice ensure_room
    cached_or_new new_room voice_state_payload le_bytes le_value kind_of new_manager on_call_member
    on_channel on_join on_leave enter track_user users_of leave_others cancel_timers start_bridge
    claim claim_free claim_slot finish_start publish stop_all lookup insert delete has first_free
    set_channel room_of info_of has_prefix
ran-run = refl

listed :
    (ch : ℕ) (info : ChannelInfo)
    → parse_channel_list list_message.payload ≡ some (some (ch, info))
    → ch ≡ 7
listed ch info e =
    ground (
      arith,
      (voice_state_round_trip 7 (text "Lobby") 5 (omega arith) (omega arith) (omega arith)).1,
    )

stated :
    (ch : ℕ) (info : ChannelInfo)
    → parse_voice_state list_message.payload ≡ some (ch, info)
    → ch ≡ 7
stated ch info e =
    ground (
      arith,
      (voice_state_round_trip 7 (text "Lobby") 5 (omega arith) (omega arith) (omega arith)).0,
    )

pub list_message-IsSane : IsSane list_message
list_message-IsSane = record {
  state_channel = λ kind ch info e. ground (arith, stated ch info e);
  list_channel =
      λ kind ch info e. (ground (arith, listed ch info e), ground (arith, listed ch info e));
}

left :
    (ch : ℕ) (info : ChannelInfo)
    → parse_voice_state leave_message.payload ≡ some (ch, info)
    → ch ≡ 0
left ch info e =
    ground (arith, (voice_state_round_trip 0 [] 0 (omega arith) (omega arith) (omega arith)).0)

leave_message-voice_state : kind_of leave_message.msg_type ≡ voice_state
unfolding kind_of
leave_message-voice_state = refl

pub leave_message-IsSane : IsSane leave_message
leave_message-IsSane = record {
  state_channel = λ kind ch info e. ground (arith, left ch info e);
  list_channel = λ kind. ground (arith, leave_message-voice_state, kind);
}

run_exclusive_example :
    ((c d : ℕ) (x y : ChannelBridge)
      → lookup c ran.active_bridges ≡ some x
      → lookup d ran.active_bridges ≡ some y
      → x.slot_index ≡ y.slot_index
      → c ≡ d)
    × ((stats ran).busy ≡ (stats ran).active_bridges)
run_exclusive_example =
    run_exclusive bytes_beq ops two_slots true true ran (refl, (refl, tt))
      (list_message-IsSane, (tt, (leave_message-IsSane, tt))) ran-run

-- The run did start a bridge.
ran-has : has 7 ran.active_bridges ≡ true
unfolding run step handle_message dispatch handle_voice_state on_voice_state set_voice_state
    presence parse_voice_state handle_channel_list parse_channel_list parse_name slice ensure_room
    cached_or_new new_room voice_state_payload le_bytes le_value kind_of new_manager on_call_member
    on_channel on_join on_leave enter track_user users_of leave_others cancel_timers start_bridge
    claim claim_free claim_slot finish_start publish stop_all lookup insert delete has first_free
    set_channel room_of info_of has_prefix
ran-has = refl

pub ran-Ready : Ready ran
unfolding run
ran-Ready =
    run_from-Ready bytes_beq ops (new_manager two_slots true true)
      (list_message-IsSane, (tt, (leave_message-IsSane, tt)))
      (new_manager-Ready two_slots true true (refl, (refl, tt))) ran-run

-- After slot 0 died, a second user joins, whom slot 1 serves.
abbrev later_ops : List Op
later_ops = message none 1 leave_message ∷ call_member env (text "!seven") grace true ∷ []

abbrev survived : Manager
survived = manager_of (run bytes_beq later_ops (slot_death 0 ran).0)

ran-slot : slot_channel 0 ran.slots ≡ some 7
unfolding run step handle_message dispatch handle_voice_state on_voice_state set_voice_state
    presence parse_voice_state handle_channel_list parse_channel_list parse_name slice ensure_room
    cached_or_new new_room voice_state_payload le_bytes le_value kind_of new_manager on_call_member
    on_channel on_join on_leave enter track_user users_of leave_others cancel_timers start_bridge
    claim claim_free claim_slot finish_start publish stop_all lookup insert delete has first_free
    set_channel room_of info_of has_prefix slot_channel
ran-slot = refl

survived-run : run bytes_beq later_ops (slot_death 0 ran).0 ≡ some survived
unfolding run step handle_message dispatch handle_voice_state on_voice_state set_voice_state
    presence parse_voice_state handle_channel_list parse_channel_list parse_name slice ensure_room
    cached_or_new new_room voice_state_payload le_bytes le_value kind_of new_manager on_call_member
    on_channel on_join on_leave enter track_user users_of leave_others cancel_timers start_bridge
    claim claim_free claim_slot finish_start publish stop_all lookup insert delete has first_free
    set_channel room_of info_of has_prefix
survived-run = refl

survived-has : has 7 survived.active_bridges ≡ true
unfolding run step handle_message dispatch handle_voice_state on_voice_state set_voice_state
    presence parse_voice_state handle_channel_list parse_channel_list parse_name slice ensure_room
    cached_or_new new_room voice_state_payload le_bytes le_value kind_of new_manager on_call_member
    on_channel on_join on_leave enter track_user users_of leave_others cancel_timers start_bridge
    claim claim_free claim_slot finish_start publish stop_all lookup insert delete has first_free
    set_channel room_of info_of has_prefix slot_death slot_channel bridge_on find_value mark_dead
    stop_bridge release release_bridge release_slot push_matrix_users
survived-has = refl

run-IsDead_example :
    IsDead 0 survived
    × ((ch : ℕ) (b : ChannelBridge) → lookup ch survived.active_bridges ≡ some b → b.slot_index ≢ 0)
run-IsDead_example =
    run-IsDead bytes_beq 0 7 later_ops ran survived ran-Ready ran-slot
      (leave_message-IsSane, (tt, tt)) survived-run
