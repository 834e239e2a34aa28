-- ===== src/Bridge/DeadForever.antt =====
-- A slot of pkg/bridge/manager.go that died stays dead, whatever calls follow.
use matrix_discord_voice_bri.Base.{
  on_branches, ℕ, ◌≡◌, ◌≢◌, refl, subst, Bool, true, false, Option, none, some, some-eq, List, [],
  ◌∷◌, arith, if◌then◌else◌, Bool-cases, Option-cases, inl, inr, All,
}
use matrix_discord_voice_bri.Base.Eq.{Bytes, ◌==◌, nat_eq, bytes_eq}
use matrix_discord_voice_bri.Base.Assoc.{lookup, has, keys, delete}
use matrix_discord_voice_bri.Base.Text.{has_prefix}
use matrix_discord_voice_bri.Ipc.Frame.{Message}
use matrix_discord_voice_bri.Payload.VoiceState.{ChannelInfo, parse_voice_state, parse_channel_list}
use matrix_discord_voice_bri.Payload.UserInfo.{parse_user_info}
use matrix_discord_voice_bri.Bridge.State.{Manager, ChannelBridge}
use matrix_discord_voice_bri.Bridge.Slots.{slot_channel}
use matrix_discord_voice_bri.Bridge.Stop.{stop_all, slot_death, bridge_on}
use matrix_discord_voice_bri.Bridge.Call.{
  JoinEnv, on_call_member, on_channel, on_join, on_leave, enter, track_user, users_of, leave_others,
  cancel_timers, untrack, set_timer, timer_fired, is_empty, ghost_prefix,
}
use matrix_discord_voice_bri.Bridge.Messages.{
  Kind, Handled, handle_message, dispatch, kind_of, handle_voice_state, handle_channel_list,
  handle_user_join, handle_user_info, handle_leave, handle_audio, on_voice_state, set_voice_state,
  ensure_room, cached_or_new, new_room, room_ensured, set_info, voice_state, channel_list,
  user_join, user_info, leave_channel, audio_from_discord, unknown,
}
use matrix_discord_voice_bri.Bridge.Admin.{
  manual_join, manual_leave, leave_named, channel_named, add_bot, add_slot,
}
use matrix_discord_voice_bri.Bridge.Death.{
  IsDead, start_bridge-IsDead, stop_bridge-IsDead, stop_all-IsDead, slot_death-IsDead,
  remove_bot-IsDead, close-IsDead, slot_death-kills,
}
use matrix_discord_voice_bri.Bridge.Grow.{slot_channel-append}
use matrix_discord_voice_bri.Bridge.Ready.{Ready, slot_death-Ready}
use matrix_discord_voice_bri.Bridge.Runs.{run_from-Ready, fails}
use matrix_discord_voice_bri.Bridge.Machine.{
  Op, message, call_member, timer, spawned_stop, death, remove, ask_join, ask_leave, add, shut_down,
  state_of, step, run, run_from, Sane,
}

on_join-IsDead :
    (i : ℕ) (env : JoinEnv) (user : Bytes) (ch : ℕ) (m : Manager)
    → IsDead i m
    → IsDead i (on_join env user ch m).0
unfolding on_join enter track_user
on_join-IsDead i env user ch m h =
    let stops = (leave_others user ch m.matrix_users).1 in
    let m' = record m {
      stop_timers = cancel_timers stops (delete ch m.stop_timers);
      matrix_users = (leave_others user ch m.matrix_users).0;
    } in
    entered (stop_all stops m').0 (stop_all-IsDead i stops m' h)
  where
    entered : (n : Manager) → IsDead i n → IsDead i (enter env user ch n).0
    entered n k = elim (Bool-cases (has user (users_of ch n))) [
      | inl old ↦ rw old k
      | inr new ↦ rw new (
          start_bridge-IsDead i env.sub_ok ch
            (track_user user (if n.signaller then env.display_name else user) ch n) k)
    ]

on_call_member-IsDead :
    (i : ℕ) (env : JoinEnv) (room user : Bytes) (joined : Bool) (m : Manager)
    → IsDead i m
    → IsDead i (on_call_member env room user joined m).0
unfolding on_call_member
on_call_member-IsDead i env room user joined m h =
    elim (Bool-cases (has_prefix ghost_prefix user)) [
      | inl ghost ↦ rw ghost h
      | inr human ↦ rw human (moved (lookup room m.room_channels) joined)
    ]
  where
    left : (ch : ℕ) → (on_leave user ch m).0.slots ≡ m.slots
    left ch = unfold on_leave untrack set_timer in ground arith

    moved : (o : Option ℕ) (j : Bool) → IsDead i (on_channel o env user j m).0
    moved none j = unfold on_channel in h
    moved (some ch) true = unfold on_channel in on_join-IsDead i env user ch m h
    moved (some ch) false = unfold on_channel in rw (left ch) h

timer_fired-IsDead : (i ch : ℕ) (m : Manager) → IsDead i m → IsDead i (timer_fired ch m).0
unfolding timer_fired
timer_fired-IsDead i ch m h = elim (Bool-cases (is_empty (users_of ch m))) [
  | inl empty ↦
      rw empty (stop_bridge-IsDead i ch (record m { stop_timers = delete ch m.stop_timers }) h)
  | inr busy ↦ rw busy h
]

-- The slots, and that there is a signaller, after a handler that does not panic.
abbrev pub SameSlots : Manager → Handled → Type 0
SameSlots m none = Unit {0}
SameSlots m (some (n, sent, known)) = (n.slots ≡ m.slots) × (n.signaller ≡ m.signaller)

room_slots_same :
    (cached created : Option Bytes) (ch : ℕ) (info : ChannelInfo) (m : Manager)
    → SameSlots m (room_ensured (cached_or_new cached created ch info m))
unfolding cached_or_new new_room
room_slots_same (some room) created ch info m = (refl, refl)
room_slots_same none none ch info m =
    on_branches (λ x. SameSlots m (room_ensured x)) m.signaller (λ e. (refl, refl)) (λ e. tt)
room_slots_same none (some room) ch info m =
    on_branches (λ x. SameSlots m (room_ensured x)) m.signaller (λ e. (refl, refl)) (λ e. tt)

list_slots_same :
    (created : Option Bytes) (p : Option (Option (ℕ × ChannelInfo))) (m : Manager)
    → SameSlots m (handle_channel_list created p m)
unfolding handle_channel_list ensure_room
list_slots_same created none m = tt
list_slots_same created (some none) m = (refl, refl)
list_slots_same created (some (some (ch, info))) m =
    room_slots_same (lookup ch m.channel_rooms) created ch info (set_info ch info m)

-- No message from a sidecar writes a slot.
pub dispatch-SameSlots :
    (k : Kind) (created : Option Bytes) (slot : ℕ) (msg : Message) (m : Manager)
    → SameSlots m (dispatch k created slot msg m)
unfolding dispatch
dispatch-SameSlots voice_state created slot msg m = go (parse_voice_state msg.payload)
  where
    go : (p : Option (ℕ × ChannelInfo)) → SameSlots m (handle_voice_state msg.user_id p m)
    go none = unfold handle_voice_state in tt
    go (some (ch, info)) = unfold handle_voice_state on_voice_state set_voice_state in ground arith
dispatch-SameSlots channel_list created slot msg m =
    list_slots_same created (parse_channel_list msg.payload) m
dispatch-SameSlots user_join created slot msg m = go (bridge_on slot m)
  where
    go : (b : Option (ℕ × ChannelBridge)) → SameSlots m (handle_user_join msg.user_id b m)
    go none = unfold handle_user_join in (refl, refl)
    go (some b) = unfold handle_user_join in (refl, refl)
dispatch-SameSlots user_info created slot msg m = go (parse_user_info msg.payload) m.signaller
  where
    go :
        (p : Option (Option (Bytes × Bytes))) (on : Bool)
        → SameSlots m (if on then handle_user_info msg.user_id p m else some (m, [], true))
    go p false = (refl, refl)
    go none true = unfold handle_user_info in tt
    go (some none) true = unfold handle_user_info in (refl, refl)
    go (some (some x)) true = unfold handle_user_info in (refl, refl)
dispatch-SameSlots leave_channel created slot msg m = go (bridge_on slot m)
  where
    go : (b : Option (ℕ × ChannelBridge)) → SameSlots m (handle_leave b m)
    go none = unfold handle_leave in (refl, refl)
    go (some b) = unfold handle_leave in (refl, refl)
dispatch-SameSlots audio_from_discord created slot msg m = go (bridge_on slot m)
  where
    go : (b : Option (ℕ × ChannelBridge)) → SameSlots m (handle_audio msg.user_id msg.payload b m)
    go none = unfold handle_audio in (refl, refl)
    go (some b) = unfold handle_audio in (refl, refl)
dispatch-SameSlots unknown created slot msg m = (refl, refl)

state_of-IsDead :
    (i : ℕ) (m : Manager) (h : Handled) {m' : Manager}
    → SameSlots m h
    → IsDead i m
    → state_of h ≡ some m'
    → IsDead i m'
state_of-IsDead i m none s d e = absurd (ground arith)
state_of-IsDead i m (some (n, sent, known)) s d e = subst (IsDead i) (some-eq e) (rw s.0 d)

manual_join-IsDead :
    (i : ℕ) (equal_fold : Bytes → Bytes → Bool) (sub_ok : Bool) (name : Bytes) (m : Manager)
    → IsDead i m
    → IsDead i (manual_join equal_fold sub_ok name m).0
unfolding manual_join
manual_join-IsDead i equal_fold sub_ok name m h =
    elim (Bool-cases (channel_named equal_fold name m == 0)) [
      | inl missing ↦ rw missing h
      | inr found ↦ rw found (start_bridge-IsDead i sub_ok (channel_named equal_fold name m) m h)
    ]

manual_leave-IsDead :
    (i : ℕ) (equal_fold : Bytes → Bytes → Bool) (name : Bytes) (m : Manager)
    → IsDead i m
    → IsDead i (manual_leave equal_fold name m).0
unfolding manual_leave leave_named
manual_leave-IsDead i equal_fold name m h = elim (Bool-cases (name == [])) [
  | inl all ↦ rw all (stop_all-IsDead i (keys m.active_bridges) m h)
  | inr one ↦ rw one (elim (Bool-cases (channel_named equal_fold name m == 0)) [
    | inl missing ↦ rw missing h
    | inr found ↦ rw found (stop_bridge-IsDead i (channel_named equal_fold name m) m h)
  ])
]

add_bot-IsDead :
    (i : ℕ) (connected : Bool) (token : Bytes) (row : ℕ) (m : Manager)
    → IsDead i m
    → IsDead i (add_bot connected token row m).0
unfolding add_bot add_slot
add_bot-IsDead i false token row m h = h
add_bot-IsDead i true token row m h = slot_channel-append i m.slots _ h

module _ (equal_fold : Bytes → Bytes → Bool) (i : ℕ) where
  pub step-IsDead :
      (op : Op) (m : Manager) {m' : Manager}
      → IsDead i m
      → step equal_fold op m ≡ some m'
      → IsDead i m'
  unfolding step
  step-IsDead (message created slot msg) m h e =
      state_of-IsDead i m (handle_message created slot msg m)
        (unfold handle_message in dispatch-SameSlots (kind_of msg.msg_type) created slot msg m) h e
  step-IsDead (call_member env room user joined) m h e =
      subst (IsDead i) (some-eq e) (on_call_member-IsDead i env room user joined m h)
  step-IsDead (timer ch) m h e = subst (IsDead i) (some-eq e) (timer_fired-IsDead i ch m h)
  step-IsDead (spawned_stop ch) m h e = subst (IsDead i) (some-eq e) (stop_bridge-IsDead i ch m h)
  step-IsDead (death j) m h e = subst (IsDead i) (some-eq e) (slot_death-IsDead i j m h)
  step-IsDead (remove j) m h e = subst (IsDead i) (some-eq e) (remove_bot-IsDead i j m h)
  step-IsDead (ask_join sub_ok name) m h e =
      subst (IsDead i) (some-eq e) (manual_join-IsDead i equal_fold sub_ok name m h)
  step-IsDead (ask_leave name) m h e =
      subst (IsDead i) (some-eq e) (manual_leave-IsDead i equal_fold name m h)
  step-IsDead (add connected token row) m h e =
      subst (IsDead i) (some-eq e) (add_bot-IsDead i connected token row m h)
  step-IsDead shut_down m h e = subst (IsDead i) (some-eq e) (close-IsDead i m h)

  run_from-IsDead :
      (ops : List Op) (m : Manager) {m' : Manager}
      → IsDead i m
      → run_from equal_fold ops (some m) ≡ some m'
      → IsDead i m'
  run_from-IsDead [] m h e = subst (IsDead i) (some-eq e) h
  run_from-IsDead (op ∷ ops) m {m'} h e = elim (Option-cases (step equal_fold op m)) [
    | inl panic ↦
        absurd (fails equal_fold ops (subst (λ o. run_from equal_fold ops o ≡ some m') panic e))
    | inr (n, ok) ↦
        run_from-IsDead ops n (step-IsDead op m h ok)
          (subst (λ o. run_from equal_fold ops o ≡ some m') ok e)
  ]

-- Once `HandleSlotDeath` has run for a slot that exists, in a manager as runs leave it, the slot
-- is dead after any further calls, one at a time, whose messages name real channels, and no active
-- bridge stands on it.
pub run-IsDead :
    (equal_fold : Bytes → Bytes → Bool) (i c : ℕ) (ops : List Op) (m m' : Manager)
    → Ready m
    → slot_channel i m.slots ≡ some c
    → All Sane ops
    → run equal_fold ops (slot_death i m).0 ≡ some m'
    → IsDead i m'
      × ((ch : ℕ) (b : ChannelBridge) → lookup ch m'.active_bridges ≡ some b → b.slot_index ≢ i)
unfolding run
run-IsDead equal_fold i c ops m m' r exists sane e =
    let gone =
      run_from-IsDead equal_fold i ops (slot_death i m).0 (slot_death-kills i m exists) e in
    let r' = run_from-Ready equal_fold ops (slot_death i m).0 sane (slot_death-Ready i m r) e in
    (
      gone,
      λ ch b there at.
          let o = r'.inv.owned ch b there in ground (arith, o.on_slot, o.real, gone, at),
    )
