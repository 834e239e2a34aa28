-- ===== src/Bridge/Undisturbed.antt =====
-- pkg/bridge/manager.go: a start that is in flight keeps its slot over every call that does not stop
-- its channel.
use matrix_discord_voice_bri.Base.{
  on_branches, ℕ, ◌≡◌, refl, ◌∙◌, subst, Bool, true, false, Option, none, some, List, [], ◌∷◌,
  arith, if◌then◌else◌, Bool-cases, Option-cases, inl, inr, some-eq, nat_beq_iff,
}
use matrix_discord_voice_bri.Base.Eq.{Bytes, ◌==◌, nat_eq, bytes_eq, elem}
use matrix_discord_voice_bri.Base.Assoc.{
  lookup, insert, keys, lookup-insert, find_value-some, Distinct,
}
use matrix_discord_voice_bri.Ipc.Frame.{Message}
use matrix_discord_voice_bri.Payload.VoiceState.{ChannelInfo, parse_voice_state, parse_channel_list}
use matrix_discord_voice_bri.Payload.UserInfo.{parse_user_info}
use matrix_discord_voice_bri.Bridge.State.{Manager, ChannelBridge}
use matrix_discord_voice_bri.Bridge.Stop.{bridge_on, close}
use matrix_discord_voice_bri.Bridge.Messages.{
  Kind, voice_state, channel_list, user_join, user_info, leave_channel, audio_from_discord, unknown,
  dispatch, kind_of, Handled, handle_message, handle_voice_state, handle_channel_list,
  handle_user_join, handle_user_info, handle_leave, handle_audio, on_voice_state, set_voice_state,
  ensure_room, cached_or_new, new_room, room_ensured, set_info,
}
use matrix_discord_voice_bri.Bridge.Admin.{
  manual_join, manual_leave, leave_named, channel_named, add_bot, add_slot,
}
use matrix_discord_voice_bri.Bridge.Machine.{
  Op, message, call_member, timer, spawned_stop, death, remove, ask_join, ask_leave, add, shut_down,
  step, state_of,
}
use matrix_discord_voice_bri.Bridge.InFlight.{stops_of}
use matrix_discord_voice_bri.Bridge.Bystander.{
  stop_bridge-lookup, stop_all-lookup, start_bridge-lookup, slot_death-lookup, remove_bot-lookup,
  on_call_member-lookup, timer_fired-lookup,
}

-- A channel has a bridge, or the sentinel of one, on a slot.
abbrev pub OnSlot : ℕ → ℕ → List (ℕ × ChannelBridge) → Type 0
OnSlot k i active = (b : ChannelBridge) × (lookup k active ≡ some b) × (b.slot_index ≡ i)

pub OnSlot-same :
    (k i : ℕ) (a a' : List (ℕ × ChannelBridge))
    → lookup k a' ≡ lookup k a
    → OnSlot k i a
    → OnSlot k i a'
OnSlot-same k i a a' same (b, found, on) = (b, same ∙ found, on)

abbrev pub StillOn : ℕ → ℕ → Handled → Type 0
StillOn k i none = Unit {0}
StillOn k i (some (m, sent, known)) = OnSlot k i m.active_bridges

-- A user who joins is added to the record of the bridge, which stays on its slot.
replaced-OnSlot :
    (ch k i : ℕ) (x y : ChannelBridge) (m : Manager)
    → lookup ch m.active_bridges ≡ some x
    → y.slot_index ≡ x.slot_index
    → OnSlot k i m.active_bridges
    → OnSlot k i (insert ch y m.active_bridges)
replaced-OnSlot ch k i x y m there same (b, found, on) = elim (Bool-cases (ch == k)) [
  | inl this ↦
      (y, lookup-insert ch k y m.active_bridges ∙ rw this refl, ground (arith, nat_beq_iff ch k))
  | inr other ↦ (b, lookup-insert ch k y m.active_bridges ∙ rw other found, on)
]

room_ensured-StillOn :
    (k i : ℕ) (cached created : Option Bytes) (ch : ℕ) (info : ChannelInfo) (m : Manager)
    → OnSlot k i m.active_bridges
    → StillOn k i (room_ensured (cached_or_new cached created ch info m))
unfolding cached_or_new new_room
room_ensured-StillOn k i (some room) created ch info m h = h
room_ensured-StillOn k i none none ch info m h =
    on_branches (λ x. StillOn k i (room_ensured x)) m.signaller (λ e. h) (λ e. tt)
room_ensured-StillOn k i none (some room) ch info m h =
    on_branches (λ x. StillOn k i (room_ensured x)) m.signaller (λ e. h) (λ e. tt)

module _ (k i : ℕ) (m : Manager) (h : OnSlot k i m.active_bridges) where
  user_join-StillOn :
      (slot user : ℕ)
      → Distinct m.active_bridges
      → StillOn k i (handle_user_join user (bridge_on slot m) m)
  user_join-StillOn slot user d = elim (Option-cases (bridge_on slot m)) [
    | inl unused ↦ rw unused (unfold handle_user_join in h)
    | inr ((ch, x), used) ↦
        let there =
          (find_value-some (λ y. y.slot_index == slot) m.active_bridges ch x d
            (unfold bridge_on in used)).0 in
        rw used (unfold handle_user_join in replaced-OnSlot ch k i x _ m there refl h)
  ]

  voice_state-StillOn :
      (user : ℕ) (p : Option (ℕ × ChannelInfo)) → StillOn k i (handle_voice_state user p m)
  unfolding handle_voice_state on_voice_state set_voice_state
  voice_state-StillOn user none = tt
  voice_state-StillOn user (some (ch, info)) = OnSlot-same k i _ _ (ground arith) h

  channel_list-StillOn :
      (created : Option Bytes) (p : Option (Option (ℕ × ChannelInfo)))
      → StillOn k i (handle_channel_list created p m)
  unfolding handle_channel_list ensure_room
  channel_list-StillOn created none = tt
  channel_list-StillOn created (some none) = h
  channel_list-StillOn created (some (some (ch, info))) =
      room_ensured-StillOn k i (lookup ch m.channel_rooms) created ch info (set_info ch info m) h

  user_info-StillOn :
      (user : ℕ) (p : Option (Option (Bytes × Bytes))) (on : Bool)
      → StillOn k i (if on then handle_user_info user p m else some (m, [], true))
  unfolding handle_user_info
  user_info-StillOn user p false = h
  user_info-StillOn user none true = tt
  user_info-StillOn user (some none) true = h
  user_info-StillOn user (some (some x)) true = h

  leave-StillOn : (b : Option (ℕ × ChannelBridge)) → StillOn k i (handle_leave b m)
  unfolding handle_leave
  leave-StillOn none = h
  leave-StillOn (some b) = h

  audio-StillOn :
      (user : ℕ) (opus : Bytes) (b : Option (ℕ × ChannelBridge))
      → StillOn k i (handle_audio user opus b m)
  unfolding handle_audio
  audio-StillOn user opus none = h
  audio-StillOn user opus (some b) = h

  -- No message takes a bridge off its slot.
  dispatch-StillOn :
      (kind : Kind) (created : Option Bytes) (slot : ℕ) (msg : Message)
      → Distinct m.active_bridges
      → StillOn k i (dispatch kind created slot msg m)
  unfolding dispatch
  dispatch-StillOn voice_state created slot msg d =
      voice_state-StillOn msg.user_id (parse_voice_state msg.payload)
  dispatch-StillOn channel_list created slot msg d =
      channel_list-StillOn created (parse_channel_list msg.payload)
  dispatch-StillOn user_join created slot msg d = user_join-StillOn slot msg.user_id d
  dispatch-StillOn user_info created slot msg d =
      user_info-StillOn msg.user_id (parse_user_info msg.payload) m.signaller
  dispatch-StillOn leave_channel created slot msg d = leave-StillOn (bridge_on slot m)
  dispatch-StillOn audio_from_discord created slot msg d =
      audio-StillOn msg.user_id msg.payload (bridge_on slot m)
  dispatch-StillOn unknown created slot msg d = h

state_of-StillOn :
    (k i : ℕ) (x : Handled) {m : Manager}
    → StillOn k i x
    → state_of x ≡ some m
    → OnSlot k i m.active_bridges
state_of-StillOn k i none s e = absurd (ground arith)
state_of-StillOn k i (some (n, sent, known)) s e =
    subst (λ (n : Manager). OnSlot k i n.active_bridges) (some-eq e) s

manual_join-OnSlot :
    (k i : ℕ) (equal_fold : Bytes → Bytes → Bool) (sub_ok : Bool) (name : Bytes) (m : Manager)
    → OnSlot k i m.active_bridges
    → OnSlot k i (manual_join equal_fold sub_ok name m).0.active_bridges
unfolding manual_join
manual_join-OnSlot k i equal_fold sub_ok name m (b, found, on) =
    elim (Bool-cases (channel_named equal_fold name m == 0)) [
      | inl missing ↦ rw missing (b, found, on)
      | inr named ↦
          rw named (b, start_bridge-lookup sub_ok (channel_named equal_fold name m) k m b found, on)
    ]

manual_leave-lookup :
    (k : ℕ) (equal_fold : Bytes → Bytes → Bool) (name : Bytes) (m : Manager)
    → elem k (if name == [] then keys m.active_bridges else channel_named equal_fold name m ∷ [])
      ≡ false
    → lookup k (manual_leave equal_fold name m).0.active_bridges ≡ lookup k m.active_bridges
unfolding manual_leave leave_named elem
manual_leave-lookup k equal_fold name m out = elim (Bool-cases (name == [])) [
  | inl all ↦ rw all (stop_all-lookup (keys m.active_bridges) k m (ground (arith, out, all)))
  | inr named ↦
      rw named
        (ground (arith, stop_bridge-lookup (channel_named equal_fold name m) k m, out, named))
]

-- A bridge, or a sentinel, whose channel a call does not stop stays on its slot.
module _ (equal_fold : Bytes → Bytes → Bool) where
  pub step-OnSlot :
      (k i : ℕ) (op : Op) (m : Manager) {m' : Manager}
      → Distinct m.active_bridges
      → elem k (stops_of equal_fold op m) ≡ false
      → OnSlot k i m.active_bridges
      → step equal_fold op m ≡ some m'
      → OnSlot k i m'.active_bridges
  unfolding step stops_of
  step-OnSlot k i (message created slot msg) m d out h e =
      state_of-StillOn k i (handle_message created slot msg m)
        (unfold handle_message in
          dispatch-StillOn k i m h (kind_of msg.msg_type) created slot msg d)
        e
  step-OnSlot k i (call_member env room user joined) m d out (b, found, on) e =
      subst (λ (n : Manager). OnSlot k i n.active_bridges) (some-eq e)
        (b, on_call_member-lookup env room user joined k m b out found, on)
  step-OnSlot k i (timer ch) m d out h e =
      subst (λ (n : Manager). OnSlot k i n.active_bridges) (some-eq e)
        (OnSlot-same k i _ _ (timer_fired-lookup ch k m out) h)
  step-OnSlot k i (spawned_stop ch) m d out h e =
      subst (λ (n : Manager). OnSlot k i n.active_bridges) (some-eq e)
        (OnSlot-same k i _ _ (stop_bridge-lookup ch k m (unfold elem in ground (arith, out))) h)
  step-OnSlot k i (death j) m d out h e =
      subst (λ (n : Manager). OnSlot k i n.active_bridges) (some-eq e)
        (OnSlot-same k i _ _ (slot_death-lookup j k m out) h)
  step-OnSlot k i (remove j) m d out h e =
      subst (λ (n : Manager). OnSlot k i n.active_bridges) (some-eq e)
        (OnSlot-same k i _ _ (remove_bot-lookup j k m out) h)
  step-OnSlot k i (ask_join sub_ok name) m d out h e =
      subst (λ (n : Manager). OnSlot k i n.active_bridges) (some-eq e)
        (manual_join-OnSlot k i equal_fold sub_ok name m h)
  step-OnSlot k i (ask_leave name) m d out h e =
      subst (λ (n : Manager). OnSlot k i n.active_bridges) (some-eq e)
        (OnSlot-same k i _ _ (manual_leave-lookup k equal_fold name m out) h)
  step-OnSlot k i (add connected token row) m d out h e =
      subst (λ (n : Manager). OnSlot k i n.active_bridges) (some-eq e) (grown connected)
    where
      grown : (c : Bool) → OnSlot k i (add_bot c token row m).0.active_bridges
      grown false = unfold add_bot in h
      grown true = unfold add_bot add_slot in h
  step-OnSlot k i shut_down m d out h e =
      subst (λ (n : Manager). OnSlot k i n.active_bridges) (some-eq e)
        (unfold close in OnSlot-same k i _ _ (stop_all-lookup (keys m.active_bridges) k _ out) h)
