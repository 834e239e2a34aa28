-- ===== src/Bridge/Steps.antt =====
-- The invariant of the manager of pkg/bridge/manager.go over messages, commands and whole runs.
use matrix_discord_voice_bri.Base.{
  ℕ, ◌≡◌, ◌≢◌, refl, subst, Bool, true, false, Option, none, some, [], arith, if◌then◌else◌,
  Bool-cases, Option-cases, inl, inr, some-eq, on_branches,
}
use matrix_discord_voice_bri.Base.Eq.{Bytes, ◌==◌, nat_eq, bytes_eq}
use matrix_discord_voice_bri.Base.Assoc.{
  keys, lookup-insert, Distinct-insert, find_value, find_value-some,
}
use matrix_discord_voice_bri.Ipc.Frame.{Message}
use matrix_discord_voice_bri.Payload.VoiceState.{ChannelInfo, parse_voice_state, parse_channel_list}
use matrix_discord_voice_bri.Payload.UserInfo.{parse_user_info}
use matrix_discord_voice_bri.Bridge.State.{Manager, ChannelBridge, IsChannel, dead}
use matrix_discord_voice_bri.Bridge.Stop.{bridge_on}
use matrix_discord_voice_bri.Bridge.Messages.{
  Kind, voice_state, channel_list, user_join, user_info, leave_channel, audio_from_discord, unknown,
  dispatch, kind_of, Handled, handle_message, handle_voice_state, handle_channel_list,
  handle_user_join, handle_user_info, handle_leave, handle_audio, on_voice_state, set_voice_state,
  set_info, ensure_room, cached_or_new, new_room, room_ensured,
}
use matrix_discord_voice_bri.Bridge.Admin.{manual_join, manual_leave, leave_named, channel_named}
use matrix_discord_voice_bri.Bridge.Invariant.{replace}
use matrix_discord_voice_bri.Bridge.Ready.{
  Ready, Ready-same, stop_bridge-Ready, stop_all-Ready, start_bridge-Ready,
}
use matrix_discord_voice_bri.Bridge.Machine.{state_of, IsSane}

-- The state that a handler leaves, if it did not panic.
abbrev pub After : Handled → Type 0
After none = Unit {0}
After (some (m, sent, known)) = Ready m

set_info-Ready :
    (ch : ℕ) (info : ChannelInfo) (m : Manager) → Ready m → ch ≢ dead → Ready (set_info ch info m)
set_info-Ready ch info m r real = record {
  inv = r.inv;
  rooms_real = r.rooms_real;
  infos_real = λ k i e. ground (arith, lookup-insert ch k info m.channel_infos, r.infos_real k i);
  infos_distinct = Distinct-insert ch info m.channel_infos r.infos_distinct;
}

set_voice_state-Ready : (user ch : ℕ) (m : Manager) → Ready m → Ready (set_voice_state user ch m)
unfolding set_voice_state
set_voice_state-Ready user ch m r = Ready-same {m = m} r r.inv refl refl

voice_state-After :
    (user : ℕ) (p : Option (ℕ × ChannelInfo)) (m : Manager)
    → Ready m
    → ((ch : ℕ) (info : ChannelInfo) → p ≡ some (ch, info) → ch ≢ dead)
    → After (handle_voice_state user p m)
unfolding handle_voice_state on_voice_state
voice_state-After user none m r sane = tt
voice_state-After user (some (ch, info)) m r sane = set_voice_state-Ready user ch _ (kept (ch == 0))
  where
    kept : (left : Bool) → Ready (if left then m else set_info ch info m)
    kept true = r
    kept false = set_info-Ready ch info m r (sane ch info refl)

new_room-Ready :
    (created : Option Bytes) (ch : ℕ) (info : ChannelInfo) (m : Manager)
    → Ready m
    → IsChannel ch
    → Ready (new_room created ch info m).0
unfolding new_room
new_room-Ready none ch info m r real = r
new_room-Ready (some room) ch info m r real = record {
  inv = r.inv;
  rooms_real =
      λ k c e. ground (arith, real, lookup-insert room k ch m.room_channels, r.rooms_real k c);
  infos_real = r.infos_real;
  infos_distinct = r.infos_distinct;
}

ensure_room-Ready :
    (cached created : Option Bytes) (ch : ℕ) (info : ChannelInfo) (m : Manager)
    → Ready m
    → IsChannel ch
    → After (room_ensured (cached_or_new cached created ch info m))
unfolding cached_or_new
ensure_room-Ready (some room) created ch info m r real = r
ensure_room-Ready none created ch info m r real =
    on_branches (λ x. After (room_ensured x)) m.signaller
      (λ e. new_room-Ready created ch info m r real) (λ e. tt)

channel_list-After :
    (created : Option Bytes) (p : Option (Option (ℕ × ChannelInfo))) (m : Manager)
    → Ready m
    → ((ch : ℕ) (info : ChannelInfo) → p ≡ some (some (ch, info)) → IsChannel ch)
    → After (handle_channel_list created p m)
unfolding handle_channel_list ensure_room
channel_list-After created none m r sane = tt
channel_list-After created (some none) m r sane = r
channel_list-After created (some (some (ch, info))) m r sane =
    let real = sane ch info refl in
    ensure_room-Ready _ created ch info (set_info ch info m) (set_info-Ready ch info m r real.1)
      real

user_join-After :
    (slot user : ℕ) (m : Manager) → Ready m → After (handle_user_join user (bridge_on slot m) m)
user_join-After slot user m r = elim (Option-cases (bridge_on slot m)) [
  | inl unused ↦ rw unused (unfold handle_user_join in r)
  | inr ((ch, b), used) ↦
      let (found, on) =
        find_value-some (λ x. x.slot_index == slot) m.active_bridges ch b r.inv.distinct
          (unfold bridge_on in used) in
      rw used (
        unfold handle_user_join in
        Ready-same {m = m} r
          (replace m.slots m.active_bridges ch b _ r.inv found (r.inv.owned ch b found).own_channel
            refl)
          refl refl)
]

user_info-After :
    (user : ℕ) (p : Option (Option (Bytes × Bytes))) (m : Manager)
    → Ready m
    → After (handle_user_info user p m)
unfolding handle_user_info
user_info-After user none m r = tt
user_info-After user (some none) m r = r
user_info-After user (some (some (name, avatar))) m r = r

leave-After : (b : Option (ℕ × ChannelBridge)) (m : Manager) → Ready m → After (handle_leave b m)
unfolding handle_leave
leave-After none m r = r
leave-After (some b) m r = r

audio-After :
    (user : ℕ) (opus : Bytes) (b : Option (ℕ × ChannelBridge)) (m : Manager)
    → Ready m
    → After (handle_audio user opus b m)
unfolding handle_audio
audio-After user opus none m r = r
audio-After user opus (some b) m r = r

if_After : (t : Bool) (x y : Handled) → After x → After y → After (if t then x else y)
if_After true x y h k = h
if_After false x y h k = k

pub dispatch-After :
    (k : Kind) (created : Option Bytes) (slot : ℕ) (msg : Message) (m : Manager)
    → Ready m
    → (k ≡ voice_state
        → (ch : ℕ) (info : ChannelInfo) → parse_voice_state msg.payload ≡ some (ch, info)
        → ch ≢ dead)
    → (k ≡ channel_list
        → (ch : ℕ) (info : ChannelInfo) → parse_channel_list msg.payload ≡ some (some (ch, info))
        → IsChannel ch)
    → After (dispatch k created slot msg m)
unfolding dispatch
dispatch-After voice_state created slot msg m r stated listed =
    voice_state-After msg.user_id (parse_voice_state msg.payload) m r (stated refl)
dispatch-After channel_list created slot msg m r stated listed =
    channel_list-After created (parse_channel_list msg.payload) m r (listed refl)
dispatch-After user_join created slot msg m r stated listed = user_join-After slot msg.user_id m r
dispatch-After user_info created slot msg m r stated listed =
    if_After m.signaller (handle_user_info msg.user_id (parse_user_info msg.payload) m)
      (some (m, [], true)) (user_info-After msg.user_id (parse_user_info msg.payload) m r) r
dispatch-After leave_channel created slot msg m r stated listed = leave-After (bridge_on slot m) m r
dispatch-After audio_from_discord created slot msg m r stated listed =
    audio-After msg.user_id msg.payload (bridge_on slot m) m r
dispatch-After unknown created slot msg m r stated listed = r

pub state_of-After : (h : Handled) {m : Manager} → After h → state_of h ≡ some m → Ready m
state_of-After none a e = cc
state_of-After (some (n, sent, known)) a e = subst Ready (some-eq e) a

pub channel_named-real :
    (equal_fold : Bytes → Bytes → Bool) (name : Bytes) (m : Manager)
    → Ready m
    → (channel_named equal_fold name m == 0) ≡ false
    → IsChannel (channel_named equal_fold name m)
unfolding channel_named
channel_named-real equal_fold name m r nonzero =
    let test = λ (i : ChannelInfo). equal_fold i.name name in
    elim (Option-cases (find_value test m.channel_infos)) [
      | inl missing ↦ absurd (ground arith)
      | inr ((ch, info), found) ↦
          let (there, _) = find_value-some test m.channel_infos ch info r.infos_distinct found in
          (ground arith, ground (arith, found, r.infos_real ch info there))
    ]

pub manual_join-Ready :
    (equal_fold : Bytes → Bytes → Bool) (sub_ok : Bool) (name : Bytes) (m : Manager)
    → Ready m
    → Ready (manual_join equal_fold sub_ok name m).0
unfolding manual_join
manual_join-Ready equal_fold sub_ok name m r =
    elim (Bool-cases (channel_named equal_fold name m == 0)) [
      | inl missing ↦ rw missing r
      | inr found ↦
          rw found (start_bridge-Ready sub_ok _ m r (channel_named-real equal_fold name m r found))
    ]

pub manual_leave-Ready :
    (equal_fold : Bytes → Bytes → Bool) (name : Bytes) (m : Manager)
    → Ready m
    → Ready (manual_leave equal_fold name m).0
unfolding manual_leave leave_named
manual_leave-Ready equal_fold name m r = elim (Bool-cases (name == [])) [
  | inl all ↦ rw all (stop_all-Ready (keys m.active_bridges) m r)
  | inr one ↦ rw one (elim (Bool-cases (channel_named equal_fold name m == 0)) [
    | inl missing ↦ rw missing r
    | inr found ↦ rw found (stop_bridge-Ready (channel_named equal_fold name m) m r)
  ])
]

pub message-After :
    (created : Option Bytes) (slot : ℕ) (msg : Message) (m : Manager)
    → Ready m
    → IsSane msg
    → After (handle_message created slot msg m)
unfolding handle_message
message-After created slot msg m r sane =
    dispatch-After (kind_of msg.msg_type) created slot msg m r sane.state_channel sane.list_channel
