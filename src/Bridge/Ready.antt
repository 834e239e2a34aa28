-- ===== src/Bridge/Ready.antt =====
-- The invariant of the manager of pkg/bridge/manager.go over every call.
use matrix_discord_voice_bri.Base.{
  ℕ, ◌≡◌, ◌≢◌, refl, Bool, true, false, some, List, [], arith, if◌then◌else◌, Bool-cases,
  Option-cases, inl, inr,
}
use matrix_discord_voice_bri.Base.Eq.{Bytes, nat_eq, bytes_eq}
use matrix_discord_voice_bri.Base.Assoc.{lookup, delete, has, keys, Distinct}
use matrix_discord_voice_bri.Base.Text.{has_prefix}
use matrix_discord_voice_bri.Payload.VoiceState.{ChannelInfo}
use matrix_discord_voice_bri.Bridge.State.{Manager, IsChannel, dead}
use matrix_discord_voice_bri.Bridge.Start.{start_bridge}
use matrix_discord_voice_bri.Bridge.Stop.{stop_bridge, stop_all, slot_death, remove_bot, close}
use matrix_discord_voice_bri.Bridge.Call.{
  JoinEnv, on_call_member, on_channel, on_join, on_leave, enter, track_user, users_of, leave_others,
  cancel_timers, untrack, set_timer, timer_fired, is_empty, ghost_prefix,
}
use matrix_discord_voice_bri.Bridge.Invariant.{Inv}
use matrix_discord_voice_bri.Bridge.Keeps.{
  start_bridge-keeps, stop_bridge-keeps, stop_all-keeps, slot_death-keeps, remove_bot-keeps,
}
use matrix_discord_voice_bri.Bridge.Frame.{
  start_bridge-SameMaps, stop_bridge-SameMaps, stop_all-SameMaps, slot_death-SameMaps,
  remove_bot-SameMaps,
}

-- The assignment is in order, and the maps from rooms and names lead to real channels.
pub record Ready (m : Manager) : Type 0 where
  pub inv : Inv m
  pub rooms_real : (room : Bytes) (ch : ℕ) → lookup room m.room_channels ≡ some ch → IsChannel ch
  pub infos_real : (ch : ℕ) (i : ChannelInfo) → lookup ch m.channel_infos ≡ some i → ch ≢ dead
  pub infos_distinct : Distinct m.channel_infos

pub Ready-same :
    {m m' : Manager}
    → Ready m
    → Inv m'
    → m'.room_channels ≡ m.room_channels
    → m'.channel_infos ≡ m.channel_infos
    → Ready m'
Ready-same r v rooms infos = record {
  inv = v;
  rooms_real = λ room ch e. r.rooms_real room ch (rw (← rooms) e);
  infos_real = λ ch i e. r.infos_real ch i (rw (← infos) e);
  infos_distinct = rw infos r.infos_distinct;
}

enter-Ready :
    (env : JoinEnv) (user : Bytes) (ch : ℕ) (m : Manager)
    → Ready m
    → IsChannel ch
    → Ready (enter env user ch m).0
unfolding enter track_user
enter-Ready env user ch m r real = elim (Bool-cases (has user (users_of ch m))) [
  | inl old ↦ rw old r
  | inr new ↦
      let name = if m.signaller then env.display_name else user in
      let m' = track_user user name ch m in
      let same = start_bridge-SameMaps env.sub_ok ch m' in
      rw new (
        Ready-same {m = m} r (start_bridge-keeps env.sub_ok ch m' r.inv real) same.same_rooms
          same.same_infos)
]

on_join-Ready :
    (env : JoinEnv) (user : Bytes) (ch : ℕ) (m : Manager)
    → Ready m
    → IsChannel ch
    → Ready (on_join env user ch m).0
unfolding on_join
on_join-Ready env user ch m r real =
    let stops = (leave_others user ch m.matrix_users).1 in
    let m' = record m {
      stop_timers = cancel_timers stops (delete ch m.stop_timers);
      matrix_users = (leave_others user ch m.matrix_users).0;
    } in
    let same = stop_all-SameMaps stops m' in
    enter-Ready env user ch (stop_all stops m').0
      (Ready-same {m = m} r (stop_all-keeps stops m' r.inv) same.same_rooms same.same_infos) real

-- Only fields that no invariant reads differ.
pub record Untouched (m m' : Manager) : Type 0 where
  pub same_slots : m'.slots ≡ m.slots
  pub same_active : m'.active_bridges ≡ m.active_bridges
  pub same_rooms : m'.room_channels ≡ m.room_channels
  pub same_infos : m'.channel_infos ≡ m.channel_infos

pub Ready-Untouched : {m m' : Manager} → Ready m → Untouched m m' → Ready m'
Ready-Untouched r u =
    Ready-same r (rw (u.same_slots, u.same_active) r.inv) u.same_rooms u.same_infos

on_leave-Ready : (user : Bytes) (ch : ℕ) (m : Manager) → Ready m → Ready (on_leave user ch m).0
on_leave-Ready user ch m r = Ready-Untouched r (untouched user ch m)
  where
    untouched : (user : Bytes) (ch : ℕ) (m : Manager) → Untouched m (on_leave user ch m).0
    untouched user ch m = unfold on_leave untrack set_timer in ground arith

pub on_call_member-Ready :
    (env : JoinEnv) (room user : Bytes) (joined : Bool) (m : Manager)
    → Ready m
    → Ready (on_call_member env room user joined m).0
unfolding on_call_member
on_call_member-Ready env room user joined m r = elim (Bool-cases (has_prefix ghost_prefix user)) [
  | inl ghost ↦ rw ghost r
  | inr human ↦ rw human (elim (Option-cases (lookup room m.room_channels)) [
    | inl other ↦ rw other (unfold on_channel in r)
    | inr (ch, found) ↦ rw found (moved ch joined (r.rooms_real room ch found))
  ])
]
  where
    moved : (ch : ℕ) (j : Bool) → IsChannel ch → Ready (on_channel (some ch) env user j m).0
    moved ch true real = unfold on_channel in on_join-Ready env user ch m r real
    moved ch false real = unfold on_channel in on_leave-Ready user ch m r

pub stop_bridge-Ready : (ch : ℕ) (m : Manager) → Ready m → Ready (stop_bridge ch m).0
stop_bridge-Ready ch m r =
    let same = stop_bridge-SameMaps ch m in
    Ready-same {m = m} r (stop_bridge-keeps ch m r.inv) same.same_rooms same.same_infos

pub timer_fired-Ready : (ch : ℕ) (m : Manager) → Ready m → Ready (timer_fired ch m).0
unfolding timer_fired
timer_fired-Ready ch m r = elim (Bool-cases (is_empty (users_of ch m))) [
  | inl empty ↦
      rw empty (stop_bridge-Ready ch (record m { stop_timers = delete ch m.stop_timers }) (same r))
  | inr busy ↦ rw busy (same r)
]
  where
    same : Ready m → Ready (record m { stop_timers = delete ch m.stop_timers })
    same r = Ready-same {m = m} r r.inv refl refl

pub slot_death-Ready : (i : ℕ) (m : Manager) → Ready m → Ready (slot_death i m).0
slot_death-Ready i m r =
    let same = slot_death-SameMaps i m in
    Ready-same {m = m} r (slot_death-keeps i m r.inv) same.same_rooms same.same_infos

pub remove_bot-Ready : (i : ℕ) (m : Manager) → Ready m → Ready (remove_bot i m).0
remove_bot-Ready i m r =
    let same = remove_bot-SameMaps i m in
    Ready-same {m = m} r (remove_bot-keeps i m r.inv) same.same_rooms same.same_infos

pub close-Ready : (m : Manager) → Ready m → Ready (close m).0
unfolding close
close-Ready m r =
    let m' = record m { stop_timers = [] } in
    let same = stop_all-SameMaps (keys m.active_bridges) m' in
    Ready-same {m = m} r (stop_all-keeps (keys m.active_bridges) m' r.inv) same.same_rooms
      same.same_infos

pub stop_all-Ready : (chs : List ℕ) (m : Manager) → Ready m → Ready (stop_all chs m).0
stop_all-Ready chs m r =
    let same = stop_all-SameMaps chs m in
    Ready-same {m = m} r (stop_all-keeps chs m r.inv) same.same_rooms same.same_infos

pub start_bridge-Ready :
    (sub_ok : Bool) (ch : ℕ) (m : Manager)
    → Ready m
    → IsChannel ch
    → Ready (start_bridge sub_ok ch m).0
start_bridge-Ready sub_ok ch m r real =
    let same = start_bridge-SameMaps sub_ok ch m in
    Ready-same {m = m} r (start_bridge-keeps sub_ok ch m r.inv real) same.same_rooms same.same_infos
