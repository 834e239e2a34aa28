-- ===== src/Bridge/Refinement.antt =====
-- pkg/bridge/manager.go: every call of the manager does to its slots what a pool may do.
use matrix_discord_voice_bri.Base.{
  ℕ, ◌≡◌, refl, subst, Bool, true, false, Option, none, some, List, [], ◌∷◌, arith, Bool-cases,
  Option-cases, inl, inr, if◌then◌else◌, some-eq, nat_beq_iff, get_elem?,
}
use matrix_discord_voice_bri.Base.Eq.{Bytes, ◌==◌, nat_eq, bytes_eq}
use matrix_discord_voice_bri.Base.Assoc.{lookup, has, keys, delete, find_value-some}
use matrix_discord_voice_bri.Base.Text.{has_prefix}
use matrix_discord_voice_bri.Bridge.State.{Manager, ChannelBridge, IsChannel, dead}
use matrix_discord_voice_bri.Bridge.Slots.{
  slot_channel, set_channel, release_slot-dead, slot_channel-set_self,
}
use matrix_discord_voice_bri.Bridge.Stop.{
  release, release_bridge, stop_bridge, stop_all, slot_death, mark_dead, bridge_on, is_dead,
  remove_bot, remove_slot,
}
use matrix_discord_voice_bri.Bridge.Call.{
  JoinEnv, on_call_member, on_channel, on_join, on_leave, enter, track_user, users_of, leave_others,
  cancel_timers, untrack, set_timer, timer_fired, is_empty, ghost_prefix,
}
use matrix_discord_voice_bri.Bridge.Messages.{Handled}
use matrix_discord_voice_bri.Bridge.Admin.{
  manual_join, manual_leave, leave_named, channel_named, add_bot, add_slot,
}
use matrix_discord_voice_bri.Bridge.Invariant.{Inv}
use matrix_discord_voice_bri.Bridge.Keeps.{stop_bridge-keeps, stop_all-keeps}
use matrix_discord_voice_bri.Bridge.Ready.{Ready}
use matrix_discord_voice_bri.Bridge.Steps.{channel_named-real}
use matrix_discord_voice_bri.Bridge.DeadForever.{SameSlots}
use matrix_discord_voice_bri.Bridge.Machine.{state_of}
use matrix_discord_voice_bri.Bridge.Pool.{
  Moves, stay, die, add_free, channels, Follows, Follows-same, Moves-trans, start_bridge-Follows,
  stop_bridge-Follows, channels-append, channels-set_channel, one,
}

pub stop_all-Follows : (chs : List ℕ) (m : Manager) → Inv m → Follows m (stop_all chs m).0
unfolding stop_all
stop_all-Follows [] m v = stay (channels m.slots)
stop_all-Follows (ch ∷ chs) m v =
    Moves-trans (stop_bridge-Follows ch m v)
      (stop_all-Follows chs (stop_bridge ch m).0 (stop_bridge-keeps ch m v))

dies : (i : ℕ) (m : Manager) → Moves (channels m.slots) (channels (set_channel i dead m.slots))
dies i m = one (die (channels m.slots) i) (channels-set_channel i dead m.slots)

stop_marked-Follows :
    (i ch : ℕ) (b : ChannelBridge) (m : Manager)
    → Inv m
    → lookup ch m.active_bridges ≡ some b
    → b.slot_index ≡ i
    → Follows m (stop_bridge ch (mark_dead i ch m)).0
unfolding stop_bridge release release_bridge mark_dead
stop_marked-Follows i ch b m v found at =
    let o = v.owned ch b found in
    rw
      (
        found,
        ← at,
        release_slot-dead b.slot_index (set_channel b.slot_index dead m.slots)
            (slot_channel-set_self b.slot_index dead m.slots o.on_slot),
      )
      (dies b.slot_index m)

pub slot_death-Follows : (i : ℕ) (m : Manager) → Inv m → Follows m (slot_death i m).0
unfolding slot_death
slot_death-Follows i m v = elim (Bool-cases (is_dead (slot_channel i m.slots))) [
  | inl twice ↦ rw twice (stay (channels m.slots))
  | inr live ↦ rw live (elim (Option-cases (bridge_on i m)) [
    | inl unused ↦ rw unused (unfold mark_dead in dies i m)
    | inr ((ch, b), used) ↦
        let (found, on) =
          find_value-some (λ x. x.slot_index == i) m.active_bridges ch b v.distinct
            (unfold bridge_on in used) in
        let nonzero : (ch == 0) ≡ false = ground (arith, (v.owned ch b found).real) in
        rw (used, nonzero)
          (stop_marked-Follows i ch b m v found ((nat_beq_iff b.slot_index i).0 on))
  ])
]

pub remove_bot-Follows : (i : ℕ) (m : Manager) → Inv m → Follows m (remove_bot i m).0
unfolding remove_bot remove_slot
remove_bot-Follows i m v = elim (Option-cases (get_elem? m.slots i)) [
  | inl none_there ↦ rw none_there (stay (channels m.slots))
  | inr (s, there) ↦ rw there (elim (Bool-cases (s.channel_id == dead)) [
    | inl twice ↦ rw twice (stay (channels m.slots))
    | inr live ↦ rw live (slot_death-Follows i m v)
  ])
]

enter-Follows :
    (env : JoinEnv) (user : Bytes) (ch : ℕ) (m : Manager)
    → Inv m
    → IsChannel ch
    → Follows m (enter env user ch m).0
unfolding enter track_user
enter-Follows env user ch m v real = elim (Bool-cases (has user (users_of ch m))) [
  | inl old ↦ rw old (stay (channels m.slots))
  | inr new ↦ rw new (
      start_bridge-Follows env.sub_ok ch
        (track_user user (if m.signaller then env.display_name else user) ch m) v real)
]

on_join-Follows :
    (env : JoinEnv) (user : Bytes) (ch : ℕ) (m : Manager)
    → Inv m
    → IsChannel ch
    → Follows m (on_join env user ch m).0
unfolding on_join
on_join-Follows env user ch m v real =
    let stops = (leave_others user ch m.matrix_users).1 in
    let m' = record m {
      stop_timers = cancel_timers stops (delete ch m.stop_timers);
      matrix_users = (leave_others user ch m.matrix_users).0;
    } in
    Moves-trans (stop_all-Follows stops m' v)
      (enter-Follows env user ch (stop_all stops m').0 (stop_all-keeps stops m' v) real)

pub on_call_member-Follows :
    (env : JoinEnv) (room user : Bytes) (joined : Bool) (m : Manager)
    → Ready m
    → Follows m (on_call_member env room user joined m).0
unfolding on_call_member
on_call_member-Follows env room user joined m r = elim (Bool-cases (has_prefix ghost_prefix user)) [
  | inl ghost ↦ rw ghost (stay (channels m.slots))
  | inr human ↦ rw human (moved (lookup room m.room_channels) joined refl)
]
  where
    left : (ch : ℕ) → (on_leave user ch m).0.slots ≡ m.slots
    left ch = unfold on_leave untrack set_timer in ground arith

    moved :
        (o : Option ℕ) (j : Bool)
        → lookup room m.room_channels ≡ o
        → Follows m (on_channel o env user j m).0
    moved none j e = unfold on_channel in stay (channels m.slots)
    moved (some ch) true e =
        unfold on_channel in on_join-Follows env user ch m r.inv (r.rooms_real room ch e)
    moved (some ch) false e = unfold on_channel in Follows-same m (on_leave user ch m).0 (left ch)

pub timer_fired-Follows : (ch : ℕ) (m : Manager) → Inv m → Follows m (timer_fired ch m).0
unfolding timer_fired
timer_fired-Follows ch m v = elim (Bool-cases (is_empty (users_of ch m))) [
  | inl empty ↦
      rw empty (stop_bridge-Follows ch (record m { stop_timers = delete ch m.stop_timers }) v)
  | inr busy ↦ rw busy (stay (channels m.slots))
]

pub manual_join-Follows :
    (equal_fold : Bytes → Bytes → Bool) (sub_ok : Bool) (name : Bytes) (m : Manager)
    → Ready m
    → Follows m (manual_join equal_fold sub_ok name m).0
unfolding manual_join
manual_join-Follows equal_fold sub_ok name m r =
    elim (Bool-cases (channel_named equal_fold name m == 0)) [
      | inl missing ↦ rw missing (stay (channels m.slots))
      | inr found ↦
          rw found
            (start_bridge-Follows sub_ok _ m r.inv (channel_named-real equal_fold name m r found))
    ]

pub manual_leave-Follows :
    (equal_fold : Bytes → Bytes → Bool) (name : Bytes) (m : Manager)
    → Inv m
    → Follows m (manual_leave equal_fold name m).0
unfolding manual_leave leave_named
manual_leave-Follows equal_fold name m v = elim (Bool-cases (name == [])) [
  | inl all ↦ rw all (stop_all-Follows (keys m.active_bridges) m v)
  | inr named ↦ rw named (elim (Bool-cases (channel_named equal_fold name m == 0)) [
    | inl missing ↦ rw missing (stay (channels m.slots))
    | inr found ↦ rw found (stop_bridge-Follows (channel_named equal_fold name m) m v)
  ])
]

pub add_bot-Follows :
    (connected : Bool) (token : Bytes) (row : ℕ) (m : Manager)
    → Follows m (add_bot connected token row m).0
unfolding add_bot add_slot
add_bot-Follows false token row m = stay (channels m.slots)
add_bot-Follows true token row m =
    one (add_free (channels m.slots)) (unfold channels in channels-append m.slots _)

pub state_of-Follows :
    (m : Manager) (h : Handled) {m' : Manager} → SameSlots m h → state_of h ≡ some m' → Follows m m'
state_of-Follows m none s e = absurd (ground arith)
state_of-Follows m (some (n, sent, known)) s e =
    subst (Follows m) (some-eq e) (Follows-same m n s.0)
