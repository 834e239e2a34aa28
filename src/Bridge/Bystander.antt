-- ===== src/Bridge/Bystander.antt =====
-- pkg/bridge/manager.go: the bridges that a call does not stop stay on their slots.
use matrix_discord_voice_bri.Base.{
  ℕ, ◌≡◌, ◌≢◌, refl, ◌∙◌, Bool, true, false, Option, none, some, List, [], ◌∷◌, arith,
  if◌then◌else◌, Bool-cases, Option-cases, inl, inr, get_elem?,
}
use matrix_discord_voice_bri.Base.Eq.{Bytes, ◌==◌, nat_eq, bytes_eq, elem}
use matrix_discord_voice_bri.Base.Assoc.{
  lookup, insert, has, delete, lookup-delete, lookup-insert_ne,
}
use matrix_discord_voice_bri.Base.Text.{has_prefix}
use matrix_discord_voice_bri.Bridge.State.{Manager, ChannelBridge, Slot, room_of, info_of}
use matrix_discord_voice_bri.Bridge.Slots.{first_free, slot_channel}
use matrix_discord_voice_bri.Bridge.Start.{
  start_bridge, claim, claim_free, claim_slot, finish_start, publish, full_bridge, sentinel,
}
use matrix_discord_voice_bri.Bridge.Stop.{
  stop_bridge, release, release_bridge, stop_all, slot_death, mark_dead, bridge_on, remove_bot,
  remove_slot, channel_or_zero, is_dead,
}
use matrix_discord_voice_bri.Bridge.Call.{
  JoinEnv, on_call_member, on_channel, on_join, on_leave, enter, track_user, users_of, leave_others,
  untrack, set_timer, timer_fired, is_empty, ghost_prefix,
}
use matrix_discord_voice_bri.Bridge.Joins.{joined_name, moved}
use matrix_discord_voice_bri.Bridge.InFlight.{join_stops}

pub stop_bridge-lookup :
    (ch k : ℕ) (m : Manager)
    → (ch == k) ≡ false
    → lookup k (stop_bridge ch m).0.active_bridges ≡ lookup k m.active_bridges
unfolding stop_bridge release release_bridge
stop_bridge-lookup ch k m ne = ground (arith, lookup-delete ch k m.active_bridges, ne)

pub stop_all-lookup :
    (cs : List ℕ) (k : ℕ) (m : Manager)
    → elem k cs ≡ false
    → lookup k (stop_all cs m).0.active_bridges ≡ lookup k m.active_bridges
unfolding stop_all elem
stop_all-lookup [] k m out = refl
stop_all-lookup (c ∷ cs) k m out =
    ground (arith, stop_all-lookup cs k (stop_bridge c m).0, stop_bridge-lookup c k m, out)

claim_slot-lookup :
    (ch i k : ℕ) (sub_ok : Bool) (m : Manager)
    → ch ≢ k
    → lookup k (finish_start ch sub_ok (claim_slot ch i m)).0.active_bridges
      ≡ lookup k m.active_bridges
unfolding claim_slot finish_start publish
claim_slot-lookup ch i k sub_ok m ne = ground (
  arith,
  lookup-insert_ne ch k (sentinel ch i) m.active_bridges ne,
  lookup-insert_ne ch k (full_bridge ch i (room_of ch m) (info_of ch m) sub_ok)
      (insert ch (sentinel ch i) m.active_bridges) ne,
)

pub start_bridge-lookup :
    (sub_ok : Bool) (ch k : ℕ) (m : Manager) (b : ChannelBridge)
    → lookup k m.active_bridges ≡ some b
    → lookup k (start_bridge sub_ok ch m).0.active_bridges ≡ some b
unfolding start_bridge claim
start_bridge-lookup sub_ok ch k m b found = elim (Bool-cases (has ch m.active_bridges)) [
  | inl old ↦ rw old (unfold finish_start in found)
  | inr new ↦
      let other : ch ≢ k = λ e. unfold has in ground arith in
      rw new (elim (Option-cases (first_free m.slots)) [
        | inl full ↦ rw full (unfold finish_start claim_free in found)
        | inr (i, idle) ↦
            rw idle (unfold claim_free in claim_slot-lookup ch i k sub_ok m other ∙ found)
      ])
]

pub slot_death-lookup :
    (i k : ℕ) (m : Manager)
    → elem k (channel_or_zero (bridge_on i m) ∷ []) ≡ false
    → lookup k (slot_death i m).0.active_bridges ≡ lookup k m.active_bridges
unfolding slot_death elem
slot_death-lookup i k m out = elim (Bool-cases (is_dead (slot_channel i m.slots))) [
  | inl twice ↦ rw twice
  | inr live ↦ rw live (stopped (channel_or_zero (bridge_on i m)) (ground (arith, out)))
]
  where
    marked : (ch : ℕ) → lookup k (mark_dead i ch m).active_bridges ≡ lookup k m.active_bridges
    marked ch = unfold mark_dead in refl

    stopped :
        (ch : ℕ)
        → (ch == k) ≡ false
        → lookup k
            (if ch == 0
              then (mark_dead i ch m, [])
              else stop_bridge ch (mark_dead i ch m)).0.active_bridges
          ≡ lookup k m.active_bridges
    stopped ch ne = elim (Bool-cases (ch == 0)) [
      | inl none_there ↦ rw none_there (marked ch)
      | inr there ↦ rw there (stop_bridge-lookup ch k (mark_dead i ch m) ne ∙ marked ch)
    ]

pub remove_bot-lookup :
    (i k : ℕ) (m : Manager)
    → elem k (channel_or_zero (bridge_on i m) ∷ []) ≡ false
    → lookup k (remove_bot i m).0.active_bridges ≡ lookup k m.active_bridges
unfolding remove_bot
remove_bot-lookup i k m out = removed (get_elem? m.slots i)
  where
    removed :
        (o : Option Slot)
        → lookup k (remove_slot i o m).0.active_bridges ≡ lookup k m.active_bridges
    removed none = unfold remove_slot in refl
    removed (some s) = unfold remove_slot in ground (arith, slot_death-lookup i k m out)

pub moved-lookup :
    (env : JoinEnv) (user : Bytes) (ch k : ℕ) (m : Manager)
    → elem k (leave_others user ch m.matrix_users).1 ≡ false
    → lookup k (moved env user ch m).active_bridges ≡ lookup k m.active_bridges
moved-lookup env user ch k m out = stop_all-lookup (leave_others user ch m.matrix_users).1 k _ out

enter-lookup :
    (env : JoinEnv) (user : Bytes) (ch k : ℕ) (m : Manager) (b : ChannelBridge)
    → lookup k m.active_bridges ≡ some b
    → lookup k (enter env user ch m).0.active_bridges ≡ some b
unfolding enter track_user
enter-lookup env user ch k m b found = elim (Bool-cases (has user (users_of ch m))) [
  | inl old ↦ rw old found
  | inr new ↦ rw new (
      start_bridge-lookup env.sub_ok ch k (track_user user (joined_name env user m) ch m) b
        (unfold track_user in found))
]

pub on_call_member-lookup :
    (env : JoinEnv) (room user : Bytes) (joined : Bool) (k : ℕ) (m : Manager) (b : ChannelBridge)
    → elem k (
        if has_prefix ghost_prefix user
        then []
        else join_stops (lookup room m.room_channels) user joined m)
      ≡ false
    → lookup k m.active_bridges ≡ some b
    → lookup k (on_call_member env room user joined m).0.active_bridges ≡ some b
unfolding on_call_member
on_call_member-lookup env room user joined k m b out found =
    elim (Bool-cases (has_prefix ghost_prefix user)) [
      | inl ghost ↦ rw ghost found
      | inr human ↦ rw human (at (lookup room m.room_channels) joined (ground (arith, out, human)))
    ]
  where
    at :
        (o : Option ℕ) (j : Bool)
        → elem k (join_stops o user j m) ≡ false
        → lookup k (on_channel o env user j m).0.active_bridges ≡ some b
    at none j apart = unfold on_channel in found
    at (some ch) true apart =
        unfold on_channel on_join in
        enter-lookup env user ch k (moved env user ch m) b
          (moved-lookup env user ch k m apart ∙ found)
    at (some ch) false apart = unfold on_channel on_leave untrack set_timer in ground (arith, found)

pub timer_fired-lookup :
    (ch k : ℕ) (m : Manager)
    → elem k (if is_empty (users_of ch m) then ch ∷ [] else []) ≡ false
    → lookup k (timer_fired ch m).0.active_bridges ≡ lookup k m.active_bridges
unfolding timer_fired elem
timer_fired-lookup ch k m out =
    ground
      (arith, stop_bridge-lookup ch k (record m { stop_timers = delete ch m.stop_timers }), out)
