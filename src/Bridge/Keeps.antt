-- ===== src/Bridge/Keeps.antt =====
-- `startBridge`, `stopBridgeForChannel`, `HandleSlotDeath`, `RemoveBot` and `Close` of
-- pkg/bridge/manager.go keep the assignment of channels to slots in order.
use matrix_discord_voice_bri.Base.{
  ℕ, ◌≡◌, refl, Bool, false, none, some, List, [], ◌∷◌, arith, Option-cases, Bool-cases, inl, inr,
  nat_beq_iff, get_elem?,
}
use matrix_discord_voice_bri.Base.Eq.{◌==◌, nat_eq, bytes_eq}
use matrix_discord_voice_bri.Base.Assoc.{
  lookup, insert, has, lookup-insert_self, find_value-some, find_value-none, keys,
}
use matrix_discord_voice_bri.Bridge.State.{
  Manager, ChannelBridge, Slot, IsChannel, free, dead, room_of, info_of,
}
use matrix_discord_voice_bri.Bridge.Slots.{
  slot_channel, set_channel, first_free, is_busy, first_free-channel, release_slot-live,
  release_slot-dead, slot_channel-set_self, set_channel-set, is_busy-IsChannel, is_busy-free,
  is_busy-dead, set_channel_same, set_channel_out,
}
use matrix_discord_voice_bri.Bridge.Start.{
  claim, claim_free, claim_slot, publish, finish_start, start_bridge, sentinel, full_bridge,
}
use matrix_discord_voice_bri.Bridge.Stop.{
  release, release_bridge, stop_bridge, stop_all, bridge_on, mark_dead, slot_death, remove_bot,
  remove_slot, close, is_dead,
}
use matrix_discord_voice_bri.Bridge.Invariant.{Inv, Assigned, assign, unassign, retire, replace}

claim_slot-keeps :
    (sub_ok : Bool) (ch i : ℕ) (m : Manager)
    → Inv m
    → IsChannel ch
    → has ch m.active_bridges ≡ false
    → slot_channel i m.slots ≡ some free
    → Inv (finish_start ch sub_ok (claim_slot ch i m)).0
unfolding claim_slot finish_start publish
claim_slot-keeps sub_ok ch i m v real new idle = elim (Bool-cases (room_of ch m == [])) [
  | inl roomless ↦
      rw (roomless, set_channel-set i free ch m.slots, set_channel_same i m.slots idle) v
  | inr room ↦ rw room (
      replace (set_channel i ch m.slots) (insert ch (sentinel ch i) m.active_bridges) ch
        (sentinel ch i) (full_bridge ch i (room_of ch m) (info_of ch m) sub_ok)
        (assign m.slots m.active_bridges ch i (sentinel ch i) v real new idle refl refl)
        (lookup-insert_self ch (sentinel ch i) m.active_bridges) refl refl)
]

pub start_bridge-keeps :
    (sub_ok : Bool) (ch : ℕ) (m : Manager) → Inv m → IsChannel ch → Inv (start_bridge sub_ok ch m).0
unfolding start_bridge claim
start_bridge-keeps sub_ok ch m v real = elim (Bool-cases (has ch m.active_bridges)) [
  | inl old ↦ rw old (unfold finish_start in v)
  | inr new ↦ rw new (elim (Option-cases (first_free m.slots)) [
    | inl full ↦ rw full (unfold finish_start claim_free in v)
    | inr (i, found) ↦ rw found (
        unfold claim_free in
        claim_slot-keeps sub_ok ch i m v real new (first_free-channel m.slots i found))
  ])
]

pub stop_bridge-keeps : (ch : ℕ) (m : Manager) → Inv m → Inv (stop_bridge ch m).0
unfolding stop_bridge release release_bridge
stop_bridge-keeps ch m v = elim (Option-cases (lookup ch m.active_bridges)) [
  | inl none_there ↦ rw none_there v
  | inr (b, found) ↦
      let o = v.owned ch b found in
      rw (found, release_slot-live b.slot_index ch m.slots o.on_slot o.real.1)
        (unassign m.slots m.active_bridges ch free b v found is_busy-free)
]

pub stop_all-keeps : (chs : List ℕ) (m : Manager) → Inv m → Inv (stop_all chs m).0
unfolding stop_all
stop_all-keeps [] m v = v
stop_all-keeps (ch ∷ chs) m v = stop_all-keeps chs (stop_bridge ch m).0 (stop_bridge-keeps ch m v)

pub close-keeps : (m : Manager) → Inv m → Inv (close m).0
unfolding close
close-keeps m v = stop_all-keeps (keys m.active_bridges) (record m { stop_timers = [] }) v

no_bridge_on :
    (i d : ℕ) (m : Manager)
    → Inv m
    → bridge_on i m ≡ none
    → slot_channel i m.slots ≡ some d
    → is_busy d ≡ false
unfolding bridge_on
no_bridge_on i d m v unused at = elim (Bool-cases (is_busy d)) [
  | inl busy ↦
      let (b, found, on) = v.served i d at (is_busy-IsChannel d busy) in
      ground (
        arith,
        on,
        found,
        find_value-none (λ x. x.slot_index == i) m.active_bridges d b unused found,
      )
  | inr idle ↦ idle
]

mark_unused :
    (i : ℕ) (m : Manager)
    → Inv m
    → bridge_on i m ≡ none
    → Assigned (set_channel i dead m.slots) m.active_bridges
mark_unused i m v unused = elim (Option-cases (slot_channel i m.slots)) [
  | inl out ↦ rw (set_channel_out i dead m.slots out) v
  | inr (d, at) ↦
      retire m.slots m.active_bridges i dead d v at (no_bridge_on i d m v unused at) is_busy-dead
]

stop_marked :
    (i ch : ℕ) (b : ChannelBridge) (m : Manager)
    → Inv m
    → lookup ch m.active_bridges ≡ some b
    → b.slot_index ≡ i
    → Inv (stop_bridge ch (mark_dead i ch m)).0
unfolding stop_bridge release release_bridge mark_dead
stop_marked i ch b m v found at =
    let o = v.owned ch b found in
    rw
      (
        found,
        ← at,
        release_slot-dead b.slot_index (set_channel b.slot_index dead m.slots)
            (slot_channel-set_self b.slot_index dead m.slots o.on_slot),
      )
      (unassign m.slots m.active_bridges ch dead b v found is_busy-dead)

pub slot_death-keeps : (i : ℕ) (m : Manager) → Inv m → Inv (slot_death i m).0
unfolding slot_death
slot_death-keeps i m v = elim (Bool-cases (is_dead (slot_channel i m.slots))) [
  | inl twice ↦ rw twice v
  | inr live ↦ rw live (elim (Option-cases (bridge_on i m)) [
    | inl unused ↦ rw unused (unfold mark_dead in mark_unused i m v unused)
    | inr ((ch, b), used) ↦
        let (found, on) =
          find_value-some (λ x. x.slot_index == i) m.active_bridges ch b v.distinct
            (unfold bridge_on in used) in
        let nonzero : (ch == 0) ≡ false = ground (arith, (v.owned ch b found).real) in
        rw (used, nonzero) (stop_marked i ch b m v found ((nat_beq_iff b.slot_index i).0 on))
  ])
]

remove_slot-keeps : (i : ℕ) (s : Slot) (m : Manager) → Inv m → Inv (remove_slot i (some s) m).0
unfolding remove_slot
remove_slot-keeps i s m v = elim (Bool-cases (s.channel_id == dead)) [
  | inl twice ↦ rw twice v
  | inr live ↦ rw live (slot_death-keeps i m v)
]

pub remove_bot-keeps : (i : ℕ) (m : Manager) → Inv m → Inv (remove_bot i m).0
unfolding remove_bot
remove_bot-keeps i m v = elim (Option-cases (get_elem? m.slots i)) [
  | inl none_there ↦ rw none_there (unfold remove_slot in v)
  | inr (s, there) ↦ rw there (remove_slot-keeps i s m v)
]
