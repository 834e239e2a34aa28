-- ===== src/Bridge/Cycle.antt =====
-- `startBridge` and `stopBridgeForChannel` of pkg/bridge/manager.go, one after the other.
use matrix_discord_voice_bri.Base.{
  ℕ, ◌≡◌, ◌≢◌, ◌⊎◌, refl, Bool, true, false, none, some, [], ◌∷◌, arith, Bool-cases, Option-cases,
  inl, inr,
}
use matrix_discord_voice_bri.Base.Eq.{◌==◌, nat_eq, bytes_eq, bytes_beq_iff}
use matrix_discord_voice_bri.Base.Assoc.{
  insert, has, delete-insert, insert-insert, lookup-insert_self,
}
use matrix_discord_voice_bri.Bridge.State.{
  Manager, ChannelBridge, send, open_livekit, room_of, info_of, free, dead,
}
use matrix_discord_voice_bri.Bridge.Slots.{
  set_channel, first_free, first_free-channel, set_channel-set, set_channel_same, release_slot-live,
  slot_channel-set_self,
}
use matrix_discord_voice_bri.Bridge.Start.{
  claim, claim_free, claim_slot, publish, finish_start, start_bridge, full_bridge, join_message,
  sentinel,
}
use matrix_discord_voice_bri.Bridge.Stop.{stop_bridge, release, release_bridge}

-- `startBridge` changes nothing and asks for nothing if the channel is bridged already, if no slot
-- is free, or if the channel has no Matrix room.
pub start_bridge_refused :
    (sub_ok : Bool) (ch : ℕ) (m : Manager)
    → (has ch m.active_bridges ≡ true) ⊎ ((first_free m.slots ≡ none) ⊎ (room_of ch m ≡ []))
    → start_bridge sub_ok ch m ≡ (m, [])
unfolding start_bridge claim claim_free claim_slot finish_start
start_bridge_refused sub_ok ch m why = elim (Bool-cases (has ch m.active_bridges)) [
  | inl old ↦ rw old
  | inr new ↦ rw new (elim (Option-cases (first_free m.slots)) [
    | inl full ↦ rw full
    | inr (i, found) ↦
        let roomless : (room_of ch m == []) ≡ true = ground (arith, why) in
        rw (
          found,
          roomless,
          set_channel-set i free ch m.slots,
          set_channel_same i m.slots (first_free-channel m.slots i found),
        )
  ])
]

-- For a channel that has no bridge and has a room, with a free slot at hand, `startBridge` takes
-- the first free slot, sends that slot's sidecar JOIN_CHANNEL with the channel, opens LiveKit for
-- the channel's room, and records the bridge.
pub start_bridge_starts :
    (sub_ok : Bool) (ch i : ℕ) (m : Manager)
    → has ch m.active_bridges ≡ false
    → first_free m.slots ≡ some i
    → room_of ch m ≢ []
    → start_bridge sub_ok ch m ≡ (
      record m {
        slots = set_channel i ch m.slots;
        active_bridges =
            insert ch (full_bridge ch i (room_of ch m) (info_of ch m) sub_ok) m.active_bridges;
      },
      send i (join_message ch) ∷ open_livekit (room_of ch m) ∷ [],
    )
unfolding start_bridge claim claim_free claim_slot finish_start publish
start_bridge_starts sub_ok ch i m new found room =
    let roomy : (room_of ch m == []) ≡ false = ground (arith, room) in
    rw (
      new,
      found,
      roomy,
      insert-insert ch (sentinel ch i) (full_bridge ch i (room_of ch m) (info_of ch m) sub_ok)
          m.active_bridges,
    )

stop_absent : (ch : ℕ) (m : Manager) → has ch m.active_bridges ≡ false → (stop_bridge ch m).0 ≡ m
unfolding stop_bridge release release_bridge has
stop_absent ch m h = ground arith

stop_started :
    (ch i : ℕ) (m : Manager) (b : ChannelBridge)
    → has ch m.active_bridges ≡ false
    → ch ≢ dead
    → first_free m.slots ≡ some i
    → b.slot_index ≡ i
    → (stop_bridge ch (record m {
      slots = set_channel i ch m.slots;
      active_bridges = insert ch b m.active_bridges;
    })).0
      ≡ m
unfolding stop_bridge release release_bridge
stop_started ch i m b new live found at =
    let idle = first_free-channel m.slots i found in
    rw (
      lookup-insert_self ch b m.active_bridges,
      delete-insert ch b m.active_bridges new,
      at,
      release_slot-live i ch (set_channel i ch m.slots) (slot_channel-set_self i ch m.slots idle)
          live,
      set_channel-set i free ch m.slots,
      set_channel_same i m.slots idle,
    )

-- Stopping a bridge right after starting it, for a channel that had none and is not the sentinel
-- of dead slots, gives back the manager as it was, whether or not the start found a slot and a
-- room.
pub stop_bridge-start_bridge :
    (sub_ok : Bool) (ch : ℕ) (m : Manager)
    → has ch m.active_bridges ≡ false
    → ch ≢ dead
    → (stop_bridge ch (start_bridge sub_ok ch m).0).0 ≡ m
stop_bridge-start_bridge sub_ok ch m new live = elim (Option-cases (first_free m.slots)) [
  | inl full ↦ rw (start_bridge_refused sub_ok ch m (inr (inl full))) (stop_absent ch m new)
  | inr (i, found) ↦ elim (Bool-cases (room_of ch m == [])) [
    | inl roomless ↦
        rw
          (start_bridge_refused sub_ok ch m
            (inr (inr (ground (arith, bytes_beq_iff (room_of ch m) [])))))
          (stop_absent ch m new)
    | inr roomy ↦
        rw
          (start_bridge_starts sub_ok ch i m new found
            (ground (arith, bytes_beq_iff (room_of ch m) [])))
          (stop_started ch i m (full_bridge ch i (room_of ch m) (info_of ch m) sub_ok) new live
            found refl)
  ]
]
