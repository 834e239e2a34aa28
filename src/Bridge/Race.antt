-- ===== src/Bridge/Race.antt =====
-- pkg/bridge/manager.go: what other calls can do between the two sections of `startBridge` under
-- `m.mu`.
use matrix_discord_voice_bri.Base.{
  ℕ, ◌≡◌, ◌≢◌, refl, Bool, true, false, Option, none, some, arith, if◌then◌else◌,
}
use matrix_discord_voice_bri.Base.Eq.{Bytes, nat_eq, bytes_eq}
use matrix_discord_voice_bri.Base.Assoc.{lookup, has, lookup-insert_self}
use matrix_discord_voice_bri.Payload.VoiceState.{ChannelInfo}
use matrix_discord_voice_bri.Bridge.State.{Manager, free, dead}
use matrix_discord_voice_bri.Bridge.Slots.{
  first_free, slot_channel, first_free-channel, release_slot-live, slot_channel-set_self,
}
use matrix_discord_voice_bri.Bridge.Start.{
  claimed, already_bridged, claim, claim_free, claim_slot, publish, full_bridge, sentinel,
}
use matrix_discord_voice_bri.Bridge.Stop.{release, release_bridge}

claim_slot-Claimed :
    (ch i j : ℕ) (m m' : Manager) (room : Bytes) (info : ChannelInfo)
    → slot_channel i m.slots ≡ some free
    → claim_slot ch i m ≡ (m', claimed j room info)
    → (lookup ch m'.active_bridges ≡ some (sentinel ch j)) × (slot_channel j m'.slots ≡ some ch)
unfolding claim_slot
claim_slot-Claimed ch i j m m' room info free_i e = ground (
  arith,
  slot_channel-set_self i ch m.slots free_i,
  lookup-insert_self ch (sentinel ch i) m.active_bridges,
)

claim-Claimed :
    (ch j : ℕ) (m m' : Manager) (room : Bytes) (info : ChannelInfo)
    → claim ch m ≡ (m', claimed j room info)
    → (lookup ch m'.active_bridges ≡ some (sentinel ch j)) × (slot_channel j m'.slots ≡ some ch)
unfolding claim claim_free
claim-Claimed ch j m m' room info e = split (has ch m.active_bridges) e
  where
    go :
        (o : Option ℕ)
        → first_free m.slots ≡ o
        → claim_free ch o m ≡ (m', claimed j room info)
        → (lookup ch m'.active_bridges ≡ some (sentinel ch j)) × (slot_channel j m'.slots ≡ some ch)
    go none f x = absurd (ground arith)
    go (some i) f x = claim_slot-Claimed ch i j m m' room info (first_free-channel m.slots i f) x

    split :
        (b : Bool)
        → (if b then (m, already_bridged) else claim_free ch (first_free m.slots) m)
          ≡ (m', claimed j room info)
        → (lookup ch m'.active_bridges ≡ some (sentinel ch j)) × (slot_channel j m'.slots ≡ some ch)
    split true x = absurd (ground arith)
    split false x = go (first_free m.slots) refl x

release-sentinel :
    (ch j : ℕ) (m : Manager)
    → ch ≢ dead
    → lookup ch m.active_bridges ≡ some (sentinel ch j)
    → slot_channel j m.slots ≡ some ch
    → slot_channel j (release ch m).slots ≡ some free
unfolding release release_bridge
release-sentinel ch j m live b s =
    rw (b, release_slot-live j ch m.slots s live, slot_channel-set_self j free m.slots s)

-- If a channel, which is not the sentinel of dead slots, is stopped between the two sections of
-- `startBridge`, the first of which claimed a slot, then after the second one the channel has an
-- active bridge on a slot that counts as free.
pub stopped_start_leaks :
    (sub_ok : Bool) (ch j : ℕ) (m m' : Manager) (room : Bytes) (info : ChannelInfo)
    → ch ≢ dead
    → claim ch m ≡ (m', claimed j room info)
    → let n = publish ch j room info sub_ok (release ch m') in
      (lookup ch n.active_bridges ≡ some (full_bridge ch j room info sub_ok))
      × (slot_channel j n.slots ≡ some free)
unfolding publish
stopped_start_leaks sub_ok ch j m m' room info live e =
    let c = claim-Claimed ch j m m' room info e in
    (
      lookup-insert_self ch (full_bridge ch j room info sub_ok) (release ch m').active_bridges,
      release-sentinel ch j m' live c.0 c.1,
    )
