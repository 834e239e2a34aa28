-- ===== src/Bridge/Frame.antt =====
-- What the operations of pkg/bridge/manager.go on slots and bridges leave alone.
use matrix_discord_voice_bri.Base.{ℕ, ◌≡◌, refl, Bool, List, [], ◌∷◌, arith}
use matrix_discord_voice_bri.Base.Eq.{nat_eq}
use matrix_discord_voice_bri.Bridge.State.{Manager}
use matrix_discord_voice_bri.Bridge.Start.{
  claim, claim_free, claim_slot, publish, finish_start, start_bridge,
}
use matrix_discord_voice_bri.Bridge.Stop.{
  release, release_bridge, stop_bridge, stop_all, slot_death, mark_dead, bridge_on, channel_or_zero,
  remove_bot, remove_slot,
}

-- The maps of rooms, of channel metadata and of Matrix users are as before.
pub record SameMaps (m m' : Manager) : Type 0 where
  pub same_rooms : m'.room_channels ≡ m.room_channels
  pub same_infos : m'.channel_infos ≡ m.channel_infos
  pub same_users : m'.matrix_users ≡ m.matrix_users

pub start_bridge-SameMaps :
    (sub_ok : Bool) (ch : ℕ) (m : Manager) → SameMaps m (start_bridge sub_ok ch m).0
unfolding start_bridge claim claim_free claim_slot finish_start publish
start_bridge-SameMaps sub_ok ch m = ground arith

pub stop_bridge-SameMaps : (ch : ℕ) (m : Manager) → SameMaps m (stop_bridge ch m).0
unfolding stop_bridge release release_bridge
stop_bridge-SameMaps ch m = ground arith

pub stop_all-SameMaps : (chs : List ℕ) (m : Manager) → SameMaps m (stop_all chs m).0
unfolding stop_all
stop_all-SameMaps [] m = record { same_rooms = refl; same_infos = refl; same_users = refl }
stop_all-SameMaps (ch ∷ chs) m =
    ground (arith, stop_bridge-SameMaps ch m, stop_all-SameMaps chs (stop_bridge ch m).0)

pub slot_death-SameMaps : (i : ℕ) (m : Manager) → SameMaps m (slot_death i m).0
unfolding slot_death mark_dead
slot_death-SameMaps i m = ground (
  arith,
  stop_bridge-SameMaps (channel_or_zero (bridge_on i m))
      (mark_dead i (channel_or_zero (bridge_on i m)) m),
)

pub remove_bot-SameMaps : (i : ℕ) (m : Manager) → SameMaps m (remove_bot i m).0
unfolding remove_bot remove_slot
remove_bot-SameMaps i m = ground (arith, slot_death-SameMaps i m)
