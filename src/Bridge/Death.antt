-- ===== src/Bridge/Death.antt =====
-- Dead slots of pkg/bridge/manager.go.
use matrix_discord_voice_bri.Base.{
  ℕ, zero, suc, ◌≡◌, ◌≢◌, Bool, some, List, [], ◌∷◌, arith, if◌then◌else◌, Bool-cases, Option-cases,
  inl, inr,
}
use matrix_discord_voice_bri.Base.Eq.{◌==◌, nat_eq, bytes_eq}
use matrix_discord_voice_bri.Base.Assoc.{lookup, has, keys}
use matrix_discord_voice_bri.Bridge.State.{Manager, Slot, free, dead, room_of}
use matrix_discord_voice_bri.Bridge.Slots.{
  slot_channel, set_channel, release_slot, first_free, slot_channel-set_ne, slot_channel-set_self,
  first_free-channel, set_channel-set, set_channel_same,
}
use matrix_discord_voice_bri.Bridge.Start.{
  claim, claim_free, claim_slot, publish, finish_start, start_bridge,
}
use matrix_discord_voice_bri.Bridge.Stop.{
  stop_bridge, release, release_bridge, stop_all, slot_death, mark_dead, bridge_on, remove_bot,
  remove_slot, close, channel_or_zero, is_dead,
}

-- The slot at an index is dead.
abbrev pub IsDead : ℕ → Manager → Type 0
IsDead i m = slot_channel i m.slots ≡ some dead

pub set_live :
    (i j c d : ℕ) (ss : List Slot)
    → slot_channel i ss ≡ some dead
    → slot_channel j ss ≡ some d
    → d ≢ dead
    → slot_channel i (set_channel j c ss) ≡ some dead
set_live i j c d ss h k live = ground (arith, slot_channel-set_ne j i c ss)

set_dead :
    (i j : ℕ) (ss : List Slot)
    → slot_channel i ss ≡ some dead
    → slot_channel i (set_channel j dead ss) ≡ some dead
set_dead i j ss h =
    ground (arith, slot_channel-set_ne j i dead ss, slot_channel-set_self i dead ss h)

release_dead :
    (i j : ℕ) (ss : List Slot)
    → slot_channel i ss ≡ some dead
    → slot_channel i (release_slot j ss) ≡ some dead
unfolding slot_channel release_slot
release_dead i j [] h = h
release_dead zero zero (s ∷ ss) h = ground arith
release_dead zero (suc j) (s ∷ ss) h = h
release_dead (suc i) zero (s ∷ ss) h = h
release_dead (suc i) (suc j) (s ∷ ss) h = release_dead i j ss h

pub stop_bridge-IsDead : (i ch : ℕ) (m : Manager) → IsDead i m → IsDead i (stop_bridge ch m).0
unfolding stop_bridge release
stop_bridge-IsDead i ch m h = elim (Option-cases (lookup ch m.active_bridges)) [
  | inl absent ↦ rw absent (unfold release_bridge in h)
  | inr (b, found) ↦ rw found (unfold release_bridge in release_dead i b.slot_index m.slots h)
]

pub stop_all-IsDead :
    (i : ℕ) (chs : List ℕ) (m : Manager) → IsDead i m → IsDead i (stop_all chs m).0
unfolding stop_all
stop_all-IsDead i [] m h = h
stop_all-IsDead i (ch ∷ chs) m h =
    stop_all-IsDead i chs (stop_bridge ch m).0 (stop_bridge-IsDead i ch m h)

claim_slot-IsDead :
    (i j ch : ℕ) (sub_ok : Bool) (m : Manager)
    → slot_channel j m.slots ≡ some free
    → IsDead i m
    → IsDead i (finish_start ch sub_ok (claim_slot ch j m)).0
unfolding claim_slot finish_start publish
claim_slot-IsDead i j ch sub_ok m idle h =
    let taken = set_live i j ch free m.slots h idle (omega arith) in
    elim (Bool-cases (room_of ch m == [])) [
      | inl roomless ↦
          rw (roomless, set_channel-set j free ch m.slots, set_channel_same j m.slots idle) h
      | inr room ↦ rw room taken
    ]

pub start_bridge-IsDead :
    (i : ℕ) (sub_ok : Bool) (ch : ℕ) (m : Manager)
    → IsDead i m
    → IsDead i (start_bridge sub_ok ch m).0
unfolding start_bridge claim
start_bridge-IsDead i sub_ok ch m h = elim (Bool-cases (has ch m.active_bridges)) [
  | inl old ↦ rw old (unfold finish_start in h)
  | inr new ↦ rw new (elim (Option-cases (first_free m.slots)) [
    | inl full ↦ rw full (unfold finish_start claim_free in h)
    | inr (j, found) ↦ rw found (
        unfold claim_free in
        claim_slot-IsDead i j ch sub_ok m (first_free-channel m.slots j found) h)
  ])
]

pub slot_death-IsDead : (i j : ℕ) (m : Manager) → IsDead i m → IsDead i (slot_death j m).0
unfolding slot_death
slot_death-IsDead i j m h = elim (Bool-cases (is_dead (slot_channel j m.slots))) [
  | inl twice ↦ rw twice h
  | inr live ↦ rw live (marked (channel_or_zero (bridge_on j m)))
]
  where
    mark : (ch : ℕ) → IsDead i (mark_dead j ch m)
    mark ch = unfold mark_dead in set_dead i j m.slots h

    marked :
        (ch : ℕ)
        → IsDead i (if ch == 0 then (mark_dead j ch m, []) else stop_bridge ch (mark_dead j ch m)).0
    marked ch = elim (Bool-cases (ch == 0)) [
      | inl none_there ↦ rw none_there (mark ch)
      | inr there ↦ rw there (stop_bridge-IsDead i ch (mark_dead j ch m) (mark ch))
    ]

pub remove_bot-IsDead : (i j : ℕ) (m : Manager) → IsDead i m → IsDead i (remove_bot j m).0
unfolding remove_bot remove_slot
remove_bot-IsDead i j m h = ground (arith, slot_death-IsDead i j m h)

pub close-IsDead : (i : ℕ) (m : Manager) → IsDead i m → IsDead i (close m).0
unfolding close
close-IsDead i m h = stop_all-IsDead i (keys m.active_bridges) (record m { stop_timers = [] }) h

-- After `HandleSlotDeath` the slot is dead, if it exists.
pub slot_death-kills :
    (i : ℕ) (m : Manager) {c : ℕ} → slot_channel i m.slots ≡ some c → IsDead i (slot_death i m).0
unfolding slot_death
slot_death-kills i m exists = elim (Bool-cases (is_dead (slot_channel i m.slots))) [
  | inl twice ↦ rw twice (ground arith)
  | inr live ↦ rw live (marked (channel_or_zero (bridge_on i m)))
]
  where
    mark : (ch : ℕ) → IsDead i (mark_dead i ch m)
    mark ch = unfold mark_dead in slot_channel-set_self i dead m.slots exists

    marked :
        (ch : ℕ)
        → IsDead i (if ch == 0 then (mark_dead i ch m, []) else stop_bridge ch (mark_dead i ch m)).0
    marked ch = elim (Bool-cases (ch == 0)) [
      | inl none_there ↦ rw none_there (mark ch)
      | inr there ↦ rw there (stop_bridge-IsDead i ch (mark_dead i ch m) (mark ch))
    ]
