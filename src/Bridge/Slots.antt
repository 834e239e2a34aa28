-- ===== src/Bridge/Slots.antt =====
-- pkg/bridge/manager.go: reads and writes of `m.slots`, and the count of busy slots.
use matrix_discord_voice_bri.Base.{
  ℕ, zero, suc, ◌+◌, ◌≡◌, ◌≢◌, refl, ap, Bool, true, false, not, ◌&&◌, Option, none, some, List, [],
  ◌∷◌, arith, if◌then◌else◌, length,
}
use matrix_discord_voice_bri.Base.Eq.{◌==◌, nat_eq}
use matrix_discord_voice_bri.Bridge.State.{Slot, free, dead, IsChannel}

-- The channel of the slot at an index; `none` is out of range.
unfoldable pub slot_channel : ℕ → List Slot → Option ℕ
slot_channel i [] = none
slot_channel zero (s ∷ ss) = some s.channel_id
slot_channel (suc i) (s ∷ ss) = slot_channel i ss

-- `m.slots[i].channelID = c`; nothing is written out of range, where the callers never write.
unfoldable pub set_channel : ℕ → ℕ → List Slot → List Slot
set_channel i c [] = []
set_channel zero c (s ∷ ss) = record s { channel_id = c } ∷ ss
set_channel (suc i) c (s ∷ ss) = s ∷ set_channel i c ss

abbrev suc_some : Option ℕ → Option ℕ
suc_some none = none
suc_some (some i) = some (suc i)

-- The scan for a free slot in `startBridge`.
unfoldable pub first_free : List Slot → Option ℕ
first_free [] = none
first_free (s ∷ ss) = if s.channel_id == free then some 0 else suc_some (first_free ss)

-- Releasing a slot, which leaves a dead one dead.
unfoldable pub release_slot : ℕ → List Slot → List Slot
release_slot i [] = []
release_slot zero (s ∷ ss) =
    (if s.channel_id == dead then s else record s { channel_id = free }) ∷ ss
release_slot (suc i) (s ∷ ss) = s ∷ release_slot i ss

unfoldable pub is_busy : ℕ → Bool
is_busy c = not (c == free) && not (c == dead)

-- `busySlots` of `Stats`.
unfoldable pub busy_slots : List Slot → ℕ
busy_slots [] = 0
busy_slots (s ∷ ss) = (if is_busy s.channel_id then 1 else 0) + busy_slots ss

pub slot_channel-set_self :
    (i c : ℕ) (ss : List Slot) {d : ℕ}
    → slot_channel i ss ≡ some d
    → slot_channel i (set_channel i c ss) ≡ some c
unfolding slot_channel set_channel
slot_channel-set_self i c [] h = cc
slot_channel-set_self zero c (s ∷ ss) h = refl
slot_channel-set_self (suc i) c (s ∷ ss) h = slot_channel-set_self i c ss h

pub slot_channel-set_ne :
    (i j c : ℕ) (ss : List Slot) → i ≢ j → slot_channel j (set_channel i c ss) ≡ slot_channel j ss
unfolding slot_channel set_channel
slot_channel-set_ne i j c [] h = refl
slot_channel-set_ne zero zero c (s ∷ ss) h = absurd (h refl)
slot_channel-set_ne zero (suc j) c (s ∷ ss) h = refl
slot_channel-set_ne (suc i) zero c (s ∷ ss) h = refl
slot_channel-set_ne (suc i) (suc j) c (s ∷ ss) h = slot_channel-set_ne i j c ss (λ e. h (ap suc e))

pub length-set_channel : (i c : ℕ) (ss : List Slot) → length (set_channel i c ss) ≡ length ss
unfolding set_channel
length-set_channel i c [] = refl
length-set_channel zero c (s ∷ ss) = refl
length-set_channel (suc i) c (s ∷ ss) = ap suc (length-set_channel i c ss)

pub first_free-channel :
    (ss : List Slot) (i : ℕ) → first_free ss ≡ some i → slot_channel i ss ≡ some free
unfolding first_free slot_channel
first_free-channel [] i h = cc
first_free-channel (s ∷ ss) zero h = ground arith
first_free-channel (s ∷ ss) (suc i) h = ground (arith, first_free-channel ss i)

-- No slot is free when the scan finds none.
pub first_free-none :
    (ss : List Slot) (i : ℕ) → first_free ss ≡ none → slot_channel i ss ≢ some free
unfolding first_free slot_channel
first_free-none [] i h e = cc
first_free-none (s ∷ ss) zero h e = ground arith
first_free-none (s ∷ ss) (suc i) h e = ground (arith, first_free-none ss i)

-- Releasing a slot that is not dead frees it.
pub release_slot-live :
    (i c : ℕ) (ss : List Slot)
    → slot_channel i ss ≡ some c
    → c ≢ dead
    → release_slot i ss ≡ set_channel i free ss
unfolding release_slot set_channel slot_channel
release_slot-live i c [] h k = refl
release_slot-live zero c (s ∷ ss) h k = ground arith
release_slot-live (suc i) c (s ∷ ss) h k = ap (◌∷◌ s) (release_slot-live i c ss h k)

pub release_slot-dead :
    (i : ℕ) (ss : List Slot) → slot_channel i ss ≡ some dead → release_slot i ss ≡ ss
unfolding release_slot slot_channel
release_slot-dead i [] h = refl
release_slot-dead zero (s ∷ ss) h = ground arith
release_slot-dead (suc i) (s ∷ ss) h = ap (◌∷◌ s) (release_slot-dead i ss h)

-- What writing one slot does to the count.
pub busy_slots-set :
    (i c d : ℕ) (ss : List Slot)
    → slot_channel i ss ≡ some d
    → busy_slots (set_channel i c ss) + (if is_busy d then 1 else 0)
      ≡ busy_slots ss + (if is_busy c then 1 else 0)
unfolding busy_slots set_channel slot_channel
busy_slots-set i c d [] h = cc
busy_slots-set zero c d (s ∷ ss) h = ground arith
busy_slots-set (suc i) c d (s ∷ ss) h = omega (arith, busy_slots-set i c d ss h)

pub is_busy-IsChannel : (c : ℕ) → is_busy c ≡ true → IsChannel c
unfolding is_busy
is_busy-IsChannel c h = (ground arith, ground arith)

pub IsChannel-is_busy : (c : ℕ) → IsChannel c → is_busy c ≡ true
unfolding is_busy
IsChannel-is_busy c h = ground arith

pub set_channel-set :
    (i c d : ℕ) (ss : List Slot) → set_channel i c (set_channel i d ss) ≡ set_channel i c ss
unfolding set_channel
set_channel-set i c d [] = refl
set_channel-set zero c d (s ∷ ss) = refl
set_channel-set (suc i) c d (s ∷ ss) = ap (◌∷◌ s) (set_channel-set i c d ss)

-- Writing what stands there changes nothing.
pub set_channel_same :
    (i : ℕ) (ss : List Slot) {c : ℕ} → slot_channel i ss ≡ some c → set_channel i c ss ≡ ss
unfolding set_channel slot_channel
set_channel_same i [] h = refl
set_channel_same zero (s ∷ ss) h = ground arith
set_channel_same (suc i) (s ∷ ss) h = ap (◌∷◌ s) (set_channel_same i ss h)

pub set_channel_out :
    (i c : ℕ) (ss : List Slot) → slot_channel i ss ≡ none → set_channel i c ss ≡ ss
unfolding set_channel slot_channel
set_channel_out i c [] h = refl
set_channel_out zero c (s ∷ ss) h = cc
set_channel_out (suc i) c (s ∷ ss) h = ap (◌∷◌ s) (set_channel_out i c ss h)

pub is_busy-free : is_busy free ≡ false
unfolding is_busy
is_busy-free = refl

pub is_busy-dead : is_busy dead ≡ false
unfolding is_busy
is_busy-dead = refl
