-- ===== src/Bridge/Grow.antt =====
-- `AddBot` of pkg/bridge/manager.go appends a free slot, which changes no assignment.
use matrix_discord_voice_bri.Base.{
  ℕ, zero, suc, ◌≡◌, refl, ◌∙◌, Bool, true, false, some, List, [], ◌∷◌, ◌++◌, arith, inl, inr, ◌⊎◌,
}
use matrix_discord_voice_bri.Base.Eq.{Bytes, nat_eq}
use matrix_discord_voice_bri.Base.Assoc.{lookup}
use matrix_discord_voice_bri.Bridge.State.{Manager, ChannelBridge, Slot, IsChannel, free}
use matrix_discord_voice_bri.Bridge.Slots.{slot_channel, busy_slots, is_busy-free}
use matrix_discord_voice_bri.Bridge.Admin.{add_bot, add_slot}
use matrix_discord_voice_bri.Bridge.Invariant.{Assigned}
use matrix_discord_voice_bri.Bridge.Ready.{Ready, Ready-same}

pub slot_channel-append :
    (i : ℕ) (ss : List Slot) (s : Slot) {c : ℕ}
    → slot_channel i ss ≡ some c
    → slot_channel i (ss ++ s ∷ []) ≡ some c
unfolding slot_channel
slot_channel-append i [] s h = cc
slot_channel-append zero (x ∷ ss) s h = h
slot_channel-append (suc i) (x ∷ ss) s h = slot_channel-append i ss s h

slot_channel_back :
    (i : ℕ) (ss : List Slot) (s : Slot) {c : ℕ}
    → slot_channel i (ss ++ s ∷ []) ≡ some c
    → (slot_channel i ss ≡ some c) ⊎ (s.channel_id ≡ c)
unfolding slot_channel
slot_channel_back zero [] s h = inr (ground arith)
slot_channel_back (suc i) [] s h = absurd (ground arith)
slot_channel_back zero (x ∷ ss) s h = inl h
slot_channel_back (suc i) (x ∷ ss) s h = slot_channel_back i ss s h

busy_slots-append :
    (ss : List Slot) (s : Slot) → s.channel_id ≡ free → busy_slots (ss ++ s ∷ []) ≡ busy_slots ss
unfolding busy_slots
busy_slots-append [] s h = ground (arith, is_busy-free)
busy_slots-append (x ∷ ss) s h = omega (arith, busy_slots-append ss s h)

pub grow :
    (slots : List Slot) (active : List (ℕ × ChannelBridge)) (s : Slot)
    → Assigned slots active
    → s.channel_id ≡ free
    → Assigned (slots ++ s ∷ []) active
grow slots active s v idle = record {
  distinct = v.distinct;
  owned = λ ch b e.
      let o = v.owned ch b e in
      record {
        own_channel = o.own_channel;
        on_slot = slot_channel-append b.slot_index slots s o.on_slot;
        real = o.real;
      };
  served = served;
  counted = busy_slots-append slots s idle ∙ v.counted;
}
  where
    served :
        (i c : ℕ)
        → slot_channel i (slots ++ s ∷ []) ≡ some c
        → IsChannel c
        → (b : ChannelBridge) × (lookup c active ≡ some b) × (b.slot_index ≡ i)
    served i c e real = elim (slot_channel_back i slots s e) [
      | inl old ↦ v.served i c old real
      | inr new ↦ absurd (ground arith)
    ]

pub add_bot-Ready :
    (connected : Bool) (token : Bytes) (row : ℕ) (m : Manager)
    → Ready m
    → Ready (add_bot connected token row m).0
unfolding add_bot add_slot
add_bot-Ready false token row m r = r
add_bot-Ready true token row m r =
    Ready-same {m = m} r (grow m.slots m.active_bridges _ r.inv refl) refl refl
