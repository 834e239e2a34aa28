-- ===== src/Bridge/Invariant.antt =====
-- What holds between two operations of the manager: slots and active bridges describe one assignment
-- of channels to slots.
use native.Mathlib.Decide.{ℕ_discrete}
use matrix_discord_voice_bri.Base.{ℕ, ◌≡◌, sym, ◌∙◌, true, false, none, some, List, arith, length}
use matrix_discord_voice_bri.Base.Eq.{nat_eq}
use matrix_discord_voice_bri.Base.Assoc.{
  lookup, insert, delete, has, Distinct, lookup-insert, lookup-delete, Distinct-insert,
  Distinct-delete, length-insert_new, length-insert_old, length-delete_some,
}
use matrix_discord_voice_bri.Bridge.State.{Manager, ChannelBridge, Slot, IsChannel, free}
use matrix_discord_voice_bri.Bridge.Slots.{
  slot_channel, set_channel, is_busy, busy_slots, slot_channel-set_self, slot_channel-set_ne,
  busy_slots-set, IsChannel-is_busy, is_busy-free,
}

-- The bridge of a channel stands on a slot that is set to that channel.
pub record Owns (slots : List Slot) (ch : ℕ) (b : ChannelBridge) : Type 0 where
  pub own_channel : b.channel_id ≡ ch
  pub on_slot : slot_channel b.slot_index slots ≡ some ch
  pub real : IsChannel ch

-- The assignment of channels to slots, over the two fields that hold it.
pub record Assigned (slots : List Slot) (active : List (ℕ × ChannelBridge)) : Type 0 where
  pub distinct : Distinct active
  pub owned : (ch : ℕ) (b : ChannelBridge) → lookup ch active ≡ some b → Owns slots ch b
  pub served :
      (i c : ℕ)
      → slot_channel i slots ≡ some c
      → IsChannel c
      → (b : ChannelBridge) × (lookup c active ≡ some b) × (b.slot_index ≡ i)
  pub counted : busy_slots slots ≡ length active

abbrev pub Inv : Manager → Type 0
Inv m = Assigned m.slots m.active_bridges

has-lookup :
    (ch : ℕ) (a : List (ℕ × ChannelBridge)) (b : ChannelBridge)
    → lookup ch a ≡ some b
    → has ch a ≡ true
unfolding has
has-lookup ch a b h = rw h

no_lookup : (ch : ℕ) (a : List (ℕ × ChannelBridge)) → has ch a ≡ false → lookup ch a ≡ none
unfolding has
no_lookup ch a h = ground arith

-- Putting a channel that has no bridge on a free slot.
pub assign :
    (slots : List Slot) (active : List (ℕ × ChannelBridge)) (ch i : ℕ) (b : ChannelBridge)
    → Assigned slots active
    → IsChannel ch
    → has ch active ≡ false
    → slot_channel i slots ≡ some free
    → b.channel_id ≡ ch
    → b.slot_index ≡ i
    → Assigned (set_channel i ch slots) (insert ch b active)
assign slots active ch i b v real new idle own at = record {
  distinct = Distinct-insert ch b active v.distinct;
  owned = owned;
  served = served;
  counted = ground (
    arith,
    length-insert_new ch b active new,
    IsChannel-is_busy ch real,
    is_busy-free,
    busy_slots-set i ch free slots idle,
  );
}
  where
    owned :
        (c : ℕ) (x : ChannelBridge)
        → lookup c (insert ch b active) ≡ some x
        → Owns (set_channel i ch slots) c x
    owned c x e = ground (
      arith,
      lookup-insert ch c b active,
      slot_channel-set_self i ch slots idle,
      slot_channel-set_ne i x.slot_index ch slots,
      v.owned c x,
    )

    served :
        (j c : ℕ)
        → slot_channel j (set_channel i ch slots) ≡ some c
        → IsChannel c
        → (x : ChannelBridge) × (lookup c (insert ch b active) ≡ some x) × (x.slot_index ≡ j)
    served j c e r = elim (ℕ_discrete i j) [
      | yes here ↦
          let same : ch ≡ c = ground (arith, slot_channel-set_self i ch slots idle) in
          (b, ground (arith, lookup-insert ch c b active), ground arith)
      | no elsewhere ↦
          let old : slot_channel j slots ≡ some c =
            sym (slot_channel-set_ne i j ch slots elsewhere) ∙ e in
          let (x, found, on) = v.served j c old r in
          (x, ground (arith, lookup-insert ch c b active, no_lookup ch active new), on)
    ]

-- Taking a bridge away, and leaving its slot free or dead.
pub unassign :
    (slots : List Slot) (active : List (ℕ × ChannelBridge)) (ch c : ℕ) (b : ChannelBridge)
    → Assigned slots active
    → lookup ch active ≡ some b
    → is_busy c ≡ false
    → Assigned (set_channel b.slot_index c slots) (delete ch active)
unassign slots active ch c b v found idle = record {
  distinct = Distinct-delete ch active v.distinct;
  owned = owned;
  served = served;
  counted = ground (
    arith,
    length-delete_some ch active v.distinct (has-lookup ch active b found),
    IsChannel-is_busy ch (v.owned ch b found).real,
    busy_slots-set b.slot_index c ch slots (v.owned ch b found).on_slot,
  );
}
  where
    owned :
        (k : ℕ) (x : ChannelBridge)
        → lookup k (delete ch active) ≡ some x
        → Owns (set_channel b.slot_index c slots) k x
    owned k x e = ground (
      arith,
      lookup-delete ch k active,
      slot_channel-set_ne b.slot_index x.slot_index c slots,
      v.owned k x,
      v.owned ch b found,
    )

    served :
        (j k : ℕ)
        → slot_channel j (set_channel b.slot_index c slots) ≡ some k
        → IsChannel k
        → (x : ChannelBridge) × (lookup k (delete ch active) ≡ some x) × (x.slot_index ≡ j)
    served j k e r = elim (ℕ_discrete b.slot_index j) [
      | yes here ↦ absurd (
          ground (
            arith,
            slot_channel-set_self b.slot_index c slots (v.owned ch b found).on_slot,
            IsChannel-is_busy k r,
          ))
      | no elsewhere ↦
          let old : slot_channel j slots ≡ some k =
            sym (slot_channel-set_ne b.slot_index j c slots elsewhere) ∙ e in
          let (x, there, on) = v.served j k old r in
          (x, ground (arith, lookup-delete ch k active), on)
    ]

-- Marking a slot that serves no channel.
pub retire :
    (slots : List Slot) (active : List (ℕ × ChannelBridge)) (i c d : ℕ)
    → Assigned slots active
    → slot_channel i slots ≡ some d
    → is_busy d ≡ false
    → is_busy c ≡ false
    → Assigned (set_channel i c slots) active
retire slots active i c d v was idle_d idle_c = record {
  distinct = v.distinct;
  owned = owned;
  served = served;
  counted = ground (arith, v.counted, busy_slots-set i c d slots was);
}
  where
    owned :
        (k : ℕ) (x : ChannelBridge) → lookup k active ≡ some x → Owns (set_channel i c slots) k x
    owned k x e =
        let o = v.owned k x e in
        ground (arith, o, slot_channel-set_ne i x.slot_index c slots, IsChannel-is_busy k o.real)

    served :
        (j k : ℕ)
        → slot_channel j (set_channel i c slots) ≡ some k
        → IsChannel k
        → (x : ChannelBridge) × (lookup k active ≡ some x) × (x.slot_index ≡ j)
    served j k e r = elim (ℕ_discrete i j) [
      | yes here ↦
          absurd (ground (arith, slot_channel-set_self i c slots was, IsChannel-is_busy k r))
      | no elsewhere ↦ v.served j k (sym (slot_channel-set_ne i j c slots elsewhere) ∙ e) r
    ]

-- Putting another bridge of the same channel on the same slot in the place of one.
pub replace :
    (slots : List Slot) (active : List (ℕ × ChannelBridge)) (ch : ℕ) (b b' : ChannelBridge)
    → Assigned slots active
    → lookup ch active ≡ some b
    → b'.channel_id ≡ ch
    → b'.slot_index ≡ b.slot_index
    → Assigned slots (insert ch b' active)
replace slots active ch b b' v found own at = record {
  distinct = Distinct-insert ch b' active v.distinct;
  owned = owned;
  served = served;
  counted = v.counted ∙ sym (length-insert_old ch b' active (has-lookup ch active b found));
}
  where
    owned : (k : ℕ) (x : ChannelBridge) → lookup k (insert ch b' active) ≡ some x → Owns slots k x
    owned k x e = ground (arith, lookup-insert ch k b' active, v.owned k x, v.owned ch b found)

    served :
        (j k : ℕ)
        → slot_channel j slots ≡ some k
        → IsChannel k
        → (x : ChannelBridge) × (lookup k (insert ch b' active) ≡ some x) × (x.slot_index ≡ j)
    served j k e r =
        let (x, there, on) = v.served j k e r in
        elim (ℕ_discrete ch k) [
          | yes same ↦ (b', ground (arith, lookup-insert ch k b' active), ground arith)
          | no other ↦ (x, ground (arith, lookup-insert ch k b' active), on)
        ]
