-- ===== src/Bridge/Orderly.antt =====
-- pkg/bridge/manager.go: what holds while calls of `startBridge` are in flight, and the two sections
-- of it.
use matrix_discord_voice_bri.Base.{
  ℕ, ◌≡◌, ◌≢◌, refl, sym, ◌∙◌, Bool, false, some, List, [], ◌∷◌, arith, All, Bool-cases,
  Option-cases, inl, inr, All-map,
}
use matrix_discord_voice_bri.Base.Eq.{◌==◌, nat_eq, bytes_eq}
use matrix_discord_voice_bri.Base.Assoc.{insert, has, lookup-insert_self, lookup-insert_ne}
use matrix_discord_voice_bri.Bridge.State.{
  Manager, ChannelBridge, IsChannel, free, room_of, info_of,
}
use matrix_discord_voice_bri.Bridge.Slots.{
  first_free, first_free-channel, slot_channel, set_channel, set_channel-set, set_channel_same,
}
use matrix_discord_voice_bri.Bridge.Start.{
  claim, claim_free, claim_slot, publish, sentinel, full_bridge,
}
use matrix_discord_voice_bri.Bridge.Invariant.{assign, replace}
use matrix_discord_voice_bri.Bridge.Ready.{Ready, Ready-same}
use matrix_discord_voice_bri.Bridge.InFlight.{
  Flight, Traffic, take_off, land_on, Takes, here, there,
}
use matrix_discord_voice_bri.Bridge.Undisturbed.{OnSlot, OnSlot-same}

-- The channel of a start in flight has its sentinel on the slot that the start claimed.
abbrev pub Holds : List (ℕ × ChannelBridge) → Flight → Type 0
Holds active f = OnSlot f.channel f.index active

-- No two starts in flight share a channel or a slot.
abbrev pub Apart : List Flight → Type 0
Apart [] = Unit {0}
Apart (f ∷ fs) = All (λ g. (g.channel ≢ f.channel) × (g.index ≢ f.index)) fs × Apart fs

pub record Orderly (w : Traffic) : Type 0 where
  pub ready : Ready w.mem
  pub held : All (Holds w.mem.active_bridges) w.flights
  pub apart : Apart w.flights

-- One more start, for a channel without a bridge, on a free slot.
module _ (ch i : ℕ) (m : Manager) (r : Ready m) (real : IsChannel ch)
    (new : has ch m.active_bridges ≡ false) (idle : slot_channel i m.slots ≡ some free) where
  still_held :
      (f : Flight) → Holds m.active_bridges f → Holds (insert ch (sentinel ch i) m.active_bridges) f
  still_held f (b, found, on) = (
    b,
    lookup-insert_ne ch f.channel (sentinel ch i) m.active_bridges (λ e. unfold has in ground arith)
        ∙ found,
    on,
  )

  other_start : (f : Flight) → Holds m.active_bridges f → (f.channel ≢ ch) × (f.index ≢ i)
  other_start f (b, found, on) =
      (λ e. unfold has in ground arith, λ e. ground (arith, r.inv.owned f.channel b found))

  abbrev claimed_mem : Manager
  claimed_mem = record m {
    slots = set_channel i ch m.slots;
    active_bridges = insert ch (sentinel ch i) m.active_bridges;
  }

  claimed-Orderly :
      (fs : List Flight)
      → All (Holds m.active_bridges) fs
      → Apart fs
      → Orderly (record {
        mem = claimed_mem;
        flights = record { channel = ch; index = i; room = room_of ch m; info = info_of ch m } ∷ fs;
      })
  claimed-Orderly fs held apart = record {
    ready =
        Ready-same {m = m} r
          (assign m.slots m.active_bridges ch i (sentinel ch i) r.inv real new idle refl refl) refl
          refl;
    held = (
      (sentinel ch i, lookup-insert_self ch (sentinel ch i) m.active_bridges, refl),
      All-map still_held fs held,
    );
    apart = (All-map other_start fs held, apart);
  }

claim_slot-Orderly :
    (ch i : ℕ) (m : Manager) (fs : List Flight)
    → Orderly (record { mem = m; flights = fs })
    → IsChannel ch
    → has ch m.active_bridges ≡ false
    → slot_channel i m.slots ≡ some free
    → Orderly (take_off ch fs (claim_slot ch i m))
unfolding claim_slot
claim_slot-Orderly ch i m fs o real new idle = elim (Bool-cases (room_of ch m == [])) [
  | inl roomless ↦
      rw (roomless, set_channel-set i free ch m.slots, set_channel_same i m.slots idle)
        (unfold take_off in o)
  | inr room ↦
      rw room (unfold take_off in claimed-Orderly ch i m o.ready real new idle fs o.held o.apart)
]

pub begin-Orderly :
    (ch : ℕ) (w : Traffic)
    → Orderly w
    → IsChannel ch
    → Orderly (take_off ch w.flights (claim ch w.mem))
unfolding claim
begin-Orderly ch w o real = elim (Bool-cases (has ch w.mem.active_bridges)) [
  | inl old ↦ rw old (unfold take_off in o)
  | inr new ↦ rw new (elim (Option-cases (first_free w.mem.slots)) [
    | inl full ↦ rw full (unfold claim_free take_off in o)
    | inr (i, found) ↦ rw found (
        unfold claim_free in
        claim_slot-Orderly ch i w.mem w.flights o real new (first_free-channel w.mem.slots i found))
  ])
]

pub Takes-member :
    (P : Flight → Type 0) (f : Flight) {fs gs : List Flight} → Takes f fs gs → All P fs → P f
Takes-member P f here h = h.0
Takes-member P f (there t) h = Takes-member P f t h.1

Takes-rest :
    (P : Flight → Type 0) (f : Flight) {fs gs : List Flight} → Takes f fs gs → All P fs → All P gs
Takes-rest P f here h = h.1
Takes-rest P f (there t) h = (h.0, Takes-rest P f t h.1)

-- The flights that stay are of other channels than the one that lands.
Takes-Apart :
    (f : Flight) {fs gs : List Flight}
    → Takes f fs gs
    → Apart fs
    → Apart gs × All (λ g. g.channel ≢ f.channel) gs
Takes-Apart f {fs} {gs} here a = (a.1, All-map (λ g d. d.0) gs a.0)
Takes-Apart f (there t) a =
    let (rest, others) = Takes-Apart f t a.1 in
    ((Takes-rest _ f t a.0, rest), ((λ e. (Takes-member _ f t a.0).0 (sym e)), others))

pub finish-Orderly :
    (sub_ok : Bool) (f : Flight) (w : Traffic) {fs : List Flight}
    → Orderly w
    → Takes f w.flights fs
    → Orderly (record { mem = land_on sub_ok f w.mem; flights = fs })
unfolding publish
finish-Orderly sub_ok f w {fs} o t =
    let (b, found, on) = Takes-member (Holds w.mem.active_bridges) f t o.held in
    let (rest, others) = Takes-Apart f t o.apart in
    let full = full_bridge f.channel f.index f.room f.info sub_ok in
    record {
      ready =
          Ready-same {m = w.mem} o.ready
            (replace w.mem.slots w.mem.active_bridges f.channel b full o.ready.inv found refl
              (sym on))
            refl refl;
      held = landed fs (Takes-rest (Holds w.mem.active_bridges) f t o.held) others;
      apart = rest;
    }
  where
    landed :
        (gs : List Flight)
        → All (Holds w.mem.active_bridges) gs
        → All (λ g. g.channel ≢ f.channel) gs
        → All (Holds (land_on sub_ok f w.mem).active_bridges) gs
    landed [] h ne = tt
    landed (g ∷ gs) h ne = (
      OnSlot-same g.channel g.index _ _
          (lookup-insert_ne f.channel g.channel (full_bridge f.channel f.index f.room f.info sub_ok)
            w.mem.active_bridges (λ e. ne.0 (sym e)))
          h.0,
      landed gs h.1 ne.1,
    )
