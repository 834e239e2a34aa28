-- ===== src/Bridge/Closing.antt =====
-- `Close` of pkg/bridge/manager.go: what it leaves and what it gives back.
use mathlib.Core.List.{Mem, mem-cons_self, mem-append_left, mem-append_right}
use matrix_discord_voice_bri.Base.{
  ℕ, ◌≡◌, refl, sym, ◌∙◌, true, false, some, List, [], ◌∷◌, arith, Bool-cases, inl, inr, subst,
  nat_beq_iff,
}
use matrix_discord_voice_bri.Base.Eq.{◌==◌, nat_eq, elem}
use matrix_discord_voice_bri.Base.Assoc.{lookup, has, keys}
use matrix_discord_voice_bri.Bridge.State.{
  Manager, ChannelBridge, Effect, close_livekit, close_subscriber, leave_all,
}
use matrix_discord_voice_bri.Bridge.Slots.{busy_slots}
use matrix_discord_voice_bri.Bridge.Stop.{
  stop_bridge, stop_effects, release, release_bridge, stop_all, close,
}
use matrix_discord_voice_bri.Bridge.Invariant.{Inv}
use matrix_discord_voice_bri.Bridge.Keeps.{close-keeps}
use matrix_discord_voice_bri.Bridge.Shared.{stop_all-has}
use matrix_discord_voice_bri.Bridge.Bystander.{stop_bridge-lookup}

elem-keys : {V : Type 0} (k : ℕ) (m : List (ℕ × V)) → elem k (keys m) ≡ has k m
unfolding elem has lookup
elem-keys k [] = refl
elem-keys k ((j, v) ∷ m) = ground (arith, elem-keys k m)

-- A map without keys is empty.
no_keys : {V : Type 0} (m : List (ℕ × V)) → ((k : ℕ) → has k m ≡ false) → m ≡ []
unfolding has lookup
no_keys [] h = refl
no_keys ((j, v) ∷ m) h = absurd (ground (arith, h j, nat_beq_iff j j))

stop_all-timers : (cs : List ℕ) (m : Manager) → (stop_all cs m).0.stop_timers ≡ m.stop_timers
unfolding stop_all stop_bridge release release_bridge
stop_all-timers [] m = refl
stop_all-timers (c ∷ cs) m = stop_all-timers cs (stop_bridge c m).0 ∙ ground arith

close-active : (m : Manager) → (close m).0.active_bridges ≡ []
unfolding close
close-active m = no_keys _ (λ k.
    stop_all-has (keys m.active_bridges) k _ ∙ rw (elem-keys k m.active_bridges) (ground arith))

-- Stopping a channel gives back the ends of its bridge that are open.
module _ (b : ChannelBridge) (m : Manager) (ch : ℕ)
    (found : lookup ch m.active_bridges ≡ some b) where
  stop_bridge-livekit : b.lk_manager ≡ true → Mem (close_livekit b.channel_id) (stop_bridge ch m).1
  unfolding stop_bridge stop_effects
  stop_bridge-livekit lk = rw (found, lk) (mem-append_right _ (mem-append_right _ mem-cons_self))

  stop_bridge-subscriber :
      b.subscriber ≡ true → Mem (close_subscriber b.channel_id) (stop_bridge ch m).1
  unfolding stop_bridge stop_effects
  stop_bridge-subscriber sub =
      rw (found, sub) (mem-append_right _ (mem-cons_self {a = close_subscriber b.channel_id}))

-- What stopping each channel asks for is among what stopping a list of channels asks for.
stop_all-Mem :
    (e : Effect) (k : ℕ) (b : ChannelBridge)
    → ((m : Manager) → lookup k m.active_bridges ≡ some b → Mem e (stop_bridge k m).1)
    → (cs : List ℕ) (m : Manager) → elem k cs ≡ true
    → lookup k m.active_bridges ≡ some b
    → Mem e (stop_all cs m).1
unfolding stop_all elem
stop_all-Mem e k b asks [] m there found = absurd (ground arith)
stop_all-Mem e k b asks (c ∷ cs) m there found = elim (Bool-cases (c == k)) [
  | inl this ↦
      mem-append_left _
        (subst (λ j. Mem e (stop_bridge j m).1) (sym ((nat_beq_iff c k).0 this)) (asks m found))
  | inr other ↦ mem-append_right (stop_bridge c m).1 (
      stop_all-Mem e k b asks cs (stop_bridge c m).0 (ground (arith, there, other))
        (stop_bridge-lookup c k m other ∙ found))
]

close-Mem :
    (e : Effect) (k : ℕ) (b : ChannelBridge) (m : Manager)
    → ((n : Manager) → lookup k n.active_bridges ≡ some b → Mem e (stop_bridge k n).1)
    → lookup k m.active_bridges ≡ some b
    → Mem e (close m).1
unfolding close
close-Mem e k b m asks found = mem-append_left _ (
    stop_all-Mem e k b asks (keys m.active_bridges) _
      (elem-keys k m.active_bridges ∙ unfold has in rw found refl) found)

-- What is left after `Close`.
pub record Closed (m : Manager) : Type 0 where
  pub no_bridges : m.active_bridges ≡ []
  pub no_timers : m.stop_timers ≡ []
  pub none_busy : busy_slots m.slots ≡ 0

pub close-Closed : (m : Manager) → Inv m → Closed (close m).0
close-Closed m v = record {
  no_bridges = close-active m;
  no_timers = unfold close in stop_all-timers (keys m.active_bridges) _;
  none_busy = (close-keeps m v).counted ∙ rw (close-active m) refl;
}

-- Where slots and bridges are in order, `Close` leaves no bridge, no timer and no busy slot; it
-- closes the LiveKit manager and the subscriber of every bridge that had one, and leaves all calls
-- if there is a signaller.
pub close_releases :
    (m : Manager)
    → Inv m
    → Closed (close m).0
      × ((ch : ℕ) (b : ChannelBridge)
          → lookup ch m.active_bridges ≡ some b
          → (b.lk_manager ≡ true → Mem (close_livekit b.channel_id) (close m).1)
            × (b.subscriber ≡ true → Mem (close_subscriber b.channel_id) (close m).1))
      × (m.signaller ≡ true → Mem leave_all (close m).1)
close_releases m v = (
  close-Closed m v,
  λ ch b found. (
    λ lk. close-Mem _ ch b m (λ n e. stop_bridge-livekit b n ch e lk) found,
    λ sub. close-Mem _ ch b m (λ n e. stop_bridge-subscriber b n ch e sub) found,
  ),
  λ on. left_all on,
)
  where
    left_all : m.signaller ≡ true → Mem leave_all (close m).1
    left_all on =
        unfold close in
        mem-append_right (stop_all (keys m.active_bridges) (record m { stop_timers = [] })).1
          (rw on mem-cons_self)
