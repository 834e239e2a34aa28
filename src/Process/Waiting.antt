-- ===== src/Process/Waiting.antt =====
-- cmd/bridge/main.go: the wait for the readers at the end of `run`.
use matrix_discord_voice_bri.Base.{
  ℕ, zero, suc, ◌≡◌, refl, ◌∙◌, Bool, true, false, not, any, ◌&&◌, ◌||◌, List, [], ◌∷◌, All,
  All-map, arith, if◌then◌else◌, on_branches, Option, none, some,
}
use matrix_discord_voice_bri.Base.Eq.{nat_eq, elem}
use matrix_discord_voice_bri.Base.Assoc.{lookup, is_some}
use matrix_discord_voice_bri.Bridge.State.{Manager, ChannelBridge, Slot, dead}
use matrix_discord_voice_bri.Bridge.Slots.{slot_channel, set_channel, release_slot}
use matrix_discord_voice_bri.Bridge.Stop.{
  stop_bridge, release, release_bridge, slot_death, mark_dead, bridge_on, channel_or_zero,
}
use matrix_discord_voice_bri.Bridge.Death.{IsDead, slot_death-IsDead}
use matrix_discord_voice_bri.Bridge.Invariant.{Inv}
use matrix_discord_voice_bri.Process.Survival.{HasSlot}
use matrix_discord_voice_bri.Process.Survival as Survival
use matrix_discord_voice_bri.Process.Reader.{read_failed}
use matrix_discord_voice_bri.Process.Shutdown.{Watcher, watcher_ends, reads_on, wait_readers}

set_channel-slot :
    (i j c : ℕ) (ss : List Slot)
    → is_some (slot_channel i (set_channel j c ss)) ≡ is_some (slot_channel i ss)
unfolding slot_channel set_channel
set_channel-slot i j c [] = refl
set_channel-slot zero zero c (s ∷ ss) = refl
set_channel-slot zero (suc j) c (s ∷ ss) = refl
set_channel-slot (suc i) zero c (s ∷ ss) = refl
set_channel-slot (suc i) (suc j) c (s ∷ ss) = set_channel-slot i j c ss

release_slot-slot :
    (i j : ℕ) (ss : List Slot)
    → is_some (slot_channel i (release_slot j ss)) ≡ is_some (slot_channel i ss)
unfolding slot_channel release_slot
release_slot-slot i j [] = refl
release_slot-slot zero zero (s ∷ ss) = refl
release_slot-slot zero (suc j) (s ∷ ss) = refl
release_slot-slot (suc i) zero (s ∷ ss) = refl
release_slot-slot (suc i) (suc j) (s ∷ ss) = release_slot-slot i j ss

pub stop_bridge-slot :
    (i ch : ℕ) (m : Manager)
    → is_some (slot_channel i (stop_bridge ch m).0.slots) ≡ is_some (slot_channel i m.slots)
unfolding stop_bridge release
stop_bridge-slot i ch m = released (lookup ch m.active_bridges)
  where
    released :
        (o : Option ChannelBridge)
        → is_some (slot_channel i (release_bridge o ch m).slots) ≡ is_some (slot_channel i m.slots)
    released none = unfold release_bridge in refl
    released (some b) = unfold release_bridge in release_slot-slot i b.slot_index m.slots

-- A death leaves every slot in the list.
slot_death-slot :
    (i j : ℕ) (m : Manager)
    → is_some (slot_channel i (slot_death j m).0.slots) ≡ is_some (slot_channel i m.slots)
unfolding slot_death mark_dead
slot_death-slot i j m =
    let ch = channel_or_zero (bridge_on j m) in
    ground (arith, set_channel-slot i j dead m.slots, stop_bridge-slot i ch (mark_dead j ch m))

-- What the manager's other calls may do before a loop ends: they keep slots and bridges in order, leave
-- dead slots dead, and drop no slot.
pub record Gentle (w : Watcher) : Type 0 where
  pub keeps_order : (m : Manager) → Inv m → Inv (w.before m)
  pub keeps_dead : (i : ℕ) (m : Manager) → IsDead i m → IsDead i (w.before m)
  pub keeps_slot : (i : ℕ) (m : Manager) → HasSlot i m → HasSlot i (w.before m)

watcher_cancelled : (w : Watcher) (m : Manager) → watcher_ends true w m ≡ m
unfolding watcher_ends read_failed
watcher_cancelled w m = on_branches (λ n. n ≡ m) w.quits (λ e. refl) (λ e. refl)

watcher_dies :
    (w : Watcher) (m : Manager) → w.quits ≡ false → watcher_ends false w m ≡ (slot_death w.slot m).0
unfolding watcher_ends read_failed
watcher_dies w m stays = rw stays refl

-- The end of a loop keeps what a death keeps.
watcher_keeps :
    (P : Manager → Type 0) (done : Bool) (w : Watcher) (m : Manager)
    → ((i : ℕ) (n : Manager) → P n → P (slot_death i n).0)
    → P m
    → P (watcher_ends done w m)
unfolding watcher_ends read_failed
watcher_keeps P true w m keeps p = on_branches P w.quits (λ e. p) (λ e. p)
watcher_keeps P false w m keeps p = on_branches P w.quits (λ e. p) (λ e. keeps w.slot m p)

module _ (closed : List ℕ) (stays_open : ℕ → Bool) (done : Bool) where
  -- What one loop leaves of the manager.
  abbrev round : Watcher → Manager → Manager
  round w m = if reads_on closed stays_open w then w.before m else watcher_ends done w (w.before m)

  round_keeps :
      (P : Manager → Type 0) (w : Watcher) (m : Manager)
      → ((i : ℕ) (n : Manager) → P n → P (slot_death i n).0)
      → P (w.before m)
      → P (round w m)
  round_keeps P w m keeps p =
      on_branches P (reads_on closed stays_open w) (λ e. p)
        (λ e. watcher_keeps P done w (w.before m) keeps p)

  -- What every death and every call before it keeps outlasts the wait.
  pub wait_keeps :
      (P : Manager → Type 0)
      → ((i : ℕ) (n : Manager) → P n → P (slot_death i n).0)
      → (ws : List Watcher) → All (λ w. (n : Manager) → P n → P (w.before n)) ws
      → (m : Manager) → P m
      → P (wait_readers closed stays_open done ws m).0
  unfolding wait_readers
  wait_keeps P keeps [] calm m p = p
  wait_keeps P keeps (w ∷ ws) calm m p =
      wait_keeps P keeps ws calm.1 (round w m) (round_keeps P w m keeps (calm.0 m p))

  pub wait_over :
      (ws : List Watcher) (m : Manager)
      → (wait_readers closed stays_open done ws m).1
        ≡ not (any (λ w. w.busy || (not (w.quits || elem w.slot closed) && stays_open w.slot)) ws)
  unfolding wait_readers reads_on
  wait_over [] m = refl
  wait_over (w ∷ ws) m = ground (arith, wait_over ws (round w m))

-- Without the context done, the slots whose connections are closed are dead after the wait, but for
-- those whose loops read a SHUTDOWN or are still handling a message.
pub wait_kills :
    (closed : List ℕ) (stays_open : ℕ → Bool) (ws : List Watcher) (m : Manager)
    → All Gentle ws
    → All
        (λ w.
          elem w.slot closed ≡ true
          → w.quits ≡ false
          → w.busy ≡ false
          → HasSlot w.slot m
          → IsDead w.slot (wait_readers closed stays_open false ws m).0)
        ws
unfolding wait_readers
wait_kills closed stays_open [] m calm = tt
wait_kills closed stays_open (w ∷ ws) m calm = (
  λ shut stays idle there.
      wait_keeps closed stays_open false (λ n. IsDead w.slot n)
        (λ i n. slot_death-IsDead w.slot i n) ws
        (All-map (λ x g n. g.keeps_dead w.slot n) ws calm.1) _
        (rw (ends shut stays idle, watcher_dies w (w.before m) stays)
          (Survival.slot_death-IsDead w.slot (w.before m) (calm.0.keeps_slot w.slot m there))),
  All-map (λ x kill shut stays idle there. kill shut stays idle (still x there)) ws
      (wait_kills closed stays_open ws _ calm.1),
)
  where
    ends :
        elem w.slot closed ≡ true
        → w.quits ≡ false
        → w.busy ≡ false
        → reads_on closed stays_open w ≡ false
    ends shut stays idle = unfold reads_on in rw (idle, stays, shut) refl

    still : (x : Watcher) → HasSlot x.slot m → HasSlot x.slot (round closed stays_open false w m)
    still x there =
        round_keeps closed stays_open false (HasSlot x.slot) w m
          (λ i n h. slot_death-slot x.slot i n ∙ h) (calm.0.keeps_slot x.slot m there)
