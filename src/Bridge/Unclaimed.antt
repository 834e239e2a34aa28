-- ===== src/Bridge/Unclaimed.antt =====
-- pkg/bridge/manager.go: dead slots in any interleaving of calls with the sections of `startBridge`,
-- whatever is stopped meanwhile.
use matrix_discord_voice_bri.Base.{
  ℕ, ◌+◌, ◌≤◌, if◌then◌else◌, Bool, ◌≡◌, some, List, [], ◌∷◌, arith, Bool-cases, Option-cases, inl,
  inr,
}
use matrix_discord_voice_bri.Base.Eq.{Bytes, ◌==◌, nat_eq, bytes_eq}
use matrix_discord_voice_bri.Base.Assoc.{has}
use matrix_discord_voice_bri.Bridge.State.{free, dead, room_of}
use matrix_discord_voice_bri.Bridge.Slots.{
  first_free, slot_channel, first_free-channel, set_channel-set, set_channel_same,
}
use matrix_discord_voice_bri.Bridge.Start.{claim, claim_free, claim_slot, publish}
use matrix_discord_voice_bri.Bridge.Call.{track_user, leave_others}
use matrix_discord_voice_bri.Bridge.Admin.{add_slot}
use matrix_discord_voice_bri.Bridge.Grow.{slot_channel-append}
use matrix_discord_voice_bri.Bridge.Death.{IsDead, stop_all-IsDead, set_live}
use matrix_discord_voice_bri.Bridge.DeadForever.{step-IsDead}
use matrix_discord_voice_bri.Bridge.InFlight.{
  Flight, Traffic, take_off, Takes, here, there, anything, Turn, call, arrive, begin, append,
  finish, Reached, start, later,
}

-- The flights that are bound for a slot.
abbrev pub bound_for : ℕ → List Flight → ℕ
bound_for i [] = 0
bound_for i (f ∷ fs) = (if f.index == i then 1 else 0) + bound_for i fs

-- A slot is dead, and no more than some number of starts are bound for it.
pub record Grounded (i n : ℕ) (w : Traffic) : Type 0 where
  pub still_dead : IsDead i w.mem
  pub few : bound_for i w.flights ≤ n

begin-Grounded :
    (i n ch : ℕ) (w : Traffic)
    → Grounded i n w
    → Grounded i n (take_off ch w.flights (claim ch w.mem))
unfolding claim
begin-Grounded i n ch w g = elim (Bool-cases (has ch w.mem.active_bridges)) [
  | inl old ↦ rw old (unfold take_off in g)
  | inr new ↦ rw new (elim (Option-cases (first_free w.mem.slots)) [
    | inl full ↦ rw full (unfold claim_free take_off in g)
    | inr (j, found) ↦
        rw found (unfold claim_free in claimed j (first_free-channel w.mem.slots j found))
  ])
]
  where
    claimed :
        (j : ℕ)
        → slot_channel j w.mem.slots ≡ some free
        → Grounded i n (take_off ch w.flights (claim_slot ch j w.mem))
    claimed j idle =
        unfold claim_slot in
        elim (Bool-cases (room_of ch w.mem == [])) [
          | inl roomless ↦
              rw
                (
                  roomless,
                  set_channel-set j free ch w.mem.slots,
                  set_channel_same j w.mem.slots idle,
                )
                (unfold take_off in g)
          | inr room ↦ rw room (
              unfold take_off in
              record {
                still_dead = set_live i j ch free w.mem.slots g.still_dead idle (omega arith);
                few = ground (arith, g.few, g.still_dead, idle);
              })
        ]

Takes-bound_for :
    (i : ℕ) (f : Flight) {fs gs : List Flight} → Takes f fs gs → bound_for i gs ≤ bound_for i fs
Takes-bound_for i f {fs} {gs} here = omega arith
Takes-bound_for i f (there t) = omega (arith, Takes-bound_for i f t)

module _ (equal_fold : Bytes → Bytes → Bool) (i n : ℕ) where
  Turn-Grounded :
      {w w' : Traffic} → Grounded i n w → Turn equal_fold anything w w' → Grounded i n w'
  Turn-Grounded {w} g (call op sane any e) = record {
    still_dead = step-IsDead equal_fold i op w.mem g.still_dead e;
    few = g.few;
  }
  Turn-Grounded {w} g (arrive env user ch any) = record {
    still_dead =
        unfold track_user in
        stop_all-IsDead i (leave_others user ch w.mem.matrix_users).1 _ g.still_dead;
    few = g.few;
  }
  Turn-Grounded {w} g (begin ch real) = begin-Grounded i n ch w g
  Turn-Grounded {w} g (append j token row) = record {
    still_dead = unfold add_slot in slot_channel-append i w.mem.slots _ g.still_dead;
    few = g.few;
  }
  Turn-Grounded {w} g (finish sub_ok f t) = record {
    still_dead = unfold publish in g.still_dead;
    few = omega (arith, Takes-bound_for i f t, g.few);
  }

  Reached-Grounded :
      {w w' : Traffic} → Grounded i n w → Reached equal_fold anything w w' → Grounded i n w'
  Reached-Grounded g start = g
  Reached-Grounded g (later past s) = Turn-Grounded (Reached-Grounded g past) s

-- A dead slot stays dead in any interleaving of calls with the two sections of `startBridge`, whatever
-- the messages and the starts name and even where channels are stopped while their start is in
-- flight; and no start claims it: at most those
-- starts are bound for it that were so at first.
pub interleaved-IsDead :
    (equal_fold : Bytes → Bytes → Bool) (i : ℕ) (w w' : Traffic)
    → IsDead i w.mem
    → Reached equal_fold anything w w'
    → IsDead i w'.mem × (bound_for i w'.flights ≤ bound_for i w.flights)
interleaved-IsDead equal_fold i w w' dead past =
    let g =
      Reached-Grounded equal_fold i (bound_for i w.flights)
        (record { still_dead = dead; few = omega arith }) past in
    (g.still_dead, g.few)
