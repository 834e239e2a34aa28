-- ===== src/Bridge/Pool.antt =====
-- pkg/bridge/manager.go: the slots as a pool, which gives a channel a slot, takes it back, loses slots
-- and gets new ones; and the parts of the manager's operations that move the pool.
use matrix_discord_voice_bri.Base.{
  ℕ, zero, suc, ◌≡◌, ◌≢◌, refl, sym, ap, ◌∙◌, subst, Bool, false, some, List, [], ◌∷◌, ◌++◌, arith,
  map, set, get_elem?, Bool-cases, Option-cases, inl, inr,
}
use matrix_discord_voice_bri.Base.Eq.{◌==◌, nat_eq, bytes_eq}
use matrix_discord_voice_bri.Base.Assoc.{lookup, has}
use matrix_discord_voice_bri.Bridge.State.{Manager, Slot, IsChannel, free, dead, room_of}
use matrix_discord_voice_bri.Bridge.Slots.{
  slot_channel, set_channel, first_free, first_free-channel, release_slot-live, set_channel_same,
  set_channel-set,
}
use matrix_discord_voice_bri.Bridge.Start.{
  claim, claim_free, claim_slot, finish_start, publish, start_bridge,
}
use matrix_discord_voice_bri.Bridge.Stop.{release, release_bridge, stop_bridge}
use matrix_discord_voice_bri.Bridge.Invariant.{Inv}

-- What the pool promises: a channel is put on a free slot only when no slot serves it, a slot that
-- serves a channel may be freed, any slot may die, and a new slot is free. Nothing else happens; above
-- all a dead slot is never used again.
pub data Move : List ℕ → List ℕ → Type 0 where
  assign :
      (pool : List ℕ) (i ch : ℕ)
      → IsChannel ch
      → get_elem? pool i ≡ some free
      → ((j : ℕ) → get_elem? pool j ≢ some ch)
      → Move pool (set pool i ch)
  give_back :
      (pool : List ℕ) (i ch : ℕ)
      → IsChannel ch
      → get_elem? pool i ≡ some ch
      → Move pool (set pool i free)
  die : (pool : List ℕ) (i : ℕ) → Move pool (set pool i dead)
  add_free : (pool : List ℕ) → Move pool (pool ++ free ∷ [])

pub data Moves : List ℕ → List ℕ → Type 0 where
  stay : (pool : List ℕ) → Moves pool pool
  move : {pool next last : List ℕ} → Move pool next → Moves next last → Moves pool last

-- The pool of a manager.
unfoldable pub channels : List Slot → List ℕ
channels ss = map (λ s. s.channel_id) ss

pub Moves-trans : {a b c : List ℕ} → Moves a b → Moves b c → Moves a c
Moves-trans (stay pool) n = n
Moves-trans (move s m) n = move s (Moves-trans m n)

pub get_elem?-channels : (ss : List Slot) (i : ℕ) → get_elem? (channels ss) i ≡ slot_channel i ss
unfolding channels slot_channel
get_elem?-channels [] i = refl
get_elem?-channels (s ∷ ss) zero = refl
get_elem?-channels (s ∷ ss) (suc i) = get_elem?-channels ss i

pub channels-set_channel :
    (i c : ℕ) (ss : List Slot) → channels (set_channel i c ss) ≡ set (channels ss) i c
unfolding channels set_channel
channels-set_channel i c [] = refl
channels-set_channel zero c (s ∷ ss) = refl
channels-set_channel (suc i) c (s ∷ ss) = ap (◌∷◌ s.channel_id) (channels-set_channel i c ss)

pub channels-append : (ss ts : List Slot) → channels (ss ++ ts) ≡ channels ss ++ channels ts
unfolding channels
channels-append [] ts = refl
channels-append (s ∷ ss) ts = ap (◌∷◌ s.channel_id) (channels-append ss ts)

pub one : {a b c : List ℕ} → Move a b → c ≡ b → Moves a c
one {a} m e = subst (Moves a) (sym e) (move m (stay _))

-- The pool did what it may.
abbrev pub Follows : Manager → Manager → Type 0
Follows m n = Moves (channels m.slots) (channels n.slots)

pub Follows-same : (m n : Manager) → n.slots ≡ m.slots → Follows m n
Follows-same m n e = subst (λ ss. Moves (channels m.slots) (channels ss)) (sym e) (stay _)

unserved :
    (ch : ℕ) (m : Manager)
    → Inv m
    → IsChannel ch
    → has ch m.active_bridges ≡ false
    → (j : ℕ) → get_elem? (channels m.slots) j ≢ some ch
unfolding has
unserved ch m v real new j at =
    let (b, found, on) = v.served j ch (sym (get_elem?-channels m.slots j) ∙ at) real in
    ground (arith, found, new)

claim_slot-Follows :
    (sub_ok : Bool) (ch i : ℕ) (m : Manager)
    → Inv m
    → IsChannel ch
    → has ch m.active_bridges ≡ false
    → slot_channel i m.slots ≡ some free
    → Follows m (finish_start ch sub_ok (claim_slot ch i m)).0
unfolding claim_slot finish_start publish
claim_slot-Follows sub_ok ch i m v real new idle = elim (Bool-cases (room_of ch m == [])) [
  | inl roomless ↦
      rw (roomless, set_channel-set i free ch m.slots, set_channel_same i m.slots idle)
        (stay (channels m.slots))
  | inr room ↦ rw room (
      one
        (assign (channels m.slots) i ch real (get_elem?-channels m.slots i ∙ idle)
          (unserved ch m v real new))
        (channels-set_channel i ch m.slots))
]

pub start_bridge-Follows :
    (sub_ok : Bool) (ch : ℕ) (m : Manager)
    → Inv m
    → IsChannel ch
    → Follows m (start_bridge sub_ok ch m).0
unfolding start_bridge claim
start_bridge-Follows sub_ok ch m v real = elim (Bool-cases (has ch m.active_bridges)) [
  | inl old ↦ rw old (unfold finish_start in stay (channels m.slots))
  | inr new ↦ rw new (elim (Option-cases (first_free m.slots)) [
    | inl full ↦ rw full (unfold finish_start claim_free in stay (channels m.slots))
    | inr (i, found) ↦ rw found (
        unfold claim_free in
        claim_slot-Follows sub_ok ch i m v real new (first_free-channel m.slots i found))
  ])
]

pub stop_bridge-Follows : (ch : ℕ) (m : Manager) → Inv m → Follows m (stop_bridge ch m).0
unfolding stop_bridge release release_bridge
stop_bridge-Follows ch m v = elim (Option-cases (lookup ch m.active_bridges)) [
  | inl none_there ↦ rw none_there (stay (channels m.slots))
  | inr (b, found) ↦
      let o = v.owned ch b found in
      rw (found, release_slot-live b.slot_index ch m.slots o.on_slot o.real.1)
        (one
          (give_back (channels m.slots) b.slot_index ch o.real
            (get_elem?-channels m.slots b.slot_index ∙ o.on_slot))
          (channels-set_channel b.slot_index free m.slots))
]
