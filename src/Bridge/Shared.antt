-- ===== src/Bridge/Shared.antt =====
-- pkg/bridge/manager.go: what a join does to the bridge of a channel that others still use.
use matrix_discord_voice_bri.Base.{
  ℕ, ◌≡◌, ◌≢◌, refl, sym, ◌∙◌, Bool, true, false, Option, none, some, List, [], ◌∷◌, arith,
  if◌then◌else◌, nat_beq_iff, Bool-cases, inl, inr,
}
use matrix_discord_voice_bri.Base.Eq.{Bytes, nat_eq, bytes_eq, elem}
use matrix_discord_voice_bri.Base.Assoc.{lookup, insert, has, lookup-insert_ne, has-insert_ne}
use matrix_discord_voice_bri.Bridge.State.{Manager, room_of, info_of}
use matrix_discord_voice_bri.Bridge.Slots.{first_free}
use matrix_discord_voice_bri.Bridge.Start.{
  start_bridge, claim, claim_free, claim_slot, finish_start, publish, full_bridge, sentinel,
}
use matrix_discord_voice_bri.Bridge.Stop.{stop_bridge, stop_all}
use matrix_discord_voice_bri.Bridge.Call.{
  Users, JoinEnv, on_join, enter, track_user, users_of, leave_others,
}
use matrix_discord_voice_bri.Bridge.Moves.{in_map, leave_others-stay, lookup-cons}
use matrix_discord_voice_bri.Bridge.Joins.{others, stops, moved, joined_users, joined_name}
use matrix_discord_voice_bri.Bridge.Debounce.{stop_bridge-has}

-- The loop collects every other channel that the user is in.
leave_others-elem :
    (user : Bytes) (ch k : ℕ) (l : List (ℕ × Users))
    → k ≢ ch
    → has user (in_map k l) ≡ true
    → elem k (leave_others user ch l).1 ≡ true
unfolding leave_others elem has lookup
leave_others-elem user ch k [] ne h = cc
leave_others-elem user ch k ((o, us) ∷ l) ne h = ground (
  arith,
  leave_others-elem user ch k l ne,
  lookup-cons o k us l,
  nat_beq_iff o k,
  nat_beq_iff o ch,
)

pub stop_all-has :
    (cs : List ℕ) (k : ℕ) (m : Manager)
    → has k (stop_all cs m).0.active_bridges ≡ (if elem k cs then false else has k m.active_bridges)
unfolding stop_all elem
stop_all-has [] k m = refl
stop_all-has (c ∷ cs) k m =
    ground (arith, stop_all-has cs k (stop_bridge c m).0, stop_bridge-has c k m)

claim_slot-has :
    (ch i k : ℕ) (sub_ok : Bool) (m : Manager)
    → ch ≢ k
    → has k (finish_start ch sub_ok (claim_slot ch i m)).0.active_bridges ≡ has k m.active_bridges
unfolding claim_slot finish_start publish
claim_slot-has ch i k sub_ok m ne = ground (
  arith,
  has-insert_ne ch k (sentinel ch i) m.active_bridges ne,
  has-insert_ne ch k (full_bridge ch i (room_of ch m) (info_of ch m) sub_ok)
      (insert ch (sentinel ch i) m.active_bridges) ne,
)

claim_free-has :
    (o : Option ℕ) (ch k : ℕ) (sub_ok : Bool) (m : Manager)
    → ch ≢ k
    → has k (finish_start ch sub_ok (claim_free ch o m)).0.active_bridges ≡ has k m.active_bridges
unfolding claim_free finish_start
claim_free-has none ch k sub_ok m ne = refl
claim_free-has (some i) ch k sub_ok m ne = claim_slot-has ch i k sub_ok m ne

-- A start touches the bridge of no other channel.
start_bridge-has_ne :
    (sub_ok : Bool) (ch k : ℕ) (m : Manager)
    → ch ≢ k
    → has k (start_bridge sub_ok ch m).0.active_bridges ≡ has k m.active_bridges
unfolding start_bridge claim finish_start
start_bridge-has_ne sub_ok ch k m ne = elim (Bool-cases (has ch m.active_bridges)) [
  | inl e ↦ rw e
  | inr e ↦ rw (e, claim_free-has (first_free m.slots) ch k sub_ok m ne)
]

enter-has_ne :
    (env : JoinEnv) (user : Bytes) (ch k : ℕ) (m : Manager)
    → ch ≢ k
    → has k (enter env user ch m).0.active_bridges ≡ has k m.active_bridges
unfolding enter track_user
enter-has_ne env user ch k m ne =
    let name = joined_name env user m in
    elim (Bool-cases (has user (users_of ch m))) [
      | inl e ↦ rw e
      | inr e ↦ rw (e, start_bridge-has_ne env.sub_ok ch k (track_user user name ch m) ne)
    ]

-- When a user who is tracked in another channel joins, the other channel has no bridge afterwards,
-- although any other user who is tracked there stays tracked there.
pub join_stops_shared_bridge :
    (env : JoinEnv) (user w : Bytes) (ch other : ℕ) (m : Manager)
    → other ≢ ch
    → user ≢ w
    → has user (users_of other m) ≡ true
    → has w (users_of other m) ≡ true
    → let n = (on_join env user ch m).0 in
      (has other n.active_bridges ≡ false) × (has w (users_of other n) ≡ true)
unfolding users_of on_join enter
join_stops_shared_bridge env user w ch other m ne nw hu hw =
    let gone : has other (moved env user ch m).active_bridges ≡ false = rw (
      stop_all-has (stops env user ch m) other _,
      leave_others-elem user ch other m.matrix_users ne hu,
    ) in
    let there : has w (in_map other (others env user ch m)) ≡ true =
      leave_others-stay user w ch other m.matrix_users nw hw in
    (
      enter-has_ne env user ch other (moved env user ch m) (λ e. ne (sym e)) ∙ gone,
      ground (
        arith,
        there,
        joined_users env user ch m,
        lookup-insert_ne ch other
            (insert user (joined_name env user (moved env user ch m))
              (in_map ch (others env user ch m)))
            (others env user ch m),
        ne,
      ),
    )
